-- ===== src/Base/Table.antt =====
-- A statement about every byte, by evaluation at each.
use Prim.Native.Nat.{ℕ, zero, suc, ◌<◌}
use mathlib.Core.Path.{◌≡◌}
use mathlib.Core.Bool.{Bool, true, ◌&&◌}
use native.Mathlib.Omega.{arith}

-- The test holds at all rows below the bound.
unfoldable pub all_below : ℕ → (ℕ → Bool) → Bool
all_below zero test = true
all_below (suc bound) test = test bound && all_below bound test

pub all_below_sound :
    (bound : ℕ) (test : ℕ → Bool) (row : ℕ)
    → all_below bound test ≡ true
    → row < bound
    → test row ≡ true
unfolding all_below
all_below_sound zero test row held below = absurd (omega arith)
all_below_sound (suc bound) test row held below = ground (arith, all_below_sound bound test row)
