-- ===== src/Handler/Present.antt =====
-- Counting the numbers for which a map of src/transport/handler.rs has a packet. A map with as many
-- entries as the message has packets has a packet for every number.
use udp2p.Base.{
  ℕ, zero, suc, ◌+◌, ◌≤◌, ◌<◌, ◌≡◌, refl, [], Option, some, none, Option-cases, inl, inr,
  ℕ_discrete, arith,
}
use udp2p.Base.Dict.{Dict, get, insert, get-insert}
use udp2p.Protocol.{Packet}

-- 1 for an entry that is there.
abbrev pub one_if_some : Option Packet → ℕ
one_if_some none = 0
one_if_some (some p) = 1

-- How many of the numbers 1 to `total` the map has.
unfoldable pub present : Dict ℕ Packet → ℕ → ℕ
present m zero = 0
present m (suc total) = one_if_some (get ℕ_discrete (suc total) m) + present m total

pub present-nil : (total : ℕ) → present [] total ≡ 0
unfolding present get
present-nil zero = refl
present-nil (suc total) = omega (arith, present-nil total)

pub present-le : (m : Dict ℕ Packet) (total : ℕ) → present m total ≤ total
unfolding present
present-le m zero = omega arith
present-le m (suc total) = ground (arith, present-le m total)

pub present_full :
    (m : Dict ℕ Packet) (total n : ℕ)
    → present m total ≡ total
    → 1 ≤ n
    → n ≤ total
    → (p : Packet) × (get ℕ_discrete n m ≡ some p)
unfolding present
present_full m zero n e lo hi = absurd (omega arith)
present_full m (suc total) n e lo hi = elim (ℕ_discrete n (suc total)) [
  | yes top ↦ elim (Option-cases (get ℕ_discrete (suc total) m)) [
    | inl miss ↦ absurd (ground (arith, present-le m total))
    | inr (p, hit) ↦ (p, rw top hit)
  ]
  | no below ↦ present_full m total n (ground (arith, present-le m total)) lo (omega arith)
]

-- Above the range a new entry counts for nothing.
present-insert_above :
    (n : ℕ) (p : Packet) (m : Dict ℕ Packet) (total : ℕ)
    → total < n
    → present (insert ℕ_discrete n p m) total ≡ present m total
unfolding present
present-insert_above n p m zero h = refl
present-insert_above n p m (suc total) h =
    ground (arith, get-insert ℕ_discrete (suc total) n p m, present-insert_above n p m total)

pub present-insert :
    (n : ℕ) (p : Packet) (m : Dict ℕ Packet) (total : ℕ)
    → get ℕ_discrete n m ≡ none
    → 1 ≤ n
    → n ≤ total
    → present (insert ℕ_discrete n p m) total ≡ suc (present m total)
unfolding present
present-insert n p m zero e lo hi = absurd (omega arith)
present-insert n p m (suc total) e lo hi = ground (
  arith,
  get-insert ℕ_discrete (suc total) n p m,
  present-insert n p m total,
  present-insert_above n p m total,
)
