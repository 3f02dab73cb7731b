-- ===== src/Node/Key/Bits.antt =====
-- `^` on machine integers: the laws that the distance of src/node/peer_key.rs rests on.
use Prim.Native.Nat.{bit_xor, digits, differ, bit_xor-bitwise}
use native.Mathlib.Nat.{pow-suc}
use udp2p.Base.{ℕ, zero, suc, ◌+◌, ◌*◌, ◌/◌, ◌%◌, ◌^◌, ◌≤◌, ◌<◌, ◌≡◌, refl, sym, ap, ◌∙◌, arith}

abbrev xor_digits : ℕ → ℕ → ℕ → ℕ
xor_digits n a b = digits (λ b. b) differ n a b

-- More fuel than the number has digits changes nothing.
xor_digits_irrel : (n m a b : ℕ) → a ≤ n → a ≤ m → xor_digits n a b ≡ xor_digits m a b
xor_digits_irrel zero zero a b p q = refl
xor_digits_irrel zero (suc m) zero b p q = refl
xor_digits_irrel zero (suc m) (suc a) b p q = absurd (omega arith)
xor_digits_irrel (suc n) zero zero b p q = refl
xor_digits_irrel (suc n) zero (suc a) b p q = absurd (omega arith)
xor_digits_irrel (suc n) (suc m) zero b p q = refl
xor_digits_irrel (suc n) (suc m) (suc a) b p q =
    omega (arith, xor_digits_irrel n m (suc a / 2) (b / 2) (omega arith) (omega arith))

zero-bit_xor : (b : ℕ) → bit_xor 0 b ≡ b
zero-bit_xor b = bit_xor-bitwise 0 b

differ_digit : (x y : ℕ) → x < 2 → y < 2 → differ x y ≡ (x + y) % 2
differ_digit zero zero p q = refl
differ_digit zero (suc zero) p q = refl
differ_digit (suc zero) zero p q = refl
differ_digit (suc zero) (suc zero) p q = refl
differ_digit (suc (suc x)) y p q = absurd (omega arith)
differ_digit x (suc (suc y)) p q = absurd (omega arith)

-- The lowest digit apart.
bit_xor_step : (a b : ℕ) → bit_xor a b ≡ bit_xor (a / 2) (b / 2) * 2 + (a + b) % 2
bit_xor_step zero b = omega (arith, zero-bit_xor b, zero-bit_xor (b / 2))
bit_xor_step (suc a) b = omega (
  arith,
  bit_xor-bitwise (suc a) b,
  bit_xor-bitwise (suc a / 2) (b / 2),
  xor_digits_irrel a (suc a / 2) (suc a / 2) (b / 2) (omega arith) (omega arith),
  differ_digit (suc a % 2) (b % 2) (omega arith) (omega arith),
)

bit_xor-zero_to : (n a : ℕ) → a ≤ n → bit_xor a 0 ≡ a
bit_xor-zero_to n zero h = refl
bit_xor-zero_to zero (suc a) h = absurd (omega arith)
bit_xor-zero_to (suc n) (suc a) h =
    omega (arith, bit_xor_step (suc a) 0, bit_xor-zero_to n (suc a / 2) (omega arith))

bit_xor_self_to : (n a : ℕ) → a ≤ n → bit_xor a a ≡ 0
bit_xor_self_to n zero h = refl
bit_xor_self_to zero (suc a) h = absurd (omega arith)
bit_xor_self_to (suc n) (suc a) h =
    omega (arith, bit_xor_step (suc a) (suc a), bit_xor_self_to n (suc a / 2) (omega arith))

bit_xor_comm_to : (n a b : ℕ) → a ≤ n → bit_xor a b ≡ bit_xor b a
bit_xor_comm_to n zero b h = zero-bit_xor b ∙ sym (bit_xor-zero_to b b (omega arith))
bit_xor_comm_to zero (suc a) b h = absurd (omega arith)
bit_xor_comm_to (suc n) (suc a) b h = omega (
  arith,
  bit_xor_step (suc a) b,
  bit_xor_step b (suc a),
  bit_xor_comm_to n (suc a / 2) (b / 2) (omega arith),
)

bit_xor-half : (a b : ℕ) → bit_xor a b / 2 ≡ bit_xor (a / 2) (b / 2)
bit_xor-half a b = omega (arith, bit_xor_step a b)

bit_xor_cancel_to : (n a b : ℕ) → a ≤ n → bit_xor a (bit_xor a b) ≡ b
bit_xor_cancel_to n zero b h = zero-bit_xor (bit_xor 0 b) ∙ zero-bit_xor b
bit_xor_cancel_to zero (suc a) b h = absurd (omega arith)
bit_xor_cancel_to (suc n) (suc a) b h = omega (
  arith,
  bit_xor_step (suc a) (bit_xor (suc a) b),
  bit_xor_step (suc a) b,
  ap (bit_xor (suc a / 2)) (bit_xor-half (suc a) b),
  bit_xor_cancel_to n (suc a / 2) (b / 2) (omega arith),
)

pub bit_xor_self : (a : ℕ) → bit_xor a a ≡ 0
bit_xor_self a = bit_xor_self_to a a (omega arith)

pub bit_xor_comm : (a b : ℕ) → bit_xor a b ≡ bit_xor b a
bit_xor_comm a b = bit_xor_comm_to a a b (omega arith)

pub bit_xor_cancel : (a b : ℕ) → bit_xor a (bit_xor a b) ≡ b
bit_xor_cancel a b = bit_xor_cancel_to a a b (omega arith)

-- Numbers of k digits have an exclusive or of k digits.
pub bit_xor-lt : (k a b : ℕ) → a < 2 ^ k → b < 2 ^ k → bit_xor a b < 2 ^ k
bit_xor-lt zero zero zero p q = p
bit_xor-lt zero (suc a) b p q = absurd (omega arith)
bit_xor-lt zero a (suc b) p q = absurd (omega arith)
bit_xor-lt (suc k) a b p q = omega (
  arith,
  pow-suc 2 k,
  bit_xor_step a b,
  bit_xor-lt k (a / 2) (b / 2) (omega (arith, pow-suc 2 k)) (omega (arith, pow-suc 2 k)),
)
