-- ===== src/Node/Key/Order.antt =====
-- How the three readings of a distance in src/node/peer_key.rs agree: the derived order, by which
-- peers are sorted, and the number of leading zero bits.
use native.Mathlib.Nat.{pow-le-pow_right}
use udp2p.Base.{
  ℕ, ◌+◌, ◌-◌, ◌^◌, ◌≤◌, ◌<◌, ◌≡◌, refl, true, false, ◌||◌, sym, ◌∙◌, [], ◌∷◌, length, All, ltb,
  leb, Bool, ltb→lt, leb→le, ◌⊎◌, inl, inr, ◌≢◌, arith,
}
use udp2p.Base.Table.{all_below, all_below_sound}
use udp2p.Node.Key.{
  Key, IsByte, IsKey, byte_leading_zeros, leading_zeros_from, leading_zeros, key_le,
}

-- The order is total and antisymmetric, and transitive.
pub key_le_refl : (a : Key) → key_le a a ≡ true
unfolding key_le
key_le_refl [] = refl
key_le_refl (x ∷ a) = ground (arith, key_le_refl a)

pub key_le_total : (a b : Key) → key_le a b ≡ false → key_le b a ≡ true
unfolding key_le
key_le_total [] b h = ground arith
key_le_total (x ∷ a) [] h = refl
key_le_total (x ∷ a) (y ∷ b) h = ground (arith, key_le_total a b)

pub key_le_trans : (a b c : Key) → key_le a b ≡ true → key_le b c ≡ true → key_le a c ≡ true
unfolding key_le
key_le_trans [] b c p q = refl
key_le_trans (x ∷ a) [] c p q = ground arith
key_le_trans (x ∷ a) (y ∷ b) [] p q = ground arith
key_le_trans (x ∷ a) (y ∷ b) (z ∷ c) p q = ground (arith, key_le_trans a b c)

pub key_le_antisymm : (a b : Key) → key_le a b ≡ true → key_le b a ≡ true → a ≡ b
unfolding key_le
key_le_antisymm [] [] p q = refl
key_le_antisymm [] (y ∷ b) p q = ground arith
key_le_antisymm (x ∷ a) [] p q = ground arith
key_le_antisymm (x ∷ a) (y ∷ b) p q = ground (arith, key_le_antisymm a b)

or_cases : (a : Bool) {b : Bool} → (a || b) ≡ true → (a ≡ true) ⊎ (b ≡ true)
or_cases true h = inl refl
or_cases false h = inr h

-- A byte lies below 2 ^ (8 - zeros), and one that is not 0 reaches half of that.
upper_table : all_below 256 (λ b. ltb b (2 ^ (8 - byte_leading_zeros b))) ≡ true
unfolding all_below byte_leading_zeros
upper_table = refl

lower_table :
    all_below 256 (λ b. leb 8 (byte_leading_zeros b) || leb (2 ^ (7 - byte_leading_zeros b)) b)
    ≡ true
unfolding all_below byte_leading_zeros
lower_table = refl

zeros_upper : (x : ℕ) → IsByte x → x < 2 ^ (8 - byte_leading_zeros x)
zeros_upper x p = ltb→lt _ _ (all_below_sound 256 _ x upper_table p)

zeros_lower : (x : ℕ) → IsByte x → byte_leading_zeros x < 8 → 2 ^ (7 - byte_leading_zeros x) ≤ x
zeros_lower x p h =
    elim (or_cases (leb 8 (byte_leading_zeros x)) (all_below_sound 256 _ x lower_table p)) [
      | inl high ↦ absurd (omega (arith, leb→le _ _ high))
      | inr low ↦ leb→le _ _ low
    ]

zeros_le_table : all_below 256 (λ b. leb (byte_leading_zeros b) 8) ≡ true
unfolding all_below byte_leading_zeros
zeros_le_table = refl

byte_leading_zeros-le : (x : ℕ) → IsByte x → byte_leading_zeros x ≤ 8
byte_leading_zeros-le x p = leb→le _ _ (all_below_sound 256 _ x zeros_le_table p)

-- Of two bytes the one with more leading zeros is the smaller.
byte_zeros_lt :
    (x y : ℕ) → IsByte x → IsByte y → byte_leading_zeros y < byte_leading_zeros x → x < y
byte_zeros_lt x y p q h =
    let most = byte_leading_zeros-le x p in
    let mono =
      pow-le-pow_right {n = 2} (omega arith) {i = 8 - byte_leading_zeros x}
        {j = 7 - byte_leading_zeros y} (omega arith) in
    omega (arith, zeros_upper x p, zeros_lower y q (omega arith), mono)

leading_zeros_from-ge : (n : ℕ) (k : Key) → n ≤ leading_zeros_from n k
unfolding leading_zeros_from
leading_zeros_from-ge n [] = omega arith
leading_zeros_from-ge n (b ∷ k) = ground (arith, leading_zeros_from-ge (n + 8) k)

nonzero_table : all_below 256 (λ b. ltb b 1 || ltb (byte_leading_zeros b) 8) ≡ true
unfolding all_below byte_leading_zeros
nonzero_table = refl

byte_zeros_nonzero : (x : ℕ) → IsByte x → x ≢ 0 → byte_leading_zeros x < 8
byte_zeros_nonzero x p h = ground (arith, all_below_sound 256 _ x nonzero_table p)

zeros_from_lt :
    (n : ℕ) (a b : Key)
    → length a ≡ length b
    → All IsByte a
    → All IsByte b
    → leading_zeros_from n b < leading_zeros_from n a
    → (key_le a b ≡ true) × (key_le b a ≡ false)
unfolding key_le leading_zeros_from
zeros_from_lt n [] [] e p q h = absurd (omega arith)
zeros_from_lt n [] (y ∷ b) e p q h = absurd (omega arith)
zeros_from_lt n (x ∷ a) [] e p q h = absurd (omega arith)
zeros_from_lt n (x ∷ a) (y ∷ b) e p q h = ground (
  arith,
  zeros_from_lt (n + 8) a b (omega arith) p.1 q.1,
  leading_zeros_from-ge (n + 8) b,
  byte_zeros_nonzero x p.0,
  byte_zeros_lt x y p.0 q.0,
)

-- A distance with more leading zeros comes strictly first in the order that peers are sorted by.
pub leading_zeros-key_le :
    (a b : Key)
    → IsKey a
    → IsKey b
    → leading_zeros b < leading_zeros a
    → (key_le a b ≡ true) × (key_le b a ≡ false)
unfolding leading_zeros
leading_zeros-key_le a b p q h = zeros_from_lt 0 a b (p.0 ∙ sym q.0) p.1 q.1 h
