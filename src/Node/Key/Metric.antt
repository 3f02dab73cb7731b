-- ===== src/Node/Key/Metric.antt =====
-- The XOR distance of src/node/peer_key.rs identifies a peer: it is symmetric, zero only between
-- equal keys, and no two keys are at the same distance from a third.
use udp2p.Base.{suc, ◌≡◌, refl, sym, ap, ap₂, ◌∙◌, ◌↔◌, [], ◌∷◌, length, replicate, All, arith}
use udp2p.Node.Key.{Key, IsByte, IsKey, xor}
use udp2p.Node.Key.Bits.{bit_xor_self, bit_xor_comm, bit_xor_cancel, bit_xor-lt}

-- The key of 256 zero bits.
abbrev pub zero_key : Key
zero_key = replicate 32 0

length-xor : (a b : Key) → length a ≡ length b → length (xor a b) ≡ length a
unfolding xor
length-xor [] b e = refl
length-xor (x ∷ a) [] e = absurd (omega arith)
length-xor (x ∷ a) (y ∷ b) e = ap suc (length-xor a b (omega arith))

All-xor : (a b : Key) → All IsByte a → All IsByte b → All IsByte (xor a b)
unfolding xor
All-xor [] b p q = tt
All-xor (x ∷ a) [] p q = tt
All-xor (x ∷ a) (y ∷ b) p q = (bit_xor-lt 8 x y p.0 q.0, All-xor a b p.1 q.1)

pub xor-IsKey : (a b : Key) → IsKey a → IsKey b → IsKey (xor a b)
xor-IsKey a b p q = (length-xor a b (p.0 ∙ sym q.0) ∙ p.0, All-xor a b p.1 q.1)

-- A distance is symmetric.
pub xor_comm : (a b : Key) → xor a b ≡ xor b a
unfolding xor
xor_comm [] [] = refl
xor_comm [] (y ∷ b) = refl
xor_comm (x ∷ a) [] = refl
xor_comm (x ∷ a) (y ∷ b) = ap₂ ◌∷◌ (bit_xor_comm x y) (xor_comm a b)

pub xor_cancel : (a b : Key) → length a ≡ length b → xor a (xor a b) ≡ b
unfolding xor
xor_cancel [] [] e = refl
xor_cancel [] (y ∷ b) e = absurd (omega arith)
xor_cancel (x ∷ a) [] e = absurd (omega arith)
xor_cancel (x ∷ a) (y ∷ b) e = ap₂ ◌∷◌ (bit_xor_cancel x y) (xor_cancel a b (omega arith))

pub xor_self : (a : Key) → xor a a ≡ replicate (length a) 0
unfolding xor
xor_self [] = refl
xor_self (x ∷ a) = ap₂ ◌∷◌ (bit_xor_self x) (xor_self a)

-- No two keys are at the same distance from a third: distances order the peers of a table without
-- ties between different keys.
pub xor-injective : (a b c : Key) → IsKey a → IsKey b → IsKey c → xor a b ≡ xor a c → b ≡ c
xor-injective a b c p q r e =
    sym (xor_cancel a b (p.0 ∙ sym q.0)) ∙ ap (xor a) e ∙ xor_cancel a c (p.0 ∙ sym r.0)

-- The distance of two keys is the zero key exactly if the keys are equal.
pub xor-eq-zero_iff : (a b : Key) → IsKey a → IsKey b → (xor a b ≡ zero_key) ↔ (a ≡ b)
xor-eq-zero_iff a b p q =
    (λ e. xor-injective a a b p p q (itself ∙ sym e), λ e. ap (xor a) (sym e) ∙ itself)
  where
    itself : xor a a ≡ zero_key
    itself = xor_self a ∙ ap (λ n. replicate n 0) p.0
