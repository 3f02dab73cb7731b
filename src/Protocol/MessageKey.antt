-- ===== src/Protocol/MessageKey.antt =====
-- `MessageKey` of src/protocol/protocol.rs, the id of a message. Where other modules pass one on,
-- they have its inner key.
use udp2p.Base.{ℕ, ◌/◌, ◌%◌, ◌<◌, ◌≡◌, refl, Outcome, ok, ◌>>=◌}
use udp2p.Node.Key
use udp2p.Node.Key.{Key, IsByte, IsKey, leading_zeros, fill, zero_first, modify_at, mark_bit}
use udp2p.Node.Key.Range.{rand-IsKey, leading_zeros-rand_in_range}
use udp2p.Protocol.{InnerKey}

pub record MessageKey : Type 0 where
  pub inner_key : InnerKey

unfoldable pub new : InnerKey → MessageKey
new v = record { inner_key = v }

unfoldable pub rand : (ℕ → ℕ) → MessageKey
unfolding Key.rand
rand draw = record { inner_key = Key.rand draw }

unfoldable pub rand_in_range : ℕ → (ℕ → ℕ) → Outcome MessageKey
unfolding rand zero_first modify_at mark_bit
rand_in_range idx draw =
    let ret = rand draw in
    let bytes = idx / 8 in
    let bit = idx % 8 in
    zero_first bytes ret.inner_key
    >>= (λ cleared. modify_at bytes (mark_bit bit) cleared)
    >>= (λ marked. ok (record { inner_key = marked }))

unfoldable pub inner : MessageKey → InnerKey
inner self = self.inner_key

unfoldable pub from_inner : InnerKey → MessageKey
from_inner v = record { inner_key = v }

-- Below 256 a message key that is drawn in a range has 32 bytes and as many leading zero bits.
pub inner-rand_in_range :
    (idx : ℕ) (draw : ℕ → ℕ)
    → idx < 256
    → ((i : ℕ) → IsByte (draw i))
    → (key : MessageKey) × (rand_in_range idx draw ≡ ok key)
      × IsKey (inner key)
      × (leading_zeros (inner key) ≡ idx)
unfolding rand_in_range rand inner Key.rand_in_range
inner-rand_in_range idx draw h drawn =
    let (k, made, v, zeros) =
      leading_zeros-rand_in_range idx (Key.rand draw) h (rand-IsKey draw drawn) in
    (record { inner_key = k }, rw made refl, v, zeros)
