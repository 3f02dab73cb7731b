-- ===== src/Node/PeerId.antt =====
-- src/node/peer_id.rs: the id of a peer, which is the hash of a key as text. The hash is that of the
-- crate sha256.
use udp2p.Base.{ℕ, ◌<◌, ◌≡◌, ap, Bool, Outcome, ok, ◌>>=◌, unwrap, decided}
use udp2p.Base.Codec.{Codec}
use udp2p.Node.Key
use udp2p.Node.Key.{Key, IsByte, IsKey, leading_zeros}
use udp2p.Node.Key.Range.{rand-IsKey, leading_zeros-rand_in_range}
use udp2p.Node.Peer.{Text, Text-discrete, from_key}

abbrev pub PeerId : Type 0
PeerId = Text

unfoldable pub get_id : PeerId → Text
get_id self = self

unfoldable pub rand : (Key → Text) → (ℕ → ℕ) → PeerId
unfolding Key.rand from_key
rand digest_bytes draw = from_key digest_bytes (Key.rand draw)

unfoldable pub rand_in_range : (Key → Text) → ℕ → (ℕ → ℕ) → Outcome PeerId
unfolding Key.rand Key.rand_in_range from_key
rand_in_range digest_bytes idx draw =
    Key.rand_in_range idx (Key.rand draw) >>= (λ key. ok (from_key digest_bytes key))

-- `from_str`: the text is read as JSON.
unfoldable pub from_str : Codec PeerId → Text → Outcome PeerId
from_str format value = unwrap (format.from_bytes value)

unfoldable pub eq : PeerId → PeerId → Bool
unfolding get_id Text-discrete
eq self other = decided (Text-discrete (get_id self) (get_id other))

-- An id that is drawn in a range below 256 is the hash of a key in that range.
pub rand_in_range_hashes :
    (digest_bytes : Key → Text) (idx : ℕ) (draw : ℕ → ℕ)
    → idx < 256
    → ((i : ℕ) → IsByte (draw i))
    → (key : Key) × (rand_in_range digest_bytes idx draw ≡ ok (from_key digest_bytes key))
      × IsKey key
      × (leading_zeros key ≡ idx)
unfolding rand_in_range
rand_in_range_hashes digest_bytes idx draw h drawn =
    let (key, made, v, zeros) =
      leading_zeros-rand_in_range idx (Key.rand draw) h (rand-IsKey draw drawn) in
    (key, ap (λ m. m >>= (λ k. ok (from_key digest_bytes k))) made, v, zeros)
