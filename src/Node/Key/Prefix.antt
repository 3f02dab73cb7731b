-- ===== src/Node/Key/Prefix.antt =====
-- `get_binary` and `get_prefix` of src/node/peer_key.rs: the text of a distance, and the text under
-- which the routing table files a peer.
use udp2p.Base.{
  ℕ, zero, suc, ◌+◌, ◌*◌, ◌/◌, ◌%◌, ◌≤◌, ◌<◌, ◌≡◌, refl, ap, sym, ◌∙◌, List, [], ◌∷◌, ok, panic,
  length, length-append, take, le→leb, lt→ltb, arith,
}
use udp2p.Node.Key.{
  Key, IsKey, byte_leading_zeros, strip_zeros, byte_binary, get_binary, slice, first_char,
  get_prefix, leading_zeros,
}

strip_zeros_bounds :
    (d : ℕ) (ds : List ℕ)
    → (1 ≤ length (strip_zeros (d ∷ ds))) × (length (strip_zeros (d ∷ ds)) ≤ length (d ∷ ds))
unfolding strip_zeros
strip_zeros_bounds d [] = omega arith
strip_zeros_bounds d (e ∷ ds) = ground (arith, strip_zeros_bounds e ds)

byte_binary_bounds : (b : ℕ) → (1 ≤ length (byte_binary b)) × (length (byte_binary b) ≤ 8)
unfolding byte_binary
byte_binary_bounds b = strip_zeros_bounds (b / 128 % 2) (
    (b / 64 % 2)
    ∷ (b / 32 % 2)
    ∷ (b / 16 % 2)
    ∷ (b / 8 % 2)
    ∷ (b / 4 % 2)
    ∷ (b / 2 % 2)
    ∷ (b % 2)
    ∷ [])

-- A text of at least one and at most eight characters a byte.
pub length-get_binary :
    (k : Key) → (length k ≤ length (get_binary k)) × (length (get_binary k) ≤ 8 * length k)
unfolding get_binary
length-get_binary [] = omega arith
length-get_binary (b ∷ k) =
    omega (
      arith,
      length-append (byte_binary b) (get_binary k),
      byte_binary_bounds b,
      length-get_binary k,
    )

first_char-slice : (text : List ℕ) → first_char text ≡ slice 1 text
unfolding slice first_char
first_char-slice [] = refl
first_char-slice (c ∷ text) = ground arith

-- The case of size 0 is no exception: a prefix of size `size` is the first `size + 1` characters.
pub get_prefix-slice : (k : Key) (size : ℕ) → get_prefix k size ≡ slice (suc size) (get_binary k)
unfolding get_prefix
get_prefix-slice k zero = first_char-slice (get_binary k)
get_prefix-slice k (suc size) =
    rw (lt→ltb 0 (suc size) (omega arith))
      (ap (λ (n : ℕ). slice n (get_binary k)) {x = suc size + 1} {y = suc (suc size)} (omega arith))

-- `get_prefix` of a key of 32 bytes returns the first `size + 1` characters of the key's text if
-- there are so many, and panics if not; the text has 32 characters at least and 256 at most.
pub get_prefix_lem :
    (k : Key) (size : ℕ)
    → IsKey k
    → (size < length (get_binary k) → get_prefix k size ≡ ok (take (suc size) (get_binary k)))
      × (length (get_binary k) ≤ size → get_prefix k size ≡ panic)
      × (32 ≤ length (get_binary k))
      × (length (get_binary k) ≤ 256)
unfolding slice
get_prefix_lem k size v = (
  λ h. get_prefix-slice k size ∙ rw (le→leb (suc size) _ h),
  λ h. get_prefix-slice k size ∙ ground arith,
  omega (arith, length-get_binary k, v.0),
  omega (arith, length-get_binary k, v.0),
)

-- A text does not say which key it is of: for all `rest` these two keys have one text and so the
-- same prefix at every size, though the first distance has 7 leading zeros and the second 6.
pub get_prefix_ambiguous :
    (rest : Key) (size : ℕ)
    → (get_prefix (1 ∷ 0 ∷ 2 ∷ rest) size ≡ get_prefix (2 ∷ 1 ∷ 0 ∷ rest) size)
      × (leading_zeros (1 ∷ 0 ∷ 2 ∷ rest) ≡ 7)
      × (leading_zeros (2 ∷ 1 ∷ 0 ∷ rest) ≡ 6)
unfolding get_binary byte_binary leading_zeros byte_leading_zeros
get_prefix_ambiguous rest size =
    (get_prefix-slice _ size ∙ sym (get_prefix-slice _ size), refl, refl)
