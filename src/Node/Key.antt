-- ===== src/Node/Key.antt =====
-- src/node/peer_key.rs: the 256-bit key, its XOR distance, its binary text and its prefixes. A key
-- is the list of its bytes, most significant first, so that `Key::new` and `Key::get_key` are the
-- identity.
pub mod Bits
pub mod Metric
pub mod Ones
pub mod Order
pub mod Prefix
pub mod Range
use Prim.Native.Nat.{bit_and, bit_or, bit_xor}
use udp2p.Base.{
  ℕ, zero, suc, ◌+◌, ◌-◌, ◌/◌, ◌%◌, ◌^◌, ◌<◌, ◌≡◌, List, [], ◌∷◌, ◌++◌, Bool, true, false, Outcome,
  ok, panic, ◌>>=◌, length, take, All, ltb, leb, ◌==◌, if◌then◌else◌, unwrap, replicate,
}
use udp2p.Base.Codec.{Codec}

abbrev pub Key : Type 0
Key = List ℕ

abbrev pub IsByte : ℕ → Type 0
IsByte b = b < 256

-- `[u8; 32]`: what the type of the source says of every key.
abbrev pub IsKey : Key → Type 0
IsKey k = (length k ≡ 32) × All IsByte k

-- The eight bits of a byte, the highest first.
unfoldable pub byte_bits : ℕ → List ℕ
byte_bits b =
    (b / 128 % 2)
    ∷ (b / 64 % 2)
    ∷ (b / 32 % 2)
    ∷ (b / 16 % 2)
    ∷ (b / 8 % 2)
    ∷ (b / 4 % 2)
    ∷ (b / 2 % 2)
    ∷ (b % 2)
    ∷ []

-- How many of the first digits are `d`.
unfoldable pub count_leading : ℕ → List ℕ → ℕ
count_leading d [] = 0
count_leading d (b ∷ bs) = let rest = count_leading d bs in if b == d then suc rest else 0

-- `u8::leading_zeros` and `u8::leading_ones`.
unfoldable pub byte_leading_zeros : ℕ → ℕ
unfolding count_leading byte_bits
byte_leading_zeros b = count_leading 0 (byte_bits b)

unfoldable pub byte_leading_ones : ℕ → ℕ
unfolding count_leading byte_bits
byte_leading_ones b = count_leading 1 (byte_bits b)

-- `Distance::xor`.
unfoldable pub xor : Key → Key → Key
xor [] other = []
xor (a ∷ self) [] = []
xor (a ∷ self) (b ∷ other) = bit_xor a b ∷ xor self other

-- `Distance::leading_zeros`, with the loop's `n` and the bytes from `i` on.
unfoldable pub leading_zeros_from : ℕ → Key → ℕ
leading_zeros_from n [] = n
leading_zeros_from n (b ∷ bs) =
    let rest = leading_zeros_from (n + 8) bs in if b == 0 then rest else n + byte_leading_zeros b

unfoldable pub leading_zeros : Key → ℕ
unfolding leading_zeros_from
leading_zeros k = leading_zeros_from 0 k

-- `Distance::leading_ones`: a zero byte is passed over, and the loop's end returns 0.
unfoldable pub leading_ones_from : ℕ → Key → ℕ
leading_ones_from n [] = 0
leading_ones_from n (b ∷ bs) =
    let skip = leading_ones_from n bs in
    let full = leading_ones_from (n + 8) bs in
    if b == 0 then skip else if byte_leading_ones b == 8 then full else n + byte_leading_ones b

unfoldable pub leading_ones : Key → ℕ
unfolding leading_ones_from
leading_ones k = leading_ones_from 0 k

-- `{:b}` of a `u8`: the binary digits with no leading zero, and "0" for 0.
unfoldable pub strip_zeros : List ℕ → List ℕ
strip_zeros [] = []
strip_zeros (d ∷ []) = d ∷ []
strip_zeros (d ∷ e ∷ ds) = let rest = strip_zeros (e ∷ ds) in if d == 0 then rest else d ∷ e ∷ ds

unfoldable pub byte_binary : ℕ → List ℕ
unfolding strip_zeros byte_bits
byte_binary b = strip_zeros (byte_bits b)

-- `Binary for Key` and `Key::get_binary`: the bytes' texts one after another, not padded. A
-- character is written as its digit.
unfoldable pub get_binary : Key → List ℕ
get_binary [] = []
get_binary (b ∷ bs) = byte_binary b ++ get_binary bs

-- `&text[0..n]`, for a text of one-byte characters.
unfoldable pub slice : ℕ → List ℕ → Outcome (List ℕ)
slice n text = if leb n (length text) then ok (take n text) else panic

-- `text.chars().next().unwrap()`.
unfoldable pub first_char : List ℕ → Outcome (List ℕ)
first_char [] = panic
first_char (c ∷ cs) = ok (c ∷ [])

unfoldable pub get_prefix : Key → ℕ → Outcome (List ℕ)
unfolding slice first_char
get_prefix k size =
    let binary = get_binary k in if ltb 0 size then slice (size + 1) binary else first_char binary

-- `Key::from_slice`: what serde_json reads, or a panic.
unfoldable pub from_slice : Codec Key → List ℕ → Outcome Key
from_slice format v = unwrap (format.from_bytes v)

-- `iter_mut().for_each(…)`: the bytes are drawn one after the other.
unfoldable pub fill : (ℕ → ℕ) → ℕ → Key → Key
fill draw round [] = []
fill draw round (b ∷ k) = draw round ∷ fill draw (suc round) k

unfoldable pub rand : (ℕ → ℕ) → Key
unfolding fill
rand draw = fill draw 0 (replicate 32 0)

-- `ret.0[i] = 0` for `i` in `0..bytes`.
unfoldable pub zero_first : ℕ → Key → Outcome Key
zero_first zero k = ok k
zero_first (suc n) [] = panic
zero_first (suc n) (b ∷ k) = zero_first n k >>= λ k'. ok (0 ∷ k')

-- `ret.0[i] = f(ret.0[i])`.
unfoldable pub modify_at : ℕ → (ℕ → ℕ) → Key → Outcome Key
modify_at i f [] = panic
modify_at zero f (b ∷ k) = ok (f b ∷ k)
modify_at (suc i) f (b ∷ k) = modify_at i f k >>= λ k'. ok (b ∷ k')

-- `ret.0[bytes] &= 0xFF >> bit; ret.0[bytes] |= 1 << (8 - bit - 1)`.
unfoldable pub mark_bit : ℕ → ℕ → ℕ
mark_bit bit b = bit_or (bit_and b (255 / 2 ^ bit)) (2 ^ (8 - bit - 1))

-- `rand_in_range`; `random` is the key that `rand` draws.
unfoldable pub rand_in_range : ℕ → Key → Outcome Key
unfolding zero_first modify_at mark_bit
rand_in_range idx random =
    let bytes = idx / 8 in
    let bit = idx % 8 in zero_first bytes random >>= λ k. modify_at bytes (mark_bit bit) k

-- `Ord for Key`: bytes are compared from the first on.
unfoldable pub key_le : Key → Key → Bool
key_le [] other = true
key_le (a ∷ self) [] = false
key_le (a ∷ self) (b ∷ other) = let rest = key_le self other in if a == b then rest else ltb a b
