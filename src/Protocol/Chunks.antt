-- ===== src/Protocol/Chunks.antt =====
-- The chunks that the loop of `packetize` (src/protocol/protocol.rs) takes, described without it.
use udp2p.Base.{
  ℕ, zero, suc, ◌+◌, ◌-◌, ◌*◌, ◌≤◌, ◌≡◌, refl, ap, ◌∙◌, false, List, [], ◌∷◌, ◌++◌, ok, ◌>>=◌,
  length, take, drop, length-take, length-drop, take-append-drop, drop-drop, ◌==◌, le→leb, All,
  arith,
}
use mathlib.Core.List.{append-nil}
use udp2p.Protocol.{Bytes, slice_from, slice_range, split_from, packet_count}

-- `count` chunks: 1024 bytes each, and the last takes what is left.
unfoldable pub cut : ℕ → Bytes → List Bytes
cut zero bytes = []
cut (suc zero) bytes = bytes ∷ []
cut (suc (suc left)) bytes = take 1024 bytes ∷ cut (suc left) (drop 1024 bytes)

abbrev pub join : List Bytes → Bytes
join [] = []
join (chunk ∷ chunks) = chunk ++ join chunks

pub join-cut : (left : ℕ) (bytes : Bytes) → join (cut (suc left) bytes) ≡ bytes
unfolding cut
join-cut zero bytes = append-nil bytes
join-cut (suc left) bytes =
    ap (◌++◌ (take 1024 bytes)) (join-cut left (drop 1024 bytes)) ∙ take-append-drop 1024 bytes

pub length-cut : (count : ℕ) (bytes : Bytes) → length (cut count bytes) ≡ count
unfolding cut
length-cut zero bytes = refl
length-cut (suc zero) bytes = refl
length-cut (suc (suc left)) bytes = ap suc (length-cut (suc left) (drop 1024 bytes))

slice_from_lem :
    (start : ℕ) (bytes : Bytes)
    → start ≤ length bytes
    → slice_from start bytes ≡ ok (drop start bytes)
unfolding slice_from
slice_from_lem start bytes h = rw (le→leb start _ h)

slice_range_lem :
    (start : ℕ) (bytes : Bytes)
    → start + 1024 ≤ length bytes
    → slice_range start (start + 1024) bytes ≡ ok (take 1024 (drop start bytes))
unfolding slice_range
slice_range_lem start bytes h =
    rw (le→leb start (start + 1024) (omega arith), le→leb (start + 1024) _ h)
      (ap (λ (n : ℕ). ok (take n (drop start bytes))) {x = start + 1024 - start} {y = 1024}
        (omega arith))

split_from-last :
    (start end : ℕ) (bytes : Bytes)
    → split_from 1 start end bytes ≡ (slice_from start bytes >>= λ chunk. ok (chunk ∷ []))
unfolding split_from
split_from-last start end bytes = refl

split_from-more :
    (left start end : ℕ) (bytes : Bytes)
    → split_from (suc (suc left)) start end bytes ≡ (
        slice_range start end bytes >>= λ chunk.
        split_from (suc left) end (end + 1024) bytes >>= λ chunks. ok (chunk ∷ chunks))
unfolding split_from
split_from-more left start end bytes = let e : (suc left == 0) ≡ false = ground arith in rw e

-- The loop's slices are in range, and are these chunks.
split_from-cut :
    (left start : ℕ) (bytes : Bytes)
    → start + 1024 * left ≤ length bytes
    → split_from (suc left) start (start + 1024) bytes ≡ ok (cut (suc left) (drop start bytes))
unfolding cut
split_from-cut zero start bytes h = rw (split_from-last, slice_from_lem start bytes (omega arith))
split_from-cut (suc left) start bytes h = rw (
  split_from-more left start (start + 1024) bytes,
  slice_range_lem start bytes (omega arith),
  split_from-cut left (start + 1024) bytes (omega arith),
  drop-drop 1024 start bytes,
)

pub packet_count_bounds :
    (bytes : Bytes)
    → 1024 ≤ length bytes
    → (1 ≤ packet_count bytes) × (1024 * (packet_count bytes - 1) ≤ length bytes)
unfolding packet_count
packet_count_bounds bytes h = ground arith

-- From 1024 bytes on the loop cuts the message into `packet_count` chunks.
pub split_from_all :
    (bytes : Bytes)
    → 1024 ≤ length bytes
    → split_from (packet_count bytes) 0 1024 bytes ≡ ok (cut (packet_count bytes) bytes)
split_from_all bytes h =
    let bounds = packet_count_bounds bytes h in
    let e : packet_count bytes ≡ suc (packet_count bytes - 1) = omega arith in
    rw e (split_from-cut (packet_count bytes - 1) 0 bytes (omega arith))

pub join-cut_all :
    (bytes : Bytes) → 1024 ≤ length bytes → join (cut (packet_count bytes) bytes) ≡ bytes
join-cut_all bytes h =
    let bounds = packet_count_bounds bytes h in
    let e : packet_count bytes ≡ suc (packet_count bytes - 1) = omega arith in
    rw e (join-cut (packet_count bytes - 1) bytes)

-- All chunks but the last, for a cut into `left + 1`.
unfoldable pub cut_front : ℕ → Bytes → List Bytes
cut_front zero bytes = []
cut_front (suc left) bytes = take 1024 bytes ∷ cut_front left (drop 1024 bytes)

pub cut-last :
    (left : ℕ) (bytes : Bytes)
    → cut (suc left) bytes ≡ cut_front left bytes ++ drop (1024 * left) bytes ∷ []
unfolding cut cut_front
cut-last zero bytes = refl
cut-last (suc left) bytes = ap (◌∷◌ (take 1024 bytes)) (
    cut-last left (drop 1024 bytes)
    ∙ ap (λ (v : Bytes). cut_front left (drop 1024 bytes) ++ v ∷ [])
        (drop-drop (1024 * left) 1024 bytes
          ∙ ap (λ (n : ℕ). drop n bytes) {x = 1024 + 1024 * left} {y = 1024 * suc left}
              (omega arith)))

pub length-cut_front : (left : ℕ) (bytes : Bytes) → length (cut_front left bytes) ≡ left
unfolding cut_front
length-cut_front zero bytes = refl
length-cut_front (suc left) bytes = ap suc (length-cut_front left (drop 1024 bytes))

-- Each chunk but the last is full.
pub cut_front-full :
    (left : ℕ) (bytes : Bytes)
    → 1024 * left ≤ length bytes
    → All (λ chunk. length chunk ≡ 1024) (cut_front left bytes)
unfolding cut_front
cut_front-full zero bytes h = tt
cut_front-full (suc left) bytes h = (
  omega (arith, length-take 1024 bytes),
  cut_front-full left (drop 1024 bytes) (omega (arith, length-drop 1024 bytes)),
)
