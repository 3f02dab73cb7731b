-- ===== src/Protocol/Packetize.antt =====
-- What `packetize` of src/protocol/protocol.rs promises of its packets: numbers, contents, sizes.
use mathlib.Core.List.{append-nil}
use udp2p.Base.{
  ℕ, zero, suc, ◌+◌, ◌-◌, ◌*◌, ◌/◌, ◌%◌, ◌≤◌, ◌≡◌, ◌≢◌, refl, ap, ◌∙◌, false, List, [], ◌∷◌, ◌++◌,
  Option, some, none, ok, length, drop, length-drop, ltb, if◌then◌else◌, All, All-take, All-drop,
  Bool-cases, inl, inr, arith,
}
use udp2p.Base.Codec.{Hex}
use udp2p.Node.Key.{IsByte}
use udp2p.Protocol.{Bytes, InnerKey, Packet, packet_count, number_from, packetize}
use udp2p.Protocol.Chunks.{
  cut, join, join-cut_all, length-cut, split_from_all, cut_front, cut-last, length-cut_front,
  cut_front-full, packet_count_bounds,
}

-- The bytes that a list of packets carries.
unfoldable pub contents : Hex → List Packet → Option Bytes
contents hex [] = some []
contents hex (p ∷ ps) = elim (hex.decode p.bytes) [
  | none ↦ none
  | some v ↦ elim (contents hex ps) [ none ↦ none | some rest ↦ some (v ++ rest) ]
]

-- Packets of one message: one id, one total, one receipt flag, numbered upwards from `n`.
abbrev pub IsNumbered : InnerKey → ℕ → ℕ → ℕ → List Packet → Type 0
IsNumbered id total ret n [] = Unit {0}
IsNumbered id total ret n (p ∷ ps) =
    (p.id ≡ id)
    × (p.total_n ≡ total)
    × (p.ret ≡ ret)
    × (p.n ≡ n)
    × IsNumbered id total ret (suc n) ps

All-cut : (count : ℕ) (v : Bytes) → All IsByte v → All (All IsByte) (cut count v)
unfolding cut
All-cut zero v h = tt
All-cut (suc zero) v h = (h, tt)
All-cut (suc (suc left)) v h =
    (All-take IsByte 1024 v h, All-cut (suc left) (drop 1024 v) (All-drop IsByte 1024 v h))

-- The packet carries `size` bytes.
abbrev pub Carries : Hex → ℕ → Packet → Type 0
Carries hex size p = (v : Bytes) × (hex.decode p.bytes ≡ some v) × (length v ≡ size)

All-cut_front : (left : ℕ) (v : Bytes) → All IsByte v → All (All IsByte) (cut_front left v)
unfolding cut_front
All-cut_front zero v h = tt
All-cut_front (suc left) v h =
    (All-take IsByte 1024 v h, All-cut_front left (drop 1024 v) (All-drop IsByte 1024 v h))

-- The chunks that the packets are made of.
chunks_of : Bytes → List Bytes
chunks_of bytes = if ltb (length bytes) 1024 then bytes ∷ [] else cut (packet_count bytes) bytes

join-chunks_of : (bytes : Bytes) → join (chunks_of bytes) ≡ bytes
unfolding chunks_of
join-chunks_of bytes = ground (arith, append-nil bytes, join-cut_all bytes)

length-chunks_of : (bytes : Bytes) → 1 ≤ length (chunks_of bytes)
unfolding chunks_of
length-chunks_of bytes =
    ground (arith, packet_count_bounds bytes, length-cut (packet_count bytes) bytes)

All-chunks_of : (bytes : Bytes) → All IsByte bytes → All (All IsByte) (chunks_of bytes)
unfolding chunks_of
All-chunks_of bytes h = ground (arith, All-cut (packet_count bytes) bytes h)

packet_count_of :
    (bytes : Bytes)
    → (length bytes / 1024 % 1024 ≡ 0 → packet_count bytes ≡ length bytes / 1024)
      × (length bytes / 1024 % 1024 ≢ 0 → packet_count bytes ≡ length bytes / 1024 + 1)
unfolding packet_count
packet_count_of bytes = (λ h. ground arith, λ h. ground arith)

module _ (hex : Hex) (id : InnerKey) (ret : ℕ) where
  length-number_from :
      (idx total : ℕ) (chunks : List Bytes)
      → length (number_from hex idx total id ret chunks) ≡ length chunks
  unfolding number_from
  length-number_from idx total [] = refl
  length-number_from idx total (c ∷ chunks) = ap suc (length-number_from (suc idx) total chunks)

  number_from-IsNumbered :
      (idx total : ℕ) (chunks : List Bytes)
      → IsNumbered id total ret (suc idx) (number_from hex idx total id ret chunks)
  unfolding number_from
  number_from-IsNumbered idx total [] = tt
  number_from-IsNumbered idx total (c ∷ chunks) =
      (refl, refl, refl, omega arith, number_from-IsNumbered (suc idx) total chunks)

  contents-number_from :
      (idx total : ℕ) (chunks : List Bytes)
      → All (All IsByte) chunks
      → contents hex (number_from hex idx total id ret chunks) ≡ some (join chunks)
  unfolding number_from contents
  contents-number_from idx total [] h = refl
  contents-number_from idx total (c ∷ chunks) h =
      rw (hex.decode-encode c h.0, contents-number_from (suc idx) total chunks h.1)

  packetize-chunks_of :
      (bytes : Bytes)
      → packetize hex bytes id ret
        ≡ ok (number_from hex 0 (length (chunks_of bytes)) id ret (chunks_of bytes))
  unfolding packetize number_from chunks_of
  packetize-chunks_of bytes = elim (Bool-cases (ltb (length bytes) 1024)) [
    | inl short ↦ rw short
    | inr long ↦ rw (long, split_from_all bytes (ground arith))
  ]

  -- `packetize` of bytes never panics; its packets carry the bytes, in order and complete, and are
  -- numbered from 1 to their number, which each of them states. There is at least one.
  pub contents-packetize :
      (bytes : Bytes)
      → All IsByte bytes
      → (ps : List Packet) × (packetize hex bytes id ret ≡ ok ps)
        × (contents hex ps ≡ some bytes)
        × (1 ≤ length ps)
        × IsNumbered id (length ps) ret 1 ps
  contents-packetize bytes h =
      let total = length (chunks_of bytes) in
      (
        number_from hex 0 total id ret (chunks_of bytes),
        packetize-chunks_of bytes,
        contents-number_from 0 total (chunks_of bytes) (All-chunks_of bytes h)
            ∙ ap some (join-chunks_of bytes),
        omega (arith, length-number_from 0 total (chunks_of bytes), length-chunks_of bytes),
        rw (length-number_from 0 total (chunks_of bytes))
            (number_from-IsNumbered 0 total (chunks_of bytes)),
      )

  number_from-append :
      (idx total : ℕ) (front : List Bytes) (last : Bytes)
      → number_from hex idx total id ret (front ++ last ∷ [])
        ≡ number_from hex idx total id ret front
          ++ record {
            id = id;
            n = idx + length front + 1;
            total_n = total;
            bytes = hex.encode last;
            ret = ret;
          }
            ∷ []
  unfolding number_from
  number_from-append idx total [] last = ground arith
  number_from-append idx total (c ∷ front) last =
      ground (arith, number_from-append (suc idx) total front last)

  Carries-number_from :
      (idx total size : ℕ) (chunks : List Bytes)
      → All (All IsByte) chunks
      → All (λ chunk. length chunk ≡ size) chunks
      → All (Carries hex size) (number_from hex idx total id ret chunks)
  unfolding number_from
  Carries-number_from idx total size [] h k = tt
  Carries-number_from idx total size (c ∷ chunks) h k =
      ((c, hex.decode-encode c h.0, k.0), Carries-number_from (suc idx) total size chunks h.1 k.1)

  packetize-cut :
      (left : ℕ) (bytes : Bytes)
      → 1024 ≤ length bytes
      → packet_count bytes ≡ suc left
      → packetize hex bytes id ret ≡ ok (number_from hex 0 (suc left) id ret (cut (suc left) bytes))
  unfolding packetize
  packetize-cut left bytes long e =
      let short : ltb (length bytes) 1024 ≡ false = ground arith in
      rw (short, split_from_all bytes long, e, length-cut)

  cut_packets :
      (left : ℕ) (bytes : Bytes)
      → All IsByte bytes
      → 1024 ≤ length bytes
      → packet_count bytes ≡ suc left
      → (front : List Packet) × (last : Packet) × (packetize hex bytes id ret
          ≡ ok (front ++ last ∷ []))
        × (length front ≡ left)
        × All (Carries hex 1024) front
        × (hex.decode last.bytes ≡ some (drop (1024 * left) bytes))
  unfolding chunks_of
  cut_packets left bytes h long e =
      let count = packet_count_bounds bytes long in
      let front = cut_front left bytes in
      let last = drop (1024 * left) bytes in
      let total = suc left in
      (
        number_from hex 0 total id ret front,
        record {
          id = id;
          n = 0 + length front + 1;
          total_n = total;
          bytes = hex.encode last;
          ret = ret;
        },
        packetize-cut left bytes long e
            ∙ ap (λ (cs : List Bytes). ok (number_from hex 0 total id ret cs)) (cut-last left bytes)
            ∙ ap ok (number_from-append 0 total front last),
        length-number_from 0 total front ∙ length-cut_front left bytes,
        Carries-number_from 0 total 1024 front (All-cut_front left bytes h)
            (cut_front-full left bytes (omega arith)),
        hex.decode-encode last (All-drop IsByte (1024 * left) bytes h),
      )

  -- A message of q full kilobytes and a rest, q > 0, goes out as full packets of 1024 bytes and
  -- one last packet with all that remains. There are q full ones unless q is a multiple of 1024,
  -- then q - 1. So where q is no such multiple the last packet carries the rest, and is empty if
  -- there is none; where q is one, the last packet carries 1024 bytes and the rest.
  pub packetize_sizes :
      (bytes : Bytes)
      → All IsByte bytes
      → 1024 ≤ length bytes
      → (front : List Packet) × (last : Packet) × (packetize hex bytes id ret
          ≡ ok (front ++ last ∷ []))
        × All (Carries hex 1024) front
        × (length bytes / 1024 % 1024 ≢ 0
            → (length front ≡ length bytes / 1024) × Carries hex (length bytes % 1024) last)
        × (length bytes / 1024 % 1024 ≡ 0
            → (length front ≡ length bytes / 1024 - 1)
              × Carries hex (1024 + length bytes % 1024) last)
  packetize_sizes bytes h long =
      let bounds = packet_count_bounds bytes long in
      let left = packet_count bytes - 1 in
      let (front, last, sent, len, full, rest) = cut_packets left bytes h long (omega arith) in
      let size = length-drop (1024 * left) bytes in
      (
        front,
        last,
        sent,
        full,
        λ odd.
            let count = packet_count_of bytes in
            (
              omega (arith, count.1 odd),
              (drop (1024 * left) bytes, rest, omega (arith, count.1 odd, size)),
            ),
        λ even.
            let count = packet_count_of bytes in
            (
              omega (arith, count.0 even),
              (drop (1024 * left) bytes, rest, omega (arith, count.0 even, size)),
            ),
      )
