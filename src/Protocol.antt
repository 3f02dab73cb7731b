-- ===== src/Protocol.antt =====
-- src/protocol/protocol.rs: the messages, and how one is cut into packets.
pub mod Chunks
pub mod Packetize
pub mod MessageKey
use udp2p.Base.{
  ℕ, zero, suc, ◌+◌, ◌-◌, ◌/◌, ◌%◌, ◌≡◌, List, [], ◌∷◌, Outcome, ok, panic, ◌>>=◌, length, take,
  drop, ltb, leb, ◌==◌, ◌&&◌, if◌then◌else◌,
}
use udp2p.Base.Codec.{Hex}
use udp2p.Node.Key.{Key}
use udp2p.Node.Peer.{Text}

abbrev pub Bytes : Type 0
Bytes = List ℕ

-- `InnerKey`, and `MessageKey`, which wraps one; `new`, `inner` and `from_inner` are the identity.
abbrev pub InnerKey : Type 0
InnerKey = Key

pub data Header : Type 0 where
  request response gossip ack : Header

pub record Message : Type 0 where
  pub head : Header
  pub msg : Bytes

pub record Packet : Type 0 where
  pub id : InnerKey
  pub n : ℕ
  pub total_n : ℕ
  pub bytes : Text
  pub ret : ℕ

pub record AckMessage : Type 0 where
  pub packet_id : InnerKey
  pub packet_number : ℕ
  pub src : Bytes

pub data KadMessage : Type 0 where
  request : Bytes → KadMessage
  response : Bytes → KadMessage
  kill : KadMessage

-- `bytes[start..]` and `bytes[start..end]`.
unfoldable pub slice_from : ℕ → Bytes → Outcome Bytes
slice_from start bytes = if leb start (length bytes) then ok (drop start bytes) else panic

unfoldable pub slice_range : ℕ → ℕ → Bytes → Outcome Bytes
slice_range start end bytes =
    if leb start end && leb end (length bytes)
    then ok (take (end - start) (drop start bytes))
    else panic

-- The loop `for n in 0..n_packets`, by the rounds that are left: the last takes all that remains.
unfoldable pub split_from : ℕ → ℕ → ℕ → Bytes → Outcome (List Bytes)
split_from zero start end bytes = ok []
split_from (suc left) start end bytes =
    let rest = split_from left end (end + 1024) bytes in
    if left == 0
    then slice_from start bytes >>= (λ chunk. ok (chunk ∷ []))
    else slice_range start end bytes >>= (λ chunk. rest >>= (λ chunks. ok (chunk ∷ chunks)))

-- `n_packets`: the source tests `n_packets % 1024`, not `bytes.len() % 1024`.
unfoldable pub packet_count : Bytes → ℕ
packet_count bytes =
    let n_packets = length bytes / 1024 in
    if n_packets % 1024 == 0 then n_packets else n_packets + 1

-- `packets.iter().enumerate().map(…)`: `idx` counts from 0.
unfoldable pub number_from : Hex → ℕ → ℕ → InnerKey → ℕ → List Bytes → List Packet
number_from hex idx total id ret [] = []
number_from hex idx total id ret (chunk ∷ chunks) =
    record { id = id; n = idx + 1; total_n = total; bytes = hex.encode chunk; ret = ret }
    ∷ number_from hex (suc idx) total id ret chunks

unfoldable pub packetize : Hex → Bytes → InnerKey → ℕ → Outcome (List Packet)
unfolding split_from slice_from slice_range packet_count number_from
packetize hex bytes id ret =
    if ltb (length bytes) 1024
    then ok (record { id = id; n = 1; total_n = 1; bytes = hex.encode bytes; ret = ret } ∷ [])
    else split_from (packet_count bytes) 0 1024 bytes
      >>= (λ packets. ok (number_from hex 0 (length packets) id ret packets))
