-- ===== src/Network.antt =====
-- Two nodes and the datagrams between them: src/transport/transport.rs at one end and
-- src/transport/handler.rs at the other. A datagram that is received fills the first bytes of the
-- buffer, so what is read of it is the datagram itself.
pub mod Written
pub mod Received
pub mod Sent
pub mod Receipt
use udp2p.Base.{ℕ, ◌≡◌, List, [], ◌∷◌, some, Outcome, length}
use udp2p.Base.Codec.{Codec}
use udp2p.Node.Peer.{SocketAddr}
use udp2p.Protocol.{Bytes, Header, Message, Packet, AckMessage}
use udp2p.Handler.{Formats, MessageHandler, recv_msg}

-- serde_json writes every value of a type of numbers, texts and byte lists: `write` is what it
-- writes.
abbrev pub IsWriter {ℓ} : {A : Type ℓ} → Codec A → (A → Bytes) → Type ℓ
IsWriter c write = (a : _) → c.as_bytes a ≡ some (write a)

-- What the formats write for a packet and for an acknowledgement.
pub record Writers (f : Formats) : Type 0 where
  pub packet : Packet → Bytes
  pub ack : AckMessage → Bytes
  pub packet_lem : IsWriter f.packet packet
  pub ack_lem : IsWriter f.ack ack

module _ (f : Formats) where
  -- `recv_msg` of a datagram from `src`.
  unfoldable pub receive : SocketAddr → SocketAddr → Bytes → MessageHandler → Outcome MessageHandler
  unfolding recv_msg
  receive local src datagram self = recv_msg f (some (datagram, length datagram, src)) local self

  -- The acknowledgement of a packet by the node at `local`, and the message that carries it.
  abbrev pub receipt : SocketAddr → Packet → AckMessage
  receipt local packet = record {
    packet_id = packet.id;
    packet_number = packet.n;
    src = f.address.to_string local;
  }

  abbrev pub receipt_message : Writers f → SocketAddr → Packet → Message
  receipt_message w local packet = record { head = Header.ack; msg = w.ack (receipt local packet) }
