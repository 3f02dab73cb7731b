-- ===== src/Transport.antt =====
-- src/transport/transport.rs: the thread that sends. A channel is the list of what waits in it, in
-- order. What is handed to the socket is noted in `gd_udp.sock`, as in the model of GdUdp. The text
-- of an IPv4 address before the colon stands for the address's `ip`, and the text after for its port.
pub mod Loopback
pub mod Outgoing
pub mod Keeps
use udp2p.Base.{
  ℕ, Bool, true, false, ◌≡◌, List, [], ◌∷◌, ◌++◌, Option, some, none, Outcome, ok, panic, ◌>>=◌,
  unwrap, for_each, ◌==◌, if◌then◌else◌,
}
use udp2p.Base.Codec.{Codec, Hex}
use udp2p.Base.Dict.{get}
use udp2p.Node.Peer.{SocketAddr, Text-discrete}
use udp2p.Node.Address.{AddressFormat}
use udp2p.Protocol.{InnerKey, Header, Message, Packet, AckMessage, packetize}
use udp2p.Handler.{Formats}
use udp2p.GdUdp
use udp2p.GdUdp.{GdUdp, Outbox, send_reliable, process_ack}

pub record Transport : Type 0 where
  pub gd_udp : GdUdp
  pub ia_rx : List AckMessage
  pub om_rx : List (SocketAddr × Message)

unfoldable pub new : SocketAddr → ℕ → List AckMessage → List (SocketAddr × Message) → Transport
new addr now ia_rx om_rx = record { gd_udp = GdUdp.new addr now; ia_rx = ia_rx; om_rx = om_rx }

-- 127.0.0.1.
abbrev pub loopback : ℕ
loopback = 2_130_706_433

-- A peer on the same host is reached over the loopback address.
unfoldable pub destination : SocketAddr → SocketAddr → SocketAddr
destination local src =
    if local.ip == src.ip then record { ip = loopback; port = src.port } else src

unfoldable pub contains_key : InnerKey → Outbox → Bool
contains_key id outbox = elim (get Text-discrete id outbox) [ none ↦ false | some map ↦ true ]

module _ (f : Formats) where
  unfoldable pub take_ack : AckMessage → Transport → Outcome Transport
  unfolding contains_key
  take_ack ack self =
      if contains_key ack.packet_id self.gd_udp.outbox
      then process_ack f.address ack.packet_id ack.packet_number ack.src self.gd_udp
        >>= (λ gd_udp. ok (record self { gd_udp = gd_udp }))
      else ok self

  unfoldable pub incoming_ack : Transport → Outcome Transport
  unfolding take_ack
  incoming_ack self = elim self.ia_rx [
    | [] ↦ ok self
    | ack ∷ rest ↦ take_ack ack (record self { ia_rx = rest })
  ]

  -- An acknowledgement is sent once: `packet.as_bytes().unwrap()`, then the socket.
  unfoldable pub send_plain : SocketAddr → Packet → GdUdp → Outcome GdUdp
  send_plain src packet self =
      unwrap (f.packet.as_bytes packet)
      >>= (λ bytes. ok (record self { sock = self.sock ++ (bytes, src) ∷ [] }))

  unfoldable pub send_packet : SocketAddr → Packet → GdUdp → GdUdp
  unfolding destination
  send_packet src packet self = send_reliable f.packet (destination self.addr src) packet self

  unfoldable pub send_all : SocketAddr → List Packet → GdUdp → GdUdp
  unfolding send_packet
  send_all src [] self = self
  send_all src (packet ∷ packets) self = send_all src packets (send_packet src packet self)

  unfoldable pub send_message : Header → InnerKey → SocketAddr → List ℕ → GdUdp → Outcome GdUdp
  unfolding send_plain send_all
  send_message Header.ack id src bytes self =
      packetize f.hex bytes id 0 >>= (λ packets. for_each (send_plain src) packets self)
  send_message Header.request id src bytes self =
      packetize f.hex bytes id 1 >>= (λ packets. ok (send_all src packets self))
  send_message Header.response id src bytes self =
      packetize f.hex bytes id 1 >>= (λ packets. ok (send_all src packets self))
  send_message Header.gossip id src bytes self =
      packetize f.hex bytes id 1 >>= (λ packets. ok (send_all src packets self))

  -- `id` is the key that `MessageKey::rand` draws.
  unfoldable pub outgoing_msg : InnerKey → Transport → Outcome Transport
  unfolding send_message
  outgoing_msg id self = elim self.om_rx [
    | [] ↦ ok self
    | (src, msg) ∷ rest ↦ unwrap (f.message.as_bytes msg) >>= (λ bytes.
        send_message msg.head id src bytes self.gd_udp
        >>= (λ gd_udp. ok (record self { gd_udp = gd_udp; om_rx = rest })))
  ]

  unfoldable pub check_time_elapsed : ℕ → ℕ → Transport → Transport
  check_time_elapsed now later self = record self {
    gd_udp = GdUdp.check_time_elapsed f.packet now later self.gd_udp;
  }
