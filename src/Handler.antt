-- ===== src/Handler.antt =====
-- src/transport/handler.rs: what comes in from the socket. The senders of the handler's channels
-- are the lists of what was sent on them, in order; a send to a closed channel is only logged.
pub mod Present
pub mod Arrival
pub mod Collect
pub mod Reassembly
pub mod Delivery
pub mod Faults
pub mod Redelivery
use udp2p.Base.{
  ℕ, zero, suc, ◌+◌, ◌≡◌, List, [], ◌∷◌, ◌++◌, Option, some, none, Outcome, ok, panic, ◌>>=◌,
  unwrap, length, take, leb, ◌==◌, if◌then◌else◌, ℕ_discrete,
}
use udp2p.Base.Codec.{Codec, Hex}
use udp2p.Base.Dict.{Dict, get, insert, or_insert}
use udp2p.Node.Peer.{SocketAddr, Text-discrete}
use udp2p.Node.Address.{AddressFormat}
use udp2p.Protocol.{Bytes, InnerKey, Packet, Message, Header, AckMessage, KadMessage}

pub record MessageHandler : Type 0 where
  pub om_tx : List (SocketAddr × Message)
  pub ia_tx : List AckMessage
  pub pending : Dict InnerKey (Dict ℕ Packet)
  pub kad_tx : List (SocketAddr × KadMessage)
  pub gossip_tx : List (SocketAddr × Message)

-- `MessageHandler::new`, over channels that nothing was sent on.
unfoldable pub new : Dict InnerKey (Dict ℕ Packet) → MessageHandler
new pending = record { om_tx = []; ia_tx = []; pending = pending; kad_tx = []; gossip_tx = [] }

abbrev pub return_receipt : ℕ
return_receipt = 1

-- What the handler takes from the libraries.
pub record Formats : Type 0 where
  pub hex : Hex
  pub address : AddressFormat
  pub packet : Codec Packet
  pub message : Codec Message
  pub kad : Codec KadMessage
  pub ack : Codec AckMessage

module _ (f : Formats) where
  unfoldable pub send_kad : SocketAddr → Option KadMessage → MessageHandler → MessageHandler
  send_kad src none self = self
  send_kad src (some msg) self = record self { kad_tx = self.kad_tx ++ (src, msg) ∷ [] }

  unfoldable pub send_ack : Option AckMessage → MessageHandler → MessageHandler
  send_ack none self = self
  send_ack (some msg) self = record self { ia_tx = self.ia_tx ++ msg ∷ [] }

  unfoldable pub route : Header → Message → SocketAddr → MessageHandler → MessageHandler
  unfolding send_kad send_ack
  route Header.request message src self = send_kad src (f.kad.from_bytes message.msg) self
  route Header.response message src self = send_kad src (f.kad.from_bytes message.msg) self
  route Header.ack message src self = send_ack (f.ack.from_bytes message.msg) self
  route Header.gossip message src self = record self {
    gossip_tx = self.gossip_tx ++ (src, message) ∷ [];
  }

  unfoldable pub handle_message : Message → SocketAddr → MessageHandler → MessageHandler
  unfolding route
  handle_message message src self = route message.head message src self

  unfoldable pub handle_if_some : Option Message → SocketAddr → MessageHandler → MessageHandler
  unfolding handle_message
  handle_if_some none src self = self
  handle_if_some (some message) src self = handle_message message src self

  -- The loop of `assemble_packets` over `left` numbers from `n` on: `map[&n]` panics on a missing
  -- number, and the unwrap on what is no hexadecimal text.
  unfoldable pub collect_from : ℕ → ℕ → Dict ℕ Packet → Outcome Bytes
  collect_from zero n map = ok []
  collect_from (suc left) n map = unwrap (get ℕ_discrete n map) >>= (λ packet.
      unwrap (f.hex.decode packet.bytes)
      >>= (λ converted. collect_from left (suc n) map >>= (λ rest. ok (converted ++ rest))))

  unfoldable pub assemble_packets : Packet → Dict ℕ Packet → Outcome (Option Message)
  unfolding collect_from
  assemble_packets packet map =
      collect_from packet.total_n 1 map >>= (λ bytes. ok (f.message.from_bytes bytes))

  -- The branch for a message of which packets are pending.
  unfoldable pub insert_known :
      Packet → SocketAddr → Dict ℕ Packet → MessageHandler → Outcome MessageHandler
  unfolding assemble_packets handle_if_some
  insert_known packet src map self =
      let map' = or_insert ℕ_discrete packet.n packet map in
      let self' = record self { pending = insert Text-discrete packet.id map' self.pending } in
      if length map' == packet.total_n
      then assemble_packets packet map' >>= (λ message. ok (handle_if_some message src self'))
      else ok self'

  -- The branch for a message of which none is.
  unfoldable pub insert_first : Packet → SocketAddr → MessageHandler → Outcome MessageHandler
  unfolding handle_if_some
  insert_first packet src self =
      if packet.total_n == 1
      then unwrap (f.hex.decode packet.bytes)
        >>= (λ bytes. ok (handle_if_some (f.message.from_bytes bytes) src self))
      else ok (record self {
        pending =
            insert Text-discrete packet.id (insert ℕ_discrete packet.n packet []) self.pending;
      })

  unfoldable pub insert_packet : Packet → SocketAddr → MessageHandler → Outcome MessageHandler
  unfolding insert_known insert_first
  insert_packet packet src self = elim (get Text-discrete packet.id self.pending) [
    | some map ↦ insert_known packet src map self
    | none ↦ insert_first packet src self
  ]

  -- The acknowledgement goes to the channel of outgoing messages, with the local address as text.
  unfoldable pub acknowledge :
      SocketAddr → Packet → SocketAddr → MessageHandler → Outcome MessageHandler
  acknowledge local packet src self =
      let ack : AckMessage = record {
        packet_id = packet.id;
        packet_number = packet.n;
        src = f.address.to_string local;
      } in
      unwrap (f.ack.as_bytes ack) >>= (λ bytes.
        let message : Message = record { head = Header.ack; msg = bytes } in
        ok (record self { om_tx = self.om_tx ++ (src, message) ∷ [] }))

  unfoldable pub process_parsed :
      SocketAddr
      → Option Packet
      → SocketAddr
      → MessageHandler
      → Outcome (MessageHandler × Option Packet)
  unfolding acknowledge
  process_parsed local none src self = ok (self, none)
  process_parsed local (some packet) src self =
      if packet.ret == return_receipt
      then acknowledge local packet src self >>= (λ self'. ok (self', some packet))
      else ok (self, some packet)

  -- `buf[..amt]` panics if the socket reports more than the buffer holds.
  unfoldable pub process_packet :
      SocketAddr
      → Bytes
      → ℕ
      → SocketAddr
      → MessageHandler
      → Outcome (MessageHandler × Option Packet)
  unfolding process_parsed
  process_packet local buf amt src self =
      if leb amt (length buf)
      then process_parsed local (f.packet.from_bytes (take amt buf)) src self
      else panic

  -- `received` is what `recv_from` gives: the buffer, the number of bytes and the sender, or an error.
  unfoldable pub recv_msg :
      Option (Bytes × ℕ × SocketAddr) → SocketAddr → MessageHandler → Outcome MessageHandler
  unfolding process_packet insert_packet
  recv_msg none local self = ok self
  recv_msg (some (buf, amt, src)) local self = process_packet local buf amt src self >>= (λ result.
      elim result.1 [ none ↦ ok result.0 | some packet ↦ insert_packet packet src result.0 ])
