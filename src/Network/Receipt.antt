-- ===== src/Network/Receipt.antt =====
-- An acknowledgement from the channel of outgoing messages at one node to the outbox of the other:
-- src/transport/transport.rs, src/transport/handler.rs and src/gd_udp/gd_udp.rs.
use mathlib.Core.List.{Permᴰ}
use udp2p.Base.{
  ℕ, ◌≡◌, refl, sym, ap, ◌∙◌, List, [], ◌∷◌, ◌++◌, some, none, Option-cases, ok, >>=-congr,
  for_each, All, inl, inr, arith,
}
use udp2p.Base.Dict.{Dict, get}
use udp2p.Base.Sets
use udp2p.Node.Peer.{SocketAddr, SocketAddr-discrete, Text-discrete}
use udp2p.Protocol.{Bytes, InnerKey, Header, Message, Packet, AckMessage, packetize}
use udp2p.Handler.{Formats, MessageHandler, route, handle_message, insert_packet}
use udp2p.Base.Perm.{All-perm}
use udp2p.Handler.Delivery.{deliver}
use udp2p.GdUdp.{GdUdp, first_entry, acknowledged_by, note_ack, maintain}
use udp2p.GdUdp.Lookup.{entry_at, entry_at-none}
use udp2p.GdUdp.Keyed.{IsKeyed}
use udp2p.GdUdp.Resend.{attempted}
use udp2p.GdUdp.Rounds.{maintain_settled}
use udp2p.GdUdp.Exchange.{process_ack_parsed, process_ack-IsKeyed, entry_at-process_ack}
use udp2p.Transport.{Transport, contains_key, take_ack, incoming_ack, send_message, outgoing_msg}
use udp2p.Transport.Outgoing.{outgoing_msg_step}
use udp2p.Network.{Writers, receive, receipt, receipt_message}
use udp2p.Network.Written.{datagrams, for_each-send_plain}
use udp2p.Network.Received.{receive_unasked}
use udp2p.Network.Sent.{packetize-ret}

module _ (f : Formats) (w : Writers f) where
  for_each-receive_unasked :
      (from local : SocketAddr) (qs : List Packet) (self : MessageHandler)
      → All (λ q. q.ret ≡ 0) qs
      → for_each (λ q. receive f local from (w.packet q)) qs self
        ≡ for_each (λ q. insert_packet f q from) qs self
  unfolding for_each
  for_each-receive_unasked from local [] self h = refl
  for_each-receive_unasked from local (q ∷ qs) self h =
      rw (receive_unasked f w from local q self (λ e. omega (arith, h.0))) (
        >>=-congr (insert_packet f q from self)
          (λ t _. for_each-receive_unasked from local qs t h.1))

  handle_receipt :
      (from there : SocketAddr) (packet : Packet) (self : MessageHandler)
      → handle_message f (receipt_message f w there packet) from self
        ≡ record self { ia_tx = self.ia_tx ++ receipt f there packet ∷ [] }
  unfolding handle_message route
  handle_receipt from there packet self =
      rw
        (
          f.ack.from_bytes-as_bytes (receipt f there packet) (w.ack (receipt f there packet))
              (w.ack_lem (receipt f there packet)),
          route,
        )
        refl

  -- An acknowledgement that names an entry is noted there, and the entry leaves with the next round.
  receipt_taken :
      (there : SocketAddr) (packet : Packet) (times : ℕ) (self : Transport) (rest : List AckMessage)
      → IsKeyed self.gd_udp.outbox
      → entry_at packet.id packet.n self.gd_udp.outbox
        ≡ some (attempted times (first_entry there packet))
      → self.ia_rx ≡ receipt f there packet ∷ rest
      → (self' : Transport) × (incoming_ack f self ≡ ok self')
        × (self'.ia_rx ≡ rest)
        × (entry_at packet.id packet.n (maintain f.packet self'.gd_udp).outbox ≡ none)
  unfolding incoming_ack take_ack contains_key acknowledged_by first_entry
  receipt_taken there packet times self rest keyed own queue =
      elim (Option-cases (get Text-discrete packet.id self.gd_udp.outbox)) [
        | inl missing ↦
            let clash : none ≡ some (attempted times (first_entry there packet)) =
              sym (entry_at-none packet.id packet.n self.gd_udp.outbox missing) ∙ own in
            cc
        | inr (known, found) ↦
            let name = f.address.to_string there in
            let parsed = f.address.parse-to_string there in
            let noted : GdUdp = record self.gd_udp {
              outbox = note_ack packet.id packet.n there self.gd_udp.outbox;
            } in
            let run =
              process_ack_parsed f.address packet.id packet.n name there self.gd_udp parsed in
            let own' =
              entry_at-process_ack f.packet f.address there packet name there self.gd_udp noted _
                parsed own run in
            (
              record self { gd_udp = noted; ia_rx = rest },
              rw (queue, incoming_ack, take_ack, contains_key, found, take_ack, run) refl,
              refl,
              maintain_settled f.packet noted packet.id packet.n _
                  (process_ack-IsKeyed f.address packet.id packet.n name self.gd_udp noted keyed
                    run)
                  own' (Sets.is_subset_one SocketAddr-discrete there)
                  (Sets.is_subset_one SocketAddr-discrete there),
            )
      ]

  send_message_receipt :
      (key : InnerKey) (mine : SocketAddr) (bytes : Bytes) (ps : List Packet) (self : GdUdp)
      → packetize f.hex bytes key 0 ≡ ok ps
      → send_message f Header.ack key mine bytes self
        ≡ ok (record self { sock = self.sock ++ datagrams f w mine ps })
  unfolding send_message
  send_message_receipt key mine bytes ps self cut = rw cut (for_each-send_plain f w mine ps self)

  -- The acknowledgement of a packet, from the node that received it to the outbox of the node that
  -- sent it. First in the channel of outgoing messages, it is written to the socket once, in
  -- packets that the outbox does not keep; the node that receives these datagrams, in whatever
  -- order, puts the acknowledgement on the transport's channel and changes nothing else but the
  -- pending table; and read from there it settles the packet's entry, if this was sent to the
  -- acknowledging node alone: after the next round it is gone from the outbox. None of these calls
  -- panics.
  pub receipt_settles :
      (self other : Transport) (handler : MessageHandler) (mine there from : SocketAddr)
      (packet : Packet) (times : ℕ) (key : InnerKey) (bytes : Bytes)
      (rest : List (SocketAddr × Message)) (later : List AckMessage)
      → f.message.as_bytes (receipt_message f w there packet) ≡ some bytes
      → other.om_rx ≡ (mine, receipt_message f w there packet) ∷ rest
      → get Text-discrete key handler.pending ≡ none
      → IsKeyed self.gd_udp.outbox
      → entry_at packet.id packet.n self.gd_udp.outbox
        ≡ some (attempted times (first_entry there packet))
      → self.ia_rx ≡ receipt f there packet ∷ later
      → (ps : List Packet) × (outgoing_msg f key other
          ≡ ok (record other {
            om_rx = rest;
            gd_udp = record other.gd_udp { sock = other.gd_udp.sock ++ datagrams f w mine ps };
          }))
        × ((qs : List Packet)
            → Permᴰ ps qs
            → (pending : Dict InnerKey (Dict ℕ Packet)) × (for_each
                  (λ q. receive f mine from (w.packet q))
                  qs
                  handler
                ≡ ok (record handler {
                  pending = pending;
                  ia_tx = handler.ia_tx ++ receipt f there packet ∷ [];
                })))
        × ((self' : Transport) × (incoming_ack f self ≡ ok self')
            × (self'.ia_rx ≡ later)
            × (entry_at packet.id packet.n (maintain f.packet self'.gd_udp).outbox ≡ none))
  receipt_settles self other handler mine there from packet times key bytes rest later written queue
        fresh keyed own told =
      let message = receipt_message f w there packet in
      let (ps, cut, arrived) = deliver f from key 0 message bytes handler written fresh in
      (
        ps,
        outgoing_msg_step f mine key message rest other bytes _ queue written
            (send_message_receipt key mine bytes ps other.gd_udp cut),
        λ qs order.
            let (pending, handed) = arrived qs order in
            (
              pending,
              for_each-receive_unasked from mine qs handler (
                    All-perm _ order (
                      packetize-ret f.hex key 0 bytes ps
                        (f.message.as_bytes-IsByte message bytes written) cut))
                  ∙ handed
                  ∙ ap ok (handle_receipt from there packet (record handler { pending = pending })),
            ),
        receipt_taken there packet times self later keyed own told,
      )
