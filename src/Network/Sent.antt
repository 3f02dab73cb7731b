-- ===== src/Network/Sent.antt =====
-- A message from the channel of src/transport/transport.rs at one node to the channels of
-- src/transport/handler.rs at another.
use mathlib.Core.List.{Permᴰ}
use udp2p.Base.{
  ℕ, suc, ◌≡◌, ◌≢◌, refl, sym, subst, ap, ◌∙◌, List, [], ◌∷◌, ◌++◌, map, some, none, ok, ◌>>=◌,
  for_each, length, All,
}
use udp2p.Base.Codec.{Hex}
use udp2p.Node.Key.{IsByte}
use udp2p.Base.Dict.{Dict, get}
use udp2p.Node.Peer.{SocketAddr, Text-discrete}
use udp2p.Protocol.{Bytes, InnerKey, Header, Message, Packet, packetize}
use udp2p.Protocol.Packetize.{IsNumbered, contents-packetize}
use udp2p.Handler.{Formats, MessageHandler, handle_message}
use udp2p.Base.Perm.{All-perm}
use udp2p.Handler.Delivery.{deliver}
use udp2p.Transport.{Transport, destination, send_all, outgoing_msg}
use udp2p.Transport.Outgoing.{outgoing_msg_step, send_message_reliable}
use udp2p.Network.{Writers, receive}
use udp2p.Network.Written.{datagrams, sock-send_all}
use udp2p.Network.Received.{with_om, handle_message-with_om, sent_back, for_each-receive}

IsNumbered-ret :
    (id : InnerKey) (total ret n : ℕ) (ps : List Packet)
    → IsNumbered id total ret n ps
    → All (λ p. p.ret ≡ ret) ps
IsNumbered-ret id total ret n [] v = tt
IsNumbered-ret id total ret n (p ∷ ps) v = (v.2, IsNumbered-ret id total ret (suc n) ps v.4)

-- Every packet of a message asks for the receipt that the message was cut with.
pub packetize-ret :
    (hex : Hex) (id : InnerKey) (ret : ℕ) (bytes : Bytes) (ps : List Packet)
    → All IsByte bytes
    → packetize hex bytes id ret ≡ ok ps
    → All (λ p. p.ret ≡ ret) ps
packetize-ret hex id ret bytes ps v e =
    let (made, cut, whole, some_made, numbered) = contents-packetize hex id ret bytes v in
    let both : ok made ≡ ok ps = sym cut ∙ e in
    let same : made ≡ ps = cc both in
    subst (All (λ p. p.ret ≡ ret)) same (IsNumbered-ret id (length made) ret 1 made numbered)

-- A message that is no acknowledgement and can be written, first in the channel of one node's
-- transport, and a handler at another node that has nothing pending under the id that is drawn for
-- it: `outgoing_msg` does not panic, takes the message from the channel and hands the socket one
-- datagram for each packet, to one destination; and in whatever order the other node receives
-- these datagrams, it does not panic, it hands the message on exactly once, and it sends one
-- acknowledgement back for each datagram.
pub sent_arrives :
    (f : Formats) (w : Writers f) (self : Transport) (other : MessageHandler) (key : InnerKey)
    (to from local : SocketAddr) (message : Message) (rest : List (SocketAddr × Message))
    (bytes : Bytes)
    → message.head ≢ Header.ack
    → self.om_rx ≡ (to, message) ∷ rest
    → f.message.as_bytes message ≡ some bytes
    → get Text-discrete key other.pending ≡ none
    → (ps : List Packet) × (self' : Transport) × (outgoing_msg f key self ≡ ok self')
      × (self'.om_rx ≡ rest)
      × (self'.gd_udp.sock ≡ self.gd_udp.sock ++ datagrams f w (destination self.gd_udp.addr to) ps)
      × ((qs : List Packet)
          → Permᴰ ps qs
          → (pending : Dict InnerKey (Dict ℕ Packet)) × (for_each
                (λ q. receive f local from (w.packet q))
                qs
                other
              ≡ ok (
                  handle_message f message from (record other {
                    pending = pending;
                    om_tx = other.om_tx ++ map (sent_back f w from local) qs;
                  }))))
sent_arrives f w self other key to from local message rest bytes head queue written fresh =
    let (ps, cut, arrived) = deliver f from key 1 message bytes other written fresh in
    (
      ps,
      record self { gd_udp = send_all f to ps self.gd_udp; om_rx = rest },
      outgoing_msg_step f to key message rest self bytes (send_all f to ps self.gd_udp) queue
          written (send_message_reliable f to message.head key bytes ps self.gd_udp head cut),
      refl,
      sock-send_all f w to ps self.gd_udp,
      λ qs order.
          let (pending, handed) = arrived qs order in
          (
            pending,
            for_each-receive f w from local qs other.om_tx other (
                  All-perm _ order (
                    packetize-ret f.hex key 1 bytes ps
                      (f.message.as_bytes-IsByte message bytes written) cut))
                ∙ ap
                    (λ o.
                      o
                      >>= (λ t. ok (with_om (other.om_tx ++ map (sent_back f w from local) qs) t)))
                    handed
                ∙ ap ok (
                    sym (
                      handle_message-with_om f from message
                        (other.om_tx ++ map (sent_back f w from local) qs)
                        (record other { pending = pending }))),
          ),
    )
