-- ===== src/Handler/Delivery.antt =====
-- From one `packetize` to the other end's `handle_message`: src/protocol/protocol.rs and
-- src/transport/handler.rs together.
use mathlib.Core.List.{Permᴰ}
use udp2p.Base.{ℕ, ◌≡◌, ap, ◌∙◌, List, Option, some, none, ok, for_each, length, All}
use udp2p.Base.Perm.{All-perm, Apart-perm, length-perm}
use udp2p.Base.Dict.{Dict, get}
use udp2p.Node.Peer.{SocketAddr, Text-discrete}
use udp2p.Protocol.{Bytes, InnerKey, Packet, Message, packetize}
use udp2p.Protocol.Packetize.{contents, contents-packetize}
use udp2p.Handler.{Formats, MessageHandler, handle_if_some, handle_message, insert_packet}
use udp2p.Handler.Arrival.{IsPacketOf, IsNumbered-All, IsNumbered-Distinct}
use udp2p.Handler.Collect.{IsDelivered}
use udp2p.Handler.Reassembly.{receive_arrivals}

-- The packets of a message, and what they leave behind in whatever order they come in.
pub arrive :
    (f : Formats) (src : SocketAddr) (id : InnerKey) (ret : ℕ) (message : Message) (bytes : Bytes)
    (s : MessageHandler)
    → f.message.as_bytes message ≡ some bytes
    → get Text-discrete id s.pending ≡ none
    → (ps : List Packet) × (packetize f.hex bytes id ret ≡ ok ps)
      × (contents f.hex ps ≡ some bytes)
      × All (IsPacketOf id ps) ps
      × ((qs : List Packet)
          → Permᴰ ps qs
          → (pending : Dict InnerKey (Dict ℕ Packet)) × (for_each
                (λ q self. insert_packet f q src self)
                qs
                s
              ≡ ok (handle_message f message src (record s { pending = pending })))
            × IsDelivered id ps pending)
unfolding handle_if_some
arrive f src id ret message bytes s written new =
    let (ps, cut, carried, some_ps, numbered) =
      contents-packetize f.hex id ret bytes (f.message.as_bytes-IsByte message bytes written) in
    let own = IsNumbered-All id ret ps numbered in
    (
      ps,
      cut,
      carried,
      own,
      λ qs order.
          let (pending, done, delivered) =
            receive_arrivals f src id ps bytes qs s carried new some_ps (All-perm _ order own)
              (Apart-perm _ order (IsNumbered-Distinct id (length ps) ret 1 ps numbered))
              (length-perm order) in
          (
            pending,
            done
                ∙ ap
                    (λ (o : Option Message).
                      ok (handle_if_some f o src (record s { pending = pending })))
                    (f.message.from_bytes-as_bytes message bytes written),
            delivered,
          ),
    )

-- A message that was written to bytes and cut into packets arrives: in whatever order its packets
-- come in, at a handler that has no packet of their id pending, no step panics and in the end the
-- message has been handed on exactly once, and nothing else has changed but the pending table.
pub deliver :
    (f : Formats) (src : SocketAddr) (id : InnerKey) (ret : ℕ) (message : Message) (bytes : Bytes)
    (s : MessageHandler)
    → f.message.as_bytes message ≡ some bytes
    → get Text-discrete id s.pending ≡ none
    → (ps : List Packet) × (packetize f.hex bytes id ret ≡ ok ps)
      × ((qs : List Packet)
          → Permᴰ ps qs
          → (pending : Dict InnerKey (Dict ℕ Packet)) × (for_each
                (λ q self. insert_packet f q src self)
                qs
                s
              ≡ ok (handle_message f message src (record s { pending = pending }))))
deliver f src id ret message bytes s written new =
    let (ps, cut, carried, own, arrival) = arrive f src id ret message bytes s written new in
    (ps, cut, λ qs order. let (pending, done, delivered) = arrival qs order in (pending, done))
