-- ===== src/Tests/Networks.antt =====
-- A message and its receipt, from one node to another.
use mathlib.Core.List.{Permᴰ}
use udp2p.Base.{ℕ, ◌≡◌, refl, List, [], ◌∷◌, ◌++◌, map, none, ok, for_each}
use udp2p.Base.Dict.{Dict, get}
use udp2p.Node.Peer.{Text-discrete}
use udp2p.Protocol.{InnerKey, Header, Message, Packet}
use udp2p.Handler.{MessageHandler, handle_message}
use udp2p.GdUdp.{first_entry, maintain}
use udp2p.GdUdp.Lookup.{entry_at}
use udp2p.Transport.{Transport, destination, outgoing_msg, incoming_ack}
use udp2p.Network.{receive, receipt, receipt_message}
use udp2p.Network.Written.{datagrams}
use udp2p.Network.Received.{sent_back}
use udp2p.Network.Sent.{sent_arrives}
use udp2p.Network.Receipt.{receipt_settles}
use udp2p.Tests.Instances.{write_message}
use udp2p.Tests.Messages.{alice, bob}
use udp2p.Tests.Unary.{unary_formats, unary_writers}

abbrev question : Message
question = record { head = Header.request; msg = 72 ∷ 105 ∷ [] }

abbrev quiet : MessageHandler
quiet = record { om_tx = []; ia_tx = []; pending = []; kad_tx = []; gossip_tx = [] }

-- A node with one message to send.
abbrev asking : Transport
asking = record {
  gd_udp = record { addr = alice; message_cache = []; outbox = []; timer = 0; sock = [] };
  ia_rx = [];
  om_rx = (bob, question) ∷ [];
}

not_ack : Header.request ≡ Header.ack → ⊥
not_ack e = cc

sent_arrives_example :
    (ps : List Packet) × (self' : Transport) × (outgoing_msg unary_formats (7 ∷ []) asking
      ≡ ok self')
    × (self'.om_rx ≡ [])
    × (self'.gd_udp.sock
        ≡ asking.gd_udp.sock
          ++ datagrams unary_formats unary_writers (destination asking.gd_udp.addr bob) ps)
    × ((qs : List Packet)
        → Permᴰ ps qs
        → (pending : Dict InnerKey (Dict ℕ Packet)) × (for_each
              (λ q. receive unary_formats bob alice (unary_writers.packet q))
              qs
              quiet
            ≡ ok (
                handle_message unary_formats question alice (record quiet {
                  pending = pending;
                  om_tx = quiet.om_tx ++ map (sent_back unary_formats unary_writers alice bob) qs;
                }))))
unfolding get
sent_arrives_example =
    sent_arrives unary_formats unary_writers asking quiet (7 ∷ []) bob alice bob question []
      (write_message question) not_ack refl refl refl

-- A packet that alice sent to bob, and that bob has answered.
abbrev sent_packet : Packet
sent_packet = record { id = 7 ∷ []; n = 1; total_n = 1; bytes = 0 ∷ 72 ∷ []; ret = 1 }

abbrev waiting : Transport
waiting = record {
  gd_udp = record {
    addr = alice;
    message_cache = [];
    outbox =
        (
          7 ∷ [],
          (1, record { sent_set = bob ∷ []; ack_set = []; packet = sent_packet; attempts = 3 })
              ∷ [],
        )
        ∷ [];
    timer = 0;
    sock = [];
  };
  ia_rx = receipt unary_formats bob sent_packet ∷ [];
  om_rx = [];
}

abbrev answering : Transport
answering = record {
  gd_udp = record { addr = bob; message_cache = []; outbox = []; timer = 0; sock = [] };
  ia_rx = [];
  om_rx = (alice, receipt_message unary_formats unary_writers bob sent_packet) ∷ [];
}

receipt_settles_example :
    (ps : List Packet) × (outgoing_msg unary_formats (9 ∷ []) answering
      ≡ ok (record answering {
        om_rx = [];
        gd_udp = record answering.gd_udp {
          sock = answering.gd_udp.sock ++ datagrams unary_formats unary_writers alice ps;
        };
      }))
    × ((qs : List Packet)
        → Permᴰ ps qs
        → (pending : Dict InnerKey (Dict ℕ Packet)) × (for_each
              (λ q. receive unary_formats alice bob (unary_writers.packet q))
              qs
              quiet
            ≡ ok (record quiet {
              pending = pending;
              ia_tx = quiet.ia_tx ++ receipt unary_formats bob sent_packet ∷ [];
            })))
    × ((self' : Transport) × (incoming_ack unary_formats waiting ≡ ok self')
        × (self'.ia_rx ≡ [])
        × (entry_at sent_packet.id sent_packet.n (maintain unary_formats.packet self'.gd_udp).outbox
            ≡ none))
unfolding get entry_at first_entry Text-discrete
receipt_settles_example =
    receipt_settles unary_formats unary_writers waiting answering quiet alice bob bob sent_packet 2
      (9 ∷ []) (write_message (receipt_message unary_formats unary_writers bob sent_packet)) [] []
      refl refl refl (refl, (refl, refl, refl, tt), tt) refl refl
