-- ===== src/Tests/Messages.antt =====
-- Deliveries, redeliveries and gossip at concrete messages.
use mathlib.Core.List.{Memᴰ, Permᴰ}
use udp2p.Base.{
  sym, ap, ◌∙◌, replicate, ◌/◌, ◌++◌, All, ℕ, ◌≡◌, refl, List, [], ◌∷◌, some, none, ok, panic,
  for_each, arith, suc, length,
}
use udp2p.Base.Dict.{Dict, get, insert}
use udp2p.Node.Peer.{PeerInfo, SocketAddr, Text-discrete}
use udp2p.Protocol.{InnerKey, Header, Message, Packet, packetize, KadMessage}
use udp2p.Handler.{MessageHandler, handle_message, insert_packet}
use udp2p.Handler.Delivery.{deliver}
use udp2p.Handler.Redelivery.{handed, deliver_again}
use udp2p.Handler.Faults.{insert_packet_panics}
use udp2p.Base.Codec.{Codec}
use udp2p.Routing.{RoutingTable}
use udp2p.Kad
use udp2p.Kad.{Rpc, Req, Resp, KadFormats, Kademlia, Side}
use udp2p.Kad.Depth.{HasOnePayload, handle_lem}
use udp2p.Gossip
use udp2p.Gossip.{GossipMessage, GossipConfig, GossipService}
use udp2p.Gossip.Spread.{IsSpread, publish_lem, handle_message_twice}
use udp2p.Tests.Instances.{formats, plain_map, reader}

abbrev pub alice : SocketAddr
alice = record { ip = 1; port = 9000 }

abbrev pub bob : SocketAddr
bob = record { ip = 2; port = 9000 }

abbrev pub carol : SocketAddr
carol = record { ip = 3; port = 9000 }

abbrev pub hello : Message
hello = record { head = Header.gossip; msg = 72 ∷ 105 ∷ [] }

abbrev idle : MessageHandler
idle = record { om_tx = []; ia_tx = []; pending = []; kad_tx = []; gossip_tx = [] }

deliver_example :
    (ps : List Packet) × (packetize formats.hex (2 ∷ 72 ∷ 105 ∷ []) (7 ∷ []) 1 ≡ ok ps)
    × ((qs : List Packet)
        → Permᴰ ps qs
        → (pending : Dict InnerKey (Dict ℕ Packet)) × (for_each
              (λ q self. insert_packet formats q alice self)
              qs
              idle
            ≡ ok (handle_message formats hello alice (record idle { pending = pending }))))
unfolding get
deliver_example = deliver formats alice (7 ∷ []) 1 hello (2 ∷ 72 ∷ 105 ∷ []) idle refl refl

-- A message of two packets, of which the first is `part 1` and the second `part 2`.
abbrev part : ℕ → Packet
part n = record { id = 7 ∷ []; n = n; total_n = 2; bytes = n ∷ []; ret = 1 }

abbrev halfway : Dict ℕ Packet → MessageHandler
halfway map = record idle { pending = (7 ∷ [], map) ∷ [] }

-- A message of three packets.
abbrev long : Message
long = record { head = Header.gossip; msg = replicate 3_000 1 }

deliver_again_example :
    (ps : List Packet) × (packetize formats.hex (2 ∷ replicate 3_000 1) (7 ∷ []) 1 ≡ ok ps)
    × ((qs later : List Packet)
        → Permᴰ ps qs
        → All (λ q. Memᴰ q ps) later
        → (pending : Dict InnerKey (Dict ℕ Packet)) × (for_each
              (λ q self. insert_packet formats q alice self)
              (qs ++ later)
              idle
            ≡ ok (record (handed formats alice long (suc (length later)) idle) {
              pending = pending;
            })))
unfolding get
deliver_again_example =
    deliver_again formats alice (7 ∷ []) 1 long (2 ∷ replicate 3_000 1) idle refl refl

insert_packet_panics_example :
    insert_packet formats (part 3) alice (halfway ((1, part 1) ∷ [])) ≡ panic
unfolding get Text-discrete
insert_packet_panics_example =
    insert_packet_panics formats alice (part 3) ((1, part 1) ∷ []) (halfway ((1, part 1) ∷ [])) 2
      refl refl refl (omega arith) (omega arith) (λ e. omega arith) refl

-- A node with one peer known.
abbrev pub own_info : PeerInfo
own_info = record { id = 1 ∷ []; key = replicate 32 1; ip = 1; port = 9000; address = alice }

abbrev pub bob_info : PeerInfo
bob_info = record { id = 2 ∷ []; key = replicate 32 2; ip = 2; port = 9000; address = bob }

abbrev pub table : RoutingTable plain_map
table = record {
  tree =
      (0 ∷ [], record { nodes = (1 ∷ [], own_info) ∷ []; last_updated = 0 })
      ∷ (1 ∷ [], record { nodes = (2 ∷ [], bob_info) ∷ []; last_updated = 0 })
      ∷ [];
  local_info = own_info;
}

abbrev pub kademlia : Kademlia plain_map
kademlia = record {
  routing_table = table;
  to_transport = [];
  from_transport = [];
  pending = [];
  interval = 20_000_000_000;
  ping_pong = 0;
  drawn = 0;
}

abbrev pub config : GossipConfig
config = record {
  id = [];
  history_len = 4;
  history_gossip = 3;
  target = 8;
  low = 4;
  high = 12;
  min_gossip = 2;
  factor = λ n. n / 2;
  interval = 1_000;
  check = 5;
}

abbrev pub service : GossipService plain_map
service = record {
  address = alice;
  public_ip = alice;
  to_gossip_rx = [];
  to_transport_tx = [];
  to_app_tx = [];
  kad = kademlia;
  cache = [];
  config = config;
  heartbeat = 0;
  ping_pong = 0;
}

publish_lem_example :
    (added : List (SocketAddr × Message)) × (record service { to_transport_tx = (bob, hello) ∷ [] }
      ≡ record service { to_transport_tx = service.to_transport_tx ++ added })
    × All (IsSpread alice carol hello) added
unfolding Gossip.publish udp2p.Routing.get_closest_peers
publish_lem_example =
    publish_lem plain_map (λ n. 0) carol hello service
      (record service { to_transport_tx = (bob, hello) ∷ [] }) refl

-- What a gossip message says is read from its bytes.
abbrev pub gossip_codec : Codec GossipMessage
gossip_codec = reader (λ v. some (record { id = v; message_data = v; sender = carol }))

abbrev taken : GossipService plain_map
taken = record service {
  to_app_tx = record { id = 72 ∷ 105 ∷ []; message_data = 72 ∷ 105 ∷ []; sender = carol } ∷ [];
  to_transport_tx = (bob, hello) ∷ [];
  cache = (72 ∷ 105 ∷ [], (hello, 5)) ∷ [];
}

handle_message_twice_example :
    Gossip.handle_message plain_map gossip_codec (λ n. 0) 9 bob hello taken ≡ ok (taken, none)
unfolding Gossip.handle_message get udp2p.Routing.get_closest_peers insert
handle_message_twice_example =
    handle_message_twice plain_map gossip_codec (λ n. 0) (λ n. 0) 5 9 carol bob
      (record { id = 72 ∷ 105 ∷ []; message_data = 72 ∷ 105 ∷ []; sender = carol })
      (record { id = 72 ∷ 105 ∷ []; message_data = 72 ∷ 105 ∷ []; sender = carol }) hello hello
      service
      (taken, some (record { id = 72 ∷ 105 ∷ []; message_data = 72 ∷ 105 ∷ []; sender = carol }))
      refl refl refl refl

-- Bytes that are read both as a request and as a response, with one payload.
abbrev pub kad_formats : KadFormats
kad_formats = record {
  peer = reader (λ v. some bob_info);
  rpc = reader (λ v. some (Rpc.saved v));
  req = reader (λ v. some (record { id = []; sender = v; payload = v }));
  resp = reader (λ v. some (record { request = v; receiver = v; payload = v }));
  kad = reader (λ v. some (KadMessage.request v));
}

one_payload : HasOnePayload kad_formats
one_payload bytes req resp e e' =
    let first : record { id = []; sender = bytes; payload = bytes } ≡ req = cc e in
    let second : record { request = bytes; receiver = bytes; payload = bytes } ≡ resp = cc e' in
    sym (ap (λ (r : Req). r.payload) first) ∙ ap (λ (r : Resp). r.payload) second

handle_lem_example :
    Kad.handle plain_map kad_formats (λ n. []) 7 5 Side.responses (72 ∷ []) kademlia
    ≡ Kad.handle plain_map kad_formats (λ n. []) 7 2 Side.responses (72 ∷ []) kademlia
handle_lem_example =
    handle_lem plain_map kad_formats (λ n. []) 7 3 Side.responses (72 ∷ []) kademlia one_payload
