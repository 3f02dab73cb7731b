-- ===== src/Tests/Lookups.antt =====
-- A lookup, what its answer teaches, and a request that cannot be read.
use udp2p.Kad.{
  bootstrap, Rpc, Req, Resp, KadFormats, Kademlia, default_n_peers, lookup_node, handle_message,
}
use udp2p.Kad.Discovery.{discover}
use udp2p.Node.Peer.{SocketAddr, PeerInfo}
use udp2p.Protocol.{Header, Bytes, Message, KadMessage}
use udp2p.Routing.{RoutingTable, update_peer, get_closest_peers, is_new}
use udp2p.Base.{
  Bool, drop, ℕ, ◌≡◌, refl, List, [], ◌∷◌, ◌++◌, map, Option, some, none, Outcome, ok, panic, All,
  inr, false,
}
use udp2p.Kad
use udp2p.Kad.Messages.{IsRequest, IsResponse}
use udp2p.Kad.Lookup.{lookup_node_lem}
use udp2p.Kad.Meeting.{nodes_known}
use udp2p.Kad.Malformed.{handle_message_panics}
use udp2p.Tests.Instances.{plain_map, reader}
use udp2p.Tests.Flat.{flat, flat_formats}

abbrev peer : ℕ → PeerInfo
peer n = record {
  id = n ∷ [];
  key = n ∷ [];
  ip = n;
  port = 90;
  address = record { ip = n; port = 90 };
}

-- A node that knows itself and one other.
abbrev knowing : Kademlia plain_map
knowing =
    Kad.new
      (record {
        tree =
            (0 ∷ [], record { nodes = (1 ∷ [], peer 1) ∷ []; last_updated = 0 })
            ∷ (1 ∷ [], record { nodes = (2 ∷ [], peer 2) ∷ []; last_updated = 0 })
            ∷ [];
        local_info = peer 1;
      })
      [] 20 0

abbrev ids : ℕ → Bytes
ids n = n ∷ []

abbrev asked : Req
asked = record { id = 9 ∷ []; sender = []; payload = [] }

abbrev result_of : Outcome (Kademlia plain_map) → Kademlia plain_map
result_of (ok self) = self
result_of panic = knowing

abbrev looked_up : Kademlia plain_map
looked_up = result_of (lookup_node plain_map flat_formats ids 5 (peer 3) asked knowing)

lookup_node_lem_example :
    (closest : List PeerInfo) × (answer : Message) × (news : Message) × (texts : List Bytes)
    × (sender : PeerInfo) × (bytes : Bytes) × (get_closest_peers plain_map
          (peer 3)
          default_n_peers
          knowing.routing_table
        ≡ ok closest)
    × (looked_up.to_transport
        ≡ knowing.to_transport
          ++ (((peer 3).address, answer) ∷ map (λ (p : PeerInfo). (p.address, news)) closest))
    × (map flat_formats.peer.from_bytes texts ≡ map some closest)
    × IsResponse flat_formats asked (Rpc.nodes texts) answer
    × (flat_formats.peer.from_bytes bytes ≡ some (peer 3))
    × IsRequest flat_formats sender (Rpc.new_peer bytes) news
unfolding lookup_node get_closest_peers Kad.new udp2p.Routing.update_peer udp2p.Node.Key.get_prefix
    udp2p.Node.Key.get_binary udp2p.Node.Key.xor udp2p.Node.Key.byte_binary udp2p.Base.Dict.get
    udp2p.Node.Peer.Text-discrete
lookup_node_lem_example =
    lookup_node_lem plain_map flat_formats ids 5 (peer 3) asked knowing looked_up refl

abbrev answer : Resp
answer = record {
  request = flat ((9 ∷ []) ∷ [] ∷ [] ∷ []);
  receiver = [];
  payload = flat ((5 ∷ []) ∷ flat (((4 ∷ []) ∷ (4 ∷ []) ∷ (4 ∷ 90 ∷ 4 ∷ 90 ∷ []) ∷ [])) ∷ []);
}

abbrev answer_bytes : Bytes
answer_bytes = flat (answer.request ∷ answer.receiver ∷ answer.payload ∷ [])

abbrev told : Kademlia plain_map
told =
    result_of
      (handle_message plain_map flat_formats ids 5 (KadMessage.response answer_bytes) knowing)

nodes_known_example :
    All (λ p. is_new plain_map p told.routing_table ≡ false) (peer 4 ∷ [])
    × ((other : PeerInfo)
        → is_new plain_map other knowing.routing_table ≡ false
        → is_new plain_map other told.routing_table ≡ false)
unfolding handle_message udp2p.Base.for_each udp2p.Routing.update_peer udp2p.Node.Key.get_prefix
    udp2p.Node.Key.get_binary udp2p.Node.Key.xor Kad.new udp2p.Node.Key.byte_binary
    udp2p.Base.Dict.get udp2p.Node.Peer.Text-discrete is_new udp2p.Base.Dict.insert
nodes_known_example =
    nodes_known plain_map flat_formats ids 5 answer_bytes answer asked
      (flat ((4 ∷ []) ∷ (4 ∷ []) ∷ (4 ∷ 90 ∷ 4 ∷ 90 ∷ []) ∷ []) ∷ []) (peer 4 ∷ []) knowing told
      refl refl refl refl refl

-- Nobody can be read.
abbrev nobody : KadFormats
nobody = record flat_formats { rpc = reader (λ v. none) }

handle_message_panics_example :
    handle_message plain_map nobody ids 5
      (KadMessage.request (flat ((9 ∷ []) ∷ [] ∷ [] ∷ [])))
      knowing
    ≡ panic
handle_message_panics_example =
    handle_message_panics plain_map nobody ids 5
      (KadMessage.request (flat ((9 ∷ []) ∷ [] ∷ [] ∷ []))) knowing (asked, refl, inr refl)

-- A node that knows itself alone asks the node of before.
abbrev joining : Kademlia plain_map
joining =
    Kad.new
      (record {
        tree = (0 ∷ [], record { nodes = (3 ∷ [], peer 3) ∷ []; last_updated = 0 }) ∷ [];
        local_info = peer 3;
      })
      [] 20 0

abbrev first_message : List (SocketAddr × Message) → Message
first_message [] = record { head = Header.gossip; msg = [] }
first_message ((to, message) ∷ rest) = message

abbrev carried : Option KadMessage → Bytes
carried (some (KadMessage.request v)) = v
carried (some (KadMessage.response v)) = v
carried _ = []

abbrev asking : Kademlia plain_map
asking = result_of (bootstrap plain_map flat_formats ids 5 (peer 1).address joining)

abbrev question : Message
question = first_message asking.to_transport

abbrev question_bytes : Bytes
question_bytes = carried (flat_formats.kad.from_bytes question.msg)

abbrev asked_of : Kademlia plain_map
asked_of =
    result_of
      (handle_message plain_map flat_formats ids 6 (KadMessage.request question_bytes) knowing)

abbrev reply : Message
reply = first_message asked_of.to_transport

abbrev reply_bytes : Bytes
reply_bytes = carried (flat_formats.kad.from_bytes reply.msg)

abbrev joined : Kademlia plain_map
joined =
    result_of (handle_message plain_map flat_formats ids 7 (KadMessage.response reply_bytes) asking)

discover_example :
    ((peer 3).address ≡ joining.routing_table.local_info.address)
    × (is_new plain_map joining.routing_table.local_info asked_of.routing_table ≡ false)
    × ((result : RoutingTable plain_map × Bool) × (closest : List PeerInfo) × (update_peer plain_map
            6 joining.routing_table.local_info 0 knowing.routing_table
          ≡ ok result)
        × (get_closest_peers plain_map joining.routing_table.local_info default_n_peers result.0
            ≡ ok closest)
        × All (λ p. is_new plain_map p joined.routing_table ≡ false) closest)
unfolding bootstrap Kad.new update_peer udp2p.Node.Key.get_prefix udp2p.Node.Key.get_binary
    udp2p.Node.Key.xor udp2p.Node.Key.byte_binary udp2p.Base.Dict.get udp2p.Node.Peer.Text-discrete
    handle_message get_closest_peers udp2p.Base.Dict.insert udp2p.Base.Dict.remove
    udp2p.Base.for_each is_new
discover_example =
    discover plain_map flat_formats ids ids 5 6 7 (peer 1).address (peer 3).address joining asking
      joined knowing asked_of question reply question_bytes reply_bytes
      (drop 1 asked_of.to_transport) refl refl refl refl refl refl refl
