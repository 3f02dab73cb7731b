-- ===== src/Kad.antt =====
-- src/discovery/kad.rs: the discovery service. A channel is the list of what was sent on it or waits
-- in it. `now` is the time of a call, and `rand` the keys that `MessageKey::rand` draws one after the
-- other. The methods whose bodies are empty are left out, and so is the branch of `recv` that the
-- timer of pings guards, which is empty too.
mod Calls
pub mod Depth
pub mod Keeps
pub mod Malformed
pub mod Messages
pub mod Lookup
pub mod Meeting
pub mod Answered
pub mod Discovery
pub use Calls.*
use udp2p.Kad.Calls.Rpc.{ping, new_peer, store, find_node, find_value, nodes, value, saved, pong}
use udp2p.Base.{
  ℕ, zero, suc, ◌+◌, ◌≡◌, List, [], ◌∷◌, ◌++◌, map, Option, some, none, Bool, true, false, Outcome,
  ok, panic, ◌>>=◌, unwrap, for_each, if◌then◌else◌,
}
use udp2p.Base.Codec.{Codec}
use udp2p.Node.Peer.{SocketAddr, PeerInfo}
use udp2p.Protocol.{Bytes, InnerKey, Header, Message, KadMessage}
use udp2p.Routing.Linked.{LinkedMap}
use udp2p.Routing.{RoutingTable, update_peer, is_new, get_closest_peers}

pub record Kademlia (l : LinkedMap) : Type 0 where
  pub routing_table : RoutingTable l
  pub to_transport : List (SocketAddr × Message)
  pub from_transport : List (SocketAddr × KadMessage)
  pub pending : List InnerKey
  pub interval : ℕ
  pub ping_pong : ℕ
  pub drawn : ℕ

-- Which of the two handlers a message goes to.
pub data Side : Type 0 where
  requests responses : Side

abbrev pub default_n_peers : ℕ
default_n_peers = 8

-- `as_bytes().unwrap()`.
unfoldable pub written : {A : Type 0} → Codec A → A → Outcome Bytes
written c a = unwrap (c.as_bytes a)

unfoldable pub write_all : {A : Type 0} → Codec A → List A → Outcome (List Bytes)
unfolding written
write_all c [] = ok []
write_all c (a ∷ as_) = written c a >>= (λ bytes. write_all c as_ >>= (λ rest. ok (bytes ∷ rest)))

-- `Kademlia::new`, over channels that nothing was sent on.
unfoldable pub new : {l : LinkedMap} → RoutingTable l → List InnerKey → ℕ → ℕ → Kademlia l
new routing_table pending interval ping_pong = record {
  routing_table = routing_table;
  to_transport = [];
  from_transport = [];
  pending = pending;
  interval = interval;
  ping_pong = ping_pong;
  drawn = 0;
}

module _ (l : LinkedMap) (f : KadFormats) (rand : ℕ → InnerKey) (now : ℕ) where
  unfoldable pub send : SocketAddr → Message → Kademlia l → Kademlia l
  send peer message self = record self { to_transport = self.to_transport ++ (peer, message) ∷ [] }

  unfoldable pub add_peer : Bytes → Kademlia l → Outcome (Kademlia l)
  add_peer peer self =
      unwrap (f.peer.from_bytes peer)
      >>= (λ info. update_peer l now info 0 self.routing_table)
      >>= (λ result. ok (record self { routing_table = result.0 }))

  -- A message of a request, and of a response.
  unfoldable pub request_message : Req → Outcome Message
  unfolding written
  request_message req =
      written f.req req
      >>= (λ bytes. written f.kad (KadMessage.request bytes))
      >>= (λ bytes. ok (record { head = Header.request; msg = bytes }))

  unfoldable pub response_message : Resp → Outcome Message
  unfolding written
  response_message resp =
      written f.resp resp
      >>= (λ bytes. written f.kad (KadMessage.response bytes))
      >>= (λ bytes. ok (record { head = Header.response; msg = bytes }))

  unfoldable pub prepare_nodes_response_message : Req → List PeerInfo → Kademlia l → Outcome Message
  unfolding written write_all response_message
  prepare_nodes_response_message req peers self = write_all f.peer peers >>= (λ nodes_vec.
      written f.req req >>= (λ request.
        written f.peer self.routing_table.local_info >>= (λ receiver.
          written f.rpc (nodes nodes_vec) >>= (λ payload.
            response_message
              (record { request = request; receiver = receiver; payload = payload })))))

  -- A request of this node with a fresh id: the id, the message and the state with the id drawn.
  unfoldable pub prepare_request : Rpc → Kademlia l → Outcome (InnerKey × Message × Kademlia l)
  unfolding written request_message
  prepare_request rpc self =
      let id = rand self.drawn in
      written f.peer self.routing_table.local_info >>= (λ sender. written f.rpc rpc >>= (λ payload.
        request_message (record { id = id; sender = sender; payload = payload })
        >>= (λ message. ok (id, message, record self { drawn = self.drawn + 1 }))))

  unfoldable pub prepare_find_node_message :
      PeerInfo → Option Req → Kademlia l → Outcome (InnerKey × Message × Kademlia l)
  unfolding written request_message prepare_request
  prepare_find_node_message peer (some req) self =
      request_message req >>= (λ message. ok (req.id, message, self))
  prepare_find_node_message peer none self =
      written f.peer peer >>= (λ bytes. prepare_request (find_node bytes) self)

  unfoldable pub prepare_new_peer_message :
      PeerInfo → Kademlia l → Outcome (InnerKey × Message × Kademlia l)
  unfolding written prepare_request
  prepare_new_peer_message peer self =
      written f.peer peer >>= (λ bytes. prepare_request (new_peer bytes) self)

  unfoldable pub prepare_ping_message : Kademlia l → Outcome (InnerKey × Message × Kademlia l)
  unfolding prepare_request
  prepare_ping_message self = prepare_request ping self

  unfoldable pub prepare_pong_response : PeerInfo → Req → Kademlia l → Outcome Message
  unfolding written response_message
  prepare_pong_response peer req self = written f.peer self.routing_table.local_info >>= (λ own.
      written f.req req >>= (λ request. written f.peer peer >>= (λ receiver.
        written f.rpc (pong own) >>= (λ payload.
          response_message
            (record { request = request; receiver = receiver; payload = payload })))))

  unfoldable pub bootstrap : SocketAddr → Kademlia l → Outcome (Kademlia l)
  unfolding send add_peer written prepare_find_node_message
  bootstrap address self =
      prepare_find_node_message self.routing_table.local_info none self >>= (λ prepared.
        written f.peer self.routing_table.local_info
        >>= (λ own. add_peer own (send address prepared.1 prepared.2)))

  unfoldable pub add_if_written : PeerInfo → Kademlia l → Outcome (Kademlia l)
  unfolding add_peer
  add_if_written node self = elim (f.peer.as_bytes node) [
    | none ↦ ok self
    | some bytes ↦ add_peer bytes self
  ]

  unfoldable pub send_to_peers : List PeerInfo → Message → Kademlia l → Kademlia l
  unfolding send
  send_to_peers [] message self = self
  send_to_peers (peer ∷ peers) message self =
      send_to_peers peers message (send peer.address message self)

  unfoldable pub lookup_node : PeerInfo → Req → Kademlia l → Outcome (Kademlia l)
  unfolding add_if_written prepare_new_peer_message prepare_nodes_response_message send
      send_to_peers
  lookup_node node req self =
      get_closest_peers l node default_n_peers self.routing_table >>= (λ closest_peers.
        add_if_written node self >>= (λ self'. prepare_new_peer_message node self' >>= (λ prepared.
          prepare_nodes_response_message req closest_peers prepared.2 >>= (λ resp.
            ok (send_to_peers closest_peers prepared.1 (send node.address resp prepared.2))))))

  -- `match rpc` of `handle_request`; `next` is `handle_response`.
  unfoldable pub match_request :
      (Bytes → Kademlia l → Outcome (Kademlia l))
      → Bytes
      → Req
      → PeerInfo
      → Rpc
      → Kademlia l
      → Outcome (Kademlia l)
  unfolding lookup_node add_peer prepare_pong_response send
  match_request next bytes request sender (find_node node) self = elim (f.peer.from_bytes node) [
    | none ↦ ok self
    | some peer ↦ lookup_node peer request self
  ]
  match_request next bytes request sender (new_peer peer) self = add_peer peer self
  match_request next bytes request sender (find_value v) self = ok self
  match_request next bytes request sender (store k v) self = ok self
  match_request next bytes request sender ping self =
      prepare_pong_response sender request self >>= (λ resp. ok (send sender.address resp self))
  match_request next bytes request sender (nodes v) self = next bytes self
  match_request next bytes request sender (value v) self = next bytes self
  match_request next bytes request sender (saved k) self = next bytes self
  match_request next bytes request sender (pong peer) self = next bytes self

  unfoldable pub request_body :
      (Bytes → Kademlia l → Outcome (Kademlia l)) → Bytes → Kademlia l → Outcome (Kademlia l)
  unfolding written add_peer match_request
  request_body next bytes self = elim (f.req.from_bytes bytes) [
    | none ↦ ok self
    | some request ↦
        let (id, from, call) = req_to_components f request in
        unwrap from >>= (λ sender. written f.peer sender >>= (λ own. add_peer own self >>= (λ self'.
          unwrap call >>= (λ rpc. match_request next bytes request sender rpc self'))))
  ]

  -- One of the nodes that a response brings.
  unfoldable pub meet_node : Bytes → Kademlia l → Outcome (Kademlia l)
  unfolding add_peer bootstrap
  meet_node peer self = elim (f.peer.from_bytes peer) [
    | none ↦ ok self
    | some info ↦ add_peer peer self >>= (λ self'.
        if is_new l info self.routing_table then bootstrap info.address self' else ok self')
  ]

  -- `match rpc` of `handle_response`; `next` is `handle_request`.
  unfoldable pub match_response :
      (Bytes → Kademlia l → Outcome (Kademlia l)) → Bytes → Rpc → Kademlia l → Outcome (Kademlia l)
  unfolding meet_node add_peer
  match_response next bytes (nodes peers) self = for_each meet_node peers self
  match_response next bytes (value v) self = ok self
  match_response next bytes (saved k) self = ok self
  match_response next bytes (pong peer) self = add_peer peer self
  match_response next bytes (find_node node) self = next bytes self
  match_response next bytes (new_peer peer) self = next bytes self
  match_response next bytes (find_value v) self = next bytes self
  match_response next bytes (store k v) self = next bytes self
  match_response next bytes ping self = next bytes self

  unfoldable pub response_body :
      (Bytes → Kademlia l → Outcome (Kademlia l)) → Bytes → Kademlia l → Outcome (Kademlia l)
  unfolding match_response
  response_body next bytes self = elim (f.resp.from_bytes bytes) [
    | none ↦ ok self
    | some rm ↦
        let (req, receiver, call) = resp_to_components f rm in
        elim req [
          | none ↦ ok self
          | some request ↦ unwrap call >>= (λ rpc. match_response next bytes rpc self)
        ]
  ]

  -- `handle_request` and `handle_response`, which call each other, with so many calls left.
  unfoldable pub handle : ℕ → Side → Bytes → Kademlia l → Outcome (Kademlia l)
  unfolding request_body response_body
  handle zero side bytes self = panic
  handle (suc calls) requests bytes self = request_body (handle calls responses) bytes self
  handle (suc calls) responses bytes self = response_body (handle calls requests) bytes self

  unfoldable pub handle_message : KadMessage → Kademlia l → Outcome (Kademlia l)
  unfolding handle
  handle_message (KadMessage.request req) self = handle 2 requests req self
  handle_message (KadMessage.response resp) self = handle 2 responses resp self
  handle_message KadMessage.kill self = ok self

  unfoldable pub recv : Kademlia l → Outcome (Kademlia l)
  unfolding handle_message
  recv self = elim self.from_transport [
    | [] ↦ ok self
    | (src, message) ∷ rest ↦ handle_message message (record self { from_transport = rest })
  ]
