-- ===== src/Kad/Keeps.antt =====
-- What the handlers of src/discovery/kad.rs do to the routing table.
use udp2p.Base.{
  ℕ, zero, suc, ◌+◌, ◌≡◌, List, [], ◌∷◌, none, Option-cases, Bool-cases, Outcome, ok, panic, ◌>>=◌,
  >>=-eq-ok, unwrap, for_each-inv, inl, inr, subst,
}
use udp2p.Node.Peer.{SocketAddr, PeerInfo}
use udp2p.Protocol.{Bytes, InnerKey, Message, KadMessage}
use udp2p.Routing.Linked.{LinkedMap}
use udp2p.Routing.{update_peer, get_closest_peers, is_new}
use udp2p.Routing.Invariant.{IsTable, update_peer-IsTable}
use udp2p.Kad.{
  Rpc, Req, KadFormats, Kademlia, Side, requests, responses, default_n_peers, written, send,
  add_peer, request_message, prepare_request, prepare_find_node_message, prepare_new_peer_message,
  prepare_nodes_response_message, prepare_pong_response, bootstrap, add_if_written, send_to_peers,
  lookup_node, match_request, request_body, meet_node, match_response, response_body, handle,
  handle_message,
}

module _ (l : LinkedMap) (f : KadFormats) (rand : ℕ → InnerKey) (now : ℕ) where
  abbrev pub Safe : Kademlia l → Type 0
  Safe k = IsTable l k.routing_table

  -- Where the code returns, the table is as it should be.
  abbrev pub Keeps : Outcome (Kademlia l) → Type 0
  Keeps m = (k : Kademlia l) → m ≡ ok k → Safe k

  abbrev Prepares : Outcome (InnerKey × Message × Kademlia l) → Type 0
  Prepares m = (r : InnerKey × Message × Kademlia l) → m ≡ ok r → Safe r.2

  Keeps-ok : (k : Kademlia l) → Safe k → Keeps (ok k)
  Keeps-ok k v k' e = let same : k ≡ k' = cc e in subst Safe same v

  Keeps-bind {ℓ} :
      {A : Type ℓ} (m : Outcome A) (g : A → Outcome (Kademlia l))
      → ((a : A) → m ≡ ok a → Keeps (g a))
      → Keeps (m >>= g)
  Keeps-bind m g h k e = let (a, first, rest) = >>=-eq-ok m g e in h a first k rest

  pub add_peer-Keeps :
      (peer : Bytes) (self : Kademlia l) → Safe self → Keeps (add_peer l f rand now peer self)
  unfolding add_peer
  add_peer-Keeps peer self v =
      Keeps-bind
        (unwrap (f.peer.from_bytes peer) >>= (λ info. update_peer l now info 0 self.routing_table))
        _
        (λ result e.
          let (info, read, done) =
            >>=-eq-ok (unwrap (f.peer.from_bytes peer))
              (λ info. update_peer l now info 0 self.routing_table) e in
          Keeps-ok _ (update_peer-IsTable l now info 0 self.routing_table result v done).0)

  prepare_request-Prepares :
      (rpc : Rpc) (self : Kademlia l) → Safe self → Prepares (prepare_request l f rand now rpc self)
  unfolding prepare_request
  prepare_request-Prepares rpc self v r e =
      let (sender, one, e1) = >>=-eq-ok (written f.peer self.routing_table.local_info) _ e in
      let (payload, two, e2) = >>=-eq-ok (written f.rpc rpc) _ e1 in
      let (message, three, e3) =
        >>=-eq-ok
          (request_message l f rand now
            (record { id = rand self.drawn; sender = sender; payload = payload }))
          _ e2 in
      let same : record self { drawn = self.drawn + 1 } ≡ r.2 = cc e3 in subst Safe same v

  find_node-Prepares :
      (peer : PeerInfo) (self : Kademlia l)
      → Safe self
      → Prepares (prepare_find_node_message l f rand now peer none self)
  unfolding prepare_find_node_message
  find_node-Prepares peer self v r e =
      let (bytes, wrote, rest) = >>=-eq-ok (written f.peer peer) _ e in
      prepare_request-Prepares (Rpc.find_node bytes) self v r rest

  new_peer-Prepares :
      (peer : PeerInfo) (self : Kademlia l)
      → Safe self
      → Prepares (prepare_new_peer_message l f rand now peer self)
  unfolding prepare_new_peer_message
  new_peer-Prepares peer self v r e =
      let (bytes, wrote, rest) = >>=-eq-ok (written f.peer peer) _ e in
      prepare_request-Prepares (Rpc.new_peer bytes) self v r rest

  pub bootstrap-Keeps :
      (address : SocketAddr) (self : Kademlia l)
      → Safe self
      → Keeps (bootstrap l f rand now address self)
  unfolding bootstrap prepare_find_node_message send
  bootstrap-Keeps address self v =
      Keeps-bind (prepare_find_node_message l f rand now self.routing_table.local_info none self) _
        (λ prepared e. Keeps-bind (written f.peer self.routing_table.local_info) _ (λ own _.
          add_peer-Keeps own (send l f rand now address prepared.1 prepared.2)
            (find_node-Prepares self.routing_table.local_info self v prepared e)))

  add_if_written-Keeps :
      (node : PeerInfo) (self : Kademlia l)
      → Safe self
      → Keeps (add_if_written l f rand now node self)
  unfolding add_if_written
  add_if_written-Keeps node self v = elim (Option-cases (f.peer.as_bytes node)) [
    | inl e ↦ rw (e, add_if_written) (Keeps-ok self v)
    | inr (bytes, e) ↦ rw (e, add_if_written) (add_peer-Keeps bytes self v)
  ]

  send_to_peers-Safe :
      (peers : List PeerInfo) (message : Message) (self : Kademlia l)
      → Safe self
      → Safe (send_to_peers l f rand now peers message self)
  unfolding send_to_peers send
  send_to_peers-Safe [] message self v = v
  send_to_peers-Safe (peer ∷ peers) message self v =
      send_to_peers-Safe peers message (send l f rand now peer.address message self) v

  lookup_node-Keeps :
      (node : PeerInfo) (req : Req) (self : Kademlia l)
      → Safe self
      → Keeps (lookup_node l f rand now node req self)
  unfolding lookup_node send
  lookup_node-Keeps node req self v =
      Keeps-bind (get_closest_peers l node default_n_peers self.routing_table) _ (λ closest _.
        Keeps-bind (add_if_written l f rand now node self) _ (λ self' added.
          Keeps-bind (prepare_new_peer_message l f rand now node self') _ (λ prepared e.
            Keeps-bind (prepare_nodes_response_message l f rand now req closest prepared.2) _
              (λ resp _. Keeps-ok _ (
                send_to_peers-Safe closest prepared.1
                  (send l f rand now node.address resp prepared.2)
                  (new_peer-Prepares node self' (add_if_written-Keeps node self v self' added)
                    prepared e))))))

  -- The other handler keeps the table.
  abbrev NextKeeps : (Bytes → Kademlia l → Outcome (Kademlia l)) → Type 0
  NextKeeps next = (bytes : Bytes) (self : Kademlia l) → Safe self → Keeps (next bytes self)

  match_request-Keeps :
      (next : Bytes → Kademlia l → Outcome (Kademlia l)) (bytes : Bytes) (request : Req)
      (sender : PeerInfo) (rpc : Rpc) (self : Kademlia l)
      → NextKeeps next
      → Safe self
      → Keeps (match_request l f rand now next bytes request sender rpc self)
  unfolding match_request send
  match_request-Keeps next bytes request sender (Rpc.find_node node) self h v =
      elim (Option-cases (f.peer.from_bytes node)) [
        | inl e ↦ rw (e, match_request) (Keeps-ok self v)
        | inr (peer, e) ↦ rw (e, match_request) (lookup_node-Keeps peer request self v)
      ]
  match_request-Keeps next bytes request sender (Rpc.new_peer peer) self h v =
      add_peer-Keeps peer self v
  match_request-Keeps next bytes request sender (Rpc.find_value x) self h v = Keeps-ok self v
  match_request-Keeps next bytes request sender (Rpc.store k x) self h v = Keeps-ok self v
  match_request-Keeps next bytes request sender Rpc.ping self h v =
      Keeps-bind (prepare_pong_response l f rand now sender request self) _ (λ resp _. Keeps-ok _ v)
  match_request-Keeps next bytes request sender (Rpc.nodes x) self h v = h bytes self v
  match_request-Keeps next bytes request sender (Rpc.value x) self h v = h bytes self v
  match_request-Keeps next bytes request sender (Rpc.saved x) self h v = h bytes self v
  match_request-Keeps next bytes request sender (Rpc.pong x) self h v = h bytes self v

  request_body-Keeps :
      (next : Bytes → Kademlia l → Outcome (Kademlia l)) (bytes : Bytes) (self : Kademlia l)
      → NextKeeps next
      → Safe self
      → Keeps (request_body l f rand now next bytes self)
  unfolding request_body
  request_body-Keeps next bytes self h v = elim (Option-cases (f.req.from_bytes bytes)) [
    | inl e ↦ rw (e, request_body) (Keeps-ok self v)
    | inr (request, e) ↦
        rw (e, request_body)
          (Keeps-bind (unwrap (f.peer.from_bytes request.sender)) _ (λ sender _.
            Keeps-bind (written f.peer sender) _ (λ own _.
              Keeps-bind (add_peer l f rand now own self) _ (λ self' added.
                Keeps-bind (unwrap (f.rpc.from_bytes request.payload)) _ (λ rpc _.
                  match_request-Keeps next bytes request sender rpc self' h
                    (add_peer-Keeps own self v self' added))))))
  ]

  meet_node-Keeps :
      (peer : Bytes) (self : Kademlia l) → Safe self → Keeps (meet_node l f rand now peer self)
  unfolding meet_node
  meet_node-Keeps peer self v = elim (Option-cases (f.peer.from_bytes peer)) [
    | inl e ↦ rw (e, meet_node) (Keeps-ok self v)
    | inr (info, e) ↦
        rw (e, meet_node)
          (Keeps-bind (add_peer l f rand now peer self) _ (λ self' added.
            let v' = add_peer-Keeps peer self v self' added in
            elim (Bool-cases (is_new l info self.routing_table)) [
              | inl new ↦ rw new (bootstrap-Keeps info.address self' v')
              | inr known ↦ rw known (Keeps-ok self' v')
            ]))
  ]

  match_response-Keeps :
      (next : Bytes → Kademlia l → Outcome (Kademlia l)) (bytes : Bytes) (rpc : Rpc)
      (self : Kademlia l)
      → NextKeeps next
      → Safe self
      → Keeps (match_response l f rand now next bytes rpc self)
  unfolding match_response
  match_response-Keeps next bytes (Rpc.nodes peers) self h v = λ k e.
      for_each-inv Safe (meet_node l f rand now)
        (λ peer s t p done. meet_node-Keeps peer s p t done) peers self k v e
  match_response-Keeps next bytes (Rpc.value x) self h v = Keeps-ok self v
  match_response-Keeps next bytes (Rpc.saved x) self h v = Keeps-ok self v
  match_response-Keeps next bytes (Rpc.pong peer) self h v = add_peer-Keeps peer self v
  match_response-Keeps next bytes (Rpc.find_node x) self h v = h bytes self v
  match_response-Keeps next bytes (Rpc.new_peer x) self h v = h bytes self v
  match_response-Keeps next bytes (Rpc.find_value x) self h v = h bytes self v
  match_response-Keeps next bytes (Rpc.store k x) self h v = h bytes self v
  match_response-Keeps next bytes Rpc.ping self h v = h bytes self v

  response_body-Keeps :
      (next : Bytes → Kademlia l → Outcome (Kademlia l)) (bytes : Bytes) (self : Kademlia l)
      → NextKeeps next
      → Safe self
      → Keeps (response_body l f rand now next bytes self)
  unfolding response_body
  response_body-Keeps next bytes self h v = elim (Option-cases (f.resp.from_bytes bytes)) [
    | inl e ↦ rw (e, response_body) (Keeps-ok self v)
    | inr (rm, e) ↦ elim (Option-cases (f.req.from_bytes rm.request)) [
      | inl e' ↦ rw (e, response_body, e') (Keeps-ok self v)
      | inr (request, e') ↦
          rw (e, response_body, e')
            (Keeps-bind (unwrap (f.rpc.from_bytes rm.payload)) _
              (λ rpc _. match_response-Keeps next bytes rpc self h v))
    ]
  ]

  no_result : (k : Kademlia l) → panic ≡ ok k → ⊥
  no_result k e = cc

  handle-Keeps :
      (calls : ℕ) (side : Side) (bytes : Bytes) (self : Kademlia l)
      → Safe self
      → Keeps (handle l f rand now calls side bytes self)
  unfolding handle
  handle-Keeps zero side bytes self v = λ k e. absurd (no_result k e)
  handle-Keeps (suc calls) requests bytes self v =
      request_body-Keeps _ bytes self (λ b s. handle-Keeps calls responses b s) v
  handle-Keeps (suc calls) responses bytes self v =
      response_body-Keeps _ bytes self (λ b s. handle-Keeps calls requests b s) v

  -- Where the discovery service's `handle_message` returns, the routing table is still as it
  -- should be, whatever the message: it is not empty, no bucket holds more than 30 peers, and
  -- every peer lies under a prefix of its own distance.
  pub handle_message-IsTable :
      (message : KadMessage) (self self' : Kademlia l)
      → IsTable l self.routing_table
      → handle_message l f rand now message self ≡ ok self'
      → IsTable l self'.routing_table
  unfolding handle_message
  handle_message-IsTable (KadMessage.request req) self self' v e =
      handle-Keeps 2 requests req self v self' e
  handle_message-IsTable (KadMessage.response resp) self self' v e =
      handle-Keeps 2 responses resp self v self' e
  handle_message-IsTable KadMessage.kill self self' v e = Keeps-ok self v self' e
