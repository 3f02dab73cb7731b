-- ===== src/Kad/Answered.antt =====
-- What a node of src/discovery/kad.rs sends and learns when another asks it for a node.
use mathlib.Core.List
use udp2p.Base.{
  ℕ, ◌≡◌, refl, sym, subst, ap, ◌∙◌, List, [], ◌∷◌, ◌++◌, map, none, some, Option-cases, Bool, ok,
  >>=-eq-ok, false, inl, inr,
}
use udp2p.Node.Peer.{SocketAddr, PeerInfo}
use udp2p.Protocol.{Bytes, InnerKey, Message, KadMessage}
use udp2p.Routing.{RoutingTable, update_peer, get_closest_peers, is_new}
use udp2p.Routing.Linked.{LinkedMap}
use udp2p.Kad.{
  Rpc, Req, KadFormats, Kademlia, default_n_peers, written, send, add_peer,
  prepare_find_node_message, bootstrap, add_if_written, prepare_new_peer_message,
  prepare_nodes_response_message, send_to_peers, lookup_node, match_request, request_body, handle,
  handle_message,
}
use udp2p.Kad.Messages.{
  IsRequest, IsResponse, written-from_bytes, find_node_message, new_peer_message,
}
use udp2p.Kad.Lookup.{add_peer-to_transport, lookup_node_lem}
use udp2p.Kad.Meeting.{Knows, Learns, add_peer-Knows, add_peer-Learns}

-- What is left of two lists with one beginning.
append_cancel : {A : Type 0} (xs : List A) {ys zs : List A} → xs ++ ys ≡ xs ++ zs → ys ≡ zs
append_cancel [] e = e
append_cancel (x ∷ xs) e = append_cancel xs (List.tail-eq_of_cons-eq e)

module _ (l : LinkedMap) (f : KadFormats) (rand : ℕ → InnerKey) (now : ℕ) where
  pub bootstrap-sent :
      (address : SocketAddr) (self self' : Kademlia l)
      → bootstrap l f rand now address self ≡ ok self'
      → (message : Message) × (bytes : Bytes) × (self'.to_transport
          ≡ self.to_transport ++ (address, message) ∷ [])
        × (f.peer.from_bytes bytes ≡ some self.routing_table.local_info)
        × IsRequest f self.routing_table.local_info (Rpc.find_node bytes) message
  unfolding bootstrap send
  bootstrap-sent address self self' e =
      let own_info = self.routing_table.local_info in
      let (prepared, prepares, e1) =
        >>=-eq-ok (prepare_find_node_message l f rand now own_info none self) _ e in
      let (own, wrote, adds) = >>=-eq-ok (written f.peer own_info) _ e1 in
      let (bytes, read, asked, drawn) =
        find_node_message l f rand now own_info self prepared prepares in
      (
        prepared.1,
        bytes,
        add_peer-to_transport l f rand now own (send l f rand now address prepared.1 prepared.2)
              self' adds
            ∙ ap (λ (s : Kademlia l). s.to_transport ++ (address, prepared.1) ∷ []) (sym drawn),
        read,
        asked,
      )

  table-send_to_peers :
      (peers : List PeerInfo) (message : Message) (self : Kademlia l)
      → (send_to_peers l f rand now peers message self).routing_table ≡ self.routing_table
  unfolding send_to_peers send
  table-send_to_peers [] message self = refl
  table-send_to_peers (p ∷ peers) message self = table-send_to_peers peers message _

  add_if_written-Learns :
      (node : PeerInfo) (self self' : Kademlia l)
      → add_if_written l f rand now node self ≡ ok self'
      → Learns l f rand now self self'
  unfolding add_if_written
  add_if_written-Learns node self self' e = elim (Option-cases (f.peer.as_bytes node)) [
    | inl unwritten ↦
        let made : ok self ≡ ok self' = rw (unwritten, add_if_written) at e in
        let same : self ≡ self' = cc made in
        λ other known. subst (λ (s : Kademlia l). Knows l f rand now s other) same known
    | inr (bytes, wrote) ↦
        add_peer-Learns l f rand now bytes self self' (rw (wrote, add_if_written) at e)
  ]

  lookup_node-Learns :
      (node : PeerInfo) (req : Req) (self self' : Kademlia l)
      → lookup_node l f rand now node req self ≡ ok self'
      → Learns l f rand now self self'
  unfolding lookup_node send
  lookup_node-Learns node req self self' e =
      let (closest, found, e1) =
        >>=-eq-ok (get_closest_peers l node default_n_peers self.routing_table) _ e in
      let (added, adds, e2) = >>=-eq-ok (add_if_written l f rand now node self) _ e1 in
      let (prepared, prepares, e3) =
        >>=-eq-ok (prepare_new_peer_message l f rand now node added) _ e2 in
      let (answer, answers, r) =
        >>=-eq-ok (prepare_nodes_response_message l f rand now req closest prepared.2) _ e3 in
      let (bytes, read, asked, drawn) =
        new_peer_message l f rand now node added prepared prepares in
      let same : send_to_peers l f rand now closest prepared.1
            (send l f rand now node.address answer prepared.2)
          ≡ self' =
        cc r in
      let table : added.routing_table ≡ self'.routing_table =
        ap (λ (s : Kademlia l). s.routing_table) drawn
        ∙ sym (
            table-send_to_peers closest prepared.1
              (send l f rand now node.address answer prepared.2))
        ∙ ap (λ (s : Kademlia l). s.routing_table) same in
      λ other known.
        subst (λ (t : RoutingTable l). is_new l other t ≡ false) table
          (add_if_written-Learns node self added adds other known)

  -- A request for a node is answered after its sender has been added.
  find_node_handled :
      (bytes node_bytes : Bytes) (req : Req) (sender node : PeerInfo) (self self' : Kademlia l)
      → f.req.from_bytes bytes ≡ some req
      → f.peer.from_bytes req.sender ≡ some sender
      → f.rpc.from_bytes req.payload ≡ some (Rpc.find_node node_bytes)
      → f.peer.from_bytes node_bytes ≡ some node
      → handle_message l f rand now (KadMessage.request bytes) self ≡ ok self'
      → (own : Bytes) × (added : Kademlia l) × (f.peer.from_bytes own ≡ some sender)
        × (add_peer l f rand now own self ≡ ok added)
        × (lookup_node l f rand now node req added ≡ ok self')
  unfolding handle_message handle request_body match_request
  find_node_handled bytes node_bytes req sender node self self' read from said which e =
      let (own, wrote, e1) =
        >>=-eq-ok (written f.peer sender) _ (rw (read, request_body, from) at e) in
      let (added, adds, e2) = >>=-eq-ok (add_peer l f rand now own self) _ e1 in
      (
        own,
        added,
        written-from_bytes f.peer sender own wrote,
        adds,
        rw (said, match_request, which) at e2,
      )

  add_peer-table :
      (own : Bytes) (sender : PeerInfo) (self added : Kademlia l)
      → f.peer.from_bytes own ≡ some sender
      → add_peer l f rand now own self ≡ ok added
      → (result : RoutingTable l × Bool) × (update_peer l now sender 0 self.routing_table
          ≡ ok result)
        × (added.routing_table ≡ result.0)
  unfolding add_peer
  add_peer-table own sender self added read e =
      let (result, updated, r) =
        >>=-eq-ok (update_peer l now sender 0 self.routing_table) _ (rw read at e) in
      let same : record self { routing_table = result.0 } ≡ added = cc r in
      (result, updated, sym (ap (λ (s : Kademlia l). s.routing_table) same))

-- The first message of two lists that go on alike.
pub same_first :
    {A : Type 0} (xs ys zs : List (SocketAddr × A)) {x y : SocketAddr × A}
    → xs ++ (x ∷ ys) ≡ xs ++ (y ∷ zs)
    → x ≡ y
same_first xs ys zs e = List.head-eq_of_cons-eq (append_cancel xs e)

-- What a question and its answer say of each other.
module _ (l : LinkedMap) (f : KadFormats) (rand : ℕ → InnerKey) (now : ℕ) where
  pub answered :
      (node : PeerInfo) (question_bytes : Bytes) (question answer : Message) (bytes : Bytes)
      (to : SocketAddr) (more : List (SocketAddr × Message)) (self self' : Kademlia l)
      → IsRequest f node (Rpc.find_node question_bytes) question
      → f.peer.from_bytes question_bytes ≡ some node
      → f.kad.from_bytes question.msg ≡ some (KadMessage.request bytes)
      → handle_message l f rand now (KadMessage.request bytes) self ≡ ok self'
      → self'.to_transport ≡ self.to_transport ++ ((to, answer) ∷ more)
      → (to ≡ node.address)
        × (is_new l node self'.routing_table ≡ false)
        × ((result : RoutingTable l × Bool) × (closest : List PeerInfo) × (req : Req)
            × (texts : List Bytes) × (update_peer l now node 0 self.routing_table ≡ ok result)
            × (get_closest_peers l node default_n_peers result.0 ≡ ok closest)
            × (map f.peer.from_bytes texts ≡ map some closest)
            × IsResponse f req (Rpc.nodes texts) answer)
  answered node question_bytes question answer bytes to more self self'
        (asked, req, head, kad, read, from, said) which reads e sent =
      let both : some (KadMessage.request asked) ≡ some (KadMessage.request bytes) =
        sym kad ∙ reads in
      let same : asked ≡ bytes = cc both in
      let (own, added, own_read, adds, looked) =
        find_node_handled l f rand now bytes question_bytes req node node self self'
          (subst (λ b. f.req.from_bytes b ≡ some req) same read) from said which e in
      let (closest, reply, news, texts, sender, b, found, sends, named, reply_read, told, tells) =
        lookup_node_lem l f rand now node req added self' looked in
      let (result, updated, table) =
        add_peer-table l f rand now own node self added own_read adds in
      let first : (to, answer) ≡ (node.address, reply) = same_first self.to_transport _ _ (
        sym sent
        ∙ sends
        ∙ ap (λ t. t ++ ((node.address, reply) ∷ map (λ (p : PeerInfo). (p.address, news)) closest))
            (add_peer-to_transport l f rand now own self added adds)) in
      (
        ap (λ (p : SocketAddr × Message). p.0) first,
        lookup_node-Learns l f rand now node req added self' looked node
            (add_peer-Knows l f rand now own node self added own_read adds).0,
        (
          result,
          closest,
          req,
          texts,
          updated,
          subst (λ t. get_closest_peers l node default_n_peers t ≡ ok closest) table found,
          named,
          subst (IsResponse f req (Rpc.nodes texts))
              (sym (ap (λ (p : SocketAddr × Message). p.1) first)) reply_read,
        ),
      )
