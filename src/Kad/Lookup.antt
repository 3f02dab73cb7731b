-- ===== src/Kad/Lookup.antt =====
-- What `lookup_node` of src/discovery/kad.rs sends, and what its receivers read.
use mathlib.Core.List
use udp2p.Base.{
  ℕ, ◌≡◌, sym, ap, ◌∙◌, List, [], ◌∷◌, ◌++◌, map, some, Option-cases, ok, ◌>>=◌, >>=-eq-ok, unwrap,
  inl, inr,
}
use udp2p.Node.Peer.{PeerInfo}
use udp2p.Protocol.{Bytes, InnerKey, Message}
use udp2p.Routing.{update_peer, get_closest_peers}
use udp2p.Routing.Linked.{LinkedMap}
use udp2p.Kad.{
  Rpc, Req, KadFormats, Kademlia, default_n_peers, send, add_peer, prepare_new_peer_message,
  prepare_nodes_response_message, add_if_written, send_to_peers, lookup_node,
}
use udp2p.Kad.Messages.{IsRequest, IsResponse, new_peer_message, nodes_message}

module _ (l : LinkedMap) (f : KadFormats) (rand : ℕ → InnerKey) (now : ℕ) where
  -- Adding a peer sends nothing.
  pub add_peer-to_transport :
      (peer : Bytes) (self self' : Kademlia l)
      → add_peer l f rand now peer self ≡ ok self'
      → self'.to_transport ≡ self.to_transport
  unfolding add_peer
  add_peer-to_transport peer self self' e =
      let (result, added, r) =
        >>=-eq-ok
          (unwrap (f.peer.from_bytes peer)
            >>= (λ info. update_peer l now info 0 self.routing_table))
          _ e in
      let same : record self { routing_table = result.0 } ≡ self' = cc r in
      sym (ap (λ (s : Kademlia l). s.to_transport) same)

  add_if_written-to_transport :
      (node : PeerInfo) (self self' : Kademlia l)
      → add_if_written l f rand now node self ≡ ok self'
      → self'.to_transport ≡ self.to_transport
  unfolding add_if_written
  add_if_written-to_transport node self self' e = elim (Option-cases (f.peer.as_bytes node)) [
    | inl unwritten ↦
        let made : ok self ≡ ok self' = rw (unwritten, add_if_written) at e in
        let same : self ≡ self' = cc made in sym (ap (λ (s : Kademlia l). s.to_transport) same)
    | inr (bytes, wrote) ↦ add_peer-to_transport bytes self self' (rw (wrote, add_if_written) at e)
  ]

  to_transport-send_to_peers :
      (peers : List PeerInfo) (message : Message) (self : Kademlia l)
      → (send_to_peers l f rand now peers message self).to_transport
        ≡ self.to_transport ++ map (λ (p : PeerInfo). (p.address, message)) peers
  unfolding send_to_peers send
  to_transport-send_to_peers [] message self = sym (List.append-nil self.to_transport)
  to_transport-send_to_peers (p ∷ peers) message self =
      to_transport-send_to_peers peers message _
      ∙ List.append_assoc self.to_transport ((p.address, message) ∷ [])
          (map (λ (q : PeerInfo). (q.address, message)) peers)

  -- Where `lookup_node` returns, it has sent, in this order, one message to the node that was
  -- asked for, which is read as the response to the request that names the closest peers of the
  -- table as it was before; and to each of these peers one message, which is read as a request
  -- that tells of the node. It has sent nothing else.
  pub lookup_node_lem :
      (node : PeerInfo) (req : Req) (self self' : Kademlia l)
      → lookup_node l f rand now node req self ≡ ok self'
      → (closest : List PeerInfo) × (answer : Message) × (news : Message) × (texts : List Bytes)
        × (sender : PeerInfo) × (bytes : Bytes) × (get_closest_peers l node default_n_peers
              self.routing_table
            ≡ ok closest)
        × (self'.to_transport
            ≡ self.to_transport
              ++ ((node.address, answer) ∷ map (λ (p : PeerInfo). (p.address, news)) closest))
        × (map f.peer.from_bytes texts ≡ map some closest)
        × IsResponse f req (Rpc.nodes texts) answer
        × (f.peer.from_bytes bytes ≡ some node)
        × IsRequest f sender (Rpc.new_peer bytes) news
  unfolding lookup_node send
  lookup_node_lem node req self self' e =
      let (closest, found, e1) =
        >>=-eq-ok (get_closest_peers l node default_n_peers self.routing_table) _ e in
      let (added, adds, e2) = >>=-eq-ok (add_if_written l f rand now node self) _ e1 in
      let (prepared, prepares, e3) =
        >>=-eq-ok (prepare_new_peer_message l f rand now node added) _ e2 in
      let (answer, answers, r) =
        >>=-eq-ok (prepare_nodes_response_message l f rand now req closest prepared.2) _ e3 in
      let (bytes, read, asked, drawn) =
        new_peer_message l f rand now node added prepared prepares in
      let (texts, nodes_read, answer_read) =
        nodes_message l f rand now req closest prepared.2 answer answers in
      let same : send_to_peers l f rand now closest prepared.1
            (send l f rand now node.address answer prepared.2)
          ≡ self' =
        cc r in
      (
        closest,
        answer,
        prepared.1,
        texts,
        added.routing_table.local_info,
        bytes,
        found,
        sym (ap (λ (s : Kademlia l). s.to_transport) same)
            ∙ to_transport-send_to_peers closest prepared.1
                (send l f rand now node.address answer prepared.2)
            ∙ ap
                (λ t.
                  t
                  ++ (node.address, answer) ∷ []
                  ++ map (λ (p : PeerInfo). (p.address, prepared.1)) closest)
                (sym (ap (λ (s : Kademlia l). s.to_transport) drawn)
                  ∙ add_if_written-to_transport node self added adds)
            ∙ List.append_assoc self.to_transport ((node.address, answer) ∷ [])
                (map (λ (p : PeerInfo). (p.address, prepared.1)) closest),
        nodes_read,
        answer_read,
        read,
        asked,
      )
