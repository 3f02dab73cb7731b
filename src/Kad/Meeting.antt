-- ===== src/Kad/Meeting.antt =====
-- Whom a node knows after src/discovery/kad.rs has handled an answer to a lookup.
use udp2p.Base.{
  ℕ, ◌≡◌, subst, List, [], ◌∷◌, map, none, some, Option-cases, Bool-cases, ok, panic, >>=-eq-ok,
  for_each, All, false, inl, inr,
}
use udp2p.Node.Peer.{SocketAddr, PeerInfo}
use udp2p.Protocol.{Bytes, InnerKey, KadMessage}
use udp2p.Routing.{update_peer, is_new}
use udp2p.Routing.Linked.{LinkedMap}
use udp2p.Routing.Known.{is_new-update_peer}
use udp2p.Kad.{
  Rpc, Req, Resp, KadFormats, Kademlia, written, send, add_peer, prepare_find_node_message,
  bootstrap, meet_node, match_response, response_body, handle, handle_message,
}
use udp2p.Kad.Messages.{find_node_message}

module _ (l : LinkedMap) (f : KadFormats) (rand : ℕ → InnerKey) (now : ℕ) where
  abbrev pub Knows : Kademlia l → PeerInfo → Type 0
  Knows self peer = is_new l peer self.routing_table ≡ false

  abbrev pub Learns : Kademlia l → Kademlia l → Type 0
  Learns self self' = (other : PeerInfo) → Knows self other → Knows self' other

  pub add_peer-Knows :
      (bytes : Bytes) (info : PeerInfo) (self self' : Kademlia l)
      → f.peer.from_bytes bytes ≡ some info
      → add_peer l f rand now bytes self ≡ ok self'
      → Knows self' info × Learns self self'
  unfolding add_peer
  add_peer-Knows bytes info self self' read e =
      let (result, added, r) =
        >>=-eq-ok (update_peer l now info 0 self.routing_table) _ (rw read at e) in
      let same : record self { routing_table = result.0 } ≡ self' = cc r in
      subst (λ (s : Kademlia l). Knows s info × Learns self s) same
        (is_new-update_peer l now info 0 self.routing_table result added)

  pub add_peer-Learns :
      (bytes : Bytes) (self self' : Kademlia l)
      → add_peer l f rand now bytes self ≡ ok self'
      → Learns self self'
  unfolding add_peer
  add_peer-Learns bytes self self' e = elim (Option-cases (f.peer.from_bytes bytes)) [
    | inl unread ↦ let clash : panic ≡ ok self' = rw unread at e in cc
    | inr (info, read) ↦ (add_peer-Knows bytes info self self' read e).1
  ]

  pub bootstrap-Learns :
      (address : SocketAddr) (self self' : Kademlia l)
      → bootstrap l f rand now address self ≡ ok self'
      → Learns self self'
  unfolding bootstrap send
  bootstrap-Learns address self self' e =
      let (prepared, prepares, e1) =
        >>=-eq-ok (prepare_find_node_message l f rand now self.routing_table.local_info none self) _
          e in
      let (own, wrote, adds) = >>=-eq-ok (written f.peer self.routing_table.local_info) _ e1 in
      let (bytes, read, asked, drawn) =
        find_node_message l f rand now self.routing_table.local_info self prepared prepares in
      λ other known.
        add_peer-Learns own (send l f rand now address prepared.1 prepared.2) self' adds other
          (subst (λ (s : Kademlia l). Knows s other) drawn known)

  meet_node-Knows :
      (bytes : Bytes) (info : PeerInfo) (self self' : Kademlia l)
      → f.peer.from_bytes bytes ≡ some info
      → meet_node l f rand now bytes self ≡ ok self'
      → Knows self' info × Learns self self'
  unfolding meet_node
  meet_node-Knows bytes info self self' read e =
      let (added, adds, rest) =
        >>=-eq-ok (add_peer l f rand now bytes self) _ (rw (read, meet_node) at e) in
      let (known, more) = add_peer-Knows bytes info self added read adds in
      elim (Bool-cases (is_new l info self.routing_table)) [
        | inl new ↦
            let learned = bootstrap-Learns info.address added self' (rw new at rest) in
            (learned info known, λ other k. learned other (more other k))
        | inr old ↦
            let made : ok added ≡ ok self' = rw old at rest in
            let same : added ≡ self' = cc made in
            subst (λ (s : Kademlia l). Knows s info × Learns self s) same (known, more)
      ]

  for_each-Knows :
      (texts : List Bytes) (peers : List PeerInfo) (self self' : Kademlia l)
      → map f.peer.from_bytes texts ≡ map some peers
      → for_each (meet_node l f rand now) texts self ≡ ok self'
      → All (Knows self') peers × Learns self self'
  unfolding for_each
  for_each-Knows [] [] self self' read e =
      let same : self ≡ self' = cc e in
      (tt, λ other known. subst (λ (s : Kademlia l). Knows s other) same known)
  for_each-Knows [] (p ∷ peers) self self' read e = absurd (cc)
  for_each-Knows (t ∷ texts) [] self self' read e = absurd (cc)
  for_each-Knows (t ∷ texts) (p ∷ peers) self self' read e =
      let here : f.peer.from_bytes t ≡ some p = cc read in
      let there : map f.peer.from_bytes texts ≡ map some peers = cc read in
      let (met, meets, rest) = >>=-eq-ok (meet_node l f rand now t self) _ e in
      let (known, more) = meet_node-Knows t p self met here meets in
      let (others, later) = for_each-Knows texts peers met self' there rest in
      ((later p known, others), λ other k. later other (more other k))

  -- Where the answer to a lookup is handled and the handler returns, none of the peers that it
  -- names is new to the node any more, and none that the node knew has become new.
  pub nodes_known :
      (bytes : Bytes) (answer : Resp) (request : Req) (texts : List Bytes) (peers : List PeerInfo)
      (self self' : Kademlia l)
      → f.resp.from_bytes bytes ≡ some answer
      → f.req.from_bytes answer.request ≡ some request
      → f.rpc.from_bytes answer.payload ≡ some (Rpc.nodes texts)
      → map f.peer.from_bytes texts ≡ map some peers
      → handle_message l f rand now (KadMessage.response bytes) self ≡ ok self'
      → All (λ peer. is_new l peer self'.routing_table ≡ false) peers
        × ((other : PeerInfo)
            → is_new l other self.routing_table ≡ false
            → is_new l other self'.routing_table ≡ false)
  unfolding handle_message handle response_body match_response
  nodes_known bytes answer request texts peers self self' read read' said named e =
      for_each-Knows texts peers self self' named (rw (read, response_body, read', said) at e)
