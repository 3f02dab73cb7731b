-- ===== src/Gossip/Spread.antt =====
-- Where src/gossip/gossip.rs sends a message, and how often it takes one.
use udp2p.Base.{
  ℕ, zero, suc, ◌≡◌, ◌≢◌, refl, sym, subst, ◌∙◌, List, [], ◌∷◌, ◌++◌, Option, some, none,
  Option-cases, not, ◌&&◌, ok, ◌>>=◌, >>=-eq-ok, unwrap, length, get_elem?, ltb, if◌then◌else◌,
  decided, All, Bool-cases, inl, inr,
}
use udp2p.Base.Codec.{Codec}
use udp2p.Base.Dict.{get, get-or_insert_ne-none}
use udp2p.Base.Sets
use udp2p.Node.Peer.{SocketAddr, SocketAddr-discrete, Text-discrete, PeerInfo}
use udp2p.Protocol.{Message}
use udp2p.Routing.Linked.{LinkedMap}
use udp2p.Routing.{get_closest_peers}
use udp2p.Gossip.{
  GossipMessage, GossipService, sample_draw, sample_random, sample_all, send_sample, gossip_to,
  publish, store, handle_new, handle_message,
}

-- The addresses of the sample are not this node's.
abbrev Foreign : SocketAddr → List SocketAddr → Type 0
Foreign own sample = All (λ a. a ≢ own) sample

insert_unless :
    (own a : SocketAddr) (sample : List SocketAddr) (d : Dec (a ≡ own))
    → Foreign own sample
    → Foreign own (if not (decided d) then Sets.insert SocketAddr-discrete a sample else sample)
insert_unless own a sample (yes same) h = h
insert_unless own a sample (no foreign) h =
    Sets.All-insert SocketAddr-discrete (λ b. b ≢ own) a sample foreign h

insert_if_neither {ℓ} :
    {X : Type ℓ} (own a : SocketAddr) (sample : List SocketAddr) (c : Dec X) (d : Dec (a ≡ own))
    → Foreign own sample
    → Foreign own (
        if not (decided c) && not (decided d)
        then Sets.insert SocketAddr-discrete a sample
        else sample)
insert_if_neither own a sample (yes source) d h = h
insert_if_neither own a sample (no other) d h = insert_unless own a sample d h

sample_draw-Foreign :
    (own src : SocketAddr) (peer : PeerInfo) (sample : List SocketAddr)
    → Foreign own sample
    → Foreign own (sample_draw own src peer sample)
unfolding sample_draw
sample_draw-Foreign own src peer sample h =
    insert_if_neither own peer.address sample (SocketAddr-discrete peer.address src)
      (SocketAddr-discrete peer.address own) h

sample_random-Foreign :
    (own src : SocketAddr) (draw : ℕ → ℕ) (left round : ℕ) (peers : List PeerInfo)
    (sample result : List SocketAddr)
    → Foreign own sample
    → sample_random own src draw left round peers sample ≡ ok result
    → Foreign own result
unfolding sample_random
sample_random-Foreign own src draw zero round peers sample result h e =
    let same : sample ≡ result = cc e in subst (Foreign own) same h
sample_random-Foreign own src draw (suc left) round peers sample result h e =
    let (peer, picked, rest) = >>=-eq-ok (unwrap (get_elem? peers (draw round))) _ e in
    sample_random-Foreign own src draw left (suc round) peers (sample_draw own src peer sample)
      result (sample_draw-Foreign own src peer sample h) rest

sample_all-Foreign :
    (own : SocketAddr) (peers : List PeerInfo) (sample : List SocketAddr)
    → Foreign own sample
    → Foreign own (sample_all own peers sample)
unfolding sample_all
sample_all-Foreign own [] sample h = h
sample_all-Foreign own (peer ∷ peers) sample h =
    sample_all-Foreign own peers _
      (insert_unless own peer.address sample (SocketAddr-discrete peer.address own) h)

-- What a publication of `message` from `src` may send.
abbrev pub IsSpread : SocketAddr → SocketAddr → Message → SocketAddr × Message → Type 0
IsSpread own src message sent = (sent.0 ≢ own) × (sent.0 ≢ src) × (sent.1 ≡ message)

cons_unless :
    (own src : SocketAddr) (message : Message) (peer : SocketAddr)
    (rest : List (SocketAddr × Message)) (d : Dec (peer ≡ src))
    → peer ≢ own
    → All (IsSpread own src message) rest
    → All (IsSpread own src message) (if not (decided d) then (peer, message) ∷ rest else rest)
cons_unless own src message peer rest (yes source) h k = k
cons_unless own src message peer rest (no other) h k = ((h, other, refl), k)

module _ (l : LinkedMap) where
  send_sample-IsSpread :
      (own src : SocketAddr) (message : Message) (sample : List SocketAddr)
      → Foreign own sample
      → All (IsSpread own src message) (send_sample l src message sample)
  unfolding send_sample
  send_sample-IsSpread own src message [] h = tt
  send_sample-IsSpread own src message (peer ∷ peers) h =
      cons_unless own src message peer (send_sample l src message peers)
        (SocketAddr-discrete peer src) h.0 (send_sample-IsSpread own src message peers h.1)

  gossip_to-Foreign :
      (draw : ℕ → ℕ) (src : SocketAddr) (peers : List PeerInfo) (self : GossipService l)
      (sample : List SocketAddr)
      → gossip_to l draw src peers self ≡ ok sample
      → Foreign self.address sample
  unfolding gossip_to
  gossip_to-Foreign draw src peers self sample e = elim (Bool-cases (ltb 7 (length peers))) [
    | inl many ↦ sample_random-Foreign self.address src draw _ 0 peers [] sample tt (rw many at e)
    | inr few ↦
        let made : ok (sample_all self.address peers []) ≡ ok sample = rw few at e in
        let same : sample_all self.address peers [] ≡ sample = cc made in
        subst (Foreign self.address) same (sample_all-Foreign self.address peers [] tt)
  ]

  -- Where `publish` returns, it has only added to the channel to the transport, each time the
  -- message itself, and never to the source of the message nor to this node's own address.
  pub publish_lem :
      (draw : ℕ → ℕ) (src : SocketAddr) (message : Message) (self self' : GossipService l)
      → publish l draw src message self ≡ ok self'
      → (added : List (SocketAddr × Message)) × (self'
          ≡ record self { to_transport_tx = self.to_transport_tx ++ added })
        × All (IsSpread self.address src message) added
  unfolding publish
  publish_lem draw src message self self' e =
      let (sample, chosen, r) =
        >>=-eq-ok
          (get_closest_peers l self.kad.routing_table.local_info 30 self.kad.routing_table
            >>= (λ peers. gossip_to l draw src peers self))
          _ e in
      let (peers, found, picked) =
        >>=-eq-ok (get_closest_peers l self.kad.routing_table.local_info 30 self.kad.routing_table)
          _ chosen in
      (
        send_sample l src message sample,
        sym (cc r),
        send_sample-IsSpread self.address src message sample
            (gossip_to-Foreign draw src peers self sample picked),
      )

  store_known :
      (c : Codec GossipMessage) (now : ℕ) (message : GossipMessage) (msg : Message)
      (self : GossipService l)
      → get Text-discrete message.id (store l c now message msg self).cache ≢ none
  unfolding store
  store_known c now message msg self =
      get-or_insert_ne-none Text-discrete message.id (msg, now) self.cache

  handle_new-known :
      (c : Codec GossipMessage) (draw : ℕ → ℕ) (now : ℕ) (src : SocketAddr)
      (message : GossipMessage) (msg : Message) (self : GossipService l)
      (result : GossipService l × Option GossipMessage)
      → handle_new l c draw now src message msg self ≡ ok result
      → get Text-discrete message.id result.0.cache ≢ none
  unfolding handle_new
  handle_new-known c draw now src message msg self result e =
      elim (Bool-cases (not (decided (SocketAddr-discrete src self.address)))) [
        | inl foreign ↦
            let (self', sent, r) =
              >>=-eq-ok
                (publish l draw src msg
                  (record self { to_app_tx = self.to_app_tx ++ message ∷ [] }))
                _ (rw foreign at e) in
            let same : store l c now message msg self' ≡ result.0 = cc r in
            subst (λ (s : GossipService l). get Text-discrete message.id s.cache ≢ none) same
              (store_known c now message msg self')
        | inr own ↦
            let made : ok (store l c now message msg self, none) ≡ ok result = rw own at e in
            let same : store l c now message msg self ≡ result.0 = cc made in
            subst (λ (s : GossipService l). get Text-discrete message.id s.cache ≢ none) same
              (store_known c now message msg self)
      ]

  handle_message-known :
      (c : Codec GossipMessage) (draw : ℕ → ℕ) (now : ℕ) (src : SocketAddr)
      (message : GossipMessage) (msg : Message) (self : GossipService l)
      (result : GossipService l × Option GossipMessage)
      → c.from_bytes msg.msg ≡ some message
      → handle_message l c draw now src msg self ≡ ok result
      → get Text-discrete message.id result.0.cache ≢ none
  unfolding handle_message
  handle_message-known c draw now src message msg self result read e =
      elim (Option-cases (get Text-discrete message.id self.cache)) [
        | inl fresh ↦
            handle_new-known c draw now src message msg self result
              (rw (read, handle_message, fresh) at e)
        | inr (old, found) ↦
            let made : ok (self, none) ≡ ok result = rw (read, handle_message, found) at e in
            let same : self ≡ result.0 = cc made in
            subst (λ (s : GossipService l). get Text-discrete message.id s.cache ≢ none) same
              (λ missing. let clash : some old ≡ none = sym found ∙ missing in cc)
      ]

  handle_message_cached :
      (c : Codec GossipMessage) (draw : ℕ → ℕ) (now : ℕ) (src : SocketAddr)
      (message : GossipMessage) (msg : Message) (self : GossipService l)
      → c.from_bytes msg.msg ≡ some message
      → get Text-discrete message.id self.cache ≢ none
      → handle_message l c draw now src msg self ≡ ok (self, none)
  unfolding handle_message
  handle_message_cached c draw now src message msg self read known =
      elim (Option-cases (get Text-discrete message.id self.cache)) [
        | inl missing ↦ absurd (known missing)
        | inr (old, found) ↦ rw (read, handle_message, found)
      ]

  -- After a gossip message has been handled, a message with the same id, from whatever source and
  -- at whatever time, changes nothing and is not handed on.
  pub handle_message_twice :
      (c : Codec GossipMessage) (draw draw' : ℕ → ℕ) (now now' : ℕ) (src src' : SocketAddr)
      (message message' : GossipMessage) (msg msg' : Message) (self : GossipService l)
      (result : GossipService l × Option GossipMessage)
      → c.from_bytes msg.msg ≡ some message
      → c.from_bytes msg'.msg ≡ some message'
      → message.id ≡ message'.id
      → handle_message l c draw now src msg self ≡ ok result
      → handle_message l c draw' now' src' msg' result.0 ≡ ok (result.0, none)
  handle_message_twice c draw draw' now now' src src' message message' msg msg' self result read
        read' same e =
      handle_message_cached c draw' now' src' message' msg' result.0 read' (
        subst (λ id. get Text-discrete id result.0.cache ≢ none) same
          (handle_message-known c draw now src message msg self result read e))
