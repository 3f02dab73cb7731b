-- ===== src/Gossip/Reach.antt =====
-- Whom src/gossip/gossip.rs reaches, in a small network.
use mathlib.Core.List.{Memᴰ}
use udp2p.Base.{
  ℕ, ◌≤◌, ◌≡◌, ◌≢◌, refl, sym, subst, ap, ◌∙◌, List, [], ◌∷◌, ◌++◌, true, false, not, ◌||◌, Bool,
  ok, length, ltb, leb, if◌then◌else◌, decided, arith,
}
use udp2p.Base.Sets
use udp2p.Node.Peer.{SocketAddr, SocketAddr-discrete, PeerInfo}
use udp2p.Protocol.{Message}
use udp2p.Routing.Linked.{LinkedMap}
use udp2p.Routing.{get_all_peers, total_peers, get_closest_peers}
use udp2p.Routing.Closest.{length-get_all_peers}
use udp2p.Gossip.{GossipService, sample_all, send_sample, gossip_to, publish}

abbrev Holds : SocketAddr → List SocketAddr → Type 0
Holds a sample = Sets.contains SocketAddr-discrete a sample ≡ true

insert-Holds :
    (a b : SocketAddr) (sample : List SocketAddr)
    → Holds b sample
    → Holds b (Sets.insert SocketAddr-discrete a sample)
insert-Holds a b sample h =
    Sets.contains-insert SocketAddr-discrete a b sample
    ∙ ap (λ c. decided (SocketAddr-discrete a b) || c) h
    ∙ or_true (decided (SocketAddr-discrete a b))
  where
    or_true : (b : Bool) → (b || true) ≡ true
    or_true true = refl
    or_true false = refl

insert-Holds_own :
    (a : SocketAddr) (sample : List SocketAddr) → Holds a (Sets.insert SocketAddr-discrete a sample)
insert-Holds_own a sample =
    Sets.contains-insert SocketAddr-discrete a a sample ∙ or_self (SocketAddr-discrete a a)
  where
    or_self : (d : Dec (a ≡ a)) → (decided d || Sets.contains SocketAddr-discrete a sample) ≡ true
    or_self (yes p) = refl
    or_self (no p) = absurd (p refl)

-- One round of `sample_all`.
abbrev sampled : SocketAddr → PeerInfo → List SocketAddr → List SocketAddr
sampled own peer sample =
    if not (decided (SocketAddr-discrete peer.address own))
    then Sets.insert SocketAddr-discrete peer.address sample
    else sample

sampled-Holds :
    (own a : SocketAddr) (peer : PeerInfo) (sample : List SocketAddr)
    → Holds a sample
    → Holds a (sampled own peer sample)
sampled-Holds own a peer sample h = by_address (SocketAddr-discrete peer.address own)
  where
    by_address :
        (d : Dec (peer.address ≡ own))
        → Holds a (
            if not (decided d) then Sets.insert SocketAddr-discrete peer.address sample else sample)
    by_address (yes p) = h
    by_address (no p) = insert-Holds peer.address a sample h

sampled-Holds_own :
    (own : SocketAddr) (peer : PeerInfo) (sample : List SocketAddr)
    → peer.address ≢ own
    → Holds peer.address (sampled own peer sample)
sampled-Holds_own own peer sample foreign = by_address (SocketAddr-discrete peer.address own)
  where
    by_address :
        (d : Dec (peer.address ≡ own))
        → Holds peer.address (
            if not (decided d) then Sets.insert SocketAddr-discrete peer.address sample else sample)
    by_address (yes p) = absurd (foreign p)
    by_address (no p) = insert-Holds_own peer.address sample

sample_all-Holds :
    (own a : SocketAddr) (peers : List PeerInfo) (sample : List SocketAddr)
    → Holds a sample
    → Holds a (sample_all own peers sample)
unfolding sample_all
sample_all-Holds own a [] sample h = h
sample_all-Holds own a (p ∷ peers) sample h =
    sample_all-Holds own a peers (sampled own p sample) (sampled-Holds own a p sample h)

sample_all-Holds_member :
    (own : SocketAddr) (peer : PeerInfo) (peers : List PeerInfo) (sample : List SocketAddr)
    → Memᴰ peer peers
    → peer.address ≢ own
    → Holds peer.address (sample_all own peers sample)
unfolding sample_all
sample_all-Holds_member own peer [] sample m foreign = elim m [ ]
sample_all-Holds_member own peer (p ∷ peers) sample (Memᴰ.head e) foreign =
    sample_all-Holds own peer.address peers (sampled own p sample) (
      subst (λ (q : PeerInfo). Holds peer.address (sampled own q sample)) e
        (sampled-Holds_own own peer sample foreign))
sample_all-Holds_member own peer (p ∷ peers) sample (Memᴰ.tail m) foreign =
    sample_all-Holds_member own peer peers (sampled own p sample) m foreign

mem-append_right : {A : Type 0} {a : A} (xs ys : List A) → Memᴰ a ys → Memᴰ a (xs ++ ys)
mem-append_right [] ys m = m
mem-append_right (x ∷ xs) ys m = Memᴰ.tail (mem-append_right xs ys m)

module _ (l : LinkedMap) where
  -- What one address of the sample adds to what is sent.
  abbrev added :
      SocketAddr → Message → SocketAddr → List (SocketAddr × Message) → List (SocketAddr × Message)
  added src message peer rest =
      if not (decided (SocketAddr-discrete peer src)) then (peer, message) ∷ rest else rest

  added-tail :
      (src : SocketAddr) (message : Message) (peer a : SocketAddr)
      (rest : List (SocketAddr × Message))
      → Memᴰ (a, message) rest
      → Memᴰ (a, message) (added src message peer rest)
  added-tail src message peer a rest m = by_address (SocketAddr-discrete peer src)
    where
      by_address :
          (d : Dec (peer ≡ src))
          → Memᴰ (a, message) (if not (decided d) then (peer, message) ∷ rest else rest)
      by_address (yes p) = m
      by_address (no p) = Memᴰ.tail m

  added-head :
      (src : SocketAddr) (message : Message) (peer : SocketAddr)
      (rest : List (SocketAddr × Message))
      → peer ≢ src
      → Memᴰ (peer, message) (added src message peer rest)
  added-head src message peer rest other = by_address (SocketAddr-discrete peer src)
    where
      by_address :
          (d : Dec (peer ≡ src))
          → Memᴰ (peer, message) (if not (decided d) then (peer, message) ∷ rest else rest)
      by_address (yes p) = absurd (other p)
      by_address (no p) = Memᴰ.head refl

  send_sample-member :
      (src a : SocketAddr) (message : Message) (sample : List SocketAddr)
      → Holds a sample
      → a ≢ src
      → Memᴰ (a, message) (send_sample l src message sample)
  unfolding send_sample Sets.contains
  send_sample-member src a message [] h other = absurd (let clash : false ≡ true = h in cc)
  send_sample-member src a message (p ∷ sample) h other = elim (SocketAddr-discrete p a) [
    | yes same ↦
        subst (λ q. Memᴰ (a, message) (added src message q (send_sample l src message sample)))
          (sym same) (added-head src message a (send_sample l src message sample) other)
    | no differs ↦
        added-tail src message p a (send_sample l src message sample)
          (send_sample-member src a message sample (contained_later p a sample differs h) other)
  ]
    where
      contained_later :
          (p a : SocketAddr) (sample : List SocketAddr)
          → p ≢ a
          → Holds a (p ∷ sample)
          → Holds a sample
      contained_later p a sample differs h = ground arith

  -- In a table of at most seven peers `publish` does not panic, and every peer of the table whose
  -- address is neither this node's own nor the source of the message is sent the message.
  pub publish_reaches :
      (draw : ℕ → ℕ) (src : SocketAddr) (message : Message) (self : GossipService l)
      (peer : PeerInfo)
      → total_peers l self.kad.routing_table ≤ 7
      → Memᴰ peer (get_all_peers l self.kad.routing_table)
      → peer.address ≢ self.address
      → peer.address ≢ src
      → (self' : GossipService l) × (publish l draw src message self ≡ ok self')
        × Memᴰ (peer.address, message) self'.to_transport_tx
  unfolding publish gossip_to get_closest_peers
  publish_reaches draw src message self peer few m foreign other =
      let table = self.kad.routing_table in
      let peers = get_all_peers l table in
      let all : leb (total_peers l table) 30 ≡ true = ground arith in
      let small : ltb 7 (length peers) ≡ false = ground (arith, length-get_all_peers l table) in
      let sample = sample_all self.address peers [] in
      (
        record self { to_transport_tx = self.to_transport_tx ++ send_sample l src message sample },
        rw (all, small) refl,
        mem-append_right self.to_transport_tx (send_sample l src message sample) (
            send_sample-member src peer.address message sample
              (sample_all-Holds_member self.address peer peers [] m foreign) other),
      )
