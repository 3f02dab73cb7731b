-- ===== src/Routing/Update.antt =====
-- `update_peer` of src/discovery/routing.rs: its recursion, and where it files a peer.
use udp2p.Base.{
  ℕ, suc, ◌+◌, ◌-◌, ◌≤◌, ◌≡◌, refl, sym, ap, ◌∙◌, some, none, Bool, true, not, Outcome, ok, panic,
  ◌>>=◌, length, if◌then◌else◌, dec_lt, arith,
}
use udp2p.Base.Dict.{get, insert}
use udp2p.Node.Key.{IsKey, get_binary, get_prefix}
use udp2p.Node.Key.Metric.{xor-IsKey}
use udp2p.Node.Key.Prefix.{get_prefix_lem}
use udp2p.Node.Peer.{Text, Text-discrete, PeerInfo}
use udp2p.Routing.Linked.{LinkedMap}
use udp2p.Routing.{
  RoutingTable, new_bucket, upsert, is_full, distance_to, update_peer_within, update_peer,
}

module _ (l : LinkedMap) where
  -- The body of `update_peer` after its prefix, and the body, with `next` for the call of itself.
  abbrev pub update_at :
      ℕ
      → PeerInfo
      → RoutingTable l
      → Outcome (RoutingTable l × Bool)
      → Text
      → Outcome (RoutingTable l × Bool)
  update_at now peer self next prefix = elim (get Text-discrete prefix self.tree) [
    | some bucket ↦
        if not (is_full l bucket)
        then ok (
          record self { tree = insert Text-discrete prefix (upsert l now peer bucket) self.tree },
          true,
        )
        else next
    | none ↦ ok (
      record self {
        tree = insert Text-discrete prefix (upsert l now peer (new_bucket l now)) self.tree;
      },
      true,
    )
  ]

  abbrev pub update_body :
      ℕ
      → PeerInfo
      → ℕ
      → RoutingTable l
      → Outcome (RoutingTable l × Bool)
      → Outcome (RoutingTable l × Bool)
  update_body now peer traverse self next =
      get_prefix (distance_to l self peer.key) traverse >>= update_at now peer self next

  body_panic :
      (now : ℕ) (peer : PeerInfo) (traverse : ℕ) (self : RoutingTable l)
      (next : Outcome (RoutingTable l × Bool))
      → get_prefix (distance_to l self peer.key) traverse ≡ panic
      → update_body now peer traverse self next ≡ panic
  body_panic now peer traverse self next h = rw h

  within_body :
      (fuel now : ℕ) (peer : PeerInfo) (traverse : ℕ) (self : RoutingTable l)
      → update_peer_within l (suc fuel) now peer traverse self
        ≡ update_body now peer traverse self
            (update_peer_within l fuel now peer (traverse + 1) self)
  unfolding update_peer_within
  within_body fuel now peer traverse self = refl

  within_zero :
      (now : ℕ) (peer : PeerInfo) (traverse : ℕ) (self : RoutingTable l)
      → update_peer_within l 0 now peer traverse self ≡ panic
  unfolding update_peer_within
  within_zero now peer traverse self = refl

  -- For a node and a peer with keys of 32 bytes, `update_peer`, which has as many calls as a key
  -- has prefixes, satisfies the equation of the recursive function: the bound on the calls is
  -- never what ends it.
  pub update_peer_lem :
      (now : ℕ) (peer : PeerInfo) (traverse : ℕ) (self : RoutingTable l)
      → IsKey self.local_info.key
      → IsKey peer.key
      → update_peer l now peer traverse self
        ≡ update_body now peer traverse self (update_peer l now peer (traverse + 1) self)
  unfolding update_peer
  update_peer_lem now peer traverse self v w = elim (dec_lt traverse 257) [
    | yes few ↦
        ap (λ (f : ℕ). update_peer_within l f now peer traverse self) {x = 257 - traverse}
          {y = suc (257 - (traverse + 1))} (omega arith)
        ∙ within_body (257 - (traverse + 1)) now peer traverse self
    | no many ↦
        let text =
          get_prefix_lem (distance_to l self peer.key) traverse
            (xor-IsKey self.local_info.key peer.key v w) in
        let long : length (get_binary (distance_to l self peer.key)) ≤ traverse =
          omega (arith, text.3) in
        ap (λ (f : ℕ). update_peer_within l f now peer traverse self) {x = 257 - traverse} {y = 0}
          (omega arith)
        ∙ within_zero now peer traverse self
        ∙ sym (
            body_panic now peer traverse self
              (update_peer_within l (257 - (traverse + 1)) now peer (traverse + 1) self)
              (text.1 long))
  ]
