-- ===== src/Routing/Known.antt =====
-- Which peers the routing table (src/discovery/routing.rs) knows after an update.
use udp2p.Base.{
  ℕ, zero, suc, ◌+◌, ◌-◌, ◌≡◌, ◌≢◌, refl, sym, subst, ap, ◌∙◌, [], ◌∷◌, Option, some, none,
  Option-cases, Bool, true, false, not, Bool-cases, inl, inr, Outcome, ok, >>=-eq-ok, if_pos,
  if_neg, arith,
}
use udp2p.Base.Dict
use udp2p.Base.Dict.{Dict, get}
use udp2p.Node.Key.{get_prefix}
use udp2p.Node.Peer.{Text, Text-discrete, PeerInfo}
use udp2p.Routing.Linked.{LinkedMap, is_some}
use udp2p.Routing.{
  KBucket, RoutingTable, new_bucket, upsert, contains, is_full, distance_to, update_peer_within,
  update_peer, any_contains, is_new,
}

is_some_of_ne : {A : Type 0} (o : Option A) → o ≢ none → is_some o ≡ true
is_some_of_ne none h = absurd (h refl)
is_some_of_ne (some a) h = refl

is_some-ne : {A : Type 0} (o : Option A) → is_some o ≡ true → o ≢ none
is_some-ne none h e = let clash : false ≡ true = h in cc
is_some-ne (some a) h e = let clash : some a ≡ none = e in cc

true_of_not : (b : Bool) → not b ≡ false → b ≡ true
true_of_not true h = refl
true_of_not false h = absurd (let clash : true ≡ false = h in cc)

module _ (l : LinkedMap) where
  contains-upsert :
      (now : ℕ) (peer : PeerInfo) (bucket : KBucket l)
      → contains l peer (upsert l now peer bucket) ≡ true
  unfolding contains upsert
  contains-upsert now peer bucket =
      l.contains_key-get peer.id (l.insert peer.id peer bucket.nodes)
      ∙ is_some_of_ne _ (λ missing.
        Dict.get-append_last Text-discrete peer.id peer
          (Dict.remove Text-discrete peer.id (l.iter bucket.nodes))
          (ap (get Text-discrete peer.id) (sym (l.iter-insert peer.id peer bucket.nodes))
            ∙ missing))

  -- Another peer stays in the bucket.
  contains-upsert_other :
      (now : ℕ) (peer other : PeerInfo) (bucket : KBucket l)
      → contains l other bucket ≡ true
      → contains l other (upsert l now peer bucket) ≡ true
  unfolding contains upsert
  contains-upsert_other now peer other bucket h =
      l.contains_key-get other.id (l.insert peer.id peer bucket.nodes)
      ∙ is_some_of_ne _ (λ missing.
        Dict.get-remove_append Text-discrete peer.id other.id peer (l.iter bucket.nodes)
          (is_some-ne _ (sym (l.contains_key-get other.id bucket.nodes) ∙ h))
          (ap (get Text-discrete other.id) (sym (l.iter-insert peer.id peer bucket.nodes))
            ∙ missing))

  abbrev Knows : PeerInfo → Dict Text (KBucket l) → Type 0
  Knows peer tree = any_contains l peer tree ≡ true

  Knows-insert :
      (peer : PeerInfo) (prefix : Text) (bucket : KBucket l) (tree : Dict Text (KBucket l))
      → contains l peer bucket ≡ true
      → Knows peer (Dict.insert Text-discrete prefix bucket tree)
  unfolding any_contains Dict.insert
  Knows-insert peer prefix bucket [] h = ground arith
  Knows-insert peer prefix bucket ((k, b) ∷ tree) h = elim (Text-discrete k prefix) [
    | yes p ↦ rw (if_pos _ p) (ground arith)
    | no p ↦ rw (if_neg _ p) (ground (arith, Knows-insert peer prefix bucket tree h))
  ]

  -- A bucket put in place of one with no more peers, or under a new prefix, loses no peer.
  Knows-insert_other :
      (other : PeerInfo) (prefix : Text) (bucket : KBucket l) (tree : Dict Text (KBucket l))
      → ((old : KBucket l)
          → get Text-discrete prefix tree ≡ some old
          → contains l other old ≡ true
          → contains l other bucket ≡ true)
      → Knows other tree
      → Knows other (Dict.insert Text-discrete prefix bucket tree)
  unfolding any_contains Dict.insert
  Knows-insert_other other prefix bucket [] h k = absurd (let clash : false ≡ true = k in cc)
  Knows-insert_other other prefix bucket ((j, b) ∷ tree) h k = elim (Text-discrete j prefix) [
    | yes p ↦
        let here = h b (Dict.get-cons_same Text-discrete j prefix b tree p) in
        rw (if_pos _ p) (ground (arith, here))
    | no p ↦
        let there =
          Knows-insert_other other prefix bucket tree
            (λ old found. h old (Dict.get-cons_ne Text-discrete j prefix b tree p ∙ found)) in
        rw (if_neg _ p) (ground (arith, there))
  ]

  -- The peer is known, and who was known still is.
  abbrev IsLearned : PeerInfo → RoutingTable l → RoutingTable l → Type 0
  IsLearned peer self self' =
      Knows peer self'.tree × ((other : PeerInfo) → Knows other self.tree → Knows other self'.tree)

  outcome_table :
      (self : RoutingTable l) (result : RoutingTable l × Bool)
      → ◌≡◌ {A = Outcome (RoutingTable l × Bool)} (ok (self, true)) (ok result)
      → self ≡ result.0
  outcome_table self result e = cc e

  same_bucket :
      {o : Option (KBucket l)} (old bucket : KBucket l)
      → o ≡ some old
      → o ≡ some bucket
      → old ≡ bucket
  same_bucket old bucket e e' = let both : some old ≡ some bucket = sym e ∙ e' in cc both

  inserted-IsLearned :
      (now : ℕ) (peer : PeerInfo) (prefix : Text) (bucket : KBucket l) (self : RoutingTable l)
      → ((other : PeerInfo) (old : KBucket l)
          → get Text-discrete prefix self.tree ≡ some old
          → contains l other old ≡ true
          → contains l other (upsert l now peer bucket) ≡ true)
      → IsLearned peer self (record self {
        tree = Dict.insert Text-discrete prefix (upsert l now peer bucket) self.tree;
      })
  inserted-IsLearned now peer prefix bucket self h = (
    Knows-insert peer prefix (upsert l now peer bucket) self.tree (contains-upsert now peer bucket),
    λ other. Knows-insert_other other prefix (upsert l now peer bucket) self.tree (h other),
  )

  update_peer_within-IsLearned :
      (fuel now : ℕ) (peer : PeerInfo) (traverse : ℕ) (self : RoutingTable l)
      (result : RoutingTable l × Bool)
      → update_peer_within l fuel now peer traverse self ≡ ok result
      → IsLearned peer self result.0
  unfolding update_peer_within
  update_peer_within-IsLearned zero now peer traverse self result e = absurd (cc)
  update_peer_within-IsLearned (suc fuel) now peer traverse self result e =
      let (prefix, first, rest) =
        >>=-eq-ok (get_prefix (distance_to l self peer.key) traverse) _ e in
      elim (Option-cases (get Text-discrete prefix self.tree)) [
        | inl missing ↦
            let fresh = record self {
              tree =
                  Dict.insert Text-discrete prefix (upsert l now peer (new_bucket l now)) self.tree;
            } in
            let made : fresh ≡ result.0 = outcome_table fresh result (rw missing at rest) in
            subst (IsLearned peer self) made (
              inserted-IsLearned now peer prefix (new_bucket l now) self (λ other old found held.
                absurd (let clash : none ≡ some old = sym missing ∙ found in cc)))
        | inr (bucket, found) ↦ elim (Bool-cases (is_full l bucket)) [
          | inl full ↦
              update_peer_within-IsLearned fuel now peer (traverse + 1) self result
                (rw (found, full) at rest)
          | inr room ↦
              let more = record self {
                tree = Dict.insert Text-discrete prefix (upsert l now peer bucket) self.tree;
              } in
              let made : more ≡ result.0 = outcome_table more result (rw (found, room) at rest) in
              subst (IsLearned peer self) made (
                inserted-IsLearned now peer prefix bucket self (λ other old found' held.
                  contains-upsert_other now peer other bucket (
                    subst (λ b. contains l other b ≡ true) (same_bucket old bucket found' found)
                      held)))
        ]
      ]

  -- Where `update_peer` returns, the peer is no longer new to the table, and no peer that the
  -- table knew has become new.
  pub is_new-update_peer :
      (now : ℕ) (peer : PeerInfo) (traverse : ℕ) (self : RoutingTable l)
      (result : RoutingTable l × Bool)
      → update_peer l now peer traverse self ≡ ok result
      → (is_new l peer result.0 ≡ false)
        × ((other : PeerInfo) → is_new l other self ≡ false → is_new l other result.0 ≡ false)
  unfolding update_peer is_new
  is_new-update_peer now peer traverse self result e =
      let learned = update_peer_within-IsLearned (257 - traverse) now peer traverse self result e in
      (
        ap not learned.0,
        λ other known.
            ap not (learned.1 other (true_of_not (any_contains l other self.tree) known)),
      )
