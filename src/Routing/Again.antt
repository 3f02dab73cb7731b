-- ===== src/Routing/Again.antt =====
-- What `update_peer` of src/discovery/routing.rs does with a peer that is in a full bucket.
use udp2p.Base.{
  ℕ, ◌+◌, ◌≡◌, ◌≢◌, refl, sym, ap, ◌∙◌, [], ◌∷◌, ◌++◌, some, none, true, Outcome, ok, ◌>>=◌, length,
  if_neg, arith, Bool,
}
use udp2p.Base.Dict
use udp2p.Base.Dict.{Dict, get, get-insert_same, get-insert_ne}
use udp2p.Node.Key.{IsKey, get_prefix}
use udp2p.Node.Peer.{Text, Text-discrete, PeerInfo}
use udp2p.Routing.Linked.{LinkedMap}
use udp2p.Routing.{
  KBucket, RoutingTable, new_bucket, upsert, bucket_size, contains, is_full, distance_to,
  update_peer, sum_sizes, total_peers,
}
use udp2p.Routing.Update.{update_at, update_body, update_peer_lem}

module _ (l : LinkedMap) where
  iter-new_upsert :
      (now : ℕ) (peer : PeerInfo)
      → l.iter (upsert l now peer (new_bucket l now)).nodes ≡ (peer.id, peer) ∷ []
  unfolding upsert new_bucket Dict.remove
  iter-new_upsert now peer =
      l.iter-insert peer.id peer l.empty
      ∙ ap (λ m. Dict.remove Text-discrete peer.id m ++ (peer.id, peer) ∷ []) l.iter-empty

  bucket_size-upsert :
      (now : ℕ) (peer : PeerInfo) → bucket_size l (upsert l now peer (new_bucket l now)) ≡ 1
  unfolding bucket_size
  bucket_size-upsert now peer =
      l.len-iter (upsert l now peer (new_bucket l now)).nodes
      ∙ ap (λ m. length m) (iter-new_upsert now peer)

  sum_sizes-insert :
      (prefix : Text) (bucket : KBucket l) (tree : Dict Text (KBucket l))
      → get Text-discrete prefix tree ≡ none
      → sum_sizes l (Dict.insert Text-discrete prefix bucket tree)
        ≡ sum_sizes l tree + bucket_size l bucket
  unfolding sum_sizes Dict.insert
  sum_sizes-insert prefix bucket [] h = omega arith
  sum_sizes-insert prefix bucket ((k, b) ∷ tree) h = elim (Text-discrete k prefix) [
    | yes p ↦
        let found : none ≡ some b = sym h ∙ Dict.get-cons_same Text-discrete k prefix b tree p in cc
    | no p ↦
        let rest =
          sum_sizes-insert prefix bucket tree
            (sym (Dict.get-cons_ne Text-discrete k prefix b tree p) ∙ h) in
        rw (if_neg _ p) (omega (arith, rest))
  ]

  at_full :
      (now : ℕ) (peer : PeerInfo) (self : RoutingTable l) (prefix : Text) (bucket : KBucket l)
      (next : Outcome (RoutingTable l × Bool))
      → get Text-discrete prefix self.tree ≡ some bucket
      → is_full l bucket ≡ true
      → update_at l now peer self next prefix ≡ next
  at_full now peer self prefix bucket next found full = rw (found, update_at, full)

  at_none :
      (now : ℕ) (peer : PeerInfo) (self : RoutingTable l) (prefix : Text)
      (next : Outcome (RoutingTable l × Bool))
      → get Text-discrete prefix self.tree ≡ none
      → update_at l now peer self next prefix
        ≡ ok (
          record self {
            tree =
                Dict.insert Text-discrete prefix (upsert l now peer (new_bucket l now)) self.tree;
          },
          true,
        )
  at_none now peer self prefix next missing = rw (missing, update_at)

  body_full :
      (now : ℕ) (peer : PeerInfo) (traverse : ℕ) (self : RoutingTable l) (prefix : Text)
      (bucket : KBucket l) (next : Outcome (RoutingTable l × Bool))
      → get_prefix (distance_to l self peer.key) traverse ≡ ok prefix
      → get Text-discrete prefix self.tree ≡ some bucket
      → is_full l bucket ≡ true
      → update_body l now peer traverse self next ≡ next
  body_full now peer traverse self prefix bucket next e found full =
      ap (λ m. m >>= update_at l now peer self next) e
      ∙ at_full now peer self prefix bucket next found full

  body_none :
      (now : ℕ) (peer : PeerInfo) (traverse : ℕ) (self : RoutingTable l) (prefix : Text)
      (next : Outcome (RoutingTable l × Bool))
      → get_prefix (distance_to l self peer.key) traverse ≡ ok prefix
      → get Text-discrete prefix self.tree ≡ none
      → update_body l now peer traverse self next
        ≡ ok (
          record self {
            tree =
                Dict.insert Text-discrete prefix (upsert l now peer (new_bucket l now)) self.tree;
          },
          true,
        )
  body_none now peer traverse self prefix next e missing =
      ap (λ m. m >>= update_at l now peer self next) e ∙ at_none now peer self prefix next missing

  -- A peer that lies in a full bucket is not updated there: where the next prefix has no bucket,
  -- `update_peer` adds it a second time. The full bucket stays as it was, the peer in it; the next
  -- prefix has a bucket with this peer and no other; every other bucket and the node's own entry
  -- stay, and the table has one peer more. The keys are of 32 bytes.
  pub update_peer_again :
      (now : ℕ) (peer : PeerInfo) (traverse : ℕ) (self : RoutingTable l) (prefix longer : Text)
      (bucket : KBucket l)
      → IsKey self.local_info.key
      → IsKey peer.key
      → get_prefix (distance_to l self peer.key) traverse ≡ ok prefix
      → get Text-discrete prefix self.tree ≡ some bucket
      → is_full l bucket ≡ true
      → contains l peer bucket ≡ true
      → get_prefix (distance_to l self peer.key) (traverse + 1) ≡ ok longer
      → get Text-discrete longer self.tree ≡ none
      → (self' : RoutingTable l) × (update_peer l now peer traverse self ≡ ok (self', true))
        × (get Text-discrete prefix self'.tree ≡ some bucket)
        × ((added : KBucket l) × (get Text-discrete longer self'.tree ≡ some added)
            × (l.iter added.nodes ≡ (peer.id, peer) ∷ []))
        × ((other : Text)
            → longer ≢ other
            → get Text-discrete other self'.tree ≡ get Text-discrete other self.tree)
        × (self'.local_info ≡ self.local_info)
        × (total_peers l self' ≡ total_peers l self + 1)
  unfolding total_peers
  update_peer_again now peer traverse self prefix longer bucket v w e found full held e' missing =
      let added = upsert l now peer (new_bucket l now) in
      let apart : longer ≢ prefix = λ same.
        let clash : none ≡ some bucket =
          sym missing ∙ ap (λ q. get Text-discrete q self.tree) same ∙ found in
        cc in
      (
        record self { tree = Dict.insert Text-discrete longer added self.tree },
        update_peer_lem l now peer traverse self v w
            ∙ body_full now peer traverse self prefix bucket
                (update_peer l now peer (traverse + 1) self) e found full
            ∙ update_peer_lem l now peer (traverse + 1) self v w
            ∙ body_none now peer (traverse + 1) self longer
                (update_peer l now peer (traverse + 1 + 1) self) e' missing,
        get-insert_ne Text-discrete prefix longer added self.tree apart ∙ found,
        (
          added,
          get-insert_same Text-discrete longer longer added self.tree refl,
          iter-new_upsert now peer,
        ),
        λ other q. get-insert_ne Text-discrete other longer added self.tree q,
        refl,
        sum_sizes-insert longer added self.tree missing
            ∙ ap (λ (n : ℕ). sum_sizes l self.tree + n) (bucket_size-upsert now peer),
      )
