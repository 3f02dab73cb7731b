-- ===== src/Routing/Invariant.antt =====
-- The invariant of the routing table of src/discovery/routing.rs.
use udp2p.Base.{
  ℕ, zero, suc, ◌+◌, ◌-◌, ◌<◌, ◌≤◌, ◌≡◌, refl, subst, [], ◌∷◌, Option-cases, Bool, true, false, ok,
  >>=-eq-ok, length, length-append, All, All-append, Bool-cases, inl, inr, arith,
}
use udp2p.Base.Dict
use udp2p.Base.Dict.{Dict, get}
use udp2p.Node.Key.{Key, xor, get_prefix}
use udp2p.Node.Peer.{Text, Text-discrete, PeerInfo}
use udp2p.Routing.Linked.{LinkedMap}
use udp2p.Routing.{
  KBucket, RoutingTable, new_bucket, upsert, is_full, distance_to, update_peer_within, update_peer,
  bucket_remove_peer, new, remove_peer, removal_prefix,
}

-- The prefix is one of the peer's distance to this node.
abbrev pub IsFiled : Key → Text → PeerInfo → Type 0
IsFiled local prefix peer = (size : ℕ) × (get_prefix (xor local peer.key) size ≡ ok prefix)

module _ (l : LinkedMap) where
  -- A bucket has room for its peers, and each belongs under its prefix.
  abbrev pub IsBucket : Key → Text → KBucket l → Type 0
  IsBucket local prefix bucket =
      (length (l.iter bucket.nodes) ≤ 30)
      × All (λ entry. IsFiled local prefix entry.1) (l.iter bucket.nodes)

  abbrev pub IsTable : RoutingTable l → Type 0
  IsTable self =
      (1 ≤ length self.tree) × All (λ entry. IsBucket self.local_info.key entry.0 entry.1) self.tree

  new_bucket-IsBucket :
      (now : ℕ) (local : Key) (prefix : Text) → IsBucket local prefix (new_bucket l now)
  unfolding new_bucket
  new_bucket-IsBucket now local prefix = rw (l.iter-empty) (omega arith, tt)

  upsert-IsBucket :
      (now : ℕ) (peer : PeerInfo) (local : Key) (prefix : Text) (bucket : KBucket l)
      → IsBucket local prefix bucket
      → IsFiled local prefix peer
      → length (l.iter bucket.nodes) < 30
      → IsBucket local prefix (upsert l now peer bucket)
  unfolding upsert
  upsert-IsBucket now peer local prefix bucket v filed room =
      let few = Dict.length-remove Text-discrete peer.id (l.iter bucket.nodes) in
      let sum =
        length-append (Dict.remove Text-discrete peer.id (l.iter bucket.nodes))
          ((peer.id, peer) ∷ []) in
      rw (l.iter-insert peer.id peer bucket.nodes) (
        omega (arith, few, sum),
        All-append (λ entry. IsFiled local prefix entry.1) _ ((peer.id, peer) ∷ [])
            (Dict.All-remove Text-discrete (λ entry. IsFiled local prefix entry.1) peer.id
              (l.iter bucket.nodes) v.1)
            (filed, tt),
      )

  room_left : (bucket : KBucket l) → is_full l bucket ≡ false → length (l.iter bucket.nodes) < 30
  unfolding is_full
  room_left bucket h = ground (arith, l.len-iter bucket.nodes)

  pub insert-IsTable :
      (prefix : Text) (bucket : KBucket l) (self : RoutingTable l)
      → IsBucket self.local_info.key prefix bucket
      → IsTable self
      → IsTable (record self { tree = Dict.insert Text-discrete prefix bucket self.tree })
  insert-IsTable prefix bucket self b v = (
    Dict.length-insert_pos Text-discrete prefix bucket self.tree,
    Dict.All-insert Text-discrete (λ entry. IsBucket self.local_info.key entry.0 entry.1) prefix
        bucket self.tree b v.1,
  )

  new_bucket_room : (now : ℕ) → length (l.iter (new_bucket l now).nodes) < 30
  unfolding new_bucket
  new_bucket_room now = rw (l.iter-empty) (omega arith)

  abbrev inserted : Text → KBucket l → RoutingTable l → RoutingTable l × Bool
  inserted prefix bucket self =
      (record self { tree = Dict.insert Text-discrete prefix bucket self.tree }, true)

  insert_result :
      (prefix : Text) (bucket : KBucket l) (self : RoutingTable l) (result : RoutingTable l × Bool)
      → ok (inserted prefix bucket self) ≡ ok result
      → IsTable self
      → IsBucket self.local_info.key prefix bucket
      → IsTable result.0 × (result.1 ≡ true)
  insert_result prefix bucket self result made v b =
      let same : inserted prefix bucket self ≡ result = cc made in
      subst (λ x. IsTable x.0 × (x.1 ≡ true)) same (insert-IsTable prefix bucket self b v, refl)

  update_peer_within-IsTable :
      (fuel now : ℕ) (peer : PeerInfo) (traverse : ℕ) (self : RoutingTable l)
      (result : RoutingTable l × Bool)
      → IsTable self
      → update_peer_within l fuel now peer traverse self ≡ ok result
      → IsTable result.0 × (result.1 ≡ true)
  unfolding update_peer_within
  update_peer_within-IsTable zero now peer traverse self result v e = absurd (cc)
  update_peer_within-IsTable (suc fuel) now peer traverse self result v e =
      let (prefix, first, rest) =
        >>=-eq-ok (get_prefix (distance_to l self peer.key) traverse) _ e in
      elim (Option-cases (get Text-discrete prefix self.tree)) [
        | inl missing ↦
            let fresh = upsert l now peer (new_bucket l now) in
            let made : ok (inserted prefix fresh self) ≡ ok result = rw missing at rest in
            insert_result prefix fresh self result made v (
              upsert-IsBucket now peer self.local_info.key prefix (new_bucket l now)
                (new_bucket-IsBucket now self.local_info.key prefix) (traverse, first)
                (new_bucket_room now))
        | inr (bucket, found) ↦
            let b =
              Dict.All-get Text-discrete (λ entry. IsBucket self.local_info.key entry.0 entry.1)
                prefix bucket self.tree v.1 found in
            elim (Bool-cases (is_full l bucket)) [
              | inl full ↦
                  update_peer_within-IsTable fuel now peer (traverse + 1) self result v
                    (rw (found, full) at rest)
              | inr room ↦
                  let made : ok (inserted prefix (upsert l now peer bucket) self) ≡ ok result =
                    rw (found, room) at rest in
                  insert_result prefix (upsert l now peer bucket) self result made v (
                    upsert-IsBucket now peer self.local_info.key prefix bucket b (traverse, first)
                      (room_left bucket room))
            ]
      ]

  -- An update keeps the invariant, and reports that it was done.
  pub update_peer-IsTable :
      (now : ℕ) (peer : PeerInfo) (traverse : ℕ) (self : RoutingTable l)
      (result : RoutingTable l × Bool)
      → IsTable self
      → update_peer l now peer traverse self ≡ ok result
      → IsTable result.0 × (result.1 ≡ true)
  unfolding update_peer
  update_peer-IsTable now peer traverse self result v e =
      update_peer_within-IsTable (257 - traverse) now peer traverse self result v e

  bucket_remove_peer-IsBucket :
      (peer : PeerInfo) (local : Key) (prefix : Text) (bucket : KBucket l)
      → IsBucket local prefix bucket
      → IsBucket local prefix (bucket_remove_peer l peer bucket).0
  unfolding bucket_remove_peer
  bucket_remove_peer-IsBucket peer local prefix bucket v =
      let few = Dict.length-remove Text-discrete peer.id (l.iter bucket.nodes) in
      rw ((l.iter-remove peer.id bucket.nodes).0) (
        omega (arith, few),
        Dict.All-remove Text-discrete (λ entry. IsFiled local prefix entry.1) peer.id
            (l.iter bucket.nodes) v.1,
      )

  pub remove_peer-IsTable :
      (peer : PeerInfo) (self self' : RoutingTable l)
      → IsTable self
      → remove_peer l peer self ≡ ok self'
      → IsTable self'
  unfolding remove_peer
  remove_peer-IsTable peer self self' v e =
      let (prefix, first, rest) = >>=-eq-ok (removal_prefix l peer.key self) _ e in
      elim (Option-cases (get Text-discrete prefix self.tree)) [
        | inl missing ↦
            let made : ok self ≡ ok self' = rw missing at rest in
            let same : self ≡ self' = cc made in subst IsTable same v
        | inr (bucket, found) ↦
            let b =
              Dict.All-get Text-discrete (λ entry. IsBucket self.local_info.key entry.0 entry.1)
                prefix bucket self.tree v.1 found in
            let left = (bucket_remove_peer l peer bucket).0 in
            let made : ok (record self { tree = Dict.insert Text-discrete prefix left self.tree })
                ≡ ok self' =
              rw found at rest in
            let same : record self { tree = Dict.insert Text-discrete prefix left self.tree }
                ≡ self' =
              cc made in
            subst IsTable same (
              insert-IsTable prefix left self
                (bucket_remove_peer-IsBucket peer self.local_info.key prefix bucket b) v)
      ]

  pub new-IsTable :
      (now : ℕ) (local_info : PeerInfo) (self : RoutingTable l)
      → new l now local_info ≡ ok self
      → IsTable self
  unfolding new
  new-IsTable now local_info self e =
      let (prefix, first, rest) =
        >>=-eq-ok (get_prefix (xor local_info.key local_info.key) 0) _ e in
      let bucket = upsert l now local_info (new_bucket l now) in
      let made : record {
        tree = Dict.insert Text-discrete prefix bucket [];
        local_info = local_info;
      }
          ≡ self =
        cc rest in
      let b =
        upsert-IsBucket now local_info local_info.key prefix (new_bucket l now)
          (new_bucket-IsBucket now local_info.key prefix) (0, first) (new_bucket_room now) in
      subst IsTable made (
        Dict.length-insert_pos Text-discrete prefix bucket [],
        Dict.All-insert Text-discrete (λ entry. IsBucket local_info.key entry.0 entry.1) prefix
            bucket [] b tt,
      )
