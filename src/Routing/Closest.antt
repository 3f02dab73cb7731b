-- ===== src/Routing/Closest.antt =====
-- `get_closest_peers` of src/discovery/routing.rs: how many peers it returns, which and in what order.
use udp2p.Base.{
  ℕ, ◌+◌, ◌<◌, ◌≤◌, ◌≡◌, refl, sym, subst, ◌∙◌, List, [], ◌∷◌, ◌++◌, Bool, true, false, ◌||◌, ok,
  ◌>>=◌, >>=-eq-ok, length, length-append, length-map, length-take, min, reverse, All, All-append,
  All-of_append, All-reverse, All-take, if◌then◌else◌, Bool-cases, inl, inr, ltb, leb, leb→le, ◌==◌,
  arith, decided,
}
use udp2p.Base.Dict.{Dict}
use udp2p.Node.Key.{Key, get_prefix}
use udp2p.Node.Peer.{Text, Text-discrete, PeerInfo}
use udp2p.Routing.Linked.{LinkedMap}
use udp2p.Routing.{
  KBucket, RoutingTable, insert_sorted, sort_by, nearer, get_nodes, bucket_size, sum_sizes,
  total_peers, all_nodes, get_all_peers, retain_prefixes, longest_first, extend_to, collect_nodes,
  nearest, get_closest_peers, minus_one, distance_to,
}
use udp2p.Routing.Sort.{IsSorted, length-sort_by, All-sort_by, nearest-IsSorted}

pub enough_peers : (buckets sum count : ℕ) → ((buckets == 0) || ltb sum count) ≡ false → count ≤ sum
enough_peers buckets sum count h = ground arith

module _ (l : LinkedMap) where
  abbrev Tree : Type 0
  Tree = Dict Text (KBucket l)

  -- All peers of the buckets have the property.
  abbrev Held : (PeerInfo → Type 0) → Tree → Type 0
  Held P tree = All (λ entry. All P (get_nodes l entry.1)) tree

  length-get_nodes : (bucket : KBucket l) → length (get_nodes l bucket) ≡ bucket_size l bucket
  unfolding get_nodes bucket_size
  length-get_nodes bucket =
      length-map (λ entry. entry.1) (l.iter bucket.nodes) ∙ sym (l.len-iter bucket.nodes)

  length-all_nodes : (tree : Tree) → length (all_nodes l tree) ≡ sum_sizes l tree
  unfolding all_nodes sum_sizes
  length-all_nodes [] = refl
  length-all_nodes ((k, bucket) ∷ tree) = omega (
    arith,
    length-append (get_nodes l bucket) (all_nodes l tree),
    length-get_nodes bucket,
    length-all_nodes tree,
  )

  sum_sizes-append : (s t : Tree) → sum_sizes l (s ++ t) ≡ sum_sizes l s + sum_sizes l t
  unfolding sum_sizes
  sum_sizes-append [] t = omega arith
  sum_sizes-append ((k, bucket) ∷ s) t = omega (arith, sum_sizes-append s t)

  sum_sizes-reverse : (t : Tree) → sum_sizes l (reverse t) ≡ sum_sizes l t
  unfolding sum_sizes
  sum_sizes-reverse [] = refl
  sum_sizes-reverse ((k, bucket) ∷ t) =
      omega (arith, sum_sizes-append (reverse t) ((k, bucket) ∷ []), sum_sizes-reverse t)

  sum_sizes-insert_sorted :
      (le : Text × KBucket l → Text × KBucket l → Bool) (x : Text × KBucket l) (t : Tree)
      → sum_sizes l (insert_sorted le x t) ≡ bucket_size l x.1 + sum_sizes l t
  unfolding sum_sizes insert_sorted
  sum_sizes-insert_sorted le x [] = refl
  sum_sizes-insert_sorted le x (y ∷ t) = ground (arith, sum_sizes-insert_sorted le x t)

  sum_sizes-sort_by :
      (le : Text × KBucket l → Text × KBucket l → Bool) (t : Tree)
      → sum_sizes l (sort_by le t) ≡ sum_sizes l t
  unfolding sum_sizes sort_by
  sum_sizes-sort_by le [] = refl
  sum_sizes-sort_by le (x ∷ t) =
      omega (arith, sum_sizes-insert_sorted le x (sort_by le t), sum_sizes-sort_by le t)

  sum_sizes-longest_first : (t : Tree) → sum_sizes l (longest_first l t) ≡ sum_sizes l t
  unfolding longest_first
  sum_sizes-longest_first t = sum_sizes-reverse _ ∙ sum_sizes-sort_by _ t

  length-extend_to :
      (count : ℕ) (ret : List PeerInfo) (t : Tree)
      → min count (length ret + sum_sizes l t) ≤ length (extend_to l count ret t)
  unfolding extend_to sum_sizes
  length-extend_to count ret [] = omega arith
  length-extend_to count ret ((k, bucket) ∷ t) = ground (
    arith,
    length-append ret (get_nodes l bucket),
    length-get_nodes bucket,
    length-extend_to count (ret ++ get_nodes l bucket) t,
  )

  length-collect_nodes :
      (count : ℕ) (t : Tree) → min count (sum_sizes l t) ≤ length (collect_nodes l count t)
  unfolding collect_nodes sum_sizes
  length-collect_nodes count [] = omega arith
  length-collect_nodes count ((k, bucket) ∷ t) =
      omega (arith, length-get_nodes bucket, length-extend_to count (get_nodes l bucket) t)

  Held-all_nodes : (P : PeerInfo → Type 0) (t : Tree) → Held P t → All P (all_nodes l t)
  unfolding all_nodes
  Held-all_nodes P [] h = tt
  Held-all_nodes P ((k, bucket) ∷ t) h =
      All-append P (get_nodes l bucket) _ h.0 (Held-all_nodes P t h.1)

  all_nodes-Held : (P : PeerInfo → Type 0) (t : Tree) → All P (all_nodes l t) → Held P t
  unfolding all_nodes
  all_nodes-Held P [] h = tt
  all_nodes-Held P ((k, bucket) ∷ t) h =
      let parts = All-of_append P (get_nodes l bucket) (all_nodes l t) h in
      (parts.0, all_nodes-Held P t parts.1)

  Held-extend_to :
      (P : PeerInfo → Type 0) (count : ℕ) (ret : List PeerInfo) (t : Tree)
      → All P ret
      → Held P t
      → All P (extend_to l count ret t)
  unfolding extend_to
  Held-extend_to P count ret [] h k = h
  Held-extend_to P count ret ((i, bucket) ∷ t) h k = elim (Bool-cases (ltb (length ret) count)) [
    | inl e ↦ rw e (
        Held-extend_to P count (ret ++ get_nodes l bucket) t
          (All-append P ret (get_nodes l bucket) h k.0) k.1)
    | inr e ↦ rw e h
  ]

  Held-collect_nodes :
      (P : PeerInfo → Type 0) (count : ℕ) (t : Tree) → Held P t → All P (collect_nodes l count t)
  unfolding collect_nodes
  Held-collect_nodes P count [] h = tt
  Held-collect_nodes P count ((i, bucket) ∷ t) h =
      Held-extend_to P count (get_nodes l bucket) t h.0 h.1

  Held-longest_first : (P : PeerInfo → Type 0) (t : Tree) → Held P t → Held P (longest_first l t)
  unfolding longest_first
  Held-longest_first P t h =
      All-reverse (λ entry. All P (get_nodes l entry.1)) _
        (All-sort_by _ (λ entry. All P (get_nodes l entry.1)) t h)

  Held-if :
      (P : PeerInfo → Type 0) (entry : Text × KBucket l) (t : Tree) (b : Bool)
      → All P (get_nodes l entry.1)
      → Held P t
      → Held P (if b then entry ∷ t else t)
  Held-if P entry t true h k = (h, k)
  Held-if P entry t false h k = k

  Held-retain_prefixes :
      (P : PeerInfo → Type 0) (distance : Key) (t t' : Tree)
      → Held P t
      → retain_prefixes l distance t ≡ ok t'
      → Held P t'
  unfolding retain_prefixes
  Held-retain_prefixes P distance [] t' h e = let same : [] ≡ t' = cc e in subst (Held P) same tt
  Held-retain_prefixes P distance ((k, bucket) ∷ t) t' h e =
      let (prefix, first, r1) =
        >>=-eq-ok (minus_one (length k) >>= (λ size. get_prefix distance size)) _ e in
      let (rest, inner, r2) = >>=-eq-ok (retain_prefixes l distance t) _ r1 in
      let made : (if decided (Text-discrete prefix k) then (k, bucket) ∷ rest else rest) ≡ t' =
        cc r2 in
      subst (Held P) made (
        Held-if P (k, bucket) rest (decided (Text-discrete prefix k)) h.0
          (Held-retain_prefixes P distance t rest h.1 inner))

  -- What `get_closest_peers` promises of its result.
  abbrev pub IsClosest : PeerInfo → ℕ → RoutingTable l → List PeerInfo → Type 1
  IsClosest peer count self peers =
      (length peers ≡ min count (total_peers l self))
      × (count < total_peers l self → IsSorted (nearer peer.key) peers)
      × ((P : PeerInfo → Type 0) → All P (get_all_peers l self) → All P peers)

  nearest-IsClosest :
      (peer : PeerInfo) (count : ℕ) (self : RoutingTable l) (from : List PeerInfo)
      → count ≤ total_peers l self
      → count ≤ length from
      → ((P : PeerInfo → Type 0) → All P (get_all_peers l self) → All P from)
      → IsClosest peer count self (nearest peer count from)
  unfolding nearest
  nearest-IsClosest peer count self from few enough held = (
    omega (
      arith,
      length-take count (sort_by (nearer peer.key) from),
      length-sort_by (nearer peer.key) from,
    ),
    λ h. nearest-IsSorted peer.key count from,
    λ P h. All-take P count _ (All-sort_by (nearer peer.key) P from (held P h)),
  )

  pub length-get_all_peers :
      (self : RoutingTable l) → length (get_all_peers l self) ≡ total_peers l self
  unfolding get_all_peers total_peers
  length-get_all_peers self = length-all_nodes self.tree

  collect-IsClosest :
      (peer : PeerInfo) (count : ℕ) (self : RoutingTable l) (tree : Tree)
      → count ≤ total_peers l self
      → retain_prefixes l (distance_to l self peer.key) self.tree ≡ ok tree
      → count ≤ sum_sizes l tree
      → IsClosest peer count self
          (nearest peer count (collect_nodes l count (longest_first l tree)))
  unfolding get_all_peers
  collect-IsClosest peer count self tree few kept enough =
      nearest-IsClosest peer count self (collect_nodes l count (longest_first l tree)) few
        (omega
          (arith, length-collect_nodes count (longest_first l tree), sum_sizes-longest_first tree))
        (λ P h. Held-collect_nodes P count (longest_first l tree) (
          Held-longest_first P tree (
            Held-retain_prefixes P (distance_to l self peer.key) self.tree tree
              (all_nodes-Held P self.tree h) kept)))

  -- Where `get_closest_peers` returns, it returns `count` peers, or all if there are fewer; if
  -- there are more than `count`, they are in order of their distance to the peer asked for; and it
  -- returns none that the table does not hold.
  pub get_closest_peers_lem :
      (peer : PeerInfo) (count : ℕ) (self : RoutingTable l) (peers : List PeerInfo)
      → get_closest_peers l peer count self ≡ ok peers
      → IsClosest peer count self peers
  unfolding get_closest_peers
  get_closest_peers_lem peer count self peers e =
      elim (Bool-cases (leb (total_peers l self) count)) [
        | inl all ↦
            let made : ok (get_all_peers l self) ≡ ok peers = rw all at e in
            let same : get_all_peers l self ≡ peers = cc made in
            let few = leb→le (total_peers l self) count all in
            subst (IsClosest peer count self) same
              (omega (arith, length-get_all_peers self), λ h. absurd (omega arith), λ P h. h)
        | inr more ↦
            let few : count ≤ total_peers l self = ground arith in
            let (tree, kept, r) =
              >>=-eq-ok (retain_prefixes l (distance_to l self peer.key) self.tree) _
                (rw more at e) in
            elim (Bool-cases ((length tree == 0) || ltb (sum_sizes l tree) count)) [
              | inl lacking ↦
                  let made : ok (nearest peer count (get_all_peers l self)) ≡ ok peers =
                    rw lacking at r in
                  let same : nearest peer count (get_all_peers l self) ≡ peers = cc made in
                  subst (IsClosest peer count self) same (
                    nearest-IsClosest peer count self (get_all_peers l self) few
                      (omega (arith, length-get_all_peers self)) (λ P h. h))
              | inr enough ↦
                  let made : ok (nearest peer count (collect_nodes l count (longest_first l tree)))
                      ≡ ok peers =
                    rw enough at r in
                  let same : nearest peer count (collect_nodes l count (longest_first l tree))
                      ≡ peers =
                    cc made in
                  subst (IsClosest peer count self) same (
                    collect-IsClosest peer count self tree few kept
                      (enough_peers (length tree) (sum_sizes l tree) count enough))
            ]
      ]
