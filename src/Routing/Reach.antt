-- ===== src/Routing/Reach.antt =====
-- The states of the routing table (src/discovery/routing.rs) under any sequence of its operations.
use udp2p.Base.{
  ℕ, ◌≡◌, subst, Option, some, none, Option-cases, Bool, ok, panic, >>=-eq-ok, length-drop,
  All-drop, Bool-cases, inl, inr, ◌==◌, arith,
}
use udp2p.Base.Dict
use udp2p.Base.Dict.{get}
use udp2p.Node.Key.{Key}
use udp2p.Node.Peer.{Text, Text-discrete, PeerInfo}
use udp2p.Routing.Linked.{LinkedMap}
use udp2p.Routing.{
  KBucket, RoutingTable, bucket_size, bucket_remove_lru, new, update_peer, remove_lru, remove_peer,
  removal_prefix,
}
use udp2p.Routing.Invariant.{
  IsFiled, IsBucket, IsTable, insert-IsTable, new-IsTable, update_peer-IsTable, remove_peer-IsTable,
}

module _ (l : LinkedMap) where
  popped-IsBucket :
      (local : Key) (prefix : Text) (bucket : KBucket l)
      → IsBucket l local prefix bucket
      → IsBucket l local prefix (record bucket { nodes = (l.pop_front bucket.nodes).0 })
  popped-IsBucket local prefix bucket v = rw ((l.iter-pop_front bucket.nodes).0) (
    omega (arith, length-drop 1 (l.iter bucket.nodes), v.0),
    All-drop (λ entry. IsFiled local prefix entry.1) 1 (l.iter bucket.nodes) v.1,
  )

  bucket_remove_lru-IsBucket :
      (local : Key) (prefix : Text) (bucket : KBucket l) (result : KBucket l × Option PeerInfo)
      → IsBucket l local prefix bucket
      → bucket_remove_lru l bucket ≡ ok result
      → IsBucket l local prefix result.0
  unfolding bucket_remove_lru
  bucket_remove_lru-IsBucket local prefix bucket result v e =
      elim (Bool-cases (bucket_size l bucket == 0)) [
        | inl empty ↦
            let made : ok (bucket, none) ≡ ok result = rw empty at e in
            let same : bucket ≡ result.0 = cc made in subst (IsBucket l local prefix) same v
        | inr more ↦ elim (Option-cases (l.pop_front bucket.nodes).1) [
          | inl nothing ↦ let clash : panic ≡ ok result = rw (more, nothing) at e in cc
          | inr (entry, found) ↦
              let made : ok (record bucket { nodes = (l.pop_front bucket.nodes).0 }, some entry.1)
                  ≡ ok result =
                rw (more, found) at e in
              let same : record bucket { nodes = (l.pop_front bucket.nodes).0 } ≡ result.0 =
                cc made in
              subst (IsBucket l local prefix) same (popped-IsBucket local prefix bucket v)
        ]
      ]

  remove_lru-IsTable :
      (key : Key) (self : RoutingTable l) (result : RoutingTable l × Option PeerInfo)
      → IsTable l self
      → remove_lru l key self ≡ ok result
      → IsTable l result.0
  unfolding remove_lru
  remove_lru-IsTable key self result v e =
      let (prefix, first, rest) = >>=-eq-ok (removal_prefix l key self) _ e in
      elim (Option-cases (get Text-discrete prefix self.tree)) [
        | inl missing ↦
            let made : ok (self, none) ≡ ok result = rw missing at rest in
            let same : self ≡ result.0 = cc made in subst (IsTable l) same v
        | inr (bucket, found) ↦
            let b =
              Dict.All-get Text-discrete (λ entry. IsBucket l self.local_info.key entry.0 entry.1)
                prefix bucket self.tree v.1 found in
            let (left, popped, r) = >>=-eq-ok (bucket_remove_lru l bucket) _ (rw found at rest) in
            let same : record self { tree = Dict.insert Text-discrete prefix left.0 self.tree }
                ≡ result.0 =
              cc r in
            subst (IsTable l) same (
              insert-IsTable l prefix left.0 self
                (bucket_remove_lru-IsBucket self.local_info.key prefix bucket left b popped) v)
      ]

-- The tables that calls of the operations lead to; a call that panics leads nowhere.
pub data Reached (l : LinkedMap) : RoutingTable l → Type 0 where
  made :
      (now : ℕ) (local_info : PeerInfo) (self : RoutingTable l)
      → new l now local_info ≡ ok self
      → Reached l self
  updated :
      (now : ℕ) (peer : PeerInfo) (traverse : ℕ) (self : RoutingTable l)
      (result : RoutingTable l × Bool)
      → Reached l self
      → update_peer l now peer traverse self ≡ ok result
      → Reached l result.0
  removed :
      (peer : PeerInfo) (self self' : RoutingTable l)
      → Reached l self
      → remove_peer l peer self ≡ ok self'
      → Reached l self'
  evicted :
      (key : Key) (self : RoutingTable l) (result : RoutingTable l × Option PeerInfo)
      → Reached l self
      → remove_lru l key self ≡ ok result
      → Reached l result.0

-- Whatever calls of `new`, `update_peer`, `remove_peer` and `remove_lru` have returned, the table
-- is not empty, no bucket holds more than 30 peers, and every peer lies in a bucket whose prefix
-- is one of its own distance to this node.
pub Reached-IsTable : (l : LinkedMap) (self : RoutingTable l) → Reached l self → IsTable l self
Reached-IsTable l self (made now local_info self0 e) = new-IsTable l now local_info self0 e
Reached-IsTable l self (updated now peer traverse self0 result r e) =
    (update_peer-IsTable l now peer traverse self0 result (Reached-IsTable l self0 r) e).0
Reached-IsTable l self (removed peer self0 self1 r e) =
    remove_peer-IsTable l peer self0 self1 (Reached-IsTable l self0 r) e
Reached-IsTable l self (evicted key self0 result r e) =
    remove_lru-IsTable l key self0 result (Reached-IsTable l self0 r) e
