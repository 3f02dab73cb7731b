-- ===== src/Routing/Bucket.antt =====
-- `KBucket` of src/discovery/routing.rs: the peers under one prefix.
use udp2p.Base.{
  ℕ, ◌-◌, List, map, Option, some, none, Bool, Outcome, ok, panic, ltb, leb, ◌==◌, if◌then◌else◌,
}
use udp2p.Node.Peer.{Text, PeerInfo}
use udp2p.Routing.Linked.{LinkedMap}

abbrev pub max_bucket_len : ℕ
max_bucket_len = 30

-- 900 seconds, in nanoseconds.
abbrev pub refresh_interval : ℕ
refresh_interval = 900_000_000_000

pub record KBucket (l : LinkedMap) : Type 0 where
  pub nodes : l.Map
  pub last_updated : ℕ

module _ (l : LinkedMap) where
  -- `KBucket::new` at the time `now`.
  unfoldable pub new_bucket : ℕ → KBucket l
  new_bucket now = record { nodes = l.empty; last_updated = now }

  unfoldable pub upsert : ℕ → PeerInfo → KBucket l → KBucket l
  upsert now peer self = record self {
    last_updated = now;
    nodes = l.insert peer.id peer self.nodes;
  }

  unfoldable pub contains : PeerInfo → KBucket l → Bool
  contains peer self = l.contains_key peer.id self.nodes

  -- `split` leaves the bucket as it is and makes a new one.
  unfoldable pub split : ℕ → ℕ → Text → KBucket l → KBucket l × KBucket l
  unfolding new_bucket
  split now index prefix self = (self, new_bucket now)

  unfoldable pub get_nodes : KBucket l → List PeerInfo
  get_nodes self = map (λ entry. entry.1) (l.iter self.nodes)

  unfoldable pub bucket_size : KBucket l → ℕ
  bucket_size self = l.len self.nodes

  unfoldable pub bucket_remove_lru : KBucket l → Outcome (KBucket l × Option PeerInfo)
  unfolding bucket_size
  bucket_remove_lru self =
      if bucket_size self == 0
      then ok (self, none)
      else let popped = l.pop_front self.nodes in
        elim popped.1 [
          | some entry ↦ ok (record self { nodes = popped.0 }, some entry.1)
          | none ↦ panic
        ]

  unfoldable pub bucket_remove_peer : PeerInfo → KBucket l → KBucket l × Option PeerInfo
  bucket_remove_peer peer self =
      let (rest, found) = l.remove peer.id self.nodes in (record self { nodes = rest }, found)

  unfoldable pub is_full : KBucket l → Bool
  is_full self = leb max_bucket_len (l.len self.nodes)

  unfoldable pub is_stale : ℕ → KBucket l → Outcome Bool
  is_stale now self =
      if ltb now self.last_updated
      then panic
      else ok (ltb refresh_interval (now - self.last_updated))
