-- ===== src/Routing.antt =====
-- src/discovery/routing.rs: the Kademlia routing table, buckets of peers by the prefix of their
-- distance to this node. The order of a bucket's peers is that of the crate ritelinked, which is a
-- parameter. Arithmetic that leaves its type panics, as in a build with overflow checks.
pub mod Linked
mod Bucket
pub mod Update
pub mod Invariant
pub mod Sort
pub mod Closest
pub mod Nearest
pub mod Unordered
pub mod Reach
pub mod Known
pub mod Again
unfoldable pub use Bucket.*
use udp2p.Base.{
  ℕ, zero, suc, ◌+◌, ◌-◌, ◌<◌, ◌≡◌, List, [], ◌∷◌, ◌++◌, map, Option, some, none, Bool, true, false,
  not, ◌||◌, Outcome, ok, panic, ◌>>=◌, length, take, reverse, min, ltb, leb, ◌==◌, if◌then◌else◌,
  decided,
}
use udp2p.Base.Dict.{Dict, get, insert}
use udp2p.Node.Key.{Key, xor, leading_zeros, get_prefix, key_le}
use udp2p.Node.Peer.{Text, Text-discrete, PeerInfo}
use udp2p.Routing.Linked.{LinkedMap}

pub record RoutingTable (l : LinkedMap) : Type 0 where
  pub tree : Dict Text (KBucket l)
  pub local_info : PeerInfo

-- Insertion sort: stable, as `sort_by_key` is.
unfoldable pub insert_sorted {ℓ} : {A : Type ℓ} → (A → A → Bool) → A → List A → List A
insert_sorted le x [] = x ∷ []
insert_sorted le x (y ∷ ys) =
    let rest = insert_sorted le x ys in if le x y then x ∷ y ∷ ys else y ∷ rest

unfoldable pub sort_by {ℓ} : {A : Type ℓ} → (A → A → Bool) → List A → List A
unfolding insert_sorted
sort_by le [] = []
sort_by le (x ∷ xs) = insert_sorted le x (sort_by le xs)

-- The order of `sort_by_key(|peer| peer.get_key().xor(target))`.
abbrev pub nearer : Key → PeerInfo → PeerInfo → Bool
nearer target p q = key_le (xor p.key target) (xor q.key target)

-- The sort by distance and the cut at `count`.
unfoldable pub nearest : PeerInfo → ℕ → List PeerInfo → List PeerInfo
unfolding sort_by
nearest peer count peers = take count (sort_by (nearer peer.key) peers)

-- `usize - 1`.
unfoldable pub minus_one : ℕ → Outcome ℕ
minus_one zero = panic
minus_one (suc n) = ok n

module _ (l : LinkedMap) where
  -- The distance of a key to this node.
  abbrev pub distance_to : RoutingTable l → Key → Key
  distance_to self key = xor self.local_info.key key

  unfoldable pub new : ℕ → PeerInfo → Outcome (RoutingTable l)
  unfolding new_bucket upsert
  new now local_info = get_prefix (xor local_info.key local_info.key) 0 >>= (λ prefix. ok (record {
    tree = insert Text-discrete prefix (upsert l now local_info (new_bucket l now)) [];
    local_info = local_info;
  }))

  -- `update_peer` with so many calls left.
  unfoldable pub update_peer_within :
      ℕ → ℕ → PeerInfo → ℕ → RoutingTable l → Outcome (RoutingTable l × Bool)
  unfolding new_bucket upsert is_full
  update_peer_within zero now peer traverse self = panic
  update_peer_within (suc fuel) now peer traverse self =
      let next = update_peer_within fuel now peer (traverse + 1) self in
      get_prefix (distance_to self peer.key) traverse >>= (λ prefix.
        elim (get Text-discrete prefix self.tree) [
          | some bucket ↦
              if not (is_full l bucket)
              then ok (
                record self {
                  tree = insert Text-discrete prefix (upsert l now peer bucket) self.tree;
                },
                true,
              )
              else next
          | none ↦ ok (
            record self {
              tree = insert Text-discrete prefix (upsert l now peer (new_bucket l now)) self.tree;
            },
            true,
          )
        ])

  -- A key's text has at most 256 characters, and a longer prefix panics.
  unfoldable pub update_peer : ℕ → PeerInfo → ℕ → RoutingTable l → Outcome (RoutingTable l × Bool)
  unfolding update_peer_within
  update_peer now peer traverse self = update_peer_within (257 - traverse) now peer traverse self

  unfoldable pub sum_sizes : Dict Text (KBucket l) → ℕ
  unfolding bucket_size
  sum_sizes [] = 0
  sum_sizes ((k, bucket) ∷ tree) = bucket_size l bucket + sum_sizes tree

  unfoldable pub total_peers : RoutingTable l → ℕ
  unfolding sum_sizes
  total_peers self = sum_sizes self.tree

  unfoldable pub all_nodes : Dict Text (KBucket l) → List PeerInfo
  unfolding get_nodes
  all_nodes [] = []
  all_nodes ((k, bucket) ∷ tree) = get_nodes l bucket ++ all_nodes tree

  unfoldable pub get_all_peers : RoutingTable l → List PeerInfo
  unfolding all_nodes
  get_all_peers self = all_nodes self.tree

  -- `retain` of the buckets whose prefix is one of the distance.
  unfoldable pub retain_prefixes : Key → Dict Text (KBucket l) → Outcome (Dict Text (KBucket l))
  unfolding minus_one
  retain_prefixes distance [] = ok []
  retain_prefixes distance ((k, bucket) ∷ tree) =
      minus_one (length k) >>= (λ size. get_prefix distance size) >>= (λ prefix.
        retain_prefixes distance tree
        >>= (λ rest. ok (if decided (Text-discrete prefix k) then (k, bucket) ∷ rest else rest)))

  -- The buckets, the longest prefix first.
  unfoldable pub longest_first : Dict Text (KBucket l) → Dict Text (KBucket l)
  unfolding sort_by
  longest_first tree = reverse (sort_by (λ a b. leb (length a.0) (length b.0)) tree)

  -- The loop that extends `ret`.
  unfoldable pub extend_to : ℕ → List PeerInfo → Dict Text (KBucket l) → List PeerInfo
  unfolding get_nodes
  extend_to count ret [] = ret
  extend_to count ret ((k, bucket) ∷ tree) =
      let more = extend_to count (ret ++ get_nodes l bucket) tree in
      if ltb (length ret) count then more else ret

  -- The first bucket's nodes, then the loop.
  unfoldable pub collect_nodes : ℕ → Dict Text (KBucket l) → List PeerInfo
  unfolding extend_to get_nodes
  collect_nodes count [] = []
  collect_nodes count ((k, bucket) ∷ tree) = extend_to count (get_nodes l bucket) tree

  unfoldable pub get_closest_peers : PeerInfo → ℕ → RoutingTable l → Outcome (List PeerInfo)
  unfolding total_peers get_all_peers retain_prefixes sum_sizes nearest collect_nodes longest_first
  get_closest_peers peer count self =
      if leb (total_peers self) count
      then ok (get_all_peers self)
      else retain_prefixes (distance_to self peer.key) self.tree >>= (λ tree. ok (
          if (length tree == 0) || ltb (sum_sizes tree) count
          then nearest peer count (get_all_peers self)
          else nearest peer count (collect_nodes count (longest_first tree))))

  -- The prefix under which `remove_lru` and `remove_peer` look.
  unfoldable pub removal_prefix : Key → RoutingTable l → Outcome Text
  unfolding minus_one
  removal_prefix key self = minus_one (length self.tree) >>= (λ last.
      get_prefix (distance_to self key) (min (leading_zeros (distance_to self key)) last))

  unfoldable pub remove_lru : Key → RoutingTable l → Outcome (RoutingTable l × Option PeerInfo)
  unfolding removal_prefix bucket_remove_lru
  remove_lru key self = removal_prefix key self >>= (λ prefix.
      elim (get Text-discrete prefix self.tree) [
        | some bucket ↦ bucket_remove_lru l bucket >>= (λ result.
            ok (record self { tree = insert Text-discrete prefix result.0 self.tree }, result.1))
        | none ↦ ok (self, none)
      ])

  unfoldable pub remove_peer : PeerInfo → RoutingTable l → Outcome (RoutingTable l)
  unfolding removal_prefix bucket_remove_peer
  remove_peer peer self = removal_prefix peer.key self >>= (λ prefix.
      elim (get Text-discrete prefix self.tree) [
        | some bucket ↦ ok (record self {
          tree = insert Text-discrete prefix (bucket_remove_peer l peer bucket).0 self.tree;
        })
        | none ↦ ok self
      ])

  unfoldable pub stale_prefixes : ℕ → Dict Text (KBucket l) → Outcome (List Text)
  unfolding is_stale
  stale_prefixes now [] = ok []
  stale_prefixes now ((k, bucket) ∷ tree) =
      is_stale l now bucket
      >>= (λ stale. stale_prefixes now tree >>= (λ rest. ok (if stale then k ∷ rest else rest)))

  unfoldable pub get_stale_indices : ℕ → RoutingTable l → Outcome (List Text)
  unfolding stale_prefixes
  get_stale_indices now self = stale_prefixes now self.tree

  unfoldable pub any_contains : PeerInfo → Dict Text (KBucket l) → Bool
  unfolding contains
  any_contains peer [] = false
  any_contains peer ((k, bucket) ∷ tree) = contains l peer bucket || any_contains peer tree

  unfoldable pub is_new : PeerInfo → RoutingTable l → Bool
  unfolding any_contains
  is_new peer self = not (any_contains peer self.tree)

  unfoldable pub size : RoutingTable l → ℕ
  size self = length self.tree
