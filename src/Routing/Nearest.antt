-- ===== src/Routing/Nearest.antt =====
-- `get_closest_peers` of src/discovery/routing.rs: that none of the peers that it looked at and left
-- out is nearer than one that it returns.
use mathlib.Core.List.{Permᴰ}
use udp2p.Base.{ℕ, ◌<◌, ◌≤◌, ◌≡◌, ◌⊎◌, List, [], ◌++◌, true, ok, length, All}
use udp2p.Base.Dict.{Dict}
use udp2p.Node.Key.{Key}
use udp2p.Node.Peer.{Text, PeerInfo}
use udp2p.Routing.Linked.{LinkedMap}
use udp2p.Routing.{
  KBucket, RoutingTable, nearer, sum_sizes, get_all_peers, retain_prefixes, longest_first,
  collect_nodes, distance_to,
}

-- What was looked at is what is returned and what is left out, and none of the latter is nearer.
abbrev pub IsNearestOf : Key → List PeerInfo → List PeerInfo → Type 0
IsNearestOf target looked peers =
    (left : List PeerInfo) × Permᴰ looked (peers ++ left)
    × All (λ p. All (λ q. nearer target p q ≡ true) left) peers

module _ (l : LinkedMap) where
  -- The peers that are looked at: those of the buckets under a prefix of the distance, from the
  -- longest prefix on until there are `count`; or all, exactly if there is no such bucket or these
  -- buckets hold fewer.
  abbrev pub IsLookedAt : PeerInfo → ℕ → RoutingTable l → List PeerInfo → Type 0
  IsLookedAt peer count self looked =
      (tree : Dict Text (KBucket l)) × (retain_prefixes l (distance_to l self peer.key) self.tree
        ≡ ok tree)
      × ((((tree ≡ []) ⊎ (sum_sizes l tree < count)) × (looked ≡ get_all_peers l self))
          ⊎ ((1 ≤ length tree)
              × (count ≤ sum_sizes l tree)
              × (looked ≡ collect_nodes l count (longest_first l tree))))
