-- ===== src/Tests/Caches.antt =====
-- A heartbeat with an old and a young message in the cache, and a message that reaches bob.
use mathlib.Core.List.{Memᴰ}
use udp2p.Gossip.Reach.{publish_reaches}
use udp2p.Base.{ap, ◌≢◌, arith, ◌≡◌, refl, [], ◌∷◌, none, some, Outcome, ok, panic, if◌then◌else◌}
use udp2p.Base.Dict.{get}
use udp2p.Node.Peer.{SocketAddr, Text-discrete}
use udp2p.Gossip.{GossipService, gossip, publish}
use udp2p.Gossip.Cache.{is_due, survivor, cache-gossip}
use udp2p.Tests.Instances.{plain_map}
use udp2p.Tests.Messages.{service, hello, gossip_codec, bob_info, carol}

abbrev remembering : GossipService plain_map
remembering = record service { cache = (1 ∷ [], (hello, 1_000)) ∷ (2 ∷ [], (hello, 9_000)) ∷ [] }

abbrev result_of : Outcome (GossipService plain_map) → GossipService plain_map
result_of (ok self) = self
result_of panic = remembering

abbrev beaten : GossipService plain_map
beaten = result_of (gossip plain_map gossip_codec (λ n m. 0) 10_000 10_001 remembering)

cache-gossip_example : get Text-discrete (1 ∷ []) beaten.cache ≡ (
    if is_due plain_map gossip_codec 10_001 remembering
    then survivor remembering.config 10_000 (get Text-discrete (1 ∷ []) remembering.cache)
    else get Text-discrete (1 ∷ []) remembering.cache)
unfolding gossip get udp2p.Routing.get_closest_peers
cache-gossip_example =
    cache-gossip plain_map gossip_codec (λ n m. 0) 10_000 10_001 remembering beaten (1 ∷ [])
      (refl, (refl, tt)) refl

-- The old message is gone, and the young one is there.
forgets : get Text-discrete (1 ∷ []) beaten.cache ≡ none
unfolding gossip get udp2p.Routing.get_closest_peers
forgets = refl

keeps : get Text-discrete (2 ∷ []) beaten.cache ≡ some (hello, 9_000)
unfolding gossip get udp2p.Routing.get_closest_peers
keeps = refl

bob_apart : bob_info.address ≢ service.address
bob_apart e =
    let same : bob_info.address.ip ≡ service.address.ip = ap (λ (a : SocketAddr). a.ip) e in
    omega arith

bob_other : bob_info.address ≢ carol
bob_other e =
    let same : bob_info.address.ip ≡ carol.ip = ap (λ (a : SocketAddr). a.ip) e in omega arith

publish_reaches_example :
    (self' : GossipService plain_map) × (publish plain_map (λ n. 0) carol hello service ≡ ok self')
    × Memᴰ (bob_info.address, hello) self'.to_transport_tx
unfolding udp2p.Routing.total_peers udp2p.Routing.get_all_peers
publish_reaches_example =
    publish_reaches plain_map (λ n. 0) carol hello service bob_info (omega arith)
      (Memᴰ.tail (Memᴰ.head refl)) bob_apart bob_other
