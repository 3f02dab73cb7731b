-- ===== src/Tests/Tables.antt =====
-- A concrete routing table.
use mathlib.Core.List.{Permᴰ}
use udp2p.Node.Key.{Key, IsKey}
use udp2p.Routing.{
  nearest, KBucket, is_new, total_peers, RoutingTable, new, update_peer, get_closest_peers,
}
use udp2p.Routing.Unordered.{nearest_unordered}
use udp2p.Base.{
  ap, ◌≢◌, false, some, ℕ, zero, suc, ◌+◌, ◌<◌, ◌≡◌, refl, List, [], ◌∷◌, Bool, true, ok, replicate,
  All, arith,
}
use udp2p.Protocol.{KadMessage}
use udp2p.Kad.{KadFormats, Rpc}
use udp2p.Kad.Keeps.{handle_message-IsTable}
use udp2p.Routing.Known.{is_new-update_peer}
use udp2p.Routing.Again.{update_peer_again}
use udp2p.Base.Dict.{get}
use udp2p.Node.Peer.{Text, Text-discrete, PeerInfo}
use udp2p.Routing.Update.{update_body, update_peer_lem}
use udp2p.Routing.Invariant.{IsTable}
use udp2p.Routing.Closest.{IsClosest, get_closest_peers_lem}
use udp2p.Routing.Reach.{Reached, Reached-IsTable}
use udp2p.Tests.Instances.{All-replicate, plain_map, reader}
use udp2p.Tests.Messages.{kademlia, kad_formats, own_info, bob_info, table}

-- The peer nearest to bob is bob.
get_closest_peers_example : IsClosest plain_map bob_info 1 table (bob_info ∷ [])
unfolding get_closest_peers udp2p.Node.Key.get_prefix udp2p.Node.Key.get_binary udp2p.Node.Key.xor
    udp2p.Node.Key.byte_binary udp2p.Node.Peer.Text-discrete
get_closest_peers_example = get_closest_peers_lem plain_map bob_info 1 table (bob_info ∷ []) refl

update_peer_example :
    update_peer plain_map 9 bob_info 0 table
    ≡ update_body plain_map 9 bob_info 0 table (update_peer plain_map 9 bob_info 1 table)
update_peer_example =
    update_peer_lem plain_map 9 bob_info 0 table (refl, All-replicate 32 1 (omega arith))
      (refl, All-replicate 32 2 (omega arith))

abbrev first_table : RoutingTable plain_map
first_table = record {
  tree = (0 ∷ [], record { nodes = (1 ∷ [], own_info) ∷ []; last_updated = 0 }) ∷ [];
  local_info = own_info;
}

table-Reached : Reached plain_map table
unfolding new udp2p.Node.Key.get_prefix udp2p.Node.Key.get_binary udp2p.Node.Key.xor
    udp2p.Node.Key.byte_binary udp2p.Base.Dict.insert udp2p.Base.Dict.remove update_peer
    udp2p.Base.Dict.get udp2p.Node.Peer.Text-discrete
table-Reached =
    Reached.updated 0 bob_info 0 first_table (table, true)
      (Reached.made 0 own_info first_table refl) refl

Reached-IsTable_example : IsTable plain_map table
Reached-IsTable_example = Reached-IsTable plain_map table table-Reached

-- The table after bob is met again.
abbrev met_again : ℕ → RoutingTable plain_map
met_again now = record table {
  tree =
      (0 ∷ [], record { nodes = (1 ∷ [], own_info) ∷ []; last_updated = 0 })
      ∷ (1 ∷ [], record { nodes = (2 ∷ [], bob_info) ∷ []; last_updated = now })
      ∷ [];
}

is_new-update_peer_example :
    (is_new plain_map bob_info (met_again 9) ≡ false)
    × ((other : PeerInfo)
        → is_new plain_map other table ≡ false
        → is_new plain_map other (met_again 9) ≡ false)
unfolding update_peer udp2p.Node.Key.get_prefix udp2p.Node.Key.get_binary udp2p.Node.Key.xor
    udp2p.Node.Key.byte_binary udp2p.Base.Dict.get udp2p.Node.Peer.Text-discrete
    udp2p.Base.Dict.insert udp2p.Base.Dict.remove
is_new-update_peer_example =
    is_new-update_peer plain_map 9 bob_info 0 table (met_again 9, true) refl

-- A full bucket, with bob in it.
abbrev crowd : ℕ → List (Text × PeerInfo)
crowd zero = []
crowd (suc n) = (n ∷ [], record bob_info { id = n ∷ [] }) ∷ crowd n

abbrev full_bucket : KBucket plain_map
full_bucket = record { nodes = crowd 30; last_updated = 0 }

abbrev crowded : RoutingTable plain_map
crowded = record { tree = (1 ∷ [], full_bucket) ∷ []; local_info = own_info }

update_peer_again_example :
    (self' : RoutingTable plain_map) × (update_peer plain_map 9 bob_info 0 crowded
      ≡ ok (self', true))
    × (get Text-discrete (1 ∷ []) self'.tree ≡ some full_bucket)
    × ((added : KBucket plain_map) × (get Text-discrete (1 ∷ 1 ∷ []) self'.tree ≡ some added)
        × (plain_map.iter added.nodes ≡ (bob_info.id, bob_info) ∷ []))
    × ((other : Text)
        → (1 ∷ 1 ∷ []) ≢ other
        → get Text-discrete other self'.tree ≡ get Text-discrete other crowded.tree)
    × (self'.local_info ≡ crowded.local_info)
    × (total_peers plain_map self' ≡ total_peers plain_map crowded + 1)
unfolding udp2p.Node.Key.get_prefix udp2p.Node.Key.get_binary udp2p.Node.Key.xor
    udp2p.Node.Key.byte_binary udp2p.Base.Dict.get udp2p.Node.Peer.Text-discrete
    udp2p.Routing.is_full udp2p.Routing.contains
update_peer_again_example =
    update_peer_again plain_map 9 bob_info 0 crowded (1 ∷ []) (1 ∷ 1 ∷ []) full_bucket
      (refl, All-replicate 32 1 (omega arith)) (refl, All-replicate 32 2 (omega arith)) refl refl
      refl refl refl refl

-- A pong makes bob known again.
abbrev pong_formats : KadFormats
pong_formats = record kad_formats { rpc = reader (λ v. some (Rpc.pong v)) }

handle_message-IsTable_example : IsTable plain_map (met_again 7)
unfolding udp2p.Kad.handle_message update_peer udp2p.Node.Key.get_prefix udp2p.Node.Key.get_binary
    udp2p.Node.Key.xor udp2p.Node.Key.byte_binary udp2p.Base.Dict.get udp2p.Node.Peer.Text-discrete
    udp2p.Base.Dict.insert udp2p.Base.Dict.remove
handle_message-IsTable_example =
    handle_message-IsTable plain_map pong_formats (λ n. []) 7 (KadMessage.response (72 ∷ []))
      kademlia (record kademlia { routing_table = met_again 7 })
      (Reached-IsTable plain_map table table-Reached) refl

-- Two peers, in either order.
first_byte : Key → ℕ
first_byte [] = 0
first_byte (b ∷ k) = b

own_apart : bob_info.key ≢ own_info.key
unfolding first_byte
own_apart e =
    let same : first_byte bob_info.key ≡ first_byte own_info.key = ap first_byte e in omega arith

nearest_unordered_example :
    nearest bob_info 1 (own_info ∷ bob_info ∷ []) ≡ nearest bob_info 1 (bob_info ∷ own_info ∷ [])
nearest_unordered_example =
    nearest_unordered bob_info 1 (own_info ∷ bob_info ∷ []) (bob_info ∷ own_info ∷ [])
      (refl, All-replicate 32 2 (omega arith))
      (
        ((refl, All-replicate 32 1 (omega arith)), ((refl, All-replicate 32 2 (omega arith)), tt)),
        ((own_apart, tt), (tt, tt)),
      )
      (Permᴰ.swap refl refl)
