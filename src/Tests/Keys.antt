-- ===== src/Tests/Keys.antt =====
-- Keys, distances and prefixes at concrete keys.
use udp2p.Base.{
  ℕ, ◌<◌, ◌≤◌, ◌≡◌, ◌↔◌, ◌*◌, ◌+◌, refl, [], ◌∷◌, ◌++◌, replicate, length, take, true, false, ok,
  panic, decided, arith,
}
use udp2p.Node.Key.{
  Key, IsKey, xor, leading_zeros, leading_ones, byte_leading_ones, get_binary, get_prefix,
  rand_in_range, key_le,
}
use udp2p.Node.Key.Range.{leading_zeros-rand_in_range, rand_in_range_panics}
use udp2p.Node.Key.Order.{leading_zeros-key_le}
use udp2p.Node.Key.Prefix.{get_prefix_lem, get_prefix_ambiguous}
use udp2p.Node.Key.Ones.{leading_ones_lem}
use udp2p.Node.Peer.{Text-discrete, PeerInfo, pair_cmp, pair_eq, pair_cmp-pair_eq_iff, equal}
use udp2p.Tests.Instances.{All-replicate}

text_test :
    (decided (Text-discrete (1 ∷ 2 ∷ []) (1 ∷ 2 ∷ [])) ≡ true)
    × (decided (Text-discrete (1 ∷ 2 ∷ []) (1 ∷ 3 ∷ [])) ≡ false)
unfolding Text-discrete
text_test = (refl, refl)

-- The key of which every byte is `b`.
abbrev key : ℕ → Key
key b = replicate 32 b

key-IsKey : (b : ℕ) → b < 256 → IsKey (key b)
key-IsKey b h = (refl, All-replicate 32 b h)

rand_in_range_example :
    (k : Key) × (rand_in_range 13 (key 255) ≡ ok k) × IsKey k × (leading_zeros k ≡ 13)
rand_in_range_example =
    leading_zeros-rand_in_range 13 (key 255) (omega arith) (key-IsKey 255 (omega arith))

rand_in_range_panics_example : rand_in_range 256 (key 255) ≡ panic
rand_in_range_panics_example =
    rand_in_range_panics 256 (key 255) (omega arith) (key-IsKey 255 (omega arith))

leading_zeros-key_le_example : (key_le (key 1) (key 2) ≡ true) × (key_le (key 2) (key 1) ≡ false)
unfolding leading_zeros udp2p.Node.Key.byte_leading_zeros
leading_zeros-key_le_example =
    leading_zeros-key_le (key 1) (key 2) (key-IsKey 1 (omega arith)) (key-IsKey 2 (omega arith))
      (omega arith)

get_prefix_example :
    (2 < length (get_binary (key 5)) → get_prefix (key 5) 2 ≡ ok (take 3 (get_binary (key 5))))
    × (length (get_binary (key 5)) ≤ 2 → get_prefix (key 5) 2 ≡ panic)
    × (32 ≤ length (get_binary (key 5)))
    × (length (get_binary (key 5)) ≤ 256)
get_prefix_example = get_prefix_lem (key 5) 2 (key-IsKey 5 (omega arith))

get_prefix_ambiguous_example :
    (get_prefix (1 ∷ 0 ∷ 2 ∷ replicate 29 9) 1 ≡ get_prefix (2 ∷ 1 ∷ 0 ∷ replicate 29 9) 1)
    × (leading_zeros (1 ∷ 0 ∷ 2 ∷ replicate 29 9) ≡ 7)
    × (leading_zeros (2 ∷ 1 ∷ 0 ∷ replicate 29 9) ≡ 6)
get_prefix_ambiguous_example = get_prefix_ambiguous (replicate 29 9) 1

leading_ones_example :
    (leading_ones (replicate 2 255 ++ 192 ∷ replicate 29 0) ≡ 8 * 2 + byte_leading_ones 192)
    × (leading_ones (replicate 2 255 ++ 0 ∷ 192 ∷ replicate 29 0) ≡ 8 * 2 + byte_leading_ones 192)
    × (leading_ones (replicate 2 255 ++ []) ≡ 0)
leading_ones_example = leading_ones_lem 2 192 (replicate 29 0) (omega arith) (omega arith)

abbrev peer : ℕ → PeerInfo
peer b = record { id = []; key = key b; ip = b; port = 1; address = record { ip = b; port = 1 } }

pair_cmp_example :
    (pair_cmp
        (record { peer = peer 1; distance = xor (key 1) (key 7) })
        (record { peer = peer 2; distance = xor (key 2) (key 7) })
      ≡ equal)
    ↔ (pair_eq
          (record { peer = peer 1; distance = xor (key 1) (key 7) })
          (record { peer = peer 2; distance = xor (key 2) (key 7) })
        ≡ true)
pair_cmp_example =
    pair_cmp-pair_eq_iff (key 7) (peer 1) (peer 2) (key-IsKey 7 (omega arith))
      (key-IsKey 1 (omega arith)) (key-IsKey 2 (omega arith))
