-- ===== src/Tests/Packets.antt =====
-- Packets of concrete messages.
use udp2p.Base.{
  ℕ, ◌+◌, ◌-◌, ◌/◌, ◌%◌, ◌≤◌, ◌≡◌, ◌≢◌, List, [], ◌∷◌, ◌++◌, some, ok, length, replicate, All,
  arith,
}
use udp2p.Protocol.{Packet, packetize}
use udp2p.Protocol.Packetize.{contents, IsNumbered, Carries, contents-packetize, packetize_sizes}
use udp2p.Tests.Instances.{All-replicate, plain_hex}

contents-packetize_example :
    (ps : List Packet) × (packetize plain_hex (72 ∷ 105 ∷ []) (7 ∷ []) 1 ≡ ok ps)
    × (contents plain_hex ps ≡ some (72 ∷ 105 ∷ []))
    × (1 ≤ length ps)
    × IsNumbered (7 ∷ []) (length ps) 1 1 ps
contents-packetize_example =
    contents-packetize plain_hex (7 ∷ []) 1 (72 ∷ 105 ∷ []) (omega arith, (omega arith, tt))

-- Two full kilobytes: the third packet is empty.
abbrev two_kilobytes : List ℕ
two_kilobytes = replicate 2048 9

packetize_sizes_example :
    (front : List Packet) × (last : Packet) × (packetize plain_hex two_kilobytes (7 ∷ []) 1
      ≡ ok (front ++ last ∷ []))
    × All (Carries plain_hex 1024) front
    × (length two_kilobytes / 1024 % 1024 ≢ 0
        → (length front ≡ length two_kilobytes / 1024)
          × Carries plain_hex (length two_kilobytes % 1024) last)
    × (length two_kilobytes / 1024 % 1024 ≡ 0
        → (length front ≡ length two_kilobytes / 1024 - 1)
          × Carries plain_hex (1024 + length two_kilobytes % 1024) last)
packetize_sizes_example =
    packetize_sizes plain_hex (7 ∷ []) 1 two_kilobytes (All-replicate 2048 9 (omega arith))
      two_kilobytes-long
  where
    two_kilobytes-long : 1024 ≤ length two_kilobytes
    two_kilobytes-long = omega arith
