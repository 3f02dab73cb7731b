-- ===== src/Handler/Arrival.antt =====
-- The packets of one message in the order in which they come in, for src/transport/handler.rs.
use mathlib.Core.Logic.{◌≢◌}
use udp2p.Base.{
  ℕ, suc, ◌+◌, ◌-◌, ◌≤◌, ◌<◌, ◌≡◌, ap, List, [], ◌∷◌, some, length, get_elem?, All, arith,
}
use udp2p.Base.Perm.{Apart}
use udp2p.Protocol.{InnerKey, Packet}
use udp2p.Protocol.Packetize.{IsNumbered}

-- `q` is the packet of the message `ps` that its number says.
abbrev pub IsPacketOf : InnerKey → List Packet → Packet → Type 0
IsPacketOf id ps q =
    (q.id ≡ id)
    × (q.total_n ≡ length ps)
    × (1 ≤ q.n)
    × (q.n ≤ length ps)
    × (get_elem? ps (q.n - 1) ≡ some q)

-- No number stands twice.
abbrev pub Distinct : List Packet → Type 0
Distinct qs = Apart (λ (q : Packet). q.n) qs

IsNumbered-All_from :
    (id : InnerKey) (ret k : ℕ) (all ps : List Packet)
    → IsNumbered id (length all) ret (suc k) ps
    → ((i j : ℕ) → j ≡ k + i → get_elem? all j ≡ get_elem? ps i)
    → k + length ps ≡ length all
    → All (IsPacketOf id all) ps
IsNumbered-All_from id ret k all [] h at e = tt
IsNumbered-All_from id ret k all (p ∷ ps) h at e = (
  (h.0, h.1, omega arith, omega arith, at 0 (p.n - 1) (omega arith)),
  IsNumbered-All_from id ret (suc k) all ps h.4 (λ i j s. at (suc i) j (omega arith)) (omega arith),
)

pub IsNumbered-All :
    (id : InnerKey) (ret : ℕ) (ps : List Packet)
    → IsNumbered id (length ps) ret 1 ps
    → All (IsPacketOf id ps) ps
IsNumbered-All id ret ps h =
    IsNumbered-All_from id ret 0 ps ps h (λ i j e. ap (get_elem? ps) {x = j} {y = i} (omega arith))
      (omega arith)

IsNumbered-above :
    (id : InnerKey) (total ret n m : ℕ) (ps : List Packet)
    → m < n
    → IsNumbered id total ret n ps
    → All (λ x. x.n ≢ m) ps
IsNumbered-above id total ret n m [] h v = tt
IsNumbered-above id total ret n m (p ∷ ps) h v =
    (omega arith, IsNumbered-above id total ret (suc n) m ps (omega arith) v.4)

pub IsNumbered-Distinct :
    (id : InnerKey) (total ret n : ℕ) (ps : List Packet)
    → IsNumbered id total ret n ps
    → Distinct ps
IsNumbered-Distinct id total ret n [] v = tt
IsNumbered-Distinct id total ret n (p ∷ ps) v = (
  IsNumbered-above id total ret (suc n) p.n ps (omega arith) v.4,
  IsNumbered-Distinct id total ret (suc n) ps v.4,
)
