-- ===== src/GdUdp/Keyed.antt =====
-- The keys of the outbox of src/gd_udp/gd_udp.rs, and what each operation does to them.
use udp2p.Base.{
  ℕ, ◌≡◌, refl, sym, subst, ◌∙◌, [], ◌∷◌, some, none, Option-cases, inl, inr, if_pos, if_neg,
  ℕ_discrete, arith,
}
use udp2p.Base.Dict.{Dict, get, insert, get-insert_ne}
use udp2p.Node.Peer.{SocketAddr, Text-discrete}
use udp2p.Protocol.{InnerKey, Packet}
use udp2p.GdUdp.{Entry, Outbox, note_sent_in, note_sent, note_ack}

abbrev pub IsKeyedMap : InnerKey → Dict ℕ Entry → Type 0
IsKeyedMap id [] = Unit {0}
IsKeyedMap id ((n, e) ∷ map) =
    (get ℕ_discrete n map ≡ none) × (e.packet.id ≡ id) × (e.packet.n ≡ n) × IsKeyedMap id map

abbrev pub IsKeyed : Outbox → Type 0
IsKeyed [] = Unit {0}
IsKeyed ((id, map) ∷ outbox) =
    (get Text-discrete id outbox ≡ none) × IsKeyedMap id map × IsKeyed outbox

pub get-IsKeyedMap :
    (id : InnerKey) (n : ℕ) (map : Dict ℕ Entry) (e : Entry)
    → IsKeyedMap id map
    → get ℕ_discrete n map ≡ some e
    → (e.packet.id ≡ id) × (e.packet.n ≡ n)
unfolding get
get-IsKeyedMap id n [] e v h = cc
get-IsKeyedMap id n ((k, x) ∷ map) e v h = elim (ℕ_discrete k n) [
  | yes p ↦ ground arith
  | no p ↦ get-IsKeyedMap id n map e v.3 (rw (if_neg _ p) at h)
]

pub get-IsKeyed :
    (id : InnerKey) (map : Dict ℕ Entry) (outbox : Outbox)
    → IsKeyed outbox
    → get Text-discrete id outbox ≡ some map
    → IsKeyedMap id map
unfolding get
get-IsKeyed id map [] v h = absurd (ground arith)
get-IsKeyed id map ((j, m) ∷ outbox) v h = elim (Text-discrete j id) [
  | yes p ↦
      let found : some m ≡ some map = rw (if_pos _ p) at h in
      let same : m ≡ map = cc found in
      subst (λ x. IsKeyedMap id x) same (subst (λ i. IsKeyedMap i m) p v.1)
  | no p ↦ get-IsKeyed id map outbox v.2 (rw (if_neg _ p) at h)
]

IsKeyedMap-insert :
    (id : InnerKey) (n : ℕ) (e : Entry) (map : Dict ℕ Entry)
    → e.packet.id ≡ id
    → e.packet.n ≡ n
    → IsKeyedMap id map
    → IsKeyedMap id (insert ℕ_discrete n e map)
unfolding insert get
IsKeyedMap-insert id n e [] p q v = (refl, p, q, tt)
IsKeyedMap-insert id n e ((k, x) ∷ map) p q v = elim (ℕ_discrete k n) [
  | yes same ↦ rw (if_pos _ same) (subst (λ k. get ℕ_discrete k map ≡ none) same v.0, p, q, v.3)
  | no other ↦ rw (if_neg _ other) (
    get-insert_ne ℕ_discrete k n e map (λ h. other (sym h)) ∙ v.0,
    v.1,
    v.2,
    IsKeyedMap-insert id n e map p q v.3,
  )
]

IsKeyed-insert :
    (id : InnerKey) (map : Dict ℕ Entry) (outbox : Outbox)
    → IsKeyedMap id map
    → IsKeyed outbox
    → IsKeyed (insert Text-discrete id map outbox)
unfolding insert get
IsKeyed-insert id map [] h v = (refl, h, tt)
IsKeyed-insert id map ((j, m) ∷ outbox) h v = elim (Text-discrete j id) [
  | yes same ↦ rw (if_pos _ same) (subst (λ i. get Text-discrete i outbox ≡ none) same v.0, h, v.2)
  | no other ↦ rw (if_neg _ other) (
    get-insert_ne Text-discrete j id map outbox (λ e. other (sym e)) ∙ v.0,
    v.1,
    IsKeyed-insert id map outbox h v.2,
  )
]

note_sent_in-IsKeyedMap :
    (peer : SocketAddr) (packet : Packet) (map : Dict ℕ Entry)
    → IsKeyedMap packet.id map
    → IsKeyedMap packet.id (note_sent_in peer packet map)
unfolding note_sent_in
note_sent_in-IsKeyedMap peer packet map v = elim (Option-cases (get ℕ_discrete packet.n map)) [
  | inl e ↦ rw (e, note_sent_in) (IsKeyedMap-insert packet.id packet.n _ map refl refl v)
  | inr (old, e) ↦
      let own = get-IsKeyedMap packet.id packet.n map old v e in
      rw (e, note_sent_in) (IsKeyedMap-insert packet.id packet.n _ map own.0 own.1 v)
]

-- Sending keeps the outbox keyed.
pub note_sent-IsKeyed :
    (peer : SocketAddr) (packet : Packet) (outbox : Outbox)
    → IsKeyed outbox
    → IsKeyed (note_sent peer packet outbox)
unfolding note_sent get
note_sent-IsKeyed peer packet outbox v = elim (Option-cases (get Text-discrete packet.id outbox)) [
  | inl e ↦
      rw (e, note_sent)
        (IsKeyed-insert packet.id _ outbox (IsKeyedMap-insert packet.id packet.n _ [] refl refl tt)
          v)
  | inr (map, e) ↦
      rw (e, note_sent)
        (IsKeyed-insert packet.id _ outbox
          (note_sent_in-IsKeyedMap peer packet map (get-IsKeyed packet.id map outbox v e)) v)
]

-- So does an acknowledgement.
pub note_ack-IsKeyed :
    (id : InnerKey) (n : ℕ) (src : SocketAddr) (outbox : Outbox)
    → IsKeyed outbox
    → IsKeyed (note_ack id n src outbox)
unfolding note_ack
note_ack-IsKeyed id n src outbox v = elim (Option-cases (get Text-discrete id outbox)) [
  | inl e ↦ rw (e, note_ack) v
  | inr (map, e) ↦
      let keyed = get-IsKeyed id map outbox v e in
      elim (Option-cases (get ℕ_discrete n map)) [
        | inl h ↦ rw (e, note_ack, h) v
        | inr (old, h) ↦
            let own = get-IsKeyedMap id n map old keyed h in
            rw (e, note_ack, h)
              (IsKeyed-insert id _ outbox (IsKeyedMap-insert id n _ map own.0 own.1 keyed) v)
      ]
]
