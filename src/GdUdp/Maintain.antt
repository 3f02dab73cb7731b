-- ===== src/GdUdp/Maintain.antt =====
-- A whole round of `maintain` (src/gd_udp/gd_udp.rs), entry by entry.
use mathlib.Core.Option
use udp2p.Base.{
  ℕ, ◌≡◌, ◌≢◌, refl, sym, subst, ap, ap₂, ◌∙◌, [], ◌∷◌, Option, some, none, ite, if_pos, if_neg,
  ℕ_discrete, arith,
}
use udp2p.Base.Codec.{Codec}
use udp2p.Base.Dict.{Dict, get, get-nil, get-cons_same, get-cons_ne}
use udp2p.Node.Peer.{Text-discrete}
use udp2p.Protocol.{InnerKey, Packet}
use udp2p.GdUdp.{Entry, Outbox, GdUdp, purge, resend_entry, resend_map, resend_outbox, maintain}
use udp2p.GdUdp.Lookup.{entry_at, at_entry, entry_at-none, entry_at-some, entry_at_same}
use udp2p.GdUdp.Keyed.{IsKeyedMap, IsKeyed}
use udp2p.GdUdp.Purge.{kept, entry_at-purge, purge-IsKeyed}
use udp2p.GdUdp.Resend.{resent, entry_at-resend_entry, resend_entry-IsKeyed}

-- An entry that is found is sent again; elsewhere there is what was there.
abbrev pub over : Option Entry → Option Entry → Option Entry
over none a = a
over (some e) a = some (resent e)

over_same : (o : Option Entry) → over o o ≡ Option.map resent o
over_same none = refl
over_same (some e) = refl

pub at_entry_other :
    (id : InnerKey) (n : ℕ) (j : InnerKey) (k : ℕ) (b a : Option Entry)
    → n ≢ k
    → at_entry id n j k b a ≡ a
at_entry_other id n j k b a h = ground arith

at_entry_apart :
    (id : InnerKey) (n : ℕ) (j : InnerKey) (k : ℕ) (b a : Option Entry)
    → id ≢ j
    → at_entry id n j k b a ≡ a
at_entry_apart id n j k b a h = ground arith

over_nothing :
    (id j : InnerKey) (k : ℕ) (a : Option Entry)
    → a ≡ ite (Text-discrete id j) (over (get ℕ_discrete k []) a) a
unfolding get
over_nothing id j k a = ground arith

over_number :
    (n : ℕ) (e : Entry) (map : Dict ℕ Entry) (k : ℕ) (a : Option Entry)
    → get ℕ_discrete n map ≡ none
    → over (get ℕ_discrete k map) (ite (ℕ_discrete n k) (some (resent e)) a)
      ≡ over (get ℕ_discrete k ((n, e) ∷ map)) a
over_number n e map k a fresh = elim (ℕ_discrete n k) [
  | yes q ↦ rw (
    if_pos _ q,
    get-cons_same ℕ_discrete n k e map q,
    subst (λ i. get ℕ_discrete i map ≡ none) q fresh,
  )
  | no q ↦ rw (if_neg _ q, get-cons_ne ℕ_discrete n k e map q)
]

over-cons :
    (id : InnerKey) (n : ℕ) (e : Entry) (map : Dict ℕ Entry) (j : InnerKey) (k : ℕ)
    (a : Option Entry)
    → get ℕ_discrete n map ≡ none
    → ite
        (Text-discrete id j)
        (over (get ℕ_discrete k map) (at_entry id n j k (some (resent e)) a))
        (at_entry id n j k (some (resent e)) a)
      ≡ ite (Text-discrete id j) (over (get ℕ_discrete k ((n, e) ∷ map)) a) a
over-cons id n e map j k a fresh = elim (Text-discrete id j) [
  | yes p ↦
      let b = at_entry id n j k (some (resent e)) a in
      if_pos (Text-discrete id j) p (over (get ℕ_discrete k map) b) b
      ∙ ap (over (get ℕ_discrete k map))
          (if_pos (Text-discrete id j) p (ite (ℕ_discrete n k) (some (resent e)) a) a)
      ∙ over_number n e map k a fresh
      ∙ sym (if_pos (Text-discrete id j) p (over (get ℕ_discrete k ((n, e) ∷ map)) a) a)
  | no p ↦
      ap (λ b. ite (Text-discrete id j) (over (get ℕ_discrete k map) b) b)
        (at_entry_apart id n j k (some (resent e)) a p)
      ∙ if_neg (Text-discrete id j) p (over (get ℕ_discrete k map) a) a
      ∙ sym (if_neg (Text-discrete id j) p (over (get ℕ_discrete k ((n, e) ∷ map)) a) a)
]

over_message :
    (id : InnerKey) (map : Dict ℕ Entry) (outbox : Outbox) (j : InnerKey) (k : ℕ) (a : Option Entry)
    → get Text-discrete id outbox ≡ none
    → over (entry_at j k outbox) (ite (Text-discrete id j) (over (get ℕ_discrete k map) a) a)
      ≡ over (entry_at j k ((id, map) ∷ outbox)) a
over_message id map outbox j k a fresh = elim (Text-discrete id j) [
  | yes p ↦ rw (
    if_pos _ p,
    entry_at-none j k outbox (subst (λ q. get Text-discrete q outbox ≡ none) p fresh),
    entry_at-some j k map _ (get-cons_same Text-discrete id j map outbox p),
  )
  | no p ↦ rw (if_neg _ p, entry_at_same j k _ outbox (get-cons_ne Text-discrete id j map outbox p))
]

module _ (c : Codec Packet) where
  -- Sending an entry of the map again leaves the others as they were.
  entry_at-step :
      (id : InnerKey) (n : ℕ) (e : Entry) (s : GdUdp) (j : InnerKey) (k : ℕ)
      → e.packet.id ≡ id
      → e.packet.n ≡ n
      → entry_at id n s.outbox ≡ some e
      → entry_at j k (resend_entry c e s).outbox
        ≡ at_entry id n j k (some (resent e)) (entry_at j k s.outbox)
  entry_at-step id n e s j k p q own =
      entry_at-resend_entry c e s j k (ap₂ (λ i m. entry_at i m s.outbox) p q ∙ own)
      ∙ ap₂ (λ i m. at_entry i m j k (some (resent e)) (entry_at j k s.outbox)) p q

  resend_map-current :
      (id : InnerKey) (n : ℕ) (e : Entry) (map : Dict ℕ Entry) (s : GdUdp)
      → IsKeyedMap id ((n, e) ∷ map)
      → ((k : ℕ) (x : Entry)
          → get ℕ_discrete k ((n, e) ∷ map) ≡ some x
          → entry_at id k s.outbox ≡ some x)
      → (k : ℕ) (x : Entry) → get ℕ_discrete k map ≡ some x
      → entry_at id k (resend_entry c e s).outbox ≡ some x
  resend_map-current id n e map s v h k x found =
      let own = h n e (get-cons_same ℕ_discrete n n e map refl) in
      elim (ℕ_discrete n k) [
        | yes p ↦
            let missing = subst (λ i. get ℕ_discrete i map ≡ none) p v.0 in
            let clash : none ≡ some x = sym missing ∙ found in cc
        | no p ↦
            entry_at-step id n e s id k v.1 v.2 own
            ∙ at_entry_other id n id k _ _ p
            ∙ h k x (get-cons_ne ℕ_discrete n k e map p ∙ found)
      ]

  entry_at-resend_map :
      (id : InnerKey) (map : Dict ℕ Entry) (s : GdUdp) (j : InnerKey) (k : ℕ)
      → IsKeyedMap id map
      → ((k : ℕ) (x : Entry) → get ℕ_discrete k map ≡ some x → entry_at id k s.outbox ≡ some x)
      → entry_at j k (resend_map c map s).outbox
        ≡ ite
            (Text-discrete id j)
            (over (get ℕ_discrete k map) (entry_at j k s.outbox))
            (entry_at j k s.outbox)
  unfolding resend_map
  entry_at-resend_map id [] s j k v h = over_nothing id j k (entry_at j k s.outbox)
  entry_at-resend_map id ((n, e) ∷ map) s j k v h =
      let own = h n e (get-cons_same ℕ_discrete n n e map refl) in
      let step = entry_at-step id n e s j k v.1 v.2 own in
      let rest =
        entry_at-resend_map id map (resend_entry c e s) j k v.3
          (resend_map-current id n e map s v h) in
      rest
      ∙ ap (λ b. ite (Text-discrete id j) (over (get ℕ_discrete k map) b) b) step
      ∙ over-cons id n e map j k (entry_at j k s.outbox) v.0

  resend_outbox-current :
      (id : InnerKey) (map : Dict ℕ Entry) (outbox : Outbox) (s : GdUdp)
      → IsKeyed ((id, map) ∷ outbox)
      → ((m : ℕ) (x : Entry) → get ℕ_discrete m map ≡ some x → entry_at id m s.outbox ≡ some x)
      → ((i : InnerKey) (m : ℕ) (x : Entry)
          → entry_at i m ((id, map) ∷ outbox) ≡ some x
          → entry_at i m s.outbox ≡ some x)
      → (i : InnerKey) (m : ℕ) (x : Entry) → entry_at i m outbox ≡ some x
      → entry_at i m (resend_map c map s).outbox ≡ some x
  resend_outbox-current id map outbox s v own h i m x found = elim (Text-discrete id i) [
    | yes p ↦
        let missing =
          entry_at-none i m outbox (subst (λ q. get Text-discrete q outbox ≡ none) p v.0) in
        let clash : none ≡ some x = sym missing ∙ found in cc
    | no p ↦
        entry_at-resend_map id map s i m v.1 own
        ∙ if_neg (Text-discrete id i) p _ (entry_at i m s.outbox)
        ∙ h i m x (entry_at_same i m _ outbox (get-cons_ne Text-discrete id i map outbox p) ∙ found)
  ]

  entry_at-resend_outbox :
      (outbox : Outbox) (s : GdUdp) (j : InnerKey) (k : ℕ)
      → IsKeyed outbox
      → ((i : InnerKey) (m : ℕ) (x : Entry)
          → entry_at i m outbox ≡ some x
          → entry_at i m s.outbox ≡ some x)
      → entry_at j k (resend_outbox c outbox s).outbox
        ≡ over (entry_at j k outbox) (entry_at j k s.outbox)
  unfolding resend_outbox
  entry_at-resend_outbox [] s j k v h = rw (entry_at-none j k [] (get-nil Text-discrete j))
  entry_at-resend_outbox ((id, map) ∷ outbox) s j k v h =
      let own = λ (m : ℕ) (x : Entry) (found : get ℕ_discrete m map ≡ some x).
        h id m x
          (entry_at-some id m map _ (get-cons_same Text-discrete id id map outbox refl) ∙ found) in
      let step = entry_at-resend_map id map s j k v.1 own in
      let rest =
        entry_at-resend_outbox outbox (resend_map c map s) j k v.2
          (resend_outbox-current id map outbox s v own h) in
      rest
      ∙ ap (over (entry_at j k outbox)) step
      ∙ over_message id map outbox j k (entry_at j k s.outbox) v.0

  resend_map-IsKeyed :
      (map : Dict ℕ Entry) (s : GdUdp) → IsKeyed s.outbox → IsKeyed (resend_map c map s).outbox
  unfolding resend_map
  resend_map-IsKeyed [] s v = v
  resend_map-IsKeyed ((n, e) ∷ map) s v =
      resend_map-IsKeyed map (resend_entry c e s) (resend_entry-IsKeyed c e s v)

  resend_outbox-IsKeyed :
      (outbox : Outbox) (s : GdUdp) → IsKeyed s.outbox → IsKeyed (resend_outbox c outbox s).outbox
  unfolding resend_outbox
  resend_outbox-IsKeyed [] s v = v
  resend_outbox-IsKeyed ((id, map) ∷ outbox) s v =
      resend_outbox-IsKeyed outbox (resend_map c map s) (resend_map-IsKeyed map s v)

  pub maintain-IsKeyed : (s : GdUdp) → IsKeyed s.outbox → IsKeyed (maintain c s).outbox
  unfolding maintain
  maintain-IsKeyed s v = resend_outbox-IsKeyed (purge s.outbox) _ (purge-IsKeyed s.outbox v)

  -- One round of `maintain` on an outbox that is keyed: every entry that is closed (acknowledged
  -- by exactly the destinations it was sent to, or 10 attempts or more) is gone, every other has
  -- one attempt more for each destination that has not acknowledged and is otherwise as it was,
  -- and no entry is new.
  pub entry_at-maintain :
      (s : GdUdp) (j : InnerKey) (k : ℕ)
      → IsKeyed s.outbox
      → entry_at j k (maintain c s).outbox ≡ Option.map resent (kept (entry_at j k s.outbox))
  unfolding maintain
  entry_at-maintain s j k v =
      entry_at-resend_outbox (purge s.outbox) (record s { outbox = purge s.outbox }) j k
        (purge-IsKeyed s.outbox v) (λ i m x e. e)
      ∙ ap (λ o. over o o) (entry_at-purge j k s.outbox v)
      ∙ over_same (kept (entry_at j k s.outbox))
