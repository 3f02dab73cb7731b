-- ===== src/GdUdp/Purge.antt =====
-- The nested `retain`s of `maintain` (src/gd_udp/gd_udp.rs), entry by entry.
use udp2p.Base.{
  ℕ, ◌≡◌, ◌≢◌, refl, sym, subst, ap, ◌∙◌, [], ◌∷◌, Option, some, none, inl, inr, Bool-cases,
  if◌then◌else◌, ℕ_discrete, arith,
}
use udp2p.Base.Dict.{Dict, get, get-nil, get-cons_same, get-cons_ne}
use udp2p.Node.Peer.{Text-discrete}
use udp2p.Protocol.{InnerKey}
use udp2p.GdUdp.{Entry, Outbox, is_open, retain_open, purge}
use udp2p.GdUdp.Lookup.{entry_at, entry_at-none, entry_at-some, entry_at_same}
use udp2p.GdUdp.Keyed.{IsKeyedMap, IsKeyed}

-- An entry is kept while it is open.
abbrev pub kept : Option Entry → Option Entry
kept none = none
kept (some e) = if is_open e then some e else none

get-retain_open :
    (id : InnerKey) (k : ℕ) (map : Dict ℕ Entry)
    → IsKeyedMap id map
    → get ℕ_discrete k (retain_open map) ≡ kept (get ℕ_discrete k map)
unfolding retain_open
get-retain_open id k [] v = rw (get-nil ℕ_discrete k)
get-retain_open id k ((n, e) ∷ map) v =
    let rest = get-retain_open id k map v.3 in
    elim (ℕ_discrete n k) [
      | yes p ↦
          let gone = subst (λ i. get ℕ_discrete i map ≡ none) p v.0 in
          rw (get-cons_same ℕ_discrete n k e map p) (elim (Bool-cases (is_open e)) [
            | inl open_now ↦ rw (open_now, get-cons_same ℕ_discrete n k e (retain_open map) p)
            | inr closed ↦ rw closed (rest ∙ ap kept gone)
          ])
      | no p ↦ rw (get-cons_ne ℕ_discrete n k e map p) (elim (Bool-cases (is_open e)) [
        | inl open_now ↦ rw (open_now, get-cons_ne ℕ_discrete n k e (retain_open map) p) rest
        | inr closed ↦ rw closed rest
      ])
    ]

retain_open-IsKeyedMap :
    (id : InnerKey) (map : Dict ℕ Entry) → IsKeyedMap id map → IsKeyedMap id (retain_open map)
unfolding retain_open
retain_open-IsKeyedMap id [] v = tt
retain_open-IsKeyedMap id ((n, e) ∷ map) v =
    let rest = retain_open-IsKeyedMap id map v.3 in
    let fresh = get-retain_open id n map v.3 ∙ ap kept v.0 in
    elim (Bool-cases (is_open e)) [
      | inl open_now ↦ rw open_now (fresh, v.1, v.2, rest)
      | inr closed ↦ rw closed rest
    ]

-- A message without open packets goes.
purge_cons : InnerKey → Dict ℕ Entry → Outbox → Outbox
purge_cons id [] rest = rest
purge_cons id (e ∷ es) rest = (id, e ∷ es) ∷ rest

purge-cons :
    (id : InnerKey) (map : Dict ℕ Entry) (outbox : Outbox)
    → purge ((id, map) ∷ outbox) ≡ purge_cons id (retain_open map) (purge outbox)
unfolding purge purge_cons
purge-cons id map outbox = ground arith

get-purge_cons :
    (id j : InnerKey) (map : Dict ℕ Entry) (rest : Outbox)
    → id ≢ j
    → get Text-discrete j (purge_cons id map rest) ≡ get Text-discrete j rest
unfolding purge_cons
get-purge_cons id j [] rest h = refl
get-purge_cons id j (x ∷ map) rest h = get-cons_ne Text-discrete id j (x ∷ map) rest h

get-purge :
    (j : InnerKey) (outbox : Outbox)
    → get Text-discrete j outbox ≡ none
    → get Text-discrete j (purge outbox) ≡ none
get-purge j [] e = unfold purge in e
get-purge j ((id, map) ∷ outbox) e = elim (Text-discrete id j) [
  | yes p ↦
      let found : none ≡ some map = sym e ∙ get-cons_same Text-discrete id j map outbox p in cc
  | no p ↦ rw (purge-cons id map outbox) (
      get-purge_cons id j (retain_open map) (purge outbox) p
      ∙ get-purge j outbox (sym (get-cons_ne Text-discrete id j map outbox p) ∙ e))
]

entry_at-purge_cons :
    (id j : InnerKey) (k : ℕ) (map : Dict ℕ Entry) (rest : Outbox)
    → id ≡ j
    → get Text-discrete id rest ≡ none
    → entry_at j k (purge_cons id map rest) ≡ get ℕ_discrete k map
unfolding purge_cons
entry_at-purge_cons id j k [] rest p e =
    entry_at-none j k rest (subst (λ i. get Text-discrete i rest ≡ none) p e)
    ∙ sym (get-nil ℕ_discrete k)
entry_at-purge_cons id j k (x ∷ map) rest p e =
    entry_at-some j k (x ∷ map) _ (get-cons_same Text-discrete id j (x ∷ map) rest p)

purge_cons-IsKeyed :
    (id : InnerKey) (map : Dict ℕ Entry) (rest : Outbox)
    → IsKeyedMap id map
    → get Text-discrete id rest ≡ none
    → IsKeyed rest
    → IsKeyed (purge_cons id map rest)
unfolding purge_cons
purge_cons-IsKeyed id [] rest h e w = w
purge_cons-IsKeyed id (x ∷ map) rest h e w = (e, h, w)

-- After the purge an entry is there exactly if it was and is open, and is then unchanged.
pub entry_at-purge :
    (j : InnerKey) (k : ℕ) (outbox : Outbox)
    → IsKeyed outbox
    → entry_at j k (purge outbox) ≡ kept (entry_at j k outbox)
entry_at-purge j k [] v = unfold purge entry_at get in refl
entry_at-purge j k ((id, map) ∷ outbox) v = elim (Text-discrete id j) [
  | yes p ↦
      rw
        (
          purge-cons id map outbox,
          entry_at-some j k map _ (get-cons_same Text-discrete id j map outbox p),
        )
        (entry_at-purge_cons id j k (retain_open map) (purge outbox) p (get-purge id outbox v.0)
          ∙ get-retain_open id k map v.1)
  | no p ↦
      rw
        (
          purge-cons id map outbox,
          entry_at_same j k _ (purge outbox)
              (get-purge_cons id j (retain_open map) (purge outbox) p),
          entry_at_same j k _ outbox (get-cons_ne Text-discrete id j map outbox p),
        )
        (entry_at-purge j k outbox v.2)
]

pub purge-IsKeyed : (outbox : Outbox) → IsKeyed outbox → IsKeyed (purge outbox)
purge-IsKeyed [] v = unfold purge in tt
purge-IsKeyed ((id, map) ∷ outbox) v = rw (purge-cons id map outbox) (
    purge_cons-IsKeyed id (retain_open map) (purge outbox) (retain_open-IsKeyedMap id map v.1)
      (get-purge id outbox v.0) (purge-IsKeyed outbox v.2))
