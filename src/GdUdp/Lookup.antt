-- ===== src/GdUdp/Lookup.antt =====
-- The outbox of src/gd_udp/gd_udp.rs seen through its lookups: what one send and one acknowledgement
-- change, entry by entry.
use mathlib.Core.Option
use udp2p.Base.{
  ℕ, ◌≡◌, sym, ◌∙◌, [], Option, some, none, Option-cases, inl, inr, ite, if_pos, if_neg, ite_congr,
  ap, ap₂, subst, ℕ_discrete,
}
use udp2p.Base.Dict.{Dict, get, insert, get-insert}
use udp2p.Node.Peer.{SocketAddr, Text-discrete}
use udp2p.Protocol.{InnerKey, Packet}
use udp2p.GdUdp.{
  Entry, Outbox, first_entry, sent_again, note_sent_in, note_sent, acknowledged_by, note_ack,
}

-- The entry of a packet, by its message and its number.
unfoldable pub entry_at : InnerKey → ℕ → Outbox → Option Entry
entry_at id n outbox = elim (get Text-discrete id outbox) [
  | none ↦ none
  | some map ↦ get ℕ_discrete n map
]

-- `b` at the entry (id, n), and `a` elsewhere.
abbrev pub at_entry : InnerKey → ℕ → InnerKey → ℕ → Option Entry → Option Entry → Option Entry
at_entry id n j k b a = ite (Text-discrete id j) (ite (ℕ_discrete n k) b a) a

-- What a send makes of an entry.
abbrev pub after_send : SocketAddr → Packet → Option Entry → Entry
after_send peer packet none = first_entry peer packet
after_send peer packet (some e) = sent_again peer e

get-note_sent_in :
    (peer : SocketAddr) (packet : Packet) (map : Dict ℕ Entry) (k : ℕ)
    → get ℕ_discrete k (note_sent_in peer packet map)
      ≡ ite
          (ℕ_discrete packet.n k)
          (some (after_send peer packet (get ℕ_discrete packet.n map)))
          (get ℕ_discrete k map)
unfolding note_sent_in
get-note_sent_in peer packet map k = elim (Option-cases (get ℕ_discrete packet.n map)) [
  | inl e ↦ rw (e, note_sent_in) (get-insert ℕ_discrete k packet.n (first_entry peer packet) map)
  | inr (old, e) ↦ rw (e, note_sent_in) (get-insert ℕ_discrete k packet.n (sent_again peer old) map)
]

pub entry_at-none :
    (id : InnerKey) (n : ℕ) (outbox : Outbox)
    → get Text-discrete id outbox ≡ none
    → entry_at id n outbox ≡ none
unfolding entry_at
entry_at-none id n outbox e = rw (e, entry_at)

pub entry_at-some :
    (id : InnerKey) (n : ℕ) (map : Dict ℕ Entry) (outbox : Outbox)
    → get Text-discrete id outbox ≡ some map
    → entry_at id n outbox ≡ get ℕ_discrete n map
unfolding entry_at
entry_at-some id n map outbox e = rw (e, entry_at)

pub entry_at_same :
    (id : InnerKey) (n : ℕ) (one other : Outbox)
    → get Text-discrete id one ≡ get Text-discrete id other
    → entry_at id n one ≡ entry_at id n other
unfolding entry_at
entry_at_same id n one other e = rw (e, entry_at)

entry_at-insert :
    (id j : InnerKey) (k : ℕ) (map : Dict ℕ Entry) (outbox : Outbox)
    → entry_at j k (insert Text-discrete id map outbox)
      ≡ ite (Text-discrete id j) (get ℕ_discrete k map) (entry_at j k outbox)
entry_at-insert id j k map outbox =
    let found = get-insert Text-discrete j id map outbox in
    elim (Text-discrete id j) [
      | yes p ↦
          rw (if_pos _ p)
            (entry_at-some j k map _ (found ∙ if_pos (Text-discrete id j) p (some map) _))
      | no p ↦
          rw (if_neg _ p)
            (entry_at_same j k _ outbox (found ∙ if_neg (Text-discrete id j) p (some map) _))
    ]

module _ (peer : SocketAddr) (packet : Packet) (outbox : Outbox) (j : InnerKey) (k : ℕ) where
  unknown :
      packet.id ≡ j
      → get Text-discrete packet.id outbox ≡ none
      → get ℕ_discrete k (insert ℕ_discrete packet.n (first_entry peer packet) [])
        ≡ ite (ℕ_discrete packet.n k) (some (first_entry peer packet)) (entry_at j k outbox)
  unfolding get
  unknown p e =
      get-insert ℕ_discrete k packet.n (first_entry peer packet) []
      ∙ ap (ite (ℕ_discrete packet.n k) (some (first_entry peer packet)))
          (sym (entry_at-none j k outbox (subst (λ i. get Text-discrete i outbox ≡ none) p e)))

  known :
      (map : Dict ℕ Entry)
      → packet.id ≡ j
      → get Text-discrete packet.id outbox ≡ some map
      → get ℕ_discrete k (note_sent_in peer packet map)
        ≡ ite
            (ℕ_discrete packet.n k)
            (some (after_send peer packet (get ℕ_discrete packet.n map)))
            (entry_at j k outbox)
  known map p e =
      get-note_sent_in peer packet map k
      ∙ ap
          (ite (ℕ_discrete packet.n k)
            (some (after_send peer packet (get ℕ_discrete packet.n map))))
          (sym
            (entry_at-some j k map outbox (subst (λ i. get Text-discrete i outbox ≡ some map) p e)))

-- A send changes the entry of its packet, which it makes or counts up and adds the peer to, and no
-- other.
pub entry_at-note_sent :
    (peer : SocketAddr) (packet : Packet) (outbox : Outbox) (j : InnerKey) (k : ℕ)
    → entry_at j k (note_sent peer packet outbox)
      ≡ at_entry packet.id packet.n j k
          (some (after_send peer packet (entry_at packet.id packet.n outbox)))
          (entry_at j k outbox)
unfolding note_sent
entry_at-note_sent peer packet outbox j k =
    elim (Option-cases (get Text-discrete packet.id outbox)) [
      | inl e ↦
          rw (e, note_sent, entry_at-none packet.id packet.n outbox e)
            (entry_at-insert packet.id j k _ outbox
              ∙ ite_congr (Text-discrete packet.id j) _ (λ p. unknown peer packet outbox j k p e))
      | inr (map, e) ↦
          rw (e, note_sent, entry_at-some packet.id packet.n map outbox e)
            (entry_at-insert packet.id j k _ outbox
              ∙ ite_congr (Text-discrete packet.id j) _ (λ p. known peer packet outbox j k map p e))
    ]

pub at_entry_self :
    (id : InnerKey) (n : ℕ) (outbox : Outbox) (j : InnerKey) (k : ℕ) (o : Option Entry)
    → entry_at id n outbox ≡ o
    → entry_at j k outbox ≡ at_entry id n j k o (entry_at j k outbox)
at_entry_self id n outbox j k o e = elim (Text-discrete id j) [
  | yes p ↦ rw (if_pos _ p) (elim (ℕ_discrete n k) [
    | yes q ↦ rw (if_pos _ q) (ap₂ (λ i m. entry_at i m outbox) (sym p) (sym q) ∙ e)
    | no q ↦ rw (if_neg _ q)
  ])
  | no p ↦ rw (if_neg _ p)
]

note_ack_missing :
    (id : InnerKey) (n : ℕ) (src : SocketAddr) (outbox : Outbox) (map : Dict ℕ Entry)
    → get Text-discrete id outbox ≡ some map
    → get ℕ_discrete n map ≡ none
    → note_ack id n src outbox ≡ outbox
unfolding note_ack
note_ack_missing id n src outbox map e h = rw (e, note_ack, h)

note_ack_found :
    (id : InnerKey) (n : ℕ) (src : SocketAddr) (outbox : Outbox) (map : Dict ℕ Entry) (old : Entry)
    → get Text-discrete id outbox ≡ some map
    → get ℕ_discrete n map ≡ some old
    → note_ack id n src outbox
      ≡ insert Text-discrete id (insert ℕ_discrete n (acknowledged_by src old) map) outbox
unfolding note_ack
note_ack_found id n src outbox map old e h = rw (e, note_ack, h)

note_ack_unknown :
    (id : InnerKey) (n : ℕ) (src : SocketAddr) (outbox : Outbox)
    → get Text-discrete id outbox ≡ none
    → note_ack id n src outbox ≡ outbox
unfolding note_ack
note_ack_unknown id n src outbox e = rw (e, note_ack)

-- An acknowledgement adds its source to the entry that it names, if there is one, and changes no
-- other.
pub entry_at-note_ack :
    (id : InnerKey) (n : ℕ) (src : SocketAddr) (outbox : Outbox) (j : InnerKey) (k : ℕ)
    → entry_at j k (note_ack id n src outbox)
      ≡ at_entry id n j k
          (Option.map (acknowledged_by src) (entry_at id n outbox))
          (entry_at j k outbox)
entry_at-note_ack id n src outbox j k = elim (Option-cases (get Text-discrete id outbox)) [
  | inl e ↦
      let miss = entry_at-none id n outbox e in
      rw (note_ack_unknown id n src outbox e, miss) (at_entry_self id n outbox j k none miss)
  | inr (map, e) ↦ elim (Option-cases (get ℕ_discrete n map)) [
    | inl h ↦
        let miss = entry_at-some id n map outbox e ∙ h in
        rw (note_ack_missing id n src outbox map e h, miss)
          (at_entry_self id n outbox j k none miss)
    | inr (old, h) ↦
        rw (note_ack_found id n src outbox map old e h, entry_at-some id n map outbox e, h)
          (entry_at-insert id j k _ outbox
            ∙ ite_congr (Text-discrete id j) _ (λ p.
              get-insert ℕ_discrete k n (acknowledged_by src old) map
              ∙ ap (ite (ℕ_discrete n k) (some (acknowledged_by src old))) (
                  sym (
                    entry_at-some j k map outbox
                      (subst (λ i. get Text-discrete i outbox ≡ some map) p e)))))
  ]
]
