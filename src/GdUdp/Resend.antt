-- ===== src/GdUdp/Resend.antt =====
-- The loop of `maintain` (src/gd_udp/gd_udp.rs) that sends again, entry by entry.
use mathlib.Core.List.{append-nil, append_assoc}
use udp2p.Base.{
  ℕ, suc, ◌+◌, ◌≡◌, refl, sym, ap, ◌∙◌, List, [], ◌∷◌, Option, some, inl, inr, if_pos, Bool-cases,
  true, if◌then◌else◌, ltb, length, All, ℕ_discrete, arith, ◌++◌, map, ◌&&◌, not, false,
}
use udp2p.Base.Codec.{Codec}
use udp2p.Base.Perm.{Apart}
use udp2p.Base.Sets
use udp2p.Node.Peer.{SocketAddr, SocketAddr-discrete, Text-discrete}
use udp2p.Protocol.{Bytes, InnerKey, Packet}
use udp2p.GdUdp.{
  Entry, GdUdp, sent_again, unacknowledged, note_sent, send_reliable, send_to_all, resend_entry,
}
use udp2p.GdUdp.Lookup.{entry_at, at_entry, at_entry_self, after_send, entry_at-note_sent}
use udp2p.GdUdp.Keyed.{IsKeyed, note_sent-IsKeyed}

abbrev pub attempted : ℕ → Entry → Entry
attempted times e = record e { attempts = e.attempts + times }

pub attempted_zero : (e : Entry) → e ≡ attempted 0 e
attempted_zero e =
    ap (λ (m : ℕ). record e { attempts = m }) {x = e.attempts} {y = e.attempts + 0} (omega arith)

attempted_twice :
    (times : ℕ) (e : Entry) → attempted times (attempted 1 e) ≡ attempted (suc times) e
attempted_twice times e =
    ap (λ (m : ℕ). record e { attempts = m }) {x = e.attempts + 1 + times}
      {y = e.attempts + suc times} (omega arith)

-- What a round makes of an entry: one attempt more for each destination without acknowledgement.
abbrev pub resent : Entry → Entry
resent e = if ltb e.attempts 10 then attempted (length (unacknowledged e)) e else e

pub at_entry_own : (id : InnerKey) (n : ℕ) (b a : Option Entry) → at_entry id n id n b a ≡ b
at_entry_own id n b a = if_pos (Text-discrete id id) refl _ a ∙ if_pos (ℕ_discrete n n) refl b a

at_entry_twice :
    (id : InnerKey) (n : ℕ) (j : InnerKey) (k : ℕ) (c b a : Option Entry)
    → at_entry id n j k c (at_entry id n j k b a) ≡ at_entry id n j k c a
at_entry_twice id n j k c b a = ground arith

sent_again_known :
    (peer : SocketAddr) (e : Entry)
    → Sets.contains SocketAddr-discrete peer e.sent_set ≡ true
    → sent_again peer e ≡ attempted 1 e
unfolding sent_again
sent_again_known peer e h =
    ap (λ s. record e { sent_set = s; attempts = e.attempts + 1 })
      (Sets.insert_of_contains SocketAddr-discrete peer e.sent_set h)

unacknowledged_sent :
    (e : Entry)
    → All (λ a. Sets.contains SocketAddr-discrete a e.sent_set ≡ true) (unacknowledged e)
unfolding unacknowledged
unacknowledged_sent e = Sets.contains-difference SocketAddr-discrete e.sent_set e.ack_set

-- The peers that a packet goes to again: with fewer than 10 attempts each one that it was sent
-- to and that has not acknowledged it, once; with 10 or more none.
abbrev pub IsResentTo : Entry → List SocketAddr → Type 0
IsResentTo e peers =
    Apart (λ (a : SocketAddr). a) peers
    × ((a : SocketAddr)
        → Sets.contains SocketAddr-discrete a peers ≡ (
            ltb e.attempts 10
            && (Sets.contains SocketAddr-discrete a e.sent_set
                && not (Sets.contains SocketAddr-discrete a e.ack_set))))

unacknowledged-IsResentTo :
    (e : Entry)
    → Apart (λ (a : SocketAddr). a) e.sent_set
    → ltb e.attempts 10 ≡ true
    → IsResentTo e (unacknowledged e)
unfolding unacknowledged
unacknowledged-IsResentTo e once few = (
  Sets.Apart-difference SocketAddr-discrete e.sent_set e.ack_set once,
  λ a. rw few (Sets.contains-difference-eq SocketAddr-discrete a e.sent_set e.ack_set),
)

nobody-IsResentTo : (e : Entry) → ltb e.attempts 10 ≡ false → IsResentTo e []
unfolding Sets.contains
nobody-IsResentTo e many = (tt, λ a. rw many refl)

module _ (c : Codec Packet) where
  outbox-send_reliable :
      (peer : SocketAddr) (packet : Packet) (s : GdUdp)
      → (send_reliable c peer packet s).outbox ≡ note_sent peer packet s.outbox
  unfolding send_reliable
  outbox-send_reliable peer packet s = refl

  entry_at-send_to_all :
      (peers : List SocketAddr) (packet : Packet) (s : GdUdp) (e : Entry) (j : InnerKey) (k : ℕ)
      → entry_at packet.id packet.n s.outbox ≡ some e
      → All (λ a. Sets.contains SocketAddr-discrete a e.sent_set ≡ true) peers
      → entry_at j k (send_to_all c peers packet s).outbox
        ≡ at_entry packet.id packet.n j k
            (some (attempted (length peers) e))
            (entry_at j k s.outbox)
  unfolding send_to_all
  entry_at-send_to_all [] packet s e j k own h =
      at_entry_self packet.id packet.n s.outbox j k (some (attempted 0 e))
        (own ∙ ap some (attempted_zero e))
  entry_at-send_to_all (peer ∷ peers) packet s e j k own h =
      let s' = send_reliable c peer packet s in
      let sent = λ (i : InnerKey) (m : ℕ).
        ap (entry_at i m) (outbox-send_reliable peer packet s)
        ∙ entry_at-note_sent peer packet s.outbox i m
        ∙ ap
            (λ o.
              at_entry packet.id packet.n i m (some (after_send peer packet o))
                (entry_at i m s.outbox))
            own
        ∙ ap (λ x. at_entry packet.id packet.n i m (some x) (entry_at i m s.outbox))
            (sent_again_known peer e h.0) in
      entry_at-send_to_all peers packet s' (attempted 1 e) j k
        (sent packet.id packet.n ∙ at_entry_own packet.id packet.n _ _) h.1
      ∙ ap (at_entry packet.id packet.n j k (some (attempted (length peers) (attempted 1 e))))
          (sent j k)
      ∙ at_entry_twice packet.id packet.n j k _ _ _
      ∙ ap (λ x. at_entry packet.id packet.n j k (some x) (entry_at j k s.outbox))
          (attempted_twice (length peers) e)

  pub entry_at-resend_entry :
      (e : Entry) (s : GdUdp) (j : InnerKey) (k : ℕ)
      → entry_at e.packet.id e.packet.n s.outbox ≡ some e
      → entry_at j k (resend_entry c e s).outbox
        ≡ at_entry e.packet.id e.packet.n j k (some (resent e)) (entry_at j k s.outbox)
  unfolding resend_entry
  entry_at-resend_entry e s j k own = elim (Bool-cases (ltb e.attempts 10)) [
    | inl few ↦
        rw few
          (entry_at-send_to_all (unacknowledged e) e.packet s e j k own (unacknowledged_sent e))
    | inr many ↦ rw many (at_entry_self e.packet.id e.packet.n s.outbox j k (some e) own)
  ]

  send_to_all-IsKeyed :
      (peers : List SocketAddr) (packet : Packet) (s : GdUdp)
      → IsKeyed s.outbox
      → IsKeyed (send_to_all c peers packet s).outbox
  unfolding send_to_all
  send_to_all-IsKeyed [] packet s v = v
  send_to_all-IsKeyed (peer ∷ peers) packet s v =
      send_to_all-IsKeyed peers packet (send_reliable c peer packet s)
        (unfold send_reliable in note_sent-IsKeyed peer packet s.outbox v)

  pub resend_entry-IsKeyed :
      (e : Entry) (s : GdUdp) → IsKeyed s.outbox → IsKeyed (resend_entry c e s).outbox
  unfolding resend_entry
  resend_entry-IsKeyed e s v = elim (Bool-cases (ltb e.attempts 10)) [
    | inl few ↦ rw few (send_to_all-IsKeyed (unacknowledged e) e.packet s v)
    | inr many ↦ rw many v
  ]

  sock-send_to_all :
      (peers : List SocketAddr) (packet : Packet) (s : GdUdp) (bytes : Bytes)
      → c.as_bytes packet ≡ some bytes
      → (send_to_all c peers packet s).sock ≡ s.sock ++ map (λ a. (bytes, a)) peers
  unfolding send_to_all send_reliable
  sock-send_to_all [] packet s bytes h = sym (append-nil s.sock)
  sock-send_to_all (peer ∷ peers) packet s bytes h =
      sock-send_to_all peers packet (send_reliable c peer packet s) bytes h
      ∙ rw h (append_assoc s.sock ((bytes, peer) ∷ []) (map (λ a. (bytes, a)) peers))

  -- A packet that can be written to bytes, of an entry whose set of destinations lists each once:
  -- what a round sends for it is these bytes, to certain peers and nobody else. With fewer than 10
  -- attempts the peers are those that it was sent to and that have not acknowledged it, each once;
  -- with 10 or more there are none.
  pub sock-resend_entry :
      (e : Entry) (s : GdUdp) (bytes : Bytes)
      → c.as_bytes e.packet ≡ some bytes
      → Apart (λ (a : SocketAddr). a) e.sent_set
      → (peers : List SocketAddr) × ((resend_entry c e s).sock
          ≡ s.sock ++ map (λ a. (bytes, a)) peers)
        × IsResentTo e peers
  unfolding resend_entry
  sock-resend_entry e s bytes h once = elim (Bool-cases (ltb e.attempts 10)) [
    | inl few ↦ (
      unacknowledged e,
      rw few (sock-send_to_all (unacknowledged e) e.packet s bytes h),
      unacknowledged-IsResentTo e once few,
    )
    | inr many ↦ ([], rw many (sym (append-nil s.sock)), nobody-IsResentTo e many)
  ]
