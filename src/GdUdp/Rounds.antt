-- ===== src/GdUdp/Rounds.antt =====
-- Round after round of `maintain` (src/gd_udp/gd_udp.rs): how long a packet stays in the outbox.
use mathlib.Core.Option
use udp2p.Base.{
  ℕ, zero, suc, ◌+◌, ◌≤◌, ◌<◌, ◌≡◌, ap, ◌∙◌, some, none, Bool-cases, true, false, ◌&&◌, length, inl,
  inr, arith, lt→ltb, dec_le, sym,
}
use udp2p.Base.Codec.{Codec}
use udp2p.Base.Sets
use udp2p.Node.Peer.{SocketAddr-discrete}
use udp2p.Protocol.{InnerKey, Packet}
use udp2p.GdUdp.{Entry, GdUdp, is_open, unacknowledged, maintain}
use udp2p.GdUdp.Lookup.{entry_at}
use udp2p.GdUdp.Keyed.{IsKeyed}
use udp2p.GdUdp.Purge.{kept}
use udp2p.GdUdp.Resend.{resent, attempted, attempted_zero}
use udp2p.GdUdp.Maintain.{entry_at-maintain, maintain-IsKeyed}

-- So many rounds, one after the other.
unfoldable pub rounds : Codec Packet → ℕ → GdUdp → GdUdp
rounds c zero s = s
rounds c (suc t) s = rounds c t (maintain c s)

-- No destination has acknowledged that was not sent to.
abbrev pub HasNoForeignAck : Entry → Type 0
HasNoForeignAck e = Sets.is_subset SocketAddr-discrete e.ack_set e.sent_set ≡ true

closed_settled :
    (e : Entry)
    → Sets.is_subset SocketAddr-discrete e.sent_set e.ack_set ≡ true
    → HasNoForeignAck e
    → kept (some e) ≡ none
unfolding is_open Sets.same_set
closed_settled e h g = rw (h, g)

closed_late : (e : Entry) → 10 ≤ e.attempts → kept (some e) ≡ none
unfolding is_open
closed_late e h = ground arith

-- Once all destinations have acknowledged, and no others, the next round drops the packet.
pub maintain_settled :
    (c : Codec Packet) (s : GdUdp) (j : InnerKey) (k : ℕ) (e : Entry)
    → IsKeyed s.outbox
    → entry_at j k s.outbox ≡ some e
    → Sets.is_subset SocketAddr-discrete e.sent_set e.ack_set ≡ true
    → HasNoForeignAck e
    → entry_at j k (maintain c s).outbox ≡ none
maintain_settled c s j k e v own h g =
    entry_at-maintain c s j k v
    ∙ ap (λ o. Option.map resent (kept o)) own
    ∙ ap (Option.map resent) (closed_settled e h g)

open_while :
    (e : Entry)
    → e.attempts < 10
    → (Sets.is_subset SocketAddr-discrete e.sent_set e.ack_set
        && Sets.is_subset SocketAddr-discrete e.ack_set e.sent_set)
      ≡ false
    → kept (some e) ≡ some e
unfolding is_open Sets.same_set
open_while e few h = rw (h, lt→ltb e.attempts 10 few)

resent_few : (e : Entry) → e.attempts < 10 → resent e ≡ attempted (length (unacknowledged e)) e
resent_few e few = rw (lt→ltb e.attempts 10 few)

module _ (c : Codec Packet) where
  -- One round on an entry that is open.
  pub entry_at-maintain_open :
      (s : GdUdp) (j : InnerKey) (k : ℕ) (e : Entry)
      → IsKeyed s.outbox
      → entry_at j k s.outbox ≡ some e
      → e.attempts < 10
      → (Sets.is_subset SocketAddr-discrete e.sent_set e.ack_set
          && Sets.is_subset SocketAddr-discrete e.ack_set e.sent_set)
        ≡ false
      → entry_at j k (maintain c s).outbox ≡ some (attempted (length (unacknowledged e)) e)
  entry_at-maintain_open s j k e v own few h =
      entry_at-maintain c s j k v
      ∙ ap (λ o. Option.map resent (kept o)) own
      ∙ ap (Option.map resent) (open_while e few h)
      ∙ ap some (resent_few e few)

  maintain_late :
      (s : GdUdp) (j : InnerKey) (k : ℕ) (e : Entry)
      → IsKeyed s.outbox
      → entry_at j k s.outbox ≡ some e
      → 10 ≤ e.attempts
      → entry_at j k (maintain c s).outbox ≡ none
  maintain_late s j k e v own h =
      entry_at-maintain c s j k v
      ∙ ap (λ o. Option.map resent (kept o)) own
      ∙ ap (Option.map resent) (closed_late e h)

  rounds-none :
      (t : ℕ) (s : GdUdp) (j : InnerKey) (k : ℕ)
      → IsKeyed s.outbox
      → entry_at j k s.outbox ≡ none
      → entry_at j k (rounds c t s).outbox ≡ none
  unfolding rounds
  rounds-none zero s j k v own = own
  rounds-none (suc t) s j k v own =
      rounds-none t (maintain c s) j k (maintain-IsKeyed c s v)
        (entry_at-maintain c s j k v ∙ ap (λ o. Option.map resent (kept o)) own)

more_attempts :
    (e : Entry) (t : ℕ)
    → Sets.is_subset SocketAddr-discrete e.sent_set e.ack_set ≡ false
    → 10 ≤ e.attempts + suc t
    → 10 ≤ e.attempts + length (unacknowledged e) + t
unfolding unacknowledged
more_attempts e t h late =
    let pending = Sets.difference_ne-nil SocketAddr-discrete e.sent_set e.ack_set h in omega arith

attempted_none :
    (e : Entry)
    → Sets.is_subset SocketAddr-discrete e.sent_set e.ack_set ≡ true
    → attempted (length (unacknowledged e)) e ≡ e
unfolding unacknowledged
attempted_none e h =
    ap (λ s. attempted (length s) e)
      (Sets.difference-eq-nil SocketAddr-discrete e.sent_set e.ack_set h)
    ∙ sym (attempted_zero e)

-- A packet that no destination but those it was sent to has acknowledged leaves a keyed outbox: if
-- 10 is at most its attempts plus `t`, it is gone after `t + 1` rounds, acknowledged or not.
pub rounds_end :
    (c : Codec Packet) (t : ℕ) (s : GdUdp) (j : InnerKey) (k : ℕ) (e : Entry)
    → IsKeyed s.outbox
    → entry_at j k s.outbox ≡ some e
    → HasNoForeignAck e
    → 10 ≤ e.attempts + t
    → entry_at j k (rounds c (suc t) s).outbox ≡ none
unfolding rounds
rounds_end c zero s j k e v own g h = maintain_late c s j k e v own (omega arith)
rounds_end c (suc t) s j k e v own g h = elim (dec_le 10 e.attempts) [
  | yes late ↦
      rounds-none c (suc t) (maintain c s) j k (maintain-IsKeyed c s v)
        (maintain_late c s j k e v own late)
  | no few ↦ elim (Bool-cases (Sets.is_subset SocketAddr-discrete e.sent_set e.ack_set)) [
    | inl all ↦
        rounds-none c (suc t) (maintain c s) j k (maintain-IsKeyed c s v)
          (maintain_settled c s j k e v own all g)
    | inr pending ↦
        let few_now : e.attempts < 10 = omega arith in
        let next = entry_at-maintain_open c s j k e v own few_now (rw pending) in
        rounds_end c t (maintain c s) j k (attempted (length (unacknowledged e)) e)
          (maintain-IsKeyed c s v) next g (more_attempts e t pending h)
  ]
]

-- A foreign acknowledgement beside all others keeps a packet in the outbox.
pub rounds_leak :
    (c : Codec Packet) (t : ℕ) (s : GdUdp) (j : InnerKey) (k : ℕ) (e : Entry)
    → IsKeyed s.outbox
    → entry_at j k s.outbox ≡ some e
    → Sets.is_subset SocketAddr-discrete e.sent_set e.ack_set ≡ true
    → Sets.is_subset SocketAddr-discrete e.ack_set e.sent_set ≡ false
    → e.attempts < 10
    → entry_at j k (rounds c t s).outbox ≡ some e
unfolding rounds
rounds_leak c zero s j k e v own h g few = own
rounds_leak c (suc t) s j k e v own h g few =
    rounds_leak c t (maintain c s) j k e (maintain-IsKeyed c s v)
      (entry_at-maintain_open c s j k e v own few (rw (h, g)) ∙ ap some (attempted_none e h)) h g
      few
