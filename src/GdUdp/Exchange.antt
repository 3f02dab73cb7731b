-- ===== src/GdUdp/Exchange.antt =====
-- Sends, acknowledgements and rounds of src/gd_udp/gd_udp.rs in any order.
use mathlib.Core.Option
use udp2p.Base.{
  Option-cases, ℕ, ◌-◌, ◌≡◌, ◌≢◌, sym, subst, ap, ◌∙◌, some, none, ok, panic, arith, leb,
  Bool-cases, inl, inr,
}
use udp2p.Base.Codec.{Codec}
use udp2p.Base.Sets
use udp2p.Node.Peer.{SocketAddr, SocketAddr-discrete}
use udp2p.Node.Address.{AddressFormat}
use udp2p.Protocol.{Bytes, InnerKey, Packet}
use udp2p.GdUdp.{
  Entry, GdUdp, maintenance, new, first_entry, send_reliable, maintain, check_time_elapsed,
  acknowledged_by, note_ack, process_ack,
}
use udp2p.GdUdp.Lookup.{entry_at, entry_at-note_ack, entry_at-note_sent, after_send}
use udp2p.GdUdp.Keyed.{IsKeyed, note_sent-IsKeyed, note_ack-IsKeyed}
use udp2p.GdUdp.Resend.{at_entry_own}
use udp2p.GdUdp.Maintain.{maintain-IsKeyed}
use udp2p.GdUdp.Rounds.{rounds, maintain_settled, rounds_leak}

-- The states that the socket's owner can reach.
pub data Reached (c : Codec Packet) (format : AddressFormat) : GdUdp → Type 0 where
  started : (addr : SocketAddr) (now : ℕ) → Reached c format (new addr now)
  sent :
      (peer : SocketAddr) (packet : Packet) (s : GdUdp)
      → Reached c format s
      → Reached c format (send_reliable c peer packet s)
  told :
      (id : InnerKey) (n : ℕ) (src : Bytes) (s s' : GdUdp)
      → Reached c format s
      → process_ack format id n src s ≡ ok s'
      → Reached c format s'
  timed :
      (now later : ℕ) (s : GdUdp)
      → Reached c format s
      → Reached c format (check_time_elapsed c now later s)

-- An address that parses makes `process_ack` note the acknowledgement.
pub process_ack_parsed :
    (format : AddressFormat) (id : InnerKey) (n : ℕ) (src : Bytes) (peer : SocketAddr) (s : GdUdp)
    → format.parse src ≡ some peer
    → process_ack format id n src s ≡ ok (record s { outbox = note_ack id n peer s.outbox })
unfolding process_ack
process_ack_parsed format id n src peer s e = rw e

process_ack_refused :
    (format : AddressFormat) (id : InnerKey) (n : ℕ) (src : Bytes) (s : GdUdp)
    → format.parse src ≡ none
    → process_ack format id n src s ≡ panic
unfolding process_ack
process_ack_refused format id n src s e = rw e

process_ack_outbox :
    (format : AddressFormat) (id : InnerKey) (n : ℕ) (src : Bytes) (peer : SocketAddr)
    (s s' : GdUdp)
    → format.parse src ≡ some peer
    → process_ack format id n src s ≡ ok s'
    → note_ack id n peer s.outbox ≡ s'.outbox
process_ack_outbox format id n src peer s s' good run =
    let both : ok (record s { outbox = note_ack id n peer s.outbox }) ≡ ok s' =
      sym (process_ack_parsed format id n src peer s good) ∙ run in
    let same : record s { outbox = note_ack id n peer s.outbox } ≡ s' = cc both in
    ap (λ (x : GdUdp). x.outbox) same

pub process_ack-IsKeyed :
    (format : AddressFormat) (id : InnerKey) (n : ℕ) (src : Bytes) (s s' : GdUdp)
    → IsKeyed s.outbox
    → process_ack format id n src s ≡ ok s'
    → IsKeyed s'.outbox
process_ack-IsKeyed format id n src s s' v e = elim (Option-cases (format.parse src)) [
  | inl bad ↦ let clash : panic ≡ ok s' = sym (process_ack_refused format id n src s bad) ∙ e in cc
  | inr (peer, good) ↦
      subst IsKeyed (process_ack_outbox format id n src peer s s' good e)
        (note_ack-IsKeyed id n peer s.outbox v)
]

pub check_time_elapsed-IsKeyed :
    (c : Codec Packet) (now later : ℕ) (s : GdUdp)
    → IsKeyed s.outbox
    → IsKeyed (check_time_elapsed c now later s).outbox
unfolding check_time_elapsed
check_time_elapsed-IsKeyed c now later s v = elim (Bool-cases (leb maintenance (now - s.timer))) [
  | inl due ↦ rw due (maintain-IsKeyed c s v)
  | inr early ↦ rw early v
]

pub send_reliable-IsKeyed :
    (c : Codec Packet) (peer : SocketAddr) (packet : Packet) (s : GdUdp)
    → IsKeyed s.outbox
    → IsKeyed (send_reliable c peer packet s).outbox
unfolding send_reliable
send_reliable-IsKeyed c peer packet s v = note_sent-IsKeyed peer packet s.outbox v

-- In every state that is reached by sends, acknowledgements and the timer, the outbox files each
-- packet under its own id and number, and nothing under a key twice.
pub Reached-IsKeyed :
    (c : Codec Packet) (format : AddressFormat) (s : GdUdp) → Reached c format s → IsKeyed s.outbox
Reached-IsKeyed c format s (started addr now) = unfold new in tt
Reached-IsKeyed c format s (sent peer packet s0 r) =
    send_reliable-IsKeyed c peer packet s0 (Reached-IsKeyed c format s0 r)
Reached-IsKeyed c format s (told id n src s0 s1 r e) =
    process_ack-IsKeyed format id n src s0 s1 (Reached-IsKeyed c format s0 r) e
Reached-IsKeyed c format s (timed now later s0 r) =
    check_time_elapsed-IsKeyed c now later s0 (Reached-IsKeyed c format s0 r)

-- The entry of a packet that was sent once and acknowledged by the sources of a list.
module _ (c : Codec Packet) (format : AddressFormat) (peer : SocketAddr) (packet : Packet) where
  pub entry_at-process_ack :
      (src : Bytes) (from : SocketAddr) (s s' : GdUdp) (e : Entry)
      → format.parse src ≡ some from
      → entry_at packet.id packet.n s.outbox ≡ some e
      → process_ack format packet.id packet.n src s ≡ ok s'
      → entry_at packet.id packet.n s'.outbox ≡ some (acknowledged_by from e)
  entry_at-process_ack src from s s' e good own run =
      sym (
        ap (entry_at packet.id packet.n)
          (process_ack_outbox format packet.id packet.n src from s s' good run))
      ∙ entry_at-note_ack packet.id packet.n from s.outbox packet.id packet.n
      ∙ at_entry_own packet.id packet.n _ _
      ∙ ap (Option.map (acknowledged_by from)) own

  pub entry_at-send_reliable :
      (s : GdUdp)
      → entry_at packet.id packet.n s.outbox ≡ none
      → entry_at packet.id packet.n (send_reliable c peer packet s).outbox
        ≡ some (first_entry peer packet)
  unfolding send_reliable
  entry_at-send_reliable s fresh =
      entry_at-note_sent peer packet s.outbox packet.id packet.n
      ∙ at_entry_own packet.id packet.n _ _
      ∙ ap (λ o. some (after_send peer packet o)) fresh

-- From every state that is reached by sends, acknowledgements and the timer: a new packet that is
-- sent to a peer and acknowledged by it is gone from the outbox after the next round.
pub acknowledged_once :
    (c : Codec Packet) (format : AddressFormat) (peer : SocketAddr) (packet : Packet) (src : Bytes)
    (s s' : GdUdp)
    → Reached c format s
    → entry_at packet.id packet.n s.outbox ≡ none
    → format.parse src ≡ some peer
    → process_ack format packet.id packet.n src (send_reliable c peer packet s) ≡ ok s'
    → entry_at packet.id packet.n (maintain c s').outbox ≡ none
unfolding acknowledged_by first_entry
acknowledged_once c format peer packet src s s' r fresh good run =
    let sent_now = Reached.sent peer packet s r in
    let keyed =
      Reached-IsKeyed c format s' (Reached.told packet.id packet.n src _ s' sent_now run) in
    let own =
      entry_at-process_ack c format peer packet src peer _ s' _ good
        (entry_at-send_reliable c format peer packet s fresh) run in
    maintain_settled c s' packet.id packet.n _ keyed own
      (Sets.is_subset_one SocketAddr-discrete peer) (Sets.is_subset_one SocketAddr-discrete peer)

-- From every state that is reached: if a new packet that went to one peer is acknowledged by that
-- peer and then by another, its entry stays in the outbox through any number of rounds, with its
-- one attempt.
pub acknowledged_twice :
    (c : Codec Packet) (format : AddressFormat) (peer other : SocketAddr) (packet : Packet)
    (src src' : Bytes) (s s1 s2 : GdUdp) (t : ℕ)
    → Reached c format s
    → entry_at packet.id packet.n s.outbox ≡ none
    → peer ≢ other
    → format.parse src ≡ some peer
    → format.parse src' ≡ some other
    → process_ack format packet.id packet.n src (send_reliable c peer packet s) ≡ ok s1
    → process_ack format packet.id packet.n src' s1 ≡ ok s2
    → entry_at packet.id packet.n (rounds c t s2).outbox
      ≡ some (acknowledged_by other (acknowledged_by peer (first_entry peer packet)))
unfolding acknowledged_by first_entry
acknowledged_twice c format peer other packet src src' s s1 s2 t r fresh apart good good' run run' =
    let sent_now = Reached.sent peer packet s r in
    let told_now = Reached.told packet.id packet.n src _ s1 sent_now run in
    let keyed =
      Reached-IsKeyed c format s2 (Reached.told packet.id packet.n src' s1 s2 told_now run') in
    let own =
      entry_at-process_ack c format peer packet src peer _ s1 _ good
        (entry_at-send_reliable c format peer packet s fresh) run in
    let own' = entry_at-process_ack c format peer packet src' other s1 s2 _ good' own run' in
    rounds_leak c t s2 packet.id packet.n _ keyed own'
      (Sets.is_subset_insert SocketAddr-discrete peer other)
      (Sets.insert_not_subset SocketAddr-discrete peer other apart) (omega arith)
