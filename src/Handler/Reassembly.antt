-- ===== src/Handler/Reassembly.antt =====
-- The handler of src/transport/handler.rs puts a message together from its packets, whatever the
-- order in which they come in.
use mathlib.Core.List.{append-nil}
use udp2p.Base.{
  ℕ, suc, ◌+◌, ◌-◌, ◌≤◌, ◌≡◌, refl, ap, ◌∙◌, List, [], ◌∷◌, none, some, inl, inr, Outcome, ok,
  ◌>>=◌, for_each, length, get_elem?, All, Option-cases, ℕ_discrete, arith, true, false, ◌==◌,
  if◌then◌else◌,
}
use udp2p.Base.Dict.{Dict, get, insert, or_insert, length-insert_new, get-insert_same}
use udp2p.Node.Peer.{SocketAddr, Text-discrete}
use udp2p.Protocol.{Bytes, InnerKey, Packet}
use udp2p.Protocol.Packetize.{contents}
use udp2p.Handler.{
  Formats, MessageHandler, handle_if_some, assemble_packets, insert_known, insert_first,
  insert_packet,
}
use udp2p.Handler.Arrival.{IsPacketOf, Distinct}
use udp2p.Handler.Collect.{
  Collects, IsComplete, IsDelivered, Collects-nil, Collects-insert, All-new, still_new,
  assemble_packets-contents,
}

module _ (f : Formats) where
  module _ (src : SocketAddr) where
    abbrev pub receive : Packet → MessageHandler → Outcome MessageHandler
    receive packet self = insert_packet f packet src self

    insert_packet_new :
        (q : Packet) (m : Dict ℕ Packet) (s : MessageHandler)
        → get Text-discrete q.id s.pending ≡ some m
        → get ℕ_discrete q.n m ≡ none
        → insert_packet f q src s ≡ (
            let m' = insert ℕ_discrete q.n q m in
            let s' = record s { pending = insert Text-discrete q.id m' s.pending } in
            if length m' == q.total_n
            then assemble_packets f q m' >>= (λ message. ok (handle_if_some f message src s'))
            else ok s')
    unfolding insert_packet insert_known or_insert
    insert_packet_new q m s known new = rw (known, insert_packet, new, or_insert)

    -- From a map with some of the packets on, the rest completes it: one delivery, at the last.
    receive_rest :
        (id : InnerKey) (ps : List Packet) (bytes : Bytes) (q : Packet) (qs : List Packet)
        (m : Dict ℕ Packet) (s : MessageHandler)
        → contents f.hex ps ≡ some bytes
        → get Text-discrete id s.pending ≡ some m
        → Collects ps m
        → All (IsPacketOf id ps) (q ∷ qs)
        → Distinct (q ∷ qs)
        → All (λ x. get ℕ_discrete x.n m ≡ none) (q ∷ qs)
        → length m + suc (length qs) ≡ length ps
        → (pending : Dict InnerKey (Dict ℕ Packet)) × (for_each receive (q ∷ qs) s
            ≡ ok (
                handle_if_some f (f.message.from_bytes bytes) src (record s { pending = pending })))
          × IsComplete id ps pending
    unfolding for_each
    receive_rest id ps bytes q [] m s e known c v d new total =
        let m' = insert ℕ_discrete q.n q m in
        let len = length-insert_new ℕ_discrete q.n q m new.0 in
        let test : (length m' == q.total_n) ≡ true = ground (arith, len) in
        let done =
          assemble_packets-contents f q ps m' bytes e v.0.1 (Collects-insert id ps m q c v.0 new.0)
            (omega (arith, len)) in
        (
          insert Text-discrete q.id m' s.pending,
          rw (insert_packet_new q m s (rw (v.0.0) known) new.0, test, done),
          (
            m',
            get-insert_same Text-discrete id q.id m' s.pending v.0.0,
            Collects-insert id ps m q c v.0 new.0,
            omega (arith, len),
          ),
        )
    receive_rest id ps bytes q (r ∷ qs) m s e known c v d new total =
        let m' = insert ℕ_discrete q.n q m in
        let len = length-insert_new ℕ_discrete q.n q m new.0 in
        let test : (length m' == q.total_n) ≡ false = ground (arith, len) in
        let (pending, done, complete) =
          receive_rest id ps bytes r qs m'
            (record s { pending = insert Text-discrete q.id m' s.pending }) e
            (get-insert_same Text-discrete id q.id m' s.pending v.0.0)
            (Collects-insert id ps m q c v.0 new.0) v.1 d.1 (still_new m q (r ∷ qs) new.1 d.0)
            (omega (arith, len)) in
        (pending, rw (insert_packet_new q m s (rw (v.0.0) known) new.0, test) done, complete)

    pub receive_first :
        (q : Packet) (s : MessageHandler)
        → get Text-discrete q.id s.pending ≡ none
        → insert_packet f q src s ≡ insert_first f q src s
    unfolding insert_packet
    receive_first q s new = rw (new, insert_packet)

    -- The only packet of a message is decoded at once.
    pub receive_only :
        (id : InnerKey) (ps : List Packet) (bytes : Bytes) (q : Packet) (s : MessageHandler)
        → contents f.hex ps ≡ some bytes
        → length ps ≡ 1
        → IsPacketOf id ps q
        → insert_first f q src s ≡ ok (handle_if_some f (f.message.from_bytes bytes) src s)
    unfolding insert_first contents
    receive_only id [] bytes q s e one v = absurd (omega arith)
    receive_only id (p ∷ []) bytes q s e one v =
        let same : some p ≡ some q =
          ap (get_elem? (p ∷ [])) {x = 0} {y = q.n - 1} (omega arith) ∙ v.4 in
        let test : (q.total_n == 1) ≡ true = ground arith in
        elim (Option-cases (f.hex.decode q.bytes)) [
          | inl bad ↦ absurd (ground arith)
          | inr (w, decoded) ↦
              let all : bytes ≡ w = ground (arith, append-nil w) in rw (test, decoded, all)
        ]
    receive_only id (p ∷ p' ∷ ps) bytes q s e one v = absurd (omega arith)

    -- The arrivals in any order, by how many there are.
    pub receive_arrivals :
        (id : InnerKey) (ps : List Packet) (bytes : Bytes) (qs : List Packet) (s : MessageHandler)
        → contents f.hex ps ≡ some bytes
        → get Text-discrete id s.pending ≡ none
        → 1 ≤ length ps
        → All (IsPacketOf id ps) qs
        → Distinct qs
        → length ps ≡ length qs
        → (pending : Dict InnerKey (Dict ℕ Packet)) × (for_each receive qs s
            ≡ ok (
                handle_if_some f (f.message.from_bytes bytes) src (record s { pending = pending })))
          × IsDelivered id ps pending
    unfolding for_each get insert insert_first
    receive_arrivals id ps bytes [] s e new some_ps v d len = absurd (omega arith)
    receive_arrivals id ps bytes (q ∷ []) s e new some_ps v d len = (
      s.pending,
      rw (receive_first q s (rw (v.0.0) new), receive_only id ps bytes q s e (omega arith) v.0),
      inl (omega arith, new),
    )
    receive_arrivals id ps bytes (q ∷ r ∷ qs) s e new some_ps v d len =
        let m = insert ℕ_discrete q.n q [] in
        let test : (q.total_n == 1) ≡ false = ground arith in
        let s' = record s { pending = insert Text-discrete q.id m s.pending } in
        let (pending, done, complete) =
          receive_rest id ps bytes r qs m s' e
            (get-insert_same Text-discrete id q.id m s.pending v.0.0)
            (Collects-insert id ps [] q (Collects-nil ps) v.0 refl) v.1 d.1
            (still_new [] q (r ∷ qs) (All-new (r ∷ qs)) d.0) (omega arith) in
        (pending, rw (receive_first q s (rw (v.0.0) new), test) done, inr complete)
