-- ===== src/Handler/Faults.antt =====
-- What src/transport/handler.rs does with packets that come again, and with numbers that a message
-- cannot have.
use udp2p.Base.{
  ℕ, zero, suc, ◌+◌, ◌≤◌, ◌<◌, ◌≡◌, ◌≢◌, sym, ◌∙◌, some, none, ok, panic, >>=-panic, unwrap, length,
  ◌==◌, true, ℕ_discrete, arith,
}
use udp2p.Base.Dict.{Dict, get, insert, or_insert, get-insert_ne, length-insert_new}
use udp2p.Node.Peer.{SocketAddr, Text-discrete}
use udp2p.Protocol.{Packet, Message}
use udp2p.Handler.{
  Formats, MessageHandler, handle_if_some, handle_message, collect_from, assemble_packets,
  insert_known, insert_packet,
}

module _ (f : Formats) (src : SocketAddr) where
  -- A message stays pending after it has been handed on: a packet of it that comes again hands the
  -- message on again.
  pub insert_packet_again :
      (q p : Packet) (m : Dict ℕ Packet) (message : Message) (s : MessageHandler)
      → get Text-discrete q.id s.pending ≡ some m
      → get ℕ_discrete q.n m ≡ some p
      → length m ≡ q.total_n
      → assemble_packets f q m ≡ ok (some message)
      → insert_packet f q src s
        ≡ ok (
            handle_message f message src
              (record s { pending = insert Text-discrete q.id m s.pending }))
  unfolding insert_packet insert_known or_insert handle_if_some
  insert_packet_again q p m message s known old full whole =
      let test : (length m == q.total_n) ≡ true = ground arith in
      rw (known, insert_packet, old, or_insert, test, whole)

  collect_missing :
      (left n j : ℕ) (m : Dict ℕ Packet)
      → get ℕ_discrete j m ≡ none
      → n ≤ j
      → j < n + left
      → collect_from f left n m ≡ panic
  unfolding collect_from
  collect_missing zero n j m miss lo hi = absurd (omega arith)
  collect_missing (suc left) n j m miss lo hi = elim (ℕ_discrete n j) [
    | yes here ↦ rw (here, miss)
    | no later ↦
        let rest = collect_missing left (suc n) j m miss (omega arith) (omega arith) in
        >>=-panic (unwrap (get ℕ_discrete n m)) _
          (λ packet. >>=-panic (unwrap (f.hex.decode packet.bytes)) _ (λ converted. rw rest))
  ]

  -- The handler panics on a map that is complete by its size and not by its numbers: if the packet
  -- that brings it to `total_n` entries leaves some number of the message without one.
  pub insert_packet_panics :
      (q : Packet) (m : Dict ℕ Packet) (s : MessageHandler) (j : ℕ)
      → get Text-discrete q.id s.pending ≡ some m
      → get ℕ_discrete q.n m ≡ none
      → length m + 1 ≡ q.total_n
      → 1 ≤ j
      → j ≤ q.total_n
      → j ≢ q.n
      → get ℕ_discrete j m ≡ none
      → insert_packet f q src s ≡ panic
  unfolding insert_packet insert_known or_insert assemble_packets
  insert_packet_panics q m s j known new full lo hi other miss =
      let m' = insert ℕ_discrete q.n q m in
      let test : (length m' == q.total_n) ≡ true =
        ground (arith, length-insert_new ℕ_discrete q.n q m new) in
      let hole =
        collect_missing q.total_n 1 j m'
          (get-insert_ne ℕ_discrete j q.n q m (λ e. other (sym e)) ∙ miss) lo (omega arith) in
      rw (known, insert_packet, new, or_insert, test, hole)
