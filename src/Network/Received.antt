-- ===== src/Network/Received.antt =====
-- What src/transport/handler.rs does with the datagrams that src/transport/transport.rs writes.
use mathlib.Core.List
use mathlib.Core.List.{Permᴰ}
use udp2p.Base.{
  ℕ, ◌≡◌, ◌≢◌, refl, sym, ap, ◌∙◌, List, [], ◌∷◌, ◌++◌, map, Option, some, none, Option-cases, true,
  false, Bool-cases, Outcome, ok, panic, ◌>>=◌, for_each, length, leb, ◌==◌, All, inl, inr, arith,
  take_of_length-le, ℕ_discrete,
}
use udp2p.Base.Dict.{Dict, get, or_insert, insert}
use udp2p.Node.Peer.{SocketAddr, Text-discrete}
use udp2p.Protocol.{Header, Message, Packet}
use udp2p.Handler.{
  Formats, MessageHandler, return_receipt, route, handle_message, handle_if_some, assemble_packets,
  insert_known, insert_first, insert_packet, acknowledge, process_parsed, process_packet, recv_msg,
}
use udp2p.Network.{Writers, receive, receipt, receipt_message}

-- The handler with another channel of outgoing messages.
abbrev pub with_om : List (SocketAddr × Message) → MessageHandler → MessageHandler
with_om om self = record self { om_tx = om }

module _ (f : Formats) (src : SocketAddr) where
  route-with_om :
      (head : Header) (message : Message) (om : List (SocketAddr × Message)) (self : MessageHandler)
      → route f head message src (with_om om self) ≡ with_om om (route f head message src self)
  unfolding route
  route-with_om Header.request message om self =
      elim (Option-cases (f.kad.from_bytes message.msg)) [
        | inl e ↦ rw (e, route) refl
        | inr (m, e) ↦ rw (e, route) refl
      ]
  route-with_om Header.response message om self =
      elim (Option-cases (f.kad.from_bytes message.msg)) [
        | inl e ↦ rw (e, route) refl
        | inr (m, e) ↦ rw (e, route) refl
      ]
  route-with_om Header.ack message om self = elim (Option-cases (f.ack.from_bytes message.msg)) [
    | inl e ↦ rw (e, route) refl
    | inr (m, e) ↦ rw (e, route) refl
  ]
  route-with_om Header.gossip message om self = refl

  pub handle_message-with_om :
      (message : Message) (om : List (SocketAddr × Message)) (self : MessageHandler)
      → handle_message f message src (with_om om self)
        ≡ with_om om (handle_message f message src self)
  unfolding handle_message
  handle_message-with_om message om self = route-with_om message.head message om self

  handle_if_some-with_om :
      (message : Option Message) (om : List (SocketAddr × Message)) (self : MessageHandler)
      → handle_if_some f message src (with_om om self)
        ≡ with_om om (handle_if_some f message src self)
  unfolding handle_if_some
  handle_if_some-with_om none om self = refl
  handle_if_some-with_om (some message) om self = handle_message-with_om message om self

  -- A chain that ends in `handle_if_some`.
  handled-with_om :
      (part : Outcome (Option Message)) (om : List (SocketAddr × Message)) (self : MessageHandler)
      → (part >>= (λ message. ok (handle_if_some f message src (with_om om self)))) ≡ (
          part >>= (λ message. ok (handle_if_some f message src self)) >>= (λ t. ok (with_om om t)))
  handled-with_om (ok message) om self = ap ok (handle_if_some-with_om message om self)
  handled-with_om panic om self = refl

  insert_known-with_om :
      (packet : Packet) (known : Dict ℕ Packet) (om : List (SocketAddr × Message))
      (self : MessageHandler)
      → insert_known f packet src known (with_om om self)
        ≡ (insert_known f packet src known self >>= (λ t. ok (with_om om t)))
  unfolding insert_known
  insert_known-with_om packet known om self =
      let known' = or_insert ℕ_discrete packet.n packet known in
      elim (Bool-cases (length known' == packet.total_n)) [
        | inl complete ↦ rw complete (
            handled-with_om (assemble_packets f packet known') om
              (record self { pending = insert Text-discrete packet.id known' self.pending }))
        | inr missing ↦ rw missing refl
      ]

  insert_first-with_om :
      (packet : Packet) (om : List (SocketAddr × Message)) (self : MessageHandler)
      → insert_first f packet src (with_om om self)
        ≡ (insert_first f packet src self >>= (λ t. ok (with_om om t)))
  unfolding insert_first
  insert_first-with_om packet om self = elim (Bool-cases (packet.total_n == 1)) [
    | inl single ↦ elim (Option-cases (f.hex.decode packet.bytes)) [
      | inl e ↦ rw (single, e) refl
      | inr (bytes, e) ↦
          rw (single, e) (ap ok (handle_if_some-with_om (f.message.from_bytes bytes) om self))
    ]
    | inr several ↦ rw several refl
  ]

  insert_packet-with_om :
      (packet : Packet) (om : List (SocketAddr × Message)) (self : MessageHandler)
      → insert_packet f packet src (with_om om self)
        ≡ (insert_packet f packet src self >>= (λ t. ok (with_om om t)))
  unfolding insert_packet
  insert_packet-with_om packet om self =
      elim (Option-cases (get Text-discrete packet.id self.pending)) [
        | inl e ↦ rw (e, insert_packet) (insert_first-with_om packet om self)
        | inr (known, e) ↦ rw (e, insert_packet) (insert_known-with_om packet known om self)
      ]

module _ (f : Formats) (w : Writers f) (src local : SocketAddr) where
  -- What a handler at `local` sends back for a packet of `src`.
  abbrev pub sent_back : Packet → SocketAddr × Message
  sent_back packet = (src, receipt_message f w local packet)

  pub process_packet-written :
      (packet : Packet) (self : MessageHandler)
      → packet.ret ≡ return_receipt
      → process_packet f local (w.packet packet) (length (w.packet packet)) src self
        ≡ ok (with_om (self.om_tx ++ sent_back packet ∷ []) self, some packet)
  unfolding process_packet process_parsed acknowledge
  process_packet-written packet self asked =
      let all : leb (length (w.packet packet)) (length (w.packet packet)) ≡ true = ground arith in
      rw (
        all,
        take_of_length-le (length (w.packet packet)) (w.packet packet) (omega arith),
        f.packet.from_bytes-as_bytes packet (w.packet packet) (w.packet_lem packet),
        asked,
        w.ack_lem (receipt f local packet),
      )

  receive_asked :
      (packet : Packet) (self : MessageHandler)
      → packet.ret ≡ return_receipt
      → receive f local src (w.packet packet) self
        ≡ insert_packet f packet src (with_om (self.om_tx ++ sent_back packet ∷ []) self)
  unfolding receive recv_msg
  receive_asked packet self asked = rw (process_packet-written packet self asked) refl

  -- A packet without a receipt asked for, which is what carries an acknowledgement.
  pub receive_unasked :
      (packet : Packet) (self : MessageHandler)
      → packet.ret ≢ return_receipt
      → receive f local src (w.packet packet) self ≡ insert_packet f packet src self
  unfolding receive recv_msg process_packet process_parsed
  receive_unasked packet self quiet =
      let all : leb (length (w.packet packet)) (length (w.packet packet)) ≡ true = ground arith in
      let none_asked : (packet.ret == return_receipt) ≡ false = ground arith in
      rw
        (
          all,
          take_of_length-le (length (w.packet packet)) (w.packet packet) (omega arith),
          f.packet.from_bytes-as_bytes packet (w.packet packet) (w.packet_lem packet),
          process_parsed,
          none_asked,
        )
        refl

  pub for_each-receive :
      (qs : List Packet) (om : List (SocketAddr × Message)) (self : MessageHandler)
      → All (λ q. q.ret ≡ return_receipt) qs
      → for_each (λ q. receive f local src (w.packet q)) qs (with_om om self) ≡ (
          for_each (λ q. insert_packet f q src) qs self
          >>= (λ t. ok (with_om (om ++ map sent_back qs) t)))
  unfolding for_each
  for_each-receive [] om self h = ap (λ o. ok (with_om o self)) (sym (List.append-nil om))
  for_each-receive (q ∷ qs) om self h =
      let om' = om ++ sent_back q ∷ [] in
      rw (receive_asked q (with_om om self) h.0, insert_packet-with_om f src q om' self)
        (after (insert_packet f q src self) (λ t. for_each-receive qs om' t h.1))
    where
      after :
          (first : Outcome MessageHandler)
          → ((t : MessageHandler)
              → for_each
                  (λ p. receive f local src (w.packet p))
                  qs
                  (with_om (om ++ sent_back q ∷ []) t)
                ≡ (for_each (λ p. insert_packet f p src) qs t
                    >>= (λ u. ok (with_om ((om ++ sent_back q ∷ []) ++ map sent_back qs) u))))
          → (first
              >>= (λ t. ok (with_om (om ++ sent_back q ∷ []) t))
              >>= for_each (λ p. receive f local src (w.packet p)) qs)
            ≡ (first
                >>= for_each (λ p. insert_packet f p src) qs
                >>= (λ t. ok (with_om (om ++ map sent_back (q ∷ qs)) t)))
      after panic next = refl
      after (ok t) next =
          next t
          ∙ ap (λ o. for_each (λ p. insert_packet f p src) qs t >>= (λ u. ok (with_om o u)))
              (List.append_assoc om (sent_back q ∷ []) (map sent_back qs))
