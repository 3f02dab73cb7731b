-- ===== src/Handler/Redelivery.antt =====
-- Packets of a message that come after it has been handed on, in src/transport/handler.rs.
use mathlib.Core.List.{Memᴰ, Permᴰ}
use udp2p.Base.{
  ℕ, zero, suc, ◌≡◌, refl, sym, subst, ap, ◌∙◌, List, [], ◌∷◌, ◌++◌, Option, some, none, ok,
  for_each, for_each-append, length, All, inl, inr,
}
use udp2p.Base.Dict.{Dict, get, insert, get-insert_same}
use udp2p.Node.Peer.{SocketAddr, Text-discrete}
use udp2p.Protocol.{Bytes, InnerKey, Packet, Message, Header, AckMessage, KadMessage, packetize}
use udp2p.Protocol.Packetize.{contents}
use udp2p.Handler.{
  Formats, MessageHandler, send_kad, send_ack, route, handle_if_some, handle_message, insert_packet,
}
use udp2p.Handler.Arrival.{IsPacketOf}
use udp2p.Handler.Collect.{IsDelivered, Collects-full, assemble_packets-contents}
use udp2p.Handler.Reassembly.{receive_first, receive_only}
use udp2p.Handler.Delivery.{arrive}
use udp2p.Handler.Faults.{insert_packet_again}

All-member {ℓ κ} : {A : Type ℓ} (P : A → Type κ) {x : A} {xs : List A} → All P xs → Memᴰ x xs → P x
All-member P h (Memᴰ.head e) = subst P (sym e) h.0
All-member P h (Memᴰ.tail m) = All-member P h.1 m

All-members {ℓ κ} :
    {A : Type ℓ} (P : A → Type κ) (xs ys : List A) → All P xs → All (λ y. Memᴰ y xs) ys → All P ys
All-members P xs [] h m = tt
All-members P xs (y ∷ ys) h m = (All-member P h m.0, All-members P xs ys h m.1)

abbrev with_pending : Dict InnerKey (Dict ℕ Packet) → MessageHandler → MessageHandler
with_pending pending s = record s { pending = pending }

module _ (f : Formats) (src : SocketAddr) where
  send_kad-with_pending :
      (m : Option KadMessage) (p : Dict InnerKey (Dict ℕ Packet)) (s : MessageHandler)
      → send_kad f src m (with_pending p s) ≡ with_pending p (send_kad f src m s)
  unfolding send_kad
  send_kad-with_pending none p s = refl
  send_kad-with_pending (some m) p s = refl

  send_ack-with_pending :
      (m : Option AckMessage) (p : Dict InnerKey (Dict ℕ Packet)) (s : MessageHandler)
      → send_ack f m (with_pending p s) ≡ with_pending p (send_ack f m s)
  unfolding send_ack
  send_ack-with_pending none p s = refl
  send_ack-with_pending (some m) p s = refl

  route-with_pending :
      (head : Header) (message : Message) (p : Dict InnerKey (Dict ℕ Packet)) (s : MessageHandler)
      → route f head message src (with_pending p s) ≡ with_pending p (route f head message src s)
  unfolding route
  route-with_pending Header.request message = send_kad-with_pending (f.kad.from_bytes message.msg)
  route-with_pending Header.response message = send_kad-with_pending (f.kad.from_bytes message.msg)
  route-with_pending Header.ack message = send_ack-with_pending (f.ack.from_bytes message.msg)
  route-with_pending Header.gossip message = λ p s. refl

  module _ (message : Message) where
    -- The message handed on so many times.
    unfoldable pub handed : ℕ → MessageHandler → MessageHandler
    handed zero s = s
    handed (suc n) s = handed n (handle_message f message src s)

    handle_message-with_pending :
        (p : Dict InnerKey (Dict ℕ Packet)) (s : MessageHandler)
        → handle_message f message src (with_pending p s)
          ≡ with_pending p (handle_message f message src s)
    unfolding handle_message
    handle_message-with_pending p s = route-with_pending message.head message p s

    handed-with_pending :
        (n : ℕ) (p : Dict InnerKey (Dict ℕ Packet)) (s : MessageHandler)
        → handed n (with_pending p s) ≡ with_pending p (handed n s)
    unfolding handed
    handed-with_pending zero p s = refl
    handed-with_pending (suc n) p s =
        ap (handed n) (handle_message-with_pending p s)
        ∙ handed-with_pending n p (handle_message f message src s)

    module _ (id : InnerKey) (ps : List Packet) (bytes : Bytes) where
      again_once :
          (q : Packet) (s : MessageHandler)
          → contents f.hex ps ≡ some bytes
          → f.message.from_bytes bytes ≡ some message
          → IsPacketOf id ps q
          → IsDelivered id ps s.pending
          → (pending : Dict InnerKey (Dict ℕ Packet)) × (insert_packet f q src s
              ≡ ok (handle_message f message src (with_pending pending s)))
            × IsDelivered id ps pending
      unfolding handle_if_some
      again_once q s carried read v (inl (one, new)) = (
        s.pending,
        receive_first f src q s (rw (v.0) new)
            ∙ receive_only f src id ps bytes q s carried one v
            ∙ ap (λ (o : Option Message). ok (handle_if_some f o src s)) read,
        inl (one, new),
      )
      again_once q s carried read v (inr (m, known, c, full)) =
          let hit = Collects-full ps m q.n c full v.2 v.3 ∙ v.4 in
          (
            insert Text-discrete q.id m s.pending,
            insert_packet_again f src q q m message s (rw (v.0) known) hit (full ∙ sym v.1)
                (assemble_packets-contents f q ps m bytes carried v.1 c full ∙ ap ok read),
            inr (m, get-insert_same Text-discrete id q.id m s.pending v.0, c, full),
          )

      again :
          (qs : List Packet) (s : MessageHandler)
          → contents f.hex ps ≡ some bytes
          → f.message.from_bytes bytes ≡ some message
          → All (IsPacketOf id ps) qs
          → IsDelivered id ps s.pending
          → (pending : Dict InnerKey (Dict ℕ Packet)) × (for_each
                (λ q self. insert_packet f q src self)
                qs
                s
              ≡ ok (with_pending pending (handed (length qs) s)))
      unfolding for_each handed
      again [] s carried read v d = (s.pending, refl)
      again (q ∷ qs) s carried read v d =
          let (pending, first, d') = again_once q s carried read v.0 d in
          let s' = handle_message f message src s in
          let (pending', rest) = again qs (with_pending pending s') carried read v.1 d' in
          (
            pending',
            rw (first, handle_message-with_pending pending s) rest
                ∙ ap (λ t. ok (with_pending pending' t))
                    (handed-with_pending (length qs) pending s'),
          )

  -- A message that was written to bytes and cut into packets, at a handler that has no packet of
  -- their id pending: once all its packets have come, in whatever order, each one that comes again
  -- hands the whole message on again. No step panics, and nothing else changes but the pending
  -- table.
  pub deliver_again :
      (id : InnerKey) (ret : ℕ) (message : Message) (bytes : Bytes) (s : MessageHandler)
      → f.message.as_bytes message ≡ some bytes
      → get Text-discrete id s.pending ≡ none
      → (ps : List Packet) × (packetize f.hex bytes id ret ≡ ok ps)
        × ((qs later : List Packet)
            → Permᴰ ps qs
            → All (λ q. Memᴰ q ps) later
            → (pending : Dict InnerKey (Dict ℕ Packet)) × (for_each
                  (λ q self. insert_packet f q src self)
                  (qs ++ later)
                  s
                ≡ ok (record (handed message (suc (length later)) s) { pending = pending })))
  unfolding handed
  deliver_again id ret message bytes s written new =
      let (ps, cut, carried, own, arrival) = arrive f src id ret message bytes s written new in
      (
        ps,
        cut,
        λ qs later order repeated.
            let (pending, done, delivered) = arrival qs order in
            let s' = handle_message f message src s in
            let (pending', rest) =
              again message id ps bytes later (with_pending pending s') carried
                (f.message.from_bytes-as_bytes message bytes written)
                (All-members (IsPacketOf id ps) ps later own repeated) delivered in
            (
              pending',
              for_each-append (λ q self. insert_packet f q src self) qs later s
                    (with_pending pending s')
                    (done ∙ ap ok (handle_message-with_pending message pending s))
                  ∙ rest
                  ∙ ap (λ t. ok (with_pending pending' t))
                      (handed-with_pending message (length later) pending s'),
            ),
      )
