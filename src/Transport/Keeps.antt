-- ===== src/Transport/Keeps.antt =====
-- What the calls of src/transport/transport.rs leave as it should be: the keys of the outbox and
-- this node's address.
use udp2p.Base.{
  ℕ, ◌-◌, ◌≡◌, refl, sym, subst, ap, ◌∙◌, List, [], ◌∷◌, ◌++◌, Bool-cases, List-cases, ok, ◌>>=◌,
  >>=-eq-ok, unwrap, for_each, for_each-inv, leb, ltb, inl, inr,
}
use udp2p.Base.Codec.{Codec}
use udp2p.Base.Dict.{Dict}
use udp2p.Node.Peer.{SocketAddr}
use udp2p.Protocol.{Bytes, InnerKey, Header, Packet, AckMessage, packetize}
use udp2p.Handler.{Formats}
use udp2p.GdUdp
use udp2p.GdUdp.{
  GdUdp, Entry, Outbox, maintenance, send_reliable, send_to_all, resend_entry, resend_map,
  resend_outbox, maintain, purge, unacknowledged, process_ack, note_ack,
}
use udp2p.GdUdp.Keyed.{IsKeyed}
use udp2p.GdUdp.Exchange.{process_ack-IsKeyed, check_time_elapsed-IsKeyed, send_reliable-IsKeyed}
use udp2p.Transport.{
  Transport, contains_key, take_ack, incoming_ack, send_plain, send_packet, send_all, send_message,
  outgoing_msg, check_time_elapsed,
}

-- A keyed outbox of the node at `addr`.
abbrev pub IsOwn : SocketAddr → GdUdp → Type 0
IsOwn addr s = IsKeyed s.outbox × (s.addr ≡ addr)

module _ (c : Codec Packet) where
  addr-send_to_all :
      (peers : List SocketAddr) (packet : Packet) (self : GdUdp)
      → (send_to_all c peers packet self).addr ≡ self.addr
  unfolding send_to_all send_reliable
  addr-send_to_all [] packet self = refl
  addr-send_to_all (peer ∷ peers) packet self = addr-send_to_all peers packet _

  addr-resend_entry : (e : Entry) (self : GdUdp) → (resend_entry c e self).addr ≡ self.addr
  unfolding resend_entry
  addr-resend_entry e self = elim (Bool-cases (ltb e.attempts 10)) [
    | inl few ↦ rw few (addr-send_to_all (unacknowledged e) e.packet self)
    | inr many ↦ rw many refl
  ]

  addr-resend_map :
      (entries : Dict ℕ Entry) (self : GdUdp) → (resend_map c entries self).addr ≡ self.addr
  unfolding resend_map
  addr-resend_map [] self = refl
  addr-resend_map ((n, e) ∷ entries) self =
      addr-resend_map entries (resend_entry c e self) ∙ addr-resend_entry e self

  addr-resend_outbox :
      (outbox : Outbox) (self : GdUdp) → (resend_outbox c outbox self).addr ≡ self.addr
  unfolding resend_outbox
  addr-resend_outbox [] self = refl
  addr-resend_outbox ((id, entries) ∷ outbox) self =
      addr-resend_outbox outbox (resend_map c entries self) ∙ addr-resend_map entries self

  addr-check_time_elapsed :
      (now later : ℕ) (self : GdUdp) → (GdUdp.check_time_elapsed c now later self).addr ≡ self.addr
  unfolding GdUdp.check_time_elapsed maintain
  addr-check_time_elapsed now later self = elim (Bool-cases (leb maintenance (now - self.timer))) [
    | inl due ↦
        rw due (addr-resend_outbox (purge self.outbox) (record self { outbox = purge self.outbox }))
    | inr early ↦ rw early refl
  ]

module _ (f : Formats) (addr : SocketAddr) where
  pub check_time_elapsed-IsOwn :
      (now later : ℕ) (self : Transport)
      → IsOwn addr self.gd_udp
      → IsOwn addr (check_time_elapsed f now later self).gd_udp
  unfolding check_time_elapsed
  check_time_elapsed-IsOwn now later self v = (
    check_time_elapsed-IsKeyed f.packet now later self.gd_udp v.0,
    addr-check_time_elapsed f.packet now later self.gd_udp ∙ v.1,
  )

  process_ack-IsOwn :
      (id : InnerKey) (n : ℕ) (src : Bytes) (s s' : GdUdp)
      → IsOwn addr s
      → process_ack f.address id n src s ≡ ok s'
      → IsOwn addr s'
  unfolding process_ack
  process_ack-IsOwn id n src s s' v e =
      let (peer, parsed, r) = >>=-eq-ok (unwrap (f.address.parse src)) _ e in
      let same : record s { outbox = note_ack id n peer s.outbox } ≡ s' = cc r in
      (
        process_ack-IsKeyed f.address id n src s s' v.0 e,
        sym (ap (λ (x : GdUdp). x.addr) same) ∙ v.1,
      )

  take_ack-IsOwn :
      (ack : AckMessage) (self self' : Transport)
      → IsOwn addr self.gd_udp
      → take_ack f ack self ≡ ok self'
      → IsOwn addr self'.gd_udp
  unfolding take_ack
  take_ack-IsOwn ack self self' v e =
      elim (Bool-cases (contains_key ack.packet_id self.gd_udp.outbox)) [
        | inl known ↦
            let (s, noted, r) =
              >>=-eq-ok (process_ack f.address ack.packet_id ack.packet_number ack.src self.gd_udp)
                _ (rw known at e) in
            let same : s ≡ self'.gd_udp = cc r in
            subst (IsOwn addr) same
              (process_ack-IsOwn ack.packet_id ack.packet_number ack.src self.gd_udp s v noted)
        | inr unknown ↦
            let made : ok self ≡ ok self' = rw unknown at e in
            let same : self ≡ self' = cc made in
            subst (λ (t : Transport). IsOwn addr t.gd_udp) same v
      ]

  pub incoming_ack-IsOwn :
      (self self' : Transport)
      → IsOwn addr self.gd_udp
      → incoming_ack f self ≡ ok self'
      → IsOwn addr self'.gd_udp
  unfolding incoming_ack
  incoming_ack-IsOwn self self' v e = elim (List-cases self.ia_rx) [
    | inl empty ↦
        let made : ok self ≡ ok self' = rw (empty, incoming_ack) at e in
        let same : self ≡ self' = cc made in subst (λ (t : Transport). IsOwn addr t.gd_udp) same v
    | inr (ack, rest, queue) ↦
        take_ack-IsOwn ack (record self { ia_rx = rest }) self' v (rw (queue, incoming_ack) at e)
  ]

  send_plain-IsOwn :
      (src : SocketAddr) (packet : Packet) (s s' : GdUdp)
      → IsOwn addr s
      → send_plain f src packet s ≡ ok s'
      → IsOwn addr s'
  unfolding send_plain
  send_plain-IsOwn src packet s s' v e =
      let (bytes, wrote, r) = >>=-eq-ok (unwrap (f.packet.as_bytes packet)) _ e in
      let same : record s { sock = s.sock ++ (bytes, src) ∷ [] } ≡ s' = cc r in
      subst (IsOwn addr) same v

  for_each_plain-IsOwn :
      (src : SocketAddr) (packets : List Packet) (s s' : GdUdp)
      → IsOwn addr s
      → for_each (send_plain f src) packets s ≡ ok s'
      → IsOwn addr s'
  for_each_plain-IsOwn src packets s s' v e =
      for_each-inv (IsOwn addr) (send_plain f src)
        (λ p a b h sent. send_plain-IsOwn src p a b h sent) packets s s' v e

  send_all-IsOwn :
      (src : SocketAddr) (packets : List Packet) (s : GdUdp)
      → IsOwn addr s
      → IsOwn addr (send_all f src packets s)
  unfolding send_all send_packet send_reliable
  send_all-IsOwn src [] s v = v
  send_all-IsOwn src (p ∷ packets) s v =
      send_all-IsOwn src packets (send_packet f src p s)
        (send_reliable-IsKeyed f.packet _ p s v.0, v.1)

  sent_reliably :
      (id : InnerKey) (src : SocketAddr) (bytes : Bytes) (s s' : GdUdp)
      → IsOwn addr s
      → (packetize f.hex bytes id 1 >>= (λ ps. ok (send_all f src ps s))) ≡ ok s'
      → IsOwn addr s'
  sent_reliably id src bytes s s' v e =
      let (ps, cut, r) = >>=-eq-ok (packetize f.hex bytes id 1) _ e in
      let same : send_all f src ps s ≡ s' = cc r in
      subst (IsOwn addr) same (send_all-IsOwn src ps s v)

  send_message-IsOwn :
      (head : Header) (id : InnerKey) (src : SocketAddr) (bytes : Bytes) (s s' : GdUdp)
      → IsOwn addr s
      → send_message f head id src bytes s ≡ ok s'
      → IsOwn addr s'
  unfolding send_message
  send_message-IsOwn Header.ack id src bytes s s' v e =
      let (ps, cut, sent) = >>=-eq-ok (packetize f.hex bytes id 0) _ e in
      for_each_plain-IsOwn src ps s s' v sent
  send_message-IsOwn Header.request id src bytes s s' v e = sent_reliably id src bytes s s' v e
  send_message-IsOwn Header.response id src bytes s s' v e = sent_reliably id src bytes s s' v e
  send_message-IsOwn Header.gossip id src bytes s s' v e = sent_reliably id src bytes s s' v e

  pub outgoing_msg-IsOwn :
      (id : InnerKey) (self self' : Transport)
      → IsOwn addr self.gd_udp
      → outgoing_msg f id self ≡ ok self'
      → IsOwn addr self'.gd_udp
  unfolding outgoing_msg
  outgoing_msg-IsOwn id self self' v e = elim (List-cases self.om_rx) [
    | inl empty ↦
        let made : ok self ≡ ok self' = rw (empty, outgoing_msg) at e in
        let same : self ≡ self' = cc made in subst (λ (t : Transport). IsOwn addr t.gd_udp) same v
    | inr ((src, message), rest, queue) ↦
        let (bytes, wrote, e1) =
          >>=-eq-ok (unwrap (f.message.as_bytes message)) _ (rw (queue, outgoing_msg) at e) in
        let (s, sent, r) = >>=-eq-ok (send_message f message.head id src bytes self.gd_udp) _ e1 in
        let same : s ≡ self'.gd_udp = cc r in
        subst (IsOwn addr) same (send_message-IsOwn message.head id src bytes self.gd_udp s v sent)
  ]
