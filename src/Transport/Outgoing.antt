-- ===== src/Transport/Outgoing.antt =====
-- What a message that src/transport/transport.rs sends leaves in the outbox.
use udp2p.Base.{
  ℕ, suc, ◌≤◌, ◌<◌, ◌≡◌, ◌≢◌, refl, sym, ap, ◌∙◌, List, [], ◌∷◌, some, none, ok, length, All, arith,
}
use udp2p.Node.Peer.{SocketAddr, Text-discrete}
use udp2p.Base.Dict.{get}
use udp2p.Protocol.{InnerKey, Header, Message, Packet, packetize}
use udp2p.Protocol.Packetize.{IsNumbered, contents, contents-packetize}
use udp2p.Handler.{Formats}
use udp2p.GdUdp.{GdUdp, first_entry, send_reliable}
use udp2p.GdUdp.Lookup.{entry_at, at_entry, after_send, entry_at-none, entry_at-note_sent}
use udp2p.GdUdp.Resend.{at_entry_own}
use udp2p.GdUdp.Maintain.{at_entry_other}
use udp2p.Transport.{Transport, destination, send_packet, send_all, send_message, outgoing_msg}

module _ (f : Formats) (src : SocketAddr) where
  entry_at-send_packet :
      (packet : Packet) (s : GdUdp) (k : ℕ)
      → entry_at packet.id k (send_packet f src packet s).outbox
        ≡ at_entry packet.id packet.n packet.id k
            (some
              (after_send (destination s.addr src) packet (entry_at packet.id packet.n s.outbox)))
            (entry_at packet.id k s.outbox)
  unfolding send_packet send_reliable
  entry_at-send_packet packet s k =
      entry_at-note_sent (destination s.addr src) packet s.outbox packet.id k

  -- The entry of a packet that is new to the outbox, and those of other numbers.
  send_packet_own :
      (id : InnerKey) (packet : Packet) (s : GdUdp)
      → packet.id ≡ id
      → entry_at id packet.n s.outbox ≡ none
      → entry_at id packet.n (send_packet f src packet s).outbox
        ≡ some (first_entry (destination s.addr src) packet)
  send_packet_own id packet s p fresh =
      ap (λ i. entry_at i packet.n (send_packet f src packet s).outbox) (sym p)
      ∙ entry_at-send_packet packet s packet.n
      ∙ at_entry_own packet.id packet.n _ _
      ∙ ap (λ o. some (after_send (destination s.addr src) packet o))
          (ap (λ i. entry_at i packet.n s.outbox) p ∙ fresh)

  send_packet_other :
      (id : InnerKey) (packet : Packet) (s : GdUdp) (k : ℕ)
      → packet.id ≡ id
      → packet.n ≢ k
      → entry_at id k (send_packet f src packet s).outbox ≡ entry_at id k s.outbox
  send_packet_other id packet s k p q =
      ap (λ i. entry_at i k (send_packet f src packet s).outbox) (sym p)
      ∙ entry_at-send_packet packet s k
      ∙ at_entry_other packet.id packet.n packet.id k _ _ q
      ∙ ap (λ i. entry_at i k s.outbox) p

  send_all_before :
      (id : InnerKey) (total ret n : ℕ) (ps : List Packet) (s : GdUdp) (k : ℕ)
      → IsNumbered id total ret n ps
      → k < n
      → entry_at id k (send_all f src ps s).outbox ≡ entry_at id k s.outbox
  unfolding send_all
  send_all_before id total ret n [] s k v h = refl
  send_all_before id total ret n (p ∷ ps) s k v h =
      send_all_before id total ret (suc n) ps (send_packet f src p s) k v.4 (omega arith)
      ∙ send_packet_other id p s k v.0 (λ e. omega (arith, v.3))

  send_all-entries :
      (id : InnerKey) (total ret n : ℕ) (ps : List Packet) (s : GdUdp)
      → IsNumbered id total ret n ps
      → ((k : ℕ) → n ≤ k → entry_at id k s.outbox ≡ none)
      → All
          (λ p.
            entry_at id p.n (send_all f src ps s).outbox
            ≡ some (first_entry (destination s.addr src) p))
          ps
  unfolding send_all send_packet send_reliable
  send_all-entries id total ret n [] s v h = tt
  send_all-entries id total ret n (p ∷ ps) s v h =
      let s' = send_packet f src p s in
      let here : n ≤ p.n = omega (arith, v.3) in
      (
        send_all_before id total ret (suc n) ps s' p.n v.4 (omega (arith, v.3))
            ∙ send_packet_own id p s v.0 (h p.n here),
        send_all-entries id total ret (suc n) ps s' v.4 (λ k later.
            send_packet_other id p s k v.0 (λ e. omega (arith, v.3)) ∙ h k (omega arith)),
      )

  pub send_message_reliable :
      (head : Header) (id : InnerKey) (bytes : List ℕ) (ps : List Packet) (s : GdUdp)
      → head ≢ Header.ack
      → packetize f.hex bytes id 1 ≡ ok ps
      → send_message f head id src bytes s ≡ ok (send_all f src ps s)
  unfolding send_message
  send_message_reliable Header.ack id bytes ps s h e = absurd (h refl)
  send_message_reliable Header.request id bytes ps s h e = rw e
  send_message_reliable Header.response id bytes ps s h e = rw e
  send_message_reliable Header.gossip id bytes ps s h e = rw e

  pub outgoing_msg_step :
      (id : InnerKey) (message : Message) (rest : List (SocketAddr × Message)) (self : Transport)
      (bytes : List ℕ) (gd_udp : GdUdp)
      → self.om_rx ≡ (src, message) ∷ rest
      → f.message.as_bytes message ≡ some bytes
      → send_message f message.head id src bytes self.gd_udp ≡ ok gd_udp
      → outgoing_msg f id self ≡ ok (record self { gd_udp = gd_udp; om_rx = rest })
  unfolding outgoing_msg
  outgoing_msg_step id message rest self bytes gd_udp queue written sent =
      rw (queue, outgoing_msg, written, sent)

  -- A message that is no acknowledgement and can be written, first in the channel and under an id
  -- that the outbox does not have: `outgoing_msg` takes it from the channel and does not panic;
  -- the packets, numbered from 1, carry the whole message, and each has an entry in the outbox,
  -- for its one destination, with one attempt and no acknowledgement.
  pub outgoing_msg-entries :
      (id : InnerKey) (message : Message) (rest : List (SocketAddr × Message)) (self : Transport)
      (bytes : List ℕ)
      → message.head ≢ Header.ack
      → self.om_rx ≡ (src, message) ∷ rest
      → f.message.as_bytes message ≡ some bytes
      → get Text-discrete id self.gd_udp.outbox ≡ none
      → (ps : List Packet) × (self' : Transport) × (outgoing_msg f id self ≡ ok self')
        × (self'.om_rx ≡ rest)
        × (contents f.hex ps ≡ some bytes)
        × IsNumbered id (length ps) 1 1 ps
        × All
            (λ p.
              entry_at id p.n self'.gd_udp.outbox
              ≡ some (first_entry (destination self.gd_udp.addr src) p))
            ps
  outgoing_msg-entries id message rest self bytes head queue written fresh =
      let (ps, cut, whole, some_ps, numbered) =
        contents-packetize f.hex id 1 bytes (f.message.as_bytes-IsByte message bytes written) in
      (
        ps,
        record self { gd_udp = send_all f src ps self.gd_udp; om_rx = rest },
        outgoing_msg_step id message rest self bytes (send_all f src ps self.gd_udp) queue written
            (send_message_reliable message.head id bytes ps self.gd_udp head cut),
        refl,
        whole,
        numbered,
        send_all-entries id (length ps) 1 1 ps self.gd_udp numbered
            (λ k later. entry_at-none id k self.gd_udp.outbox fresh),
      )
