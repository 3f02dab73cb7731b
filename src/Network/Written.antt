-- ===== src/Network/Written.antt =====
-- What src/transport/transport.rs hands to the socket.
use mathlib.Core.List
use udp2p.Base.{◌≡◌, refl, sym, ap, ◌∙◌, List, [], ◌∷◌, ◌++◌, map, ok, for_each}
use udp2p.Node.Peer.{SocketAddr}
use udp2p.Protocol.{Bytes, Packet}
use udp2p.Handler.{Formats}
use udp2p.GdUdp.{GdUdp, send_reliable}
use udp2p.Transport.{destination, send_plain, send_packet, send_all}
use udp2p.Network.{Writers}

module _ (f : Formats) (w : Writers f) where
  -- The datagrams of some packets to one peer.
  abbrev pub datagrams : SocketAddr → List Packet → List (Bytes × SocketAddr)
  datagrams peer packets = map (λ p. (w.packet p, peer)) packets

  pub for_each-send_plain :
      (peer : SocketAddr) (packets : List Packet) (self : GdUdp)
      → for_each (send_plain f peer) packets self
        ≡ ok (record self { sock = self.sock ++ datagrams peer packets })
  unfolding for_each send_plain
  for_each-send_plain peer [] self =
      ap (λ s. ok (record self { sock = s })) (sym (List.append-nil self.sock))
  for_each-send_plain peer (p ∷ packets) self = rw (w.packet_lem p) (
      for_each-send_plain peer packets _
      ∙ ap (λ s. ok (record self { sock = s }))
          (List.append_assoc self.sock ((w.packet p, peer) ∷ []) (datagrams peer packets)))

  sock-send_packet :
      (src : SocketAddr) (packet : Packet) (self : GdUdp)
      → (send_packet f src packet self).sock
        ≡ self.sock ++ (w.packet packet, destination self.addr src) ∷ []
  unfolding send_packet send_reliable
  sock-send_packet src packet self = rw (w.packet_lem packet)

  addr-send_packet :
      (src : SocketAddr) (packet : Packet) (self : GdUdp)
      → (send_packet f src packet self).addr ≡ self.addr
  unfolding send_packet send_reliable
  addr-send_packet src packet self = refl

  pub sock-send_all :
      (src : SocketAddr) (packets : List Packet) (self : GdUdp)
      → (send_all f src packets self).sock
        ≡ self.sock ++ datagrams (destination self.addr src) packets
  unfolding send_all
  sock-send_all src [] self = sym (List.append-nil self.sock)
  sock-send_all src (p ∷ packets) self =
      sock-send_all src packets (send_packet f src p self)
      ∙ ap (λ a. (send_packet f src p self).sock ++ datagrams (destination a src) packets)
          (addr-send_packet src p self)
      ∙ ap (λ s. s ++ datagrams (destination self.addr src) packets) (sock-send_packet src p self)
      ∙ List.append_assoc self.sock ((w.packet p, destination self.addr src) ∷ [])
          (datagrams (destination self.addr src) packets)
