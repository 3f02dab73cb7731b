-- ===== src/Transport/Loopback.antt =====
-- What becomes of a message that src/transport/transport.rs sends to a peer on its own host.
use udp2p.Base.{◌≡◌, ◌≢◌, ap, ◌∙◌, List, some, none, ok, length, arith}
use udp2p.Base.Sets
use udp2p.Node.Peer.{SocketAddr, SocketAddr-discrete}
use udp2p.Protocol.{Packet}
use udp2p.Handler.{Formats}
use udp2p.GdUdp.{GdUdp, first_entry, acknowledged_by, process_ack, maintain, unacknowledged}
use udp2p.GdUdp.Lookup.{entry_at}
use udp2p.GdUdp.Resend.{attempted}
use udp2p.GdUdp.Rounds.{entry_at-maintain_open}
use udp2p.GdUdp.Exchange.{Reached, Reached-IsKeyed, entry_at-send_reliable, entry_at-process_ack}
use udp2p.Transport.{destination, loopback, send_packet}

destination_local :
    (local src : SocketAddr)
    → local.ip ≡ src.ip
    → destination local src ≡ record { ip = loopback; port = src.port }
unfolding destination
destination_local local src h = ground arith

destination_ne :
    (local src : SocketAddr) → local.ip ≡ src.ip → src.ip ≢ loopback → src ≢ destination local src
destination_ne local src h apart e =
    apart (ap (λ (a : SocketAddr). a.ip) (e ∙ destination_local local src h))

-- A new packet to a peer on this node's host goes to 127.0.0.1, so that the peer's
-- acknowledgement, which names another address, does not settle it: from every reached state the
-- next round sends the packet again.
pub loopback_resent :
    (f : Formats) (src : SocketAddr) (packet : Packet) (s s' : GdUdp)
    → Reached f.packet f.address s
    → entry_at packet.id packet.n s.outbox ≡ none
    → s.addr.ip ≡ src.ip
    → src.ip ≢ loopback
    → process_ack f.address packet.id packet.n
        (f.address.to_string src)
        (send_packet f src packet s)
      ≡ ok s'
    → entry_at packet.id packet.n (maintain f.packet s').outbox
      ≡ some (attempted 1 (acknowledged_by src (first_entry (destination s.addr src) packet)))
unfolding send_packet acknowledged_by first_entry unacknowledged
loopback_resent f src packet s s' r fresh same_host apart run =
    let to = destination s.addr src in
    let sent_now = Reached.sent to packet s r in
    let keyed =
      Reached-IsKeyed f.packet f.address s'
        (Reached.told packet.id packet.n (f.address.to_string src) _ s' sent_now run) in
    let own =
      entry_at-process_ack f.packet f.address to packet (f.address.to_string src) src _ s' _
        (f.address.parse-to_string src)
        (entry_at-send_reliable f.packet f.address to packet s fresh) run in
    let entry = acknowledged_by src (first_entry to packet) in
    let other = destination_ne s.addr src same_host apart in
    entry_at-maintain_open f.packet s' packet.id packet.n entry keyed own (omega arith)
      (rw (Sets.one_not-is_subset SocketAddr-discrete to src other))
    ∙ ap (λ (d : List SocketAddr). some (attempted (length d) entry))
        (Sets.difference_one SocketAddr-discrete to src other)
