-- ===== src/Tests/Outboxes.antt =====
-- Sends, rounds and acknowledgements at a concrete outbox.
use mathlib.Core.Option
use udp2p.Base.{
  length, All, ℕ, ◌≡◌, ◌≢◌, refl, ap, List, [], ◌∷◌, ◌++◌, map, Option, some, none, ok, arith,
}
use udp2p.Node.Peer.{SocketAddr}
use udp2p.Protocol.{Packet, Message, Header}
use udp2p.GdUdp.{
  Entry, GdUdp, Outbox, new, first_entry, sent_again, note_sent, note_ack, acknowledged_by,
  process_ack, send_reliable, maintain, resend_entry, unacknowledged,
}
use udp2p.GdUdp.Lookup.{entry_at}
use udp2p.GdUdp.Keyed.{IsKeyed}
use udp2p.GdUdp.Purge.{kept}
use udp2p.GdUdp.Resend.{resent, attempted, IsResentTo, sock-resend_entry}
use udp2p.GdUdp.Maintain.{entry_at-maintain}
use udp2p.GdUdp.Rounds.{rounds, rounds_end}
use udp2p.GdUdp.Exchange.{Reached, Reached-IsKeyed, acknowledged_once, acknowledged_twice}
use udp2p.Transport.{destination, send_packet, Transport, outgoing_msg}
use udp2p.Transport.Loopback.{loopback_resent}
use udp2p.Protocol.Packetize.{contents, IsNumbered}
use udp2p.Transport.Outgoing.{outgoing_msg-entries}
use udp2p.Tests.Instances.{formats, plain_packet, plain_address}

abbrev alice : SocketAddr
alice = record { ip = 1; port = 9000 }

abbrev bob : SocketAddr
bob = record { ip = 2; port = 9000 }

abbrev carol : SocketAddr
carol = record { ip = 3; port = 9000 }

-- A second node on the host of `alice`.
abbrev dave : SocketAddr
dave = record { ip = 1; port = 9001 }

abbrev packet : Packet
packet = record { id = 7 ∷ []; n = 1; total_n = 1; bytes = 72 ∷ []; ret = 1 }

-- Sent to two peers, of which one has acknowledged.
abbrev entry : Entry
entry = record { sent_set = carol ∷ bob ∷ []; ack_set = bob ∷ []; packet = packet; attempts = 2 }

abbrev busy : GdUdp
busy = record {
  addr = alice;
  message_cache = [];
  outbox = (7 ∷ [], (1, entry) ∷ []) ∷ [];
  timer = 0;
  sock = [];
}

busy-IsKeyed : IsKeyed busy.outbox
unfolding udp2p.Base.Dict.get
busy-IsKeyed = (refl, (refl, refl, refl, tt), tt)

entry_at-maintain_example :
    entry_at (7 ∷ []) 1 (maintain plain_packet busy).outbox
    ≡ Option.map resent (kept (entry_at (7 ∷ []) 1 busy.outbox))
entry_at-maintain_example = entry_at-maintain plain_packet busy (7 ∷ []) 1 busy-IsKeyed

-- What the round makes of the entry: one attempt more, for carol.
round_test :
    Option.map resent (kept (entry_at (7 ∷ []) 1 busy.outbox))
    ≡ some (record entry { attempts = 3 })
unfolding entry_at udp2p.Base.Dict.get udp2p.Node.Peer.Text-discrete udp2p.GdUdp.is_open
    unacknowledged
round_test = refl

rounds_end_example : entry_at (7 ∷ []) 1 (rounds plain_packet 9 busy).outbox ≡ none
unfolding entry_at udp2p.Base.Dict.get udp2p.Node.Peer.Text-discrete udp2p.Base.Sets.is_subset
    udp2p.Node.Peer.SocketAddr-discrete
rounds_end_example =
    rounds_end plain_packet 8 busy (7 ∷ []) 1 entry busy-IsKeyed refl refl (omega arith)

abbrev fresh : GdUdp
fresh = record { addr = alice; message_cache = []; outbox = []; timer = 5; sock = [] }

abbrev sent_once : GdUdp
sent_once = record fresh {
  outbox =
      (
        7 ∷ [],
        (1, record { sent_set = bob ∷ []; ack_set = []; packet = packet; attempts = 1 }) ∷ [],
      )
      ∷ [];
  sock = (1 ∷ 1 ∷ 1 ∷ 1 ∷ 7 ∷ 72 ∷ [], bob) ∷ [];
}

abbrev acked : List SocketAddr → GdUdp
acked from = record sent_once {
  outbox =
      (
        7 ∷ [],
        (1, record { sent_set = bob ∷ []; ack_set = from; packet = packet; attempts = 1 }) ∷ [],
      )
      ∷ [];
}

fresh-Reached : Reached plain_packet plain_address fresh
unfolding new
fresh-Reached = Reached.started alice 5

acknowledged_once_example :
    entry_at (7 ∷ []) 1 (maintain plain_packet (acked (bob ∷ []))).outbox ≡ none
unfolding entry_at udp2p.Base.Dict.get process_ack send_reliable udp2p.Base.Dict.insert
    udp2p.Node.Peer.Text-discrete
acknowledged_once_example =
    acknowledged_once plain_packet plain_address bob packet (2 ∷ 9000 ∷ []) fresh (acked (bob ∷ []))
      fresh-Reached refl refl refl

bob-carol : bob ≢ carol
bob-carol e = let ips : bob.ip ≡ carol.ip = ap (λ (a : SocketAddr). a.ip) e in omega arith

acknowledged_twice_example :
    entry_at (7 ∷ []) 1 (rounds plain_packet 1_000 (acked (carol ∷ bob ∷ []))).outbox
    ≡ some (acknowledged_by carol (acknowledged_by bob (first_entry bob packet)))
unfolding entry_at udp2p.Base.Dict.get process_ack send_reliable udp2p.Base.Dict.insert
    udp2p.Node.Peer.Text-discrete
acknowledged_twice_example =
    acknowledged_twice plain_packet plain_address bob carol packet (2 ∷ 9000 ∷ []) (3 ∷ 9000 ∷ [])
      fresh (acked (bob ∷ [])) (acked (carol ∷ bob ∷ [])) 1_000 fresh-Reached refl bob-carol refl
      refl refl refl

Reached-IsKeyed_example : IsKeyed (send_reliable plain_packet bob packet fresh).outbox
Reached-IsKeyed_example =
    Reached-IsKeyed plain_packet plain_address (send_reliable plain_packet bob packet fresh)
      (Reached.sent bob packet fresh fresh-Reached)

sock-resend_entry_example :
    (peers : List SocketAddr) × ((resend_entry plain_packet entry busy).sock
      ≡ busy.sock ++ map (λ a. (1 ∷ 1 ∷ 1 ∷ 1 ∷ 7 ∷ 72 ∷ [], a)) peers)
    × IsResentTo entry peers
sock-resend_entry_example =
    sock-resend_entry plain_packet entry busy (1 ∷ 1 ∷ 1 ∷ 1 ∷ 7 ∷ 72 ∷ []) refl
      ((bob-carol, tt), (tt, tt))

-- The message to `dave` went to 127.0.0.1, and his acknowledgement names his own address.
abbrev same_host : GdUdp
same_host = record fresh {
  outbox =
      (
        7 ∷ [],
        (
          1,
          record {
            sent_set = record { ip = 2_130_706_433; port = 9001 } ∷ [];
            ack_set = dave ∷ [];
            packet = packet;
            attempts = 1;
          },
        )
            ∷ [],
      )
      ∷ [];
  sock = (1 ∷ 1 ∷ 1 ∷ 1 ∷ 7 ∷ 72 ∷ [], record { ip = 2_130_706_433; port = 9001 }) ∷ [];
}

loopback_resent_example :
    entry_at (7 ∷ []) 1 (maintain plain_packet same_host).outbox
    ≡ some (attempted 1 (acknowledged_by dave (first_entry (destination alice dave) packet)))
unfolding entry_at udp2p.Base.Dict.get process_ack send_packet send_reliable udp2p.Base.Dict.insert
    udp2p.Node.Peer.Text-discrete
loopback_resent_example =
    loopback_resent formats dave packet fresh same_host fresh-Reached refl refl (λ e. omega arith)
      refl

abbrev hello : Message
hello = record { head = Header.gossip; msg = 72 ∷ 105 ∷ [] }

abbrev loaded : Transport
loaded = record { gd_udp = fresh; ia_rx = []; om_rx = (bob, hello) ∷ [] }

not_ack : Header.gossip ≢ Header.ack
not_ack e = cc e

outgoing_msg-entries_example :
    (ps : List Packet) × (self' : Transport) × (outgoing_msg formats (7 ∷ []) loaded ≡ ok self')
    × (self'.om_rx ≡ [])
    × (contents formats.hex ps ≡ some (2 ∷ 72 ∷ 105 ∷ []))
    × IsNumbered (7 ∷ []) (length ps) 1 1 ps
    × All
        (λ p.
          entry_at (7 ∷ []) p.n self'.gd_udp.outbox ≡ some (first_entry (destination alice bob) p))
        ps
unfolding udp2p.Base.Dict.get
outgoing_msg-entries_example =
    outgoing_msg-entries formats bob (7 ∷ []) hello [] loaded (2 ∷ 72 ∷ 105 ∷ []) not_ack refl refl
      refl
