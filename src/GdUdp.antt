-- ===== src/GdUdp.antt =====
-- src/gd_udp/gd_udp.rs: packets that are sent again until their receipt is acknowledged. `sock` is
-- what was handed to the socket, in order; the calls that set its time to live are left out. Times
-- are in nanoseconds; the log's file name is left out, since nothing reads it.
pub mod Lookup
pub mod Keyed
pub mod Purge
pub mod Resend
pub mod Maintain
pub mod Rounds
pub mod Exchange
use udp2p.Base.{
  ℕ, zero, suc, ◌+◌, ◌-◌, ◌≡◌, List, [], ◌∷◌, ◌++◌, Option, some, none, Bool, true, false, not,
  ◌&&◌, Outcome, ok, panic, ◌>>=◌, unwrap, length, ltb, leb, if◌then◌else◌, ℕ_discrete,
}
use udp2p.Base.Codec.{Codec}
use udp2p.Base.Dict.{Dict, get, insert}
use udp2p.Base.Sets
use udp2p.Node.Peer.{Text, SocketAddr, SocketAddr-discrete, Text-discrete}
use udp2p.Node.Address.{AddressFormat}
use udp2p.Protocol.{Bytes, InnerKey, Packet}

-- The quadruple that the outbox keeps for a packet.
pub record Entry : Type 0 where
  pub sent_set : List SocketAddr
  pub ack_set : List SocketAddr
  pub packet : Packet
  pub attempts : ℕ

abbrev pub Outbox : Type 0
Outbox = Dict InnerKey (Dict ℕ Entry)

pub record GdUdp : Type 0 where
  pub addr : SocketAddr
  pub message_cache : List InnerKey
  pub outbox : Outbox
  pub timer : ℕ
  pub sock : List (Bytes × SocketAddr)

-- 300 milliseconds.
abbrev pub maintenance : ℕ
maintenance = 300_000_000

-- `GdUdp::new` at the time `now`.
unfoldable pub new : SocketAddr → ℕ → GdUdp
new addr now = record { addr = addr; message_cache = []; outbox = []; timer = now; sock = [] }

unfoldable pub first_entry : SocketAddr → Packet → Entry
unfolding Sets.insert SocketAddr-discrete
first_entry peer packet = record {
  sent_set = Sets.insert SocketAddr-discrete peer [];
  ack_set = [];
  packet = packet;
  attempts = 1;
}

unfoldable pub sent_again : SocketAddr → Entry → Entry
unfolding Sets.insert SocketAddr-discrete
sent_again peer e = record e {
  sent_set = Sets.insert SocketAddr-discrete peer e.sent_set;
  attempts = e.attempts + 1;
}

-- What `send_reliable` writes into the outbox.
unfoldable pub note_sent_in : SocketAddr → Packet → Dict ℕ Entry → Dict ℕ Entry
unfolding first_entry sent_again
note_sent_in peer packet map = elim (get ℕ_discrete packet.n map) [
  | some e ↦ insert ℕ_discrete packet.n (sent_again peer e) map
  | none ↦ insert ℕ_discrete packet.n (first_entry peer packet) map
]

unfoldable pub note_sent : SocketAddr → Packet → Outbox → Outbox
unfolding note_sent_in first_entry
note_sent peer packet outbox = elim (get Text-discrete packet.id outbox) [
  | some map ↦ insert Text-discrete packet.id (note_sent_in peer packet map) outbox
  | none ↦
      insert Text-discrete packet.id (insert ℕ_discrete packet.n (first_entry peer packet) [])
        outbox
]

-- `sent_set != ack_set && *attempts < 10`.
unfoldable pub is_open : Entry → Bool
unfolding Sets.same_set SocketAddr-discrete
is_open e = not (Sets.same_set SocketAddr-discrete e.sent_set e.ack_set) && ltb e.attempts 10

unfoldable pub retain_open : Dict ℕ Entry → Dict ℕ Entry
unfolding is_open
retain_open [] = []
retain_open ((n, e) ∷ map) = let rest = retain_open map in if is_open e then (n, e) ∷ rest else rest

-- The two nested `retain`s of `maintain`: a message none of whose packets is left goes too.
unfoldable pub purge : Outbox → Outbox
unfolding retain_open
purge [] = []
purge ((id, map) ∷ outbox) =
    let rest = purge outbox in elim (retain_open map) [ [] ↦ rest | e ∷ es ↦ (id, e ∷ es) ∷ rest ]

-- The destinations that have not acknowledged.
unfoldable pub unacknowledged : Entry → List SocketAddr
unfolding Sets.difference SocketAddr-discrete
unacknowledged e = Sets.difference SocketAddr-discrete e.sent_set e.ack_set

module _ (c : Codec Packet) where
  unfoldable pub send_reliable : SocketAddr → Packet → GdUdp → GdUdp
  unfolding note_sent
  send_reliable peer packet self = record self {
    outbox = note_sent peer packet self.outbox;
    sock = elim (c.as_bytes packet) [
      | some bytes ↦ self.sock ++ (bytes, peer) ∷ []
      | none ↦ self.sock
    ];
  }

  unfoldable pub send_to_all : List SocketAddr → Packet → GdUdp → GdUdp
  unfolding send_reliable
  send_to_all [] packet self = self
  send_to_all (peer ∷ peers) packet self = send_to_all peers packet (send_reliable peer packet self)

  unfoldable pub resend_entry : Entry → GdUdp → GdUdp
  unfolding send_to_all unacknowledged
  resend_entry e self =
      if ltb e.attempts 10 then send_to_all (unacknowledged e) e.packet self else self

  unfoldable pub resend_map : Dict ℕ Entry → GdUdp → GdUdp
  unfolding resend_entry
  resend_map [] self = self
  resend_map ((n, e) ∷ map) self = resend_map map (resend_entry e self)

  unfoldable pub resend_outbox : Outbox → GdUdp → GdUdp
  unfolding resend_map
  resend_outbox [] self = self
  resend_outbox ((id, map) ∷ outbox) self = resend_outbox outbox (resend_map map self)

  -- The loop runs over a copy of the purged outbox.
  unfoldable pub maintain : GdUdp → GdUdp
  unfolding purge resend_outbox
  maintain self =
      let purged = record self { outbox = purge self.outbox } in resend_outbox purged.outbox purged

  -- `now` is the time at the start and `later` the time after `maintain`.
  unfoldable pub check_time_elapsed : ℕ → ℕ → GdUdp → GdUdp
  unfolding maintain
  check_time_elapsed now later self =
      if leb maintenance (now - self.timer) then record (maintain self) { timer = later } else self

  -- `ack`: each packet that can be written goes to the socket, and is not kept.
  unfoldable pub ack : SocketAddr → List Packet → GdUdp → GdUdp
  ack peer [] self = self
  ack peer (packet ∷ packets) self = ack peer packets (record self {
    sock = elim (c.as_bytes packet) [
      | some bytes ↦ self.sock ++ (bytes, peer) ∷ []
      | none ↦ self.sock
    ];
  })

unfoldable pub acknowledged_by : SocketAddr → Entry → Entry
unfolding Sets.insert SocketAddr-discrete
acknowledged_by src e = record e { ack_set = Sets.insert SocketAddr-discrete src e.ack_set }

unfoldable pub note_ack : InnerKey → ℕ → SocketAddr → Outbox → Outbox
unfolding acknowledged_by
note_ack id packet_number src outbox = elim (get Text-discrete id outbox) [
  | some map ↦ elim (get ℕ_discrete packet_number map) [
    | some e ↦
        insert Text-discrete id (insert ℕ_discrete packet_number (acknowledged_by src e) map) outbox
    | none ↦ outbox
  ]
  | none ↦ outbox
]

-- A source that is no address panics. Text that is not UTF-8 does not parse either.
unfoldable pub process_ack : AddressFormat → InnerKey → ℕ → Bytes → GdUdp → Outcome GdUdp
unfolding note_ack
process_ack format id packet_number src self =
    unwrap (format.parse src)
    >>= (λ peer. ok (record self { outbox = note_ack id packet_number peer self.outbox }))
