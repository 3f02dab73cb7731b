-- ===== src/Gossip.antt =====
-- src/gossip/gossip.rs and src/gossip/protocol.rs: how a message spreads. A channel is the list of
-- what was sent on it or waits in it. The factor, a floating-point number, enters as the function
-- from the number of peers to the number of draws; `draw` gives the peer that each draw picks.
-- Times are in nanoseconds; a product of durations that overflows is left out.
pub mod Spread
pub mod Keeps
pub mod Cache
pub mod Reach
use udp2p.Base.{
  ℕ, zero, suc, ◌+◌, ◌-◌, ◌*◌, ◌%◌, ◌^◌, ◌≡◌, List, [], ◌∷◌, ◌++◌, Option, some, none, Bool, true,
  false, not, ◌&&◌, Outcome, ok, panic, ◌>>=◌, unwrap, for_each, length, get_elem?, ltb,
  if◌then◌else◌, decided,
}
use udp2p.Base.Codec.{Codec}
use udp2p.Base.Dict.{Dict, get, or_insert, remove}
use udp2p.Base.Sets
use udp2p.Node.Peer.{Text, SocketAddr, SocketAddr-discrete, Text-discrete, PeerInfo}
use udp2p.Protocol.{Bytes, InnerKey, Message}
use udp2p.Routing.Linked.{LinkedMap}
use udp2p.Routing.{get_closest_peers}
use udp2p.Kad
use udp2p.Kad.{KadFormats, Kademlia}

pub record GossipMessage : Type 0 where
  pub id : InnerKey
  pub message_data : Bytes
  pub sender : SocketAddr

pub record GossipConfig : Type 0 where
  pub id : Text
  pub history_len : ℕ
  pub history_gossip : ℕ
  pub target : ℕ
  pub low : ℕ
  pub high : ℕ
  pub min_gossip : ℕ
  pub factor : ℕ → ℕ
  pub interval : ℕ
  pub check : ℕ

-- `GossipConfig::new`.
unfoldable pub new_config : Text → ℕ → ℕ → ℕ → ℕ → ℕ → ℕ → (ℕ → ℕ) → ℕ → ℕ → GossipConfig
new_config id history_len history_gossip target low high min_gossip factor interval check = record {
  id = id;
  history_len = history_len;
  history_gossip = history_gossip;
  target = target;
  low = low;
  high = high;
  min_gossip = min_gossip;
  factor = factor;
  interval = interval;
  check = check;
}

unfoldable pub min_peers : GossipConfig → ℕ
min_peers self = self.min_gossip

unfoldable pub max_peers : GossipConfig → ℕ
max_peers self = self.high

pub record GossipService (l : LinkedMap) : Type 0 where
  pub address : SocketAddr
  pub public_ip : SocketAddr
  pub to_gossip_rx : List (SocketAddr × Message)
  pub to_transport_tx : List (SocketAddr × Message)
  pub to_app_tx : List GossipMessage
  pub kad : Kademlia l
  pub cache : Dict InnerKey (Message × ℕ)
  pub config : GossipConfig
  pub heartbeat : ℕ
  pub ping_pong : ℕ

-- `interval * n as u32`.
unfoldable pub intervals : GossipConfig → ℕ → ℕ
intervals config n = config.interval * (n % 2 ^ 32)

module _ (own src : SocketAddr) where
  -- A draw is taken unless it is the source or this node.
  unfoldable pub sample_draw : PeerInfo → List SocketAddr → List SocketAddr
  unfolding Sets.insert SocketAddr-discrete
  sample_draw peer sample =
      if not (decided (SocketAddr-discrete peer.address src))
        && not (decided (SocketAddr-discrete peer.address own))
      then Sets.insert SocketAddr-discrete peer.address sample
      else sample

  -- `left` draws, of which the next is number `round`; `peers[rn]` panics out of range.
  unfoldable pub sample_random :
      (ℕ → ℕ) → ℕ → ℕ → List PeerInfo → List SocketAddr → Outcome (List SocketAddr)
  unfolding sample_draw
  sample_random draw zero round peers sample = ok sample
  sample_random draw (suc left) round peers sample =
      unwrap (get_elem? peers (draw round))
      >>= (λ peer. sample_random draw left (suc round) peers (sample_draw peer sample))

-- All peers but this node.
unfoldable pub sample_all : SocketAddr → List PeerInfo → List SocketAddr → List SocketAddr
unfolding Sets.insert SocketAddr-discrete
sample_all own [] sample = sample
sample_all own (peer ∷ peers) sample = sample_all own peers (
    if not (decided (SocketAddr-discrete peer.address own))
    then Sets.insert SocketAddr-discrete peer.address sample
    else sample)

module _ (l : LinkedMap) where
  unfoldable pub new :
      SocketAddr
      → SocketAddr
      → List (SocketAddr × Message)
      → Kademlia l
      → GossipConfig
      → ℕ
      → ℕ
      → GossipService l
  new address public_ip to_gossip_rx kad config heartbeat ping_pong = record {
    address = address;
    public_ip = public_ip;
    to_gossip_rx = to_gossip_rx;
    to_transport_tx = [];
    to_app_tx = [];
    kad = kad;
    cache = [];
    config = config;
    heartbeat = heartbeat;
    ping_pong = ping_pong;
  }

  unfoldable pub get_pub_ip : GossipService l → SocketAddr
  get_pub_ip self = self.public_ip

  unfoldable pub beat : ℕ → GossipService l → GossipService l × Bool
  beat now self =
      if ltb self.config.interval (now - self.heartbeat)
      then (record self { heartbeat = now }, true)
      else (self, false)

  -- The loop over `gossip_to`.
  unfoldable pub send_sample : SocketAddr → Message → List SocketAddr → List (SocketAddr × Message)
  unfolding SocketAddr-discrete
  send_sample src message [] = []
  send_sample src message (peer ∷ peers) =
      let rest = send_sample src message peers in
      if not (decided (SocketAddr-discrete peer src)) then (peer, message) ∷ rest else rest

  unfoldable pub gossip_to :
      (ℕ → ℕ) → SocketAddr → List PeerInfo → GossipService l → Outcome (List SocketAddr)
  unfolding sample_random sample_all
  gossip_to draw src peers self =
      if ltb 7 (length peers)
      then sample_random self.address src draw (self.config.factor (length peers)) 0 peers []
      else ok (sample_all self.address peers [])

  unfoldable pub publish :
      (ℕ → ℕ) → SocketAddr → Message → GossipService l → Outcome (GossipService l)
  unfolding gossip_to send_sample
  publish draw src message self =
      get_closest_peers l self.kad.routing_table.local_info 30 self.kad.routing_table
      >>= (λ peers. gossip_to draw src peers self)
      >>= (λ sample. ok (record self {
        to_transport_tx = self.to_transport_tx ++ send_sample src message sample;
      }))

  module _ (c : Codec GossipMessage) where
    unfoldable pub store : ℕ → GossipMessage → Message → GossipService l → GossipService l
    unfolding or_insert Text-discrete
    store now message msg self = record self {
      cache = or_insert Text-discrete message.id (msg, now) self.cache;
    }

    -- A message with an id that is not in the cache.
    unfoldable pub handle_new :
        (ℕ → ℕ)
        → ℕ
        → SocketAddr
        → GossipMessage
        → Message
        → GossipService l
        → Outcome (GossipService l × Option GossipMessage)
    unfolding publish store
    handle_new draw now src message msg self =
        if not (decided (SocketAddr-discrete src self.address))
        then publish draw src msg (record self { to_app_tx = self.to_app_tx ++ message ∷ [] })
          >>= (λ self'. ok (store now message msg self', some message))
        else ok (store now message msg self, none)

    unfoldable pub handle_message :
        (ℕ → ℕ)
        → ℕ
        → SocketAddr
        → Message
        → GossipService l
        → Outcome (GossipService l × Option GossipMessage)
    unfolding handle_new
    handle_message draw now src msg self = elim (c.from_bytes msg.msg) [
      | none ↦ ok (self, none)
      | some message ↦ elim (get Text-discrete message.id self.cache) [
        | none ↦ handle_new draw now src message msg self
        | some known ↦ ok (self, none)
      ]
    ]

    -- `recv`; the second result is what is sent on the channel `tx`.
    unfoldable pub recv :
        (ℕ → ℕ) → ℕ → GossipService l → Outcome (GossipService l × Option GossipMessage)
    unfolding handle_message
    recv draw now self = elim self.to_gossip_rx [
      | [] ↦ ok (self, none)
      | (src, msg) ∷ rest ↦ handle_message draw now src msg (record self { to_gossip_rx = rest })
    ]

    -- A cached message that is young is published again.
    unfoldable pub gossip_again :
        (ℕ → ℕ) → ℕ → Message → ℕ → GossipService l → Outcome (GossipService l)
    unfolding publish intervals
    gossip_again draw now message expires self =
        if ltb (now - expires) (intervals self.config self.config.history_gossip)
        then elim (c.from_bytes message.msg) [
          | none ↦ ok self
          | some gossip_message ↦ publish draw gossip_message.sender message self
        ]
        else ok self

    unfoldable pub forget : ℕ → InnerKey → ℕ → GossipService l → GossipService l
    unfolding intervals remove Text-discrete
    forget now key expires self =
        if ltb (intervals self.config self.config.history_len) (now - expires)
        then record self { cache = remove Text-discrete key self.cache }
        else self

    -- The loop over a copy of the cache; `draw` has the draws of each round.
    unfoldable pub gossip_all :
        (ℕ → ℕ → ℕ)
        → ℕ
        → ℕ
        → Dict InnerKey (Message × ℕ)
        → GossipService l
        → Outcome (GossipService l)
    unfolding gossip_again forget
    gossip_all draw round now [] self = ok self
    gossip_all draw round now ((key, entry) ∷ cache) self =
        gossip_again (draw round) now entry.0 entry.1 self
        >>= (λ self'. gossip_all draw (suc round) now cache (forget now key entry.1 self'))

    -- The clock is read twice: `now` for the ages, `later` for the heartbeat.
    unfoldable pub gossip : (ℕ → ℕ → ℕ) → ℕ → ℕ → GossipService l → Outcome (GossipService l)
    unfolding gossip_all beat
    gossip draw now later self =
        let beaten = beat later self in
        if beaten.1 then gossip_all draw 0 now self.cache beaten.0 else ok beaten.0

    -- One round of the loop of `start`: the discovery service, what came in, and the heartbeat.
    unfoldable pub start_round :
        KadFormats
        → (ℕ → InnerKey)
        → (ℕ → ℕ)
        → (ℕ → ℕ → ℕ)
        → ℕ
        → ℕ
        → GossipService l
        → Outcome (GossipService l)
    unfolding recv gossip
    start_round f rand draw draws now later self =
        Kad.recv l f rand now self.kad
        >>= (λ kad. recv draw now (record self { kad = kad }))
        >>= (λ result. gossip draws now later result.0)
