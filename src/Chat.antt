-- ===== src/Chat.antt =====
-- examples/chat.rs: a node, with its channels and threads. A step is one call by one of the threads;
-- each call reads at most one message of a channel, and before it sends any. What a call has sent
-- stands at the receivers when the call is over. A call that panics ends its thread, and there is no
-- step for it: what it had sent before is not seen. The dialling of `main`, which runs beside the
-- threads of the transport, comes before them here; they share nothing but the channels.
pub mod Running
use udp2p.Base.{ℕ, ◌≡◌, List, [], ◌∷◌, ◌++◌, Option, some, none, Outcome, ok, panic, ◌>>=◌, unwrap}
use udp2p.Base.Codec.{Codec}
use udp2p.Node.Key.{Key}
use udp2p.Node.Peer
use udp2p.Node.Peer.{Text, SocketAddr, PeerInfo, from_key}
use udp2p.Protocol.{Bytes, InnerKey, Header, Message}
use udp2p.Handler
use udp2p.Handler.{Formats, MessageHandler, recv_msg}
use udp2p.Transport
use udp2p.Transport.{Transport, incoming_ack, outgoing_msg, check_time_elapsed}
use udp2p.Routing
use udp2p.Routing.Linked.{LinkedMap}
use udp2p.Kad
use udp2p.Kad.{KadFormats, Kademlia, bootstrap, add_peer}
use udp2p.Gossip
use udp2p.Gossip.{GossipMessage, GossipConfig, GossipService, new_config, get_pub_ip}

-- The call that a thread makes next.
pub data TransportTurn : Type 0 where
  acknowledgements messages timer : TransportTurn

pub data GossipTurn : Type 0 where
  discovery incoming heartbeat : GossipTurn

pub record Chat (l : LinkedMap) : Type 0 where
  pub addr : SocketAddr
  pub info : PeerInfo
  pub transport : Transport
  pub transport_turn : TransportTurn
  pub message_handler : MessageHandler
  pub gossip : GossipService l
  pub gossip_turn : GossipTurn
  pub chat_rx : List GossipMessage
  pub printed : List GossipMessage

-- What each thread's next call gets from outside: draws, times, a datagram, a line.
pub data Event : Type 0 where
  transport_thread : InnerKey → ℕ → ℕ → Event
  handler_thread : Option (Bytes × ℕ × SocketAddr) → Event
  input_thread : InnerKey → Bytes → Event
  gossip_thread : (ℕ → ℕ) → (ℕ → ℕ → ℕ) → ℕ → ℕ → Event
  print_thread : Event

-- 20 seconds, and "vrrb-0.1.0-test-net".
abbrev pub interval : ℕ
interval = 20_000_000_000

abbrev pub protocol_id : Text
protocol_id =
    118 ∷ 114 ∷ 114 ∷ 98 ∷ 45 ∷ 48 ∷ 46 ∷ 49 ∷ 46 ∷ 48 ∷ 45 ∷ 116 ∷ 101 ∷ 115 ∷ 116 ∷ 45 ∷ 110 ∷ 101
    ∷ 116 ∷ []

-- The configuration; `factor` is the product with 0.4, and the heartbeat 250 milliseconds.
unfoldable pub gossip_config : (ℕ → ℕ) → GossipConfig
unfolding new_config
gossip_config factor = new_config protocol_id 8 3 8 3 12 3 factor 250_000_000 80

-- The lists of what was sent are moved to the ends of the channels' receivers.
unfoldable pub pour : {l : LinkedMap} → Chat l → Chat l
pour self =
    let handler = self.message_handler in
    let gossip = self.gossip in
    record self {
      transport = record self.transport {
        ia_rx = self.transport.ia_rx ++ handler.ia_tx;
        om_rx =
            self.transport.om_rx
            ++ (handler.om_tx ++ (gossip.to_transport_tx ++ gossip.kad.to_transport));
      };
      message_handler = record handler { om_tx = []; ia_tx = []; kad_tx = []; gossip_tx = [] };
      gossip = record gossip {
        to_gossip_rx = gossip.to_gossip_rx ++ handler.gossip_tx;
        to_transport_tx = [];
        kad = record gossip.kad {
          to_transport = [];
          from_transport = gossip.kad.from_transport ++ handler.kad_tx;
        };
      };
    }

module _ (l : LinkedMap) (f : Formats) (k : KadFormats) (g : Codec GossipMessage)
    (rand : ℕ → InnerKey) where
  -- The loop of the transport's thread, from one call to the next.
  unfoldable pub transport_at : TransportTurn → InnerKey → ℕ → ℕ → Chat l → Outcome (Chat l)
  unfolding incoming_ack outgoing_msg check_time_elapsed
  transport_at acknowledgements key now later self =
      incoming_ack f self.transport
      >>= (λ t. ok (record self { transport = t; transport_turn = messages }))
  transport_at messages key now later self =
      outgoing_msg f key self.transport
      >>= (λ t. ok (record self { transport = t; transport_turn = timer }))
  transport_at timer key now later self = ok (record self {
    transport = check_time_elapsed f now later self.transport;
    transport_turn = acknowledgements;
  })

  unfoldable pub handler_call : Option (Bytes × ℕ × SocketAddr) → Chat l → Outcome (Chat l)
  unfolding recv_msg get_pub_ip
  handler_call received self =
      recv_msg f received (get_pub_ip l self.gossip) self.message_handler
      >>= (λ handler. ok (record self { message_handler = handler }))

  -- `line` has the bytes of the trimmed line. The message goes to the service's own channel.
  unfoldable pub input_call : InnerKey → Bytes → Chat l → Outcome (Chat l)
  input_call key line self =
      let msg : GossipMessage = record { id = key; message_data = line; sender = self.addr } in
      unwrap (g.as_bytes msg) >>= (λ bytes.
        let message : Message = record { head = Header.gossip; msg = bytes } in
        ok (record self {
          gossip = record self.gossip {
            to_gossip_rx = self.gossip.to_gossip_rx ++ (self.addr, message) ∷ [];
          };
        }))

  -- What `recv` of the gossip service sends on its channel `tx`.
  unfoldable pub shown : Option GossipMessage → List GossipMessage → List GossipMessage
  shown none chat = chat
  shown (some message) chat = chat ++ message ∷ []

  -- The loop of `start`, in the thread of `main`.
  unfoldable pub gossip_at : GossipTurn → (ℕ → ℕ) → (ℕ → ℕ → ℕ) → ℕ → ℕ → Chat l → Outcome (Chat l)
  unfolding Kad.recv Gossip.recv Gossip.gossip shown
  gossip_at discovery draw draws now later self = Kad.recv l k rand now self.gossip.kad >>= (λ kad.
      ok (record self { gossip = record self.gossip { kad = kad }; gossip_turn = incoming }))
  gossip_at incoming draw draws now later self = Gossip.recv l g draw now self.gossip >>= (λ result.
      ok (record self {
        gossip = result.0;
        gossip_turn = heartbeat;
        chat_rx = shown result.1 self.chat_rx;
      }))
  gossip_at heartbeat draw draws now later self =
      Gossip.gossip l g draws now later self.gossip
      >>= (λ gossip. ok (record self { gossip = gossip; gossip_turn = discovery }))

  unfoldable pub print_call : Chat l → Chat l
  print_call self = elim self.chat_rx [
    | [] ↦ self
    | message ∷ rest ↦ record self { chat_rx = rest; printed = self.printed ++ message ∷ [] }
  ]

  unfoldable pub call : Event → Chat l → Outcome (Chat l)
  unfolding transport_at handler_call input_call gossip_at print_call
  call (transport_thread key now later) self = transport_at self.transport_turn key now later self
  call (handler_thread received) self = handler_call received self
  call (input_thread key line) self = input_call key line self
  call (gossip_thread draw draws now later) self =
      gossip_at self.gossip_turn draw draws now later self
  call print_thread self = ok (print_call self)

  unfoldable pub step : Event → Chat l → Outcome (Chat l)
  unfolding call pour
  step event self = call event self >>= (λ self'. ok (pour self'))

  -- The parts of a node, over channels that nothing was sent on.
  unfoldable pub assemble : (ℕ → ℕ) → ℕ → ℕ → PeerInfo → Routing.RoutingTable l → Chat l
  unfolding gossip_config
  assemble factor now port info routing_table =
      let addr : SocketAddr = record { ip = 0; port = port } in
      let kad = Kad.new routing_table [] interval now in
      record {
        addr = addr;
        info = info;
        transport = Transport.new info.address now [] [];
        transport_turn = acknowledgements;
        message_handler = Handler.new [];
        gossip = Gossip.new l addr info.address [] kad (gossip_config factor) now now;
        gossip_turn = discovery;
        chat_rx = [];
        printed = [];
      }

  -- The node before it dials: `port` is drawn, and `pub_ip` asked for at another service.
  unfoldable pub node : (Key → Text) → (ℕ → ℕ) → ℕ → ℕ → Option ℕ → Key → Outcome (Chat l)
  unfolding assemble
  node digest factor now port pub_ip key = unwrap pub_ip >>= (λ ip.
      Peer.new (from_key digest key) key ip port >>= (λ info.
        Routing.new l now info
        >>= (λ routing_table. ok (assemble factor now port info routing_table))))

  -- `if let Some(bytes) = info.as_bytes() { gossip.kad.add_peer(bytes) }`.
  unfoldable pub add_own : ℕ → PeerInfo → Kademlia l → Outcome (Kademlia l)
  unfolding add_peer
  add_own now info kad = elim (k.peer.as_bytes info) [
    | none ↦ ok kad
    | some bytes ↦ add_peer l k rand now bytes kad
  ]

  -- The first argument of the program, if there is one, is the address to dial.
  unfoldable pub dial : ℕ → Option Text → Chat l → Outcome (Kademlia l)
  unfolding bootstrap
  dial now none self = ok self.gossip.kad
  dial now (some to_dial) self =
      unwrap (f.address.parse to_dial)
      >>= (λ address. bootstrap l k rand now address self.gossip.kad)

  unfoldable pub main :
      (Key → Text) → (ℕ → ℕ) → ℕ → ℕ → Option ℕ → Key → Option Text → Outcome (Chat l)
  unfolding node dial add_own pour
  main digest factor now port pub_ip key to_dial =
      node digest factor now port pub_ip key >>= (λ self. dial now to_dial self >>= (λ dialled.
        add_own now self.info dialled
        >>= (λ kad. ok (pour (record self { gossip = record self.gossip { kad = kad } })))))
