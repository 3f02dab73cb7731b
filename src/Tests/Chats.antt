-- ===== src/Tests/Chats.antt =====
-- A run of the node of examples/chat.rs: it starts, a line is typed, and the gossip service takes it.
use udp2p.Base.{
  ℕ, ◌≡◌, refl, List, [], ◌∷◌, ◌++◌, Option, some, none, Outcome, ok, ◌>>=◌, ◌/◌, ap₂, length, take,
  drop, replicate,
}
use udp2p.Base.Codec.{Codec}
use udp2p.Node.Key.{Key}
use udp2p.Node.Peer.{Text, SocketAddr, PeerInfo}
use udp2p.Protocol.{Bytes, InnerKey, Header, Message}
use udp2p.Gossip.{GossipMessage}
use udp2p.Chat
use udp2p.Chat.{Chat, Event, GossipTurn}
use udp2p.Chat.Running.{Running, IsSound, Running-IsSound}
use udp2p.Tests.Instances.{formats, plain_map, take-append, drop-append}
use udp2p.Tests.Messages.{kad_formats}
use udp2p.Tests.Unary.{by_unary, unary}

abbrev said_write : GossipMessage → List ℕ
said_write m = length m.id ∷ m.sender.ip ∷ m.sender.port ∷ m.id ++ m.message_data

abbrev said_read : List ℕ → Option GossipMessage
said_read (len ∷ ip ∷ port ∷ rest) = some (record {
  id = take len rest;
  message_data = drop len rest;
  sender = record { ip = ip; port = port };
})
said_read _ = none

said_back : (m : GossipMessage) → said_read (said_write m) ≡ some m
said_back m =
    ap₂ (λ (i b : Bytes). some (record { id = i; message_data = b; sender = m.sender }))
      (take-append m.id m.message_data) (drop-append m.id m.message_data)

abbrev said : Codec GossipMessage
said = by_unary said_write said_read said_back

abbrev ids : ℕ → InnerKey
ids n = n ∷ []

abbrev own_key : Key
own_key = replicate 32 4

abbrev half : ℕ → ℕ
half n = n / 2

abbrev same_text : Key → Text
same_text key = key

-- The node as `main` leaves it: it knows itself.
abbrev own : PeerInfo
own = record {
  id = own_key;
  key = own_key;
  ip = 5;
  port = 30;
  address = record { ip = 5; port = 30 };
}

abbrev begun : Chat plain_map
begun = Chat.assemble plain_map formats kad_formats said ids half 0 30 own (record {
  tree = (0 ∷ [], record { nodes = (own_key, own) ∷ []; last_updated = 0 }) ∷ [];
  local_info = own;
})

begins :
    Chat.main plain_map formats kad_formats said ids same_text half 0 30 (some 5) own_key none
    ≡ ok begun
unfolding Chat.main udp2p.Node.Peer.new udp2p.Routing.new udp2p.Node.Key.get_prefix
    udp2p.Node.Key.get_binary udp2p.Node.Key.xor udp2p.Node.Key.byte_binary udp2p.Node.Peer.from_key
    udp2p.Transport.new udp2p.Handler.new udp2p.Gossip.new udp2p.Kad.new udp2p.Base.Dict.insert
    udp2p.Base.Dict.remove
begins = refl

-- "Hi" is typed.
abbrev line : Message
line = record {
  head = Header.gossip;
  msg = unary (
      said_write (record {
        id = 7 ∷ [];
        message_data = 72 ∷ 105 ∷ [];
        sender = record { ip = 0; port = 30 };
      }));
}

abbrev typed : Chat plain_map
typed = record begun {
  gossip = record begun.gossip { to_gossip_rx = (record { ip = 0; port = 30 }, line) ∷ [] };
}

types :
    Chat.step plain_map formats kad_formats said ids
      (Event.input_thread (7 ∷ []) (72 ∷ 105 ∷ []))
      begun
    ≡ ok typed
unfolding Chat.step Chat.assemble udp2p.Transport.new udp2p.GdUdp.new udp2p.Handler.new
    udp2p.Gossip.new udp2p.Kad.new
types = refl

abbrev listening : Chat plain_map
listening = record typed { gossip_turn = GossipTurn.incoming }

listens :
    Chat.step plain_map formats kad_formats said ids
      (Event.gossip_thread (λ n. 0) (λ n m. 0) 1_000 1_000)
      typed
    ≡ ok listening
unfolding Chat.step Chat.assemble udp2p.Gossip.new udp2p.Kad.new udp2p.Transport.new
    udp2p.Handler.new
listens = refl

abbrev taken : Chat plain_map
taken = record listening {
  gossip = record listening.gossip { to_gossip_rx = []; cache = (7 ∷ [], (line, 2_000)) ∷ [] };
  gossip_turn = GossipTurn.heartbeat;
}

takes :
    Chat.step plain_map formats kad_formats said ids
      (Event.gossip_thread (λ n. 0) (λ n m. 0) 2_000 2_000)
      listening
    ≡ ok taken
unfolding Chat.step udp2p.Base.Dict.get Chat.assemble udp2p.Gossip.new udp2p.Transport.new
    udp2p.GdUdp.new udp2p.Handler.new udp2p.Kad.new udp2p.Base.Dict.insert
takes = refl

-- At the heartbeat the node, which does not know its own public address as its own, sends the line
-- to itself.
abbrev spread : Chat plain_map
spread = record taken {
  transport = record taken.transport { om_rx = (own.address, line) ∷ [] };
  gossip = record taken.gossip { heartbeat = 300_000_000 };
  gossip_turn = GossipTurn.discovery;
}

spreads :
    Chat.step plain_map formats kad_formats said ids
      (Event.gossip_thread (λ n. 0) (λ n m. 0) 300_000_000 300_000_000)
      taken
    ≡ ok spread
unfolding Chat.step Chat.assemble udp2p.Gossip.new udp2p.Routing.get_closest_peers udp2p.Kad.new
    udp2p.Transport.new udp2p.Handler.new
spreads = refl

running : Running plain_map formats kad_formats said ids spread
running =
    Running.stepped _ taken spread
      (Running.stepped _ listening taken
        (Running.stepped _ typed listening
          (Running.stepped _ begun typed
            (Running.started same_text half 0 30 (some 5) own_key none begun begins) types)
          listens)
        takes)
      spreads

Running-IsSound_example : IsSound plain_map formats kad_formats said ids spread
Running-IsSound_example = Running-IsSound plain_map formats kad_formats said ids spread running
