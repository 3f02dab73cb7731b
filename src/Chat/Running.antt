-- ===== src/Chat/Running.antt =====
-- The states that a node of examples/chat.rs can reach, and what holds in all of them.
use udp2p.Base.{
  ℕ, ◌≡◌, refl, sym, subst, ◌∙◌, List, [], ◌∷◌, ◌++◌, Option, none, some, Option-cases, List-cases,
  Outcome, ok, >>=-eq-ok, unwrap, inl, inr,
}
use udp2p.Base.Dict.{IsDistinct}
use udp2p.Base.Codec.{Codec}
use udp2p.Node.Key.{Key}
use udp2p.Node.Peer
use udp2p.Node.Peer.{Text, SocketAddr, Text-discrete, PeerInfo, from_key}
use udp2p.Protocol.{Bytes, InnerKey, Header}
use udp2p.Handler.{Formats, recv_msg}
use udp2p.GdUdp
use udp2p.Transport
use udp2p.Transport.{Transport, incoming_ack, outgoing_msg, check_time_elapsed}
use udp2p.Transport.Keeps.{IsOwn, incoming_ack-IsOwn, outgoing_msg-IsOwn, check_time_elapsed-IsOwn}
use udp2p.Routing
use udp2p.Routing.Linked.{LinkedMap}
use udp2p.Routing.Invariant.{IsTable, new-IsTable}
use udp2p.Kad
use udp2p.Kad.{KadFormats, Kademlia, handle_message, bootstrap, add_peer}
use udp2p.Kad.Keeps.{handle_message-IsTable, add_peer-Keeps, bootstrap-Keeps}
use udp2p.Gossip
use udp2p.Gossip.{GossipMessage, GossipService, get_pub_ip}
use udp2p.Gossip.Keeps.{IsSame, recv-IsSame, gossip-IsSame}
use udp2p.Chat.{
  Chat, Event, TransportTurn, GossipTurn, pour, transport_at, handler_call, input_call, shown,
  gossip_at, print_call, call, step, assemble, node, add_own, dial, main,
}

module _ (l : LinkedMap) (f : Formats) (k : KadFormats) (g : Codec GossipMessage)
    (rand : ℕ → InnerKey) where
  pub data Running : Chat l → Type 0 where
    started :
        (digest : Key → Text) (factor : ℕ → ℕ) (now port : ℕ) (pub_ip : Option ℕ) (key : Key)
        (to_dial : Option Text) (self : Chat l)
        → main l f k g rand digest factor now port pub_ip key to_dial ≡ ok self
        → Running self
    stepped :
        (event : Event) (self self' : Chat l)
        → Running self
        → step l f k g rand event self ≡ ok self'
        → Running self'

  -- The parts of a node stand as they should, and agree on its addresses.
  abbrev pub IsSound : Chat l → Type 0
  IsSound self =
      IsTable l self.gossip.kad.routing_table
      × IsOwn self.info.address self.transport.gd_udp
      × (self.gossip.address ≡ self.addr)
      × (self.gossip.public_ip ≡ self.info.address)
      × IsDistinct Text-discrete self.gossip.cache

  abbrev Keeps : (Chat l → Outcome (Chat l)) → Type 0
  Keeps m = (self self' : Chat l) → IsSound self → m self ≡ ok self' → IsSound self'

  recv-IsTable :
      (now : ℕ) (self self' : Kademlia l)
      → IsTable l self.routing_table
      → Kad.recv l k rand now self ≡ ok self'
      → IsTable l self'.routing_table
  unfolding Kad.recv
  recv-IsTable now self self' v e = elim (List-cases self.from_transport) [
    | inl empty ↦
        let made : ok self ≡ ok self' = rw (empty, Kad.recv) at e in
        let same : self ≡ self' = cc made in
        subst (λ (s : Kademlia l). IsTable l s.routing_table) same v
    | inr ((src, message), rest, queue) ↦
        handle_message-IsTable l k rand now message (record self { from_transport = rest }) self' v
          (rw (queue, Kad.recv) at e)
  ]

  -- Another transport in a sound node.
  with_transport :
      (self self' : Chat l) (t : Transport) (turn : TransportTurn)
      → IsSound self
      → IsOwn self.info.address t.gd_udp
      → record self { transport = t; transport_turn = turn } ≡ self'
      → IsSound self'
  with_transport self self' t turn v own e = subst IsSound e (v.0, own, v.2, v.3, v.4)

  transport_at-Keeps :
      (turn : TransportTurn) (key : InnerKey) (now later : ℕ)
      → Keeps (transport_at l f k g rand turn key now later)
  unfolding transport_at
  transport_at-Keeps TransportTurn.acknowledgements key now later = λ self self' v e.
      let (t, taken, r) = >>=-eq-ok (incoming_ack f self.transport) _ e in
      with_transport self self' t TransportTurn.messages v
        (incoming_ack-IsOwn f self.info.address self.transport t v.1 taken) (cc r)
  transport_at-Keeps TransportTurn.messages key now later = λ self self' v e.
      let (t, sent, r) = >>=-eq-ok (outgoing_msg f key self.transport) _ e in
      with_transport self self' t TransportTurn.timer v
        (outgoing_msg-IsOwn f self.info.address key self.transport t v.1 sent) (cc r)
  transport_at-Keeps TransportTurn.timer key now later = λ self self' v e.
      with_transport self self' (check_time_elapsed f now later self.transport)
        TransportTurn.acknowledgements v
        (check_time_elapsed-IsOwn f self.info.address now later self.transport v.1) (cc e)

  -- Another gossip service in a sound node.
  with_gossip :
      (self self' : Chat l) (gossip : GossipService l) (turn : GossipTurn)
      (chat_rx : List GossipMessage)
      → IsSound self
      → IsTable l gossip.kad.routing_table
      → gossip.address ≡ self.gossip.address
      → gossip.public_ip ≡ self.gossip.public_ip
      → IsDistinct Text-discrete gossip.cache
      → record self { gossip = gossip; gossip_turn = turn; chat_rx = chat_rx } ≡ self'
      → IsSound self'
  with_gossip self self' gossip turn chat_rx v table own public once e =
      subst IsSound e (table, v.1, own ∙ v.2, public ∙ v.3, once)

  gossip_same :
      (self self' : Chat l) (gossip : GossipService l) (turn : GossipTurn)
      (chat_rx : List GossipMessage)
      → IsSound self
      → IsSame l self.gossip gossip
      → record self { gossip = gossip; gossip_turn = turn; chat_rx = chat_rx } ≡ self'
      → IsSound self'
  gossip_same self self' gossip turn chat_rx v same e =
      with_gossip self self' gossip turn chat_rx v
        (subst (λ (kad : Kademlia l). IsTable l kad.routing_table) (sym same.2) v.0) same.0 same.1
        (same.4 v.4) e

  gossip_at-Keeps :
      (turn : GossipTurn) (draw : ℕ → ℕ) (draws : ℕ → ℕ → ℕ) (now later : ℕ)
      → Keeps (gossip_at l f k g rand turn draw draws now later)
  unfolding gossip_at
  gossip_at-Keeps GossipTurn.discovery draw draws now later = λ self self' v e.
      let (kad, taken, r) = >>=-eq-ok (Kad.recv l k rand now self.gossip.kad) _ e in
      with_gossip self self' (record self.gossip { kad = kad }) GossipTurn.incoming self.chat_rx v
        (recv-IsTable now self.gossip.kad kad v.0 taken) refl refl v.4 (cc r)
  gossip_at-Keeps GossipTurn.incoming draw draws now later = λ self self' v e.
      let (result, taken, r) = >>=-eq-ok (Gossip.recv l g draw now self.gossip) _ e in
      gossip_same self self' result.0 GossipTurn.heartbeat
        (shown l f k g rand result.1 self.chat_rx) v
        (recv-IsSame l g draw now self.gossip result taken) (cc r)
  gossip_at-Keeps GossipTurn.heartbeat draw draws now later = λ self self' v e.
      let (gossip, spread, r) = >>=-eq-ok (Gossip.gossip l g draws now later self.gossip) _ e in
      gossip_same self self' gossip GossipTurn.discovery self.chat_rx v
        (gossip-IsSame l g draws now later self.gossip gossip spread) (cc r)

  handler_call-Keeps :
      (received : Option (Bytes × ℕ × SocketAddr)) → Keeps (handler_call l f k g rand received)
  unfolding handler_call
  handler_call-Keeps received self self' v e =
      let (handler, taken, r) =
        >>=-eq-ok (recv_msg f received (get_pub_ip l self.gossip) self.message_handler) _ e in
      let same : record self { message_handler = handler } ≡ self' = cc r in subst IsSound same v

  input_call-Keeps : (key : InnerKey) (line : Bytes) → Keeps (input_call l f k g rand key line)
  unfolding input_call
  input_call-Keeps key line self self' v e =
      let msg : GossipMessage = record { id = key; message_data = line; sender = self.addr } in
      let (bytes, wrote, r) = >>=-eq-ok (unwrap (g.as_bytes msg)) _ e in
      let same : record self {
        gossip = record self.gossip {
          to_gossip_rx =
              self.gossip.to_gossip_rx
              ++ (self.addr, record { head = Header.gossip; msg = bytes }) ∷ [];
        };
      }
          ≡ self' =
        cc r in
      subst IsSound same v

  print_call-Keeps : (self : Chat l) → IsSound self → IsSound (print_call l f k g rand self)
  unfolding print_call
  print_call-Keeps self v = elim (List-cases self.chat_rx) [
    | inl empty ↦ rw (empty, print_call) v
    | inr (message, rest, queue) ↦ rw (queue, print_call) v
  ]

  call-Keeps : (event : Event) → Keeps (call l f k g rand event)
  unfolding call
  call-Keeps (Event.transport_thread key now later) =
      λ self self' v e. transport_at-Keeps self.transport_turn key now later self self' v e
  call-Keeps (Event.handler_thread received) = handler_call-Keeps received
  call-Keeps (Event.input_thread key line) = input_call-Keeps key line
  call-Keeps (Event.gossip_thread draw draws now later) =
      λ self self' v e. gossip_at-Keeps self.gossip_turn draw draws now later self self' v e
  call-Keeps Event.print_thread = λ self self' v e.
      let same : print_call l f k g rand self ≡ self' = cc e in
      subst IsSound same (print_call-Keeps self v)

  pour-IsSound : (self : Chat l) → IsSound self → IsSound (pour self)
  unfolding pour
  pour-IsSound self v = v

  step-Keeps : (event : Event) → Keeps (step l f k g rand event)
  unfolding step
  step-Keeps event self self' v e =
      let (after, called, r) = >>=-eq-ok (call l f k g rand event self) _ e in
      let same : pour after ≡ self' = cc r in
      subst IsSound same (pour-IsSound after (call-Keeps event self after v called))

  node-IsSound :
      (digest : Key → Text) (factor : ℕ → ℕ) (now port : ℕ) (pub_ip : Option ℕ) (key : Key)
      (self : Chat l)
      → node l f k g rand digest factor now port pub_ip key ≡ ok self
      → IsSound self
  unfolding node assemble Transport.new GdUdp.new Gossip.new Kad.new
  node-IsSound digest factor now port pub_ip key self e =
      let (ip, known, e1) = >>=-eq-ok (unwrap pub_ip) _ e in
      let (info, made, e2) = >>=-eq-ok (Peer.new (from_key digest key) key ip port) _ e1 in
      let (table, built, r) = >>=-eq-ok (Routing.new l now info) _ e2 in
      let same : assemble l f k g rand factor now port info table ≡ self = cc r in
      subst IsSound same (new-IsTable l now info table built, (tt, refl), refl, refl, tt)

  dial-IsTable :
      (now : ℕ) (to_dial : Option Text) (self : Chat l) (kad : Kademlia l)
      → IsTable l self.gossip.kad.routing_table
      → dial l f k g rand now to_dial self ≡ ok kad
      → IsTable l kad.routing_table
  unfolding dial
  dial-IsTable now none self kad v e =
      let same : self.gossip.kad ≡ kad = cc e in
      subst (λ (s : Kademlia l). IsTable l s.routing_table) same v
  dial-IsTable now (some to_dial) self kad v e =
      let (address, parsed, rest) = >>=-eq-ok (unwrap (f.address.parse to_dial)) _ e in
      bootstrap-Keeps l k rand now address self.gossip.kad v kad rest

  add_own-IsTable :
      (now : ℕ) (info : PeerInfo) (self kad : Kademlia l)
      → IsTable l self.routing_table
      → add_own l f k g rand now info self ≡ ok kad
      → IsTable l kad.routing_table
  unfolding add_own
  add_own-IsTable now info self kad v e = elim (Option-cases (k.peer.as_bytes info)) [
    | inl unwritten ↦
        let made : ok self ≡ ok kad = rw (unwritten, add_own) at e in
        let same : self ≡ kad = cc made in
        subst (λ (s : Kademlia l). IsTable l s.routing_table) same v
    | inr (bytes, wrote) ↦ add_peer-Keeps l k rand now bytes self v kad (rw (wrote, add_own) at e)
  ]

  main-IsSound :
      (digest : Key → Text) (factor : ℕ → ℕ) (now port : ℕ) (pub_ip : Option ℕ) (key : Key)
      (to_dial : Option Text) (self : Chat l)
      → main l f k g rand digest factor now port pub_ip key to_dial ≡ ok self
      → IsSound self
  unfolding main
  main-IsSound digest factor now port pub_ip key to_dial self e =
      let (begun, made, e1) = >>=-eq-ok (node l f k g rand digest factor now port pub_ip key) _ e in
      let (dialled, called, e2) = >>=-eq-ok (dial l f k g rand now to_dial begun) _ e1 in
      let (kad, added, r) = >>=-eq-ok (add_own l f k g rand now begun.info dialled) _ e2 in
      let sound = node-IsSound digest factor now port pub_ip key begun made in
      let same : pour (record begun { gossip = record begun.gossip { kad = kad } }) ≡ self = cc r in
      subst IsSound same (
        pour-IsSound (record begun { gossip = record begun.gossip { kad = kad } })
          (
            add_own-IsTable now begun.info dialled kad
                (dial-IsTable now to_dial begun dialled sound.0 called) added,
            sound.1,
            sound.2,
            sound.3,
            sound.4,
          ))

  -- In every state that the node of the example application reaches, whatever its threads read and
  -- in whatever order they take their turns: the routing table is not empty, no bucket holds more
  -- than 30 peers and every peer lies under a prefix of its distance; the outbox files each packet
  -- under its own id and number; the transport and the gossip service have this node's public
  -- address, and the gossip service takes the address that the socket is bound to for its own, and
  -- has each key of its cache once.
  pub Running-IsSound : (self : Chat l) → Running self → IsSound self
  Running-IsSound self (started digest factor now port pub_ip key to_dial s e) =
      main-IsSound digest factor now port pub_ip key to_dial s e
  Running-IsSound self (stepped event before s r e) =
      step-Keeps event before s (Running-IsSound before r) e
