-- ===== src/Lib.antt =====
-- udp2p, a library for peer-to-peer networks over UDP: reliable datagrams, a Kademlia table of
-- peers for discovery, and gossip. This development models its Rust sources and relates their
-- operations.
--
-- The parts and how they meet. A message is cut into numbered packets by `packetize`
-- (src/protocol/protocol.rs: Protocol). The transport thread takes outgoing messages from a
-- channel (src/transport/transport.rs: Transport) and hands their packets to `GDUdp`, which keeps
-- each in an outbox and sends it again until it is acknowledged (src/gd_udp/gd_udp.rs: GdUdp).
-- What arrives goes through `MessageHandler` (src/transport/handler.rs: Handler), which
-- acknowledges packets, puts messages together and hands them on, by their header, to the
-- discovery service (src/discovery/kad.rs and src/discovery/protocol.rs: Kad), to the gossip
-- service (src/gossip/gossip.rs: Gossip) or, for an acknowledgement, back to the transport.
-- Discovery keeps the peers in buckets by the XOR distance of their keys
-- (src/discovery/routing.rs: Routing; src/node: Node), and gossip asks it whom to send to. The
-- example application (examples/chat.rs: Chat) makes a node of these parts, their channels and its
-- threads; Network follows what one node sends to another.
--
-- How the code is rendered. A struct is a record of the same field names and a method a function
-- of the same name that takes the state as its last argument and returns the new one. Code that
-- may panic (an unwrap, an index, a slice, an overflow) returns `Outcome`, of Base/Panics. Numbers
-- are natural numbers, with the width written out where the code depends on it. `HashMap` and
-- `HashSet` are lists of entries (Base/Dict, Base/Sets) in an order that stands for that of the
-- iteration, which the source leaves open. A channel is the list of what was sent on it or waits
-- in it; in Chat, where the parts meet, a step moves what was sent to the receiver. What goes to
-- the socket is noted in a log. Clocks and random draws are arguments. Two methods of one file
-- that share a name with those of another part are told apart by their modules.
--
-- Parameters. serde_json and the crate hex are records with the law of the round trip
-- (Base/Codec), the text of a socket address another (Node/Address); the linked map of the crate
-- ritelinked is a record of its operations and of what its documentation says of their order
-- (Routing/Linked); the floating-point factor of gossip is a function. Tests/Instances fills each
-- of them in.
--
-- Bounds. `update_peer` and the pair `handle_request` and `handle_response` are recursive in the
-- source. Here the first has 257 calls, less the depth at which it starts, since a key's text has
-- at most 256 characters and a longer prefix panics; the second has two, since bytes have one
-- payload however they are read. Routing/Update and Kad/Depth relate both to the source's
-- recursion.
--
-- Not modelled: socket addresses of IP version 6 (an address is a number and a port; the nodes of
-- the crate bind and name version 4 addresses); the errors of sockets and of closed channels,
-- which the code logs or stops on; the time to live that is set on packets; logging; the traits of
-- src/traits and src/record, which have no code; the macro of src/protocol/protocol.rs that
-- nothing uses; methods with empty bodies.
pub mod Base
pub mod Node
pub mod Protocol
pub mod Handler
pub mod GdUdp
pub mod Routing
pub mod Transport
pub mod Network
pub mod Kad
pub mod Gossip
pub mod Chat
pub mod Tests
