-- ===== src/Node.antt =====
-- src/node: the identity of a peer.
pub mod Key
pub mod Peer
pub mod Address
pub mod PeerId
