-- ===== src/Node/Address.antt =====
-- The text of a socket address: `Display` and `FromStr` of `std::net::SocketAddr`.
use udp2p.Base.{◌≡◌, Option, some}
use udp2p.Node.Peer.{Text, SocketAddr}

-- What is printed is parsed back.
pub record AddressFormat : Type 0 where
  pub to_string : SocketAddr → Text
  pub parse : Text → Option SocketAddr
  pub parse-to_string : (a : SocketAddr) → parse (to_string a) ≡ some a
