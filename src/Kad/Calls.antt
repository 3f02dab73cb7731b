-- ===== src/Kad/Calls.antt =====
-- src/discovery/protocol.rs: the remote calls of the discovery service, and the formats they are
-- written in.
use udp2p.Base.{List, Option}
use udp2p.Base.Codec.{Codec}
use udp2p.Node.Peer.{PeerInfo}
use udp2p.Protocol.{Bytes, InnerKey, KadMessage}

pub data Rpc : Type 0 where
  ping : Rpc
  new_peer : Bytes → Rpc
  store : Bytes → Bytes → Rpc
  find_node : Bytes → Rpc
  find_value : Bytes → Rpc
  nodes : List Bytes → Rpc
  value : Bytes → Rpc
  saved : Bytes → Rpc
  pong : Bytes → Rpc

pub record Req : Type 0 where
  pub id : InnerKey
  pub sender : Bytes
  pub payload : Bytes

pub record Resp : Type 0 where
  pub request : Bytes
  pub receiver : Bytes
  pub payload : Bytes

pub record KadFormats : Type 0 where
  pub peer : Codec PeerInfo
  pub rpc : Codec Rpc
  pub req : Codec Req
  pub resp : Codec Resp
  pub kad : Codec KadMessage

-- `Req::to_components` and `Resp::to_components`.
abbrev pub req_to_components : KadFormats → Req → InnerKey × Option PeerInfo × Option Rpc
req_to_components f req = (req.id, f.peer.from_bytes req.sender, f.rpc.from_bytes req.payload)

abbrev pub resp_to_components : KadFormats → Resp → Option Req × Option PeerInfo × Option Rpc
resp_to_components f resp =
    (f.req.from_bytes resp.request, f.peer.from_bytes resp.receiver, f.rpc.from_bytes resp.payload)
