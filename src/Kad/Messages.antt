-- ===== src/Kad/Messages.antt =====
-- The messages that src/discovery/kad.rs prepares, as their receivers read them.
use udp2p.Base.{
  ℕ, ◌+◌, ◌≡◌, sym, subst, ap, ap₂, List, [], ◌∷◌, map, none, some, ok, ◌>>=◌, >>=-eq-ok,
  unwrap-eq-ok,
}
use udp2p.Base.Codec.{Codec}
use udp2p.Node.Peer.{PeerInfo}
use udp2p.Protocol.{Bytes, InnerKey, Header, Message, KadMessage}
use udp2p.Routing.Linked.{LinkedMap}
use udp2p.Kad.{
  Rpc, Req, Resp, KadFormats, Kademlia, written, write_all, request_message, response_message,
  prepare_request, prepare_new_peer_message, prepare_find_node_message,
  prepare_nodes_response_message,
}

-- What was written is read back.
pub written-from_bytes :
    {A : Type 0} (c : Codec A) (a : A) (bytes : Bytes)
    → written c a ≡ ok bytes
    → c.from_bytes bytes ≡ some a
unfolding written
written-from_bytes c a bytes e = c.from_bytes-as_bytes a bytes (unwrap-eq-ok (c.as_bytes a) e)

write_all-from_bytes :
    {A : Type 0} (c : Codec A) (as_ : List A) (texts : List Bytes)
    → write_all c as_ ≡ ok texts
    → map c.from_bytes texts ≡ map some as_
unfolding write_all
write_all-from_bytes c [] texts e = let same : [] ≡ texts = cc e in ap (map c.from_bytes) (sym same)
write_all-from_bytes c (a ∷ as_) texts e =
    let (bytes, wrote, e1) = >>=-eq-ok (written c a) _ e in
    let (rest, others, r) = >>=-eq-ok (write_all c as_) _ e1 in
    let same : bytes ∷ rest ≡ texts = cc r in
    subst (λ t. map c.from_bytes t ≡ some a ∷ map some as_) same
      (ap₂ ◌∷◌ (written-from_bytes c a bytes wrote) (write_all-from_bytes c as_ rest others))

-- A message that is read as a request by `sender` with the call `rpc`.
abbrev pub IsRequest : KadFormats → PeerInfo → Rpc → Message → Type 0
IsRequest f sender rpc message =
    (bytes : Bytes) × (req : Req) × (message.head ≡ Header.request)
    × (f.kad.from_bytes message.msg ≡ some (KadMessage.request bytes))
    × (f.req.from_bytes bytes ≡ some req)
    × (f.peer.from_bytes req.sender ≡ some sender)
    × (f.rpc.from_bytes req.payload ≡ some rpc)

-- A message that is read as a response to `req` with the call `rpc`.
abbrev pub IsResponse : KadFormats → Req → Rpc → Message → Type 0
IsResponse f req rpc message =
    (bytes : Bytes) × (resp : Resp) × (message.head ≡ Header.response)
    × (f.kad.from_bytes message.msg ≡ some (KadMessage.response bytes))
    × (f.resp.from_bytes bytes ≡ some resp)
    × (f.req.from_bytes resp.request ≡ some req)
    × (f.rpc.from_bytes resp.payload ≡ some rpc)

module _ (l : LinkedMap) (f : KadFormats) (rand : ℕ → InnerKey) (now : ℕ) where
  request_message-read :
      (req : Req) (message : Message)
      → request_message l f rand now req ≡ ok message
      → (bytes : Bytes) × (message.head ≡ Header.request)
        × (f.kad.from_bytes message.msg ≡ some (KadMessage.request bytes))
        × (f.req.from_bytes bytes ≡ some req)
  unfolding request_message
  request_message-read req message e =
      let (text, chain, r) =
        >>=-eq-ok (written f.req req >>= (λ bytes. written f.kad (KadMessage.request bytes))) _ e in
      let (bytes, one, two) =
        >>=-eq-ok (written f.req req) (λ bytes. written f.kad (KadMessage.request bytes)) chain in
      let same : record { head = Header.request; msg = text } ≡ message = cc r in
      (
        bytes,
        sym (ap (λ (m : Message). m.head) same),
        subst (λ (m : Message). f.kad.from_bytes m.msg ≡ some (KadMessage.request bytes)) same
            (written-from_bytes f.kad (KadMessage.request bytes) text two),
        written-from_bytes f.req req bytes one,
      )

  response_message-read :
      (resp : Resp) (message : Message)
      → response_message l f rand now resp ≡ ok message
      → (bytes : Bytes) × (message.head ≡ Header.response)
        × (f.kad.from_bytes message.msg ≡ some (KadMessage.response bytes))
        × (f.resp.from_bytes bytes ≡ some resp)
  unfolding response_message
  response_message-read resp message e =
      let (text, chain, r) =
        >>=-eq-ok (written f.resp resp >>= (λ bytes. written f.kad (KadMessage.response bytes))) _
          e in
      let (bytes, one, two) =
        >>=-eq-ok (written f.resp resp) (λ bytes. written f.kad (KadMessage.response bytes))
          chain in
      let same : record { head = Header.response; msg = text } ≡ message = cc r in
      (
        bytes,
        sym (ap (λ (m : Message). m.head) same),
        subst (λ (m : Message). f.kad.from_bytes m.msg ≡ some (KadMessage.response bytes)) same
            (written-from_bytes f.kad (KadMessage.response bytes) text two),
        written-from_bytes f.resp resp bytes one,
      )

  prepare_request-IsRequest :
      (rpc : Rpc) (self : Kademlia l) (r : InnerKey × Message × Kademlia l)
      → prepare_request l f rand now rpc self ≡ ok r
      → IsRequest f self.routing_table.local_info rpc r.1
        × (record self { drawn = self.drawn + 1 } ≡ r.2)
  unfolding prepare_request
  prepare_request-IsRequest rpc self r e =
      let (sender, one, e1) = >>=-eq-ok (written f.peer self.routing_table.local_info) _ e in
      let (payload, two, e2) = >>=-eq-ok (written f.rpc rpc) _ e1 in
      let req : Req = record { id = rand self.drawn; sender = sender; payload = payload } in
      let (message, three, e3) = >>=-eq-ok (request_message l f rand now req) _ e2 in
      let (bytes, head, read, read_req) = request_message-read req message three in
      let given : message ≡ r.1 = cc e3 in
      (
        subst (IsRequest f self.routing_table.local_info rpc) given (
          bytes,
          req,
          head,
          read,
          read_req,
          written-from_bytes f.peer self.routing_table.local_info sender one,
          written-from_bytes f.rpc rpc payload two,
        ),
        cc e3,
      )

  pub new_peer_message :
      (node : PeerInfo) (self : Kademlia l) (r : InnerKey × Message × Kademlia l)
      → prepare_new_peer_message l f rand now node self ≡ ok r
      → (bytes : Bytes) × (f.peer.from_bytes bytes ≡ some node)
        × IsRequest f self.routing_table.local_info (Rpc.new_peer bytes) r.1
        × (record self { drawn = self.drawn + 1 } ≡ r.2)
  unfolding prepare_new_peer_message
  new_peer_message node self r e =
      let (bytes, wrote, rest) = >>=-eq-ok (written f.peer node) _ e in
      let (asked, drawn) = prepare_request-IsRequest (Rpc.new_peer bytes) self r rest in
      (bytes, written-from_bytes f.peer node bytes wrote, asked, drawn)

  pub find_node_message :
      (node : PeerInfo) (self : Kademlia l) (r : InnerKey × Message × Kademlia l)
      → prepare_find_node_message l f rand now node none self ≡ ok r
      → (bytes : Bytes) × (f.peer.from_bytes bytes ≡ some node)
        × IsRequest f self.routing_table.local_info (Rpc.find_node bytes) r.1
        × (record self { drawn = self.drawn + 1 } ≡ r.2)
  unfolding prepare_find_node_message
  find_node_message node self r e =
      let (bytes, wrote, rest) = >>=-eq-ok (written f.peer node) _ e in
      let (asked, drawn) = prepare_request-IsRequest (Rpc.find_node bytes) self r rest in
      (bytes, written-from_bytes f.peer node bytes wrote, asked, drawn)

  pub nodes_message :
      (req : Req) (closest : List PeerInfo) (self : Kademlia l) (message : Message)
      → prepare_nodes_response_message l f rand now req closest self ≡ ok message
      → (texts : List Bytes) × (map f.peer.from_bytes texts ≡ map some closest)
        × IsResponse f req (Rpc.nodes texts) message
  unfolding prepare_nodes_response_message
  nodes_message req closest self message e =
      let (texts, one, e1) = >>=-eq-ok (write_all f.peer closest) _ e in
      let (request, two, e2) = >>=-eq-ok (written f.req req) _ e1 in
      let (receiver, three, e3) = >>=-eq-ok (written f.peer self.routing_table.local_info) _ e2 in
      let (payload, four, e4) = >>=-eq-ok (written f.rpc (Rpc.nodes texts)) _ e3 in
      let resp : Resp = record { request = request; receiver = receiver; payload = payload } in
      let (bytes, head, read, read_resp) = response_message-read resp message e4 in
      (
        texts,
        write_all-from_bytes f.peer closest texts one,
        (
          bytes,
          resp,
          head,
          read,
          read_resp,
          written-from_bytes f.req req request two,
          written-from_bytes f.rpc (Rpc.nodes texts) payload four,
        ),
      )
