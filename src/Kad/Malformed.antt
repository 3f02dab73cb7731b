-- ===== src/Kad/Malformed.antt =====
-- Messages on which src/discovery/kad.rs panics.
use udp2p.Base.{ℕ, ◌≡◌, refl, ◌⊎◌, inl, inr, none, some, panic, >>=-panic, unwrap}
use udp2p.Protocol.{Bytes, InnerKey, KadMessage}
use udp2p.Routing.Linked.{LinkedMap}
use udp2p.Kad.{
  Req, Resp, KadFormats, Kademlia, written, add_peer, request_body, response_body, handle,
  handle_message,
}

-- A request with no readable sender or call, or a response to a request with no readable call.
abbrev pub IsMalformed : KadFormats → KadMessage → Type 0
IsMalformed f (KadMessage.request bytes) =
    (request : Req) × (f.req.from_bytes bytes ≡ some request)
    × ((f.peer.from_bytes request.sender ≡ none) ⊎ (f.rpc.from_bytes request.payload ≡ none))
IsMalformed f (KadMessage.response bytes) =
    (answer : Resp) × (request : Req) × (f.resp.from_bytes bytes ≡ some answer)
    × (f.req.from_bytes answer.request ≡ some request)
    × (f.rpc.from_bytes answer.payload ≡ none)
IsMalformed f KadMessage.kill = ⊥

module _ (l : LinkedMap) (f : KadFormats) (rand : ℕ → InnerKey) (now : ℕ) where
  request_panics :
      (bytes : Bytes) (request : Req) (self : Kademlia l)
      → f.req.from_bytes bytes ≡ some request
      → (f.peer.from_bytes request.sender ≡ none) ⊎ (f.rpc.from_bytes request.payload ≡ none)
      → handle_message l f rand now (KadMessage.request bytes) self ≡ panic
  unfolding handle_message handle request_body
  request_panics bytes request self e (inl nobody) = rw (e, request_body, nobody) refl
  request_panics bytes request self e (inr nothing) =
      rw (e, request_body)
        (>>=-panic (unwrap (f.peer.from_bytes request.sender)) _ (λ sender.
          >>=-panic (written f.peer sender) _
            (λ own. >>=-panic (add_peer l f rand now own self) _ (λ self'. rw nothing refl))))

  response_panics :
      (bytes : Bytes) (answer : Resp) (request : Req) (self : Kademlia l)
      → f.resp.from_bytes bytes ≡ some answer
      → f.req.from_bytes answer.request ≡ some request
      → f.rpc.from_bytes answer.payload ≡ none
      → handle_message l f rand now (KadMessage.response bytes) self ≡ panic
  unfolding handle_message handle response_body
  response_panics bytes answer request self e e' nothing = rw (e, response_body, e', nothing) refl

  -- A message that can be read on the outside and not on the inside, a request with no readable
  -- sender or call or a response to a request with no readable call, panics the discovery service.
  pub handle_message_panics :
      (message : KadMessage) (self : Kademlia l)
      → IsMalformed f message
      → handle_message l f rand now message self ≡ panic
  handle_message_panics (KadMessage.request bytes) self (request, read, broken) =
      request_panics bytes request self read broken
  handle_message_panics (KadMessage.response bytes) self (answer, request, read, read', broken) =
      response_panics bytes answer request self read read' broken
  handle_message_panics KadMessage.kill self broken = absurd broken
