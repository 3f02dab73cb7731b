-- ===== src/Kad/Depth.antt =====
-- How deep `handle_request` and `handle_response` of src/discovery/kad.rs call each other.
use udp2p.Base.{
  ℕ, suc, ◌≡◌, refl, sym, ap, ◌∙◌, some, Option-cases, Bool, true, false, Outcome, >>=-congr,
  unwrap, unwrap-eq-ok, inl, inr,
}
use udp2p.Node.Peer.{PeerInfo}
use udp2p.Protocol.{Bytes, InnerKey}
use udp2p.Routing.Linked.{LinkedMap}
use udp2p.Kad.{
  Rpc, Req, Resp, KadFormats, Kademlia, Side, requests, responses, match_request, request_body,
  match_response, response_body, handle, written, add_peer,
}

-- serde_json reads a field by its name, so bytes that are read as a `Req` and as a `Resp` have one
-- `payload`.
abbrev pub HasOnePayload : KadFormats → Type 0
HasOnePayload f =
    (bytes : Bytes) (req : Req) (resp : Resp)
    → f.req.from_bytes bytes ≡ some req
    → f.resp.from_bytes bytes ≡ some resp
    → req.payload ≡ resp.payload

-- The calls that `handle_response` answers itself.
abbrev is_answer : Rpc → Bool
is_answer (Rpc.nodes peers) = true
is_answer (Rpc.value v) = true
is_answer (Rpc.saved k) = true
is_answer (Rpc.pong peer) = true
is_answer (Rpc.find_node node) = false
is_answer (Rpc.new_peer peer) = false
is_answer (Rpc.find_value v) = false
is_answer (Rpc.store k v) = false
is_answer Rpc.ping = false

module _ (l : LinkedMap) (f : KadFormats) (rand : ℕ → InnerKey) (now : ℕ) where
  abbrev Next : Type 0
  Next = Bytes → Kademlia l → Outcome (Kademlia l)

  match_response-next :
      (one other : Next) (bytes : Bytes) (rpc : Rpc) (self : Kademlia l)
      → (is_answer rpc ≡ false → one bytes self ≡ other bytes self)
      → match_response l f rand now one bytes rpc self
        ≡ match_response l f rand now other bytes rpc self
  unfolding match_response
  match_response-next one other bytes (Rpc.nodes peers) self h = refl
  match_response-next one other bytes (Rpc.value v) self h = refl
  match_response-next one other bytes (Rpc.saved k) self h = refl
  match_response-next one other bytes (Rpc.pong peer) self h = refl
  match_response-next one other bytes (Rpc.find_node node) self h = h refl
  match_response-next one other bytes (Rpc.new_peer peer) self h = h refl
  match_response-next one other bytes (Rpc.find_value v) self h = h refl
  match_response-next one other bytes (Rpc.store k v) self h = h refl
  match_response-next one other bytes Rpc.ping self h = h refl

  match_request-next :
      (one other : Next) (bytes : Bytes) (request : Req) (sender : PeerInfo) (rpc : Rpc)
      (self : Kademlia l)
      → (is_answer rpc ≡ true → one bytes self ≡ other bytes self)
      → match_request l f rand now one bytes request sender rpc self
        ≡ match_request l f rand now other bytes request sender rpc self
  unfolding match_request
  match_request-next one other bytes request sender (Rpc.nodes peers) self h = h refl
  match_request-next one other bytes request sender (Rpc.value v) self h = h refl
  match_request-next one other bytes request sender (Rpc.saved k) self h = h refl
  match_request-next one other bytes request sender (Rpc.pong peer) self h = h refl
  match_request-next one other bytes request sender (Rpc.find_node node) self h = refl
  match_request-next one other bytes request sender (Rpc.new_peer peer) self h = refl
  match_request-next one other bytes request sender (Rpc.find_value v) self h = refl
  match_request-next one other bytes request sender (Rpc.store k v) self h = refl
  match_request-next one other bytes request sender Rpc.ping self h = refl

  response_body-next :
      (one other : Next) (bytes : Bytes) (self : Kademlia l)
      → ((rm : Resp) (rpc : Rpc)
          → f.resp.from_bytes bytes ≡ some rm
          → f.rpc.from_bytes rm.payload ≡ some rpc
          → is_answer rpc ≡ false
          → one bytes self ≡ other bytes self)
      → response_body l f rand now one bytes self ≡ response_body l f rand now other bytes self
  unfolding response_body
  response_body-next one other bytes self h = elim (Option-cases (f.resp.from_bytes bytes)) [
    | inl e ↦ rw (e, response_body)
    | inr (rm, e) ↦ elim (Option-cases (f.req.from_bytes rm.request)) [
      | inl e' ↦ rw (e, response_body, e')
      | inr (request, e') ↦
          rw (e, response_body, e')
            (>>=-congr (unwrap (f.rpc.from_bytes rm.payload)) (λ rpc read.
              match_response-next one other bytes rpc self
                (h rm rpc e (unwrap-eq-ok (f.rpc.from_bytes rm.payload) read))))
    ]
  ]

  request_body-next :
      (one other : Next) (bytes : Bytes) (self : Kademlia l)
      → ((request : Req) (rpc : Rpc)
          → f.req.from_bytes bytes ≡ some request
          → f.rpc.from_bytes request.payload ≡ some rpc
          → is_answer rpc ≡ true
          → (s : Kademlia l) → one bytes s ≡ other bytes s)
      → request_body l f rand now one bytes self ≡ request_body l f rand now other bytes self
  unfolding request_body
  request_body-next one other bytes self h = elim (Option-cases (f.req.from_bytes bytes)) [
    | inl e ↦ rw (e, request_body)
    | inr (request, e) ↦
        rw (e, request_body)
          (>>=-congr (unwrap (f.peer.from_bytes request.sender)) (λ sender _.
            >>=-congr (written f.peer sender) (λ own _.
              >>=-congr (add_peer l f rand now own self) (λ s _.
                >>=-congr (unwrap (f.rpc.from_bytes request.payload)) (λ rpc read.
                  match_request-next one other bytes request sender rpc s (λ answer.
                    h request rpc e (unwrap-eq-ok (f.rpc.from_bytes request.payload) read) answer
                      s))))))
  ]

  -- The bytes carry one call, whether they are read as a request or as a response.
  one_call :
      (bytes : Bytes) (request : Req) (rm : Resp) (one other : Rpc)
      → HasOnePayload f
      → f.req.from_bytes bytes ≡ some request
      → f.resp.from_bytes bytes ≡ some rm
      → f.rpc.from_bytes request.payload ≡ some one
      → f.rpc.from_bytes rm.payload ≡ some other
      → is_answer one ≡ true
      → is_answer other ≡ false
      → ⊥
  one_call bytes request rm one other v e e' read read' yes_ no_ =
      let same = v bytes request rm e e' in
      let found : some one ≡ some other = sym read ∙ ap f.rpc.from_bytes same ∙ read' in
      let both : one ≡ other = cc found in
      let clash : true ≡ false = sym yes_ ∙ ap (λ r. is_answer r) both ∙ no_ in cc

  abbrev rest : ℕ → Side → Next
  rest calls side = handle l f rand now calls side

  -- `handle_request` and `handle_response` call each other at most once: where bytes that are read
  -- as a request and as a response have one payload, two calls give what any larger number of
  -- calls gives.
  pub handle_lem :
      (calls : ℕ) (side : Side) (bytes : Bytes) (self : Kademlia l)
      → HasOnePayload f
      → handle l f rand now (suc (suc calls)) side bytes self
        ≡ handle l f rand now 2 side bytes self
  unfolding handle
  handle_lem calls requests bytes self v =
      request_body-next (rest (suc calls) responses) (rest 1 responses) bytes self
        (λ request rpc e read answer s.
          response_body-next (rest calls requests) (rest 0 requests) bytes s
            (λ rm rpc' e' read' asked.
              absurd (one_call bytes request rm rpc rpc' v e e' read read' answer asked)))
  handle_lem calls responses bytes self v =
      response_body-next (rest (suc calls) requests) (rest 1 requests) bytes self
        (λ rm rpc e read asked.
          request_body-next (rest calls responses) (rest 0 responses) bytes self
            (λ request rpc' e' read' answer s.
              absurd (one_call bytes request rm rpc' rpc v e' e read' read answer asked)))
