-- ===== src/Kad/Discovery.antt =====
-- A round of discovery between two nodes of src/discovery/kad.rs: a node asks for itself, and
-- another answers.
use udp2p.Base.{ℕ, ◌≡◌, sym, subst, ap, ◌∙◌, List, [], ◌∷◌, ◌++◌, some, Bool, ok, All, false}
use udp2p.Node.Peer.{SocketAddr, PeerInfo}
use udp2p.Protocol.{Bytes, InnerKey, Message, KadMessage}
use udp2p.Routing.{RoutingTable, update_peer, get_closest_peers, is_new}
use udp2p.Routing.Linked.{LinkedMap}
use udp2p.Kad.{Rpc, KadFormats, Kademlia, default_n_peers, bootstrap, handle_message}
use udp2p.Kad.Messages.{IsRequest}
use udp2p.Kad.Meeting.{nodes_known}
use udp2p.Kad.Answered.{same_first, bootstrap-sent, answered}

-- A round of discovery between two nodes. One bootstraps, and what it sends last is the question;
-- the other handles the question, and what it sends first is the answer; the first handles the
-- answer. If these calls return: the answer goes to the address of the node that asked; this node
-- is no longer new to the other; and of the peers that are closest to it in the other's table,
-- with it already in, none is new to it any more.
pub discover :
    (l : LinkedMap) (f : KadFormats) (rand rand' : ℕ → InnerKey) (now now' later : ℕ)
    (address to : SocketAddr) (self asking self' other other' : Kademlia l)
    (question answer : Message) (question_bytes answer_bytes : Bytes)
    (more : List (SocketAddr × Message))
    → bootstrap l f rand now address self ≡ ok asking
    → asking.to_transport ≡ self.to_transport ++ (address, question) ∷ []
    → f.kad.from_bytes question.msg ≡ some (KadMessage.request question_bytes)
    → handle_message l f rand' now' (KadMessage.request question_bytes) other ≡ ok other'
    → other'.to_transport ≡ other.to_transport ++ ((to, answer) ∷ more)
    → f.kad.from_bytes answer.msg ≡ some (KadMessage.response answer_bytes)
    → handle_message l f rand later (KadMessage.response answer_bytes) asking ≡ ok self'
    → (to ≡ self.routing_table.local_info.address)
      × (is_new l self.routing_table.local_info other'.routing_table ≡ false)
      × ((result : RoutingTable l × Bool) × (closest : List PeerInfo) × (update_peer l now'
              self.routing_table.local_info 0 other.routing_table
            ≡ ok result)
          × (get_closest_peers l self.routing_table.local_info default_n_peers result.0
              ≡ ok closest)
          × All (λ peer. is_new l peer self'.routing_table ≡ false) closest)
discover l f rand rand' now now' later address to self asking self' other other' question answer
      question_bytes answer_bytes more begins asks asked handles answers read learns =
    let own = self.routing_table.local_info in
    let (message, own_bytes, sent, own_read, requested) =
      bootstrap-sent l f rand now address self asking begins in
    let same : message ≡ question =
      ap (λ (p : SocketAddr × Message). p.1) (same_first self.to_transport _ _ (sym sent ∙ asks)) in
    let (back, known, (result, closest, req, texts, updated, found, named, replied)) =
      answered l f rand' now' own own_bytes question answer question_bytes to more other other'
        (subst (IsRequest f own (Rpc.find_node own_bytes)) same requested) own_read asked handles
        answers in
    let (bytes, resp, head, kad, resp_read, req_read, said) = replied in
    let both : some (KadMessage.response bytes) ≡ some (KadMessage.response answer_bytes) =
      sym kad ∙ read in
    let same_bytes : bytes ≡ answer_bytes = cc both in
    (
      back,
      known,
      (
        result,
        closest,
        updated,
        found,
        (nodes_known l f rand later answer_bytes resp req texts closest asking self'
            (subst (λ b. f.resp.from_bytes b ≡ some resp) same_bytes resp_read) req_read said named
            learns).0,
      ),
    )
