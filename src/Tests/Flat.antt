-- ===== src/Tests/Flat.antt =====
-- Formats of the discovery service that write lists of lists, each list with its end.
use mathlib.Core.List
use udp2p.Base.{ℕ, zero, suc, ◌≡◌, refl, sym, ap, ◌∙◌, List, [], ◌∷◌, ◌++◌, map, Option, some, none}
use udp2p.Base.Codec.{Codec}
use udp2p.Node.Peer.{PeerInfo}
use udp2p.Protocol.{Bytes, KadMessage}
use udp2p.Kad.{Rpc, Req, Resp, KadFormats}
use udp2p.Tests.Instances.{by_bytes}

abbrev pub flat : List Bytes → Bytes
flat [] = []
flat (n ∷ ns) = map suc n ++ 0 ∷ flat ns

abbrev pub unflat : Bytes → Bytes → List Bytes
unflat cur [] = []
unflat cur (zero ∷ v) = cur ∷ unflat [] v
unflat cur (suc b ∷ v) = unflat (cur ++ b ∷ []) v

unflat-first : (cur n v : Bytes) → unflat cur (map suc n ++ 0 ∷ v) ≡ (cur ++ n) ∷ unflat [] v
unflat-first cur [] v = ap (λ c. c ∷ unflat [] v) (sym (List.append-nil cur))
unflat-first cur (b ∷ n) v =
    unflat-first (cur ++ b ∷ []) n v ∙ ap (λ c. c ∷ unflat [] v) (List.append_assoc cur (b ∷ []) n)

unflat-flat : (ns : List Bytes) → unflat [] (flat ns) ≡ ns
unflat-flat [] = refl
unflat-flat (n ∷ ns) = unflat-first [] n (flat ns) ∙ ap (◌∷◌ n) (unflat-flat ns)

pub flat_back :
    {A : Type 0} (write : A → List Bytes) (read : List Bytes → Option A)
    → ((a : A) → read (write a) ≡ some a)
    → (a : A) → read (unflat [] (flat (write a))) ≡ some a
flat_back write read back a = ap read (unflat-flat (write a)) ∙ back a

abbrev pub by_lists :
    {A : Type 0} (write : A → List Bytes) (read : List Bytes → Option A)
    → ((a : A) → read (write a) ≡ some a)
    → Codec A
by_lists write read back =
    by_bytes (λ a. flat (write a)) (λ v. read (unflat [] v)) (flat_back write read back)

abbrev write_peer : PeerInfo → List Bytes
write_peer p = p.id ∷ p.key ∷ (p.ip ∷ p.port ∷ p.address.ip ∷ p.address.port ∷ []) ∷ []

abbrev read_peer : List Bytes → Option PeerInfo
read_peer (id ∷ key ∷ (ip ∷ port ∷ address_ip ∷ address_port ∷ []) ∷ []) = some (record {
  id = id;
  key = key;
  ip = ip;
  port = port;
  address = record { ip = address_ip; port = address_port };
})
read_peer _ = none

abbrev write_rpc : Rpc → List Bytes
write_rpc Rpc.ping = (0 ∷ []) ∷ []
write_rpc (Rpc.new_peer v) = (1 ∷ []) ∷ v ∷ []
write_rpc (Rpc.store k v) = (2 ∷ []) ∷ k ∷ v ∷ []
write_rpc (Rpc.find_node v) = (3 ∷ []) ∷ v ∷ []
write_rpc (Rpc.find_value v) = (4 ∷ []) ∷ v ∷ []
write_rpc (Rpc.nodes v) = (5 ∷ []) ∷ v
write_rpc (Rpc.value v) = (6 ∷ []) ∷ v ∷ []
write_rpc (Rpc.saved v) = (7 ∷ []) ∷ v ∷ []
write_rpc (Rpc.pong v) = (8 ∷ []) ∷ v ∷ []

abbrev read_call : ℕ → List Bytes → Option Rpc
read_call zero [] = some Rpc.ping
read_call (suc zero) (v ∷ []) = some (Rpc.new_peer v)
read_call (suc (suc zero)) (k ∷ v ∷ []) = some (Rpc.store k v)
read_call (suc (suc (suc zero))) (v ∷ []) = some (Rpc.find_node v)
read_call (suc (suc (suc (suc zero)))) (v ∷ []) = some (Rpc.find_value v)
read_call (suc (suc (suc (suc (suc zero))))) v = some (Rpc.nodes v)
read_call (suc (suc (suc (suc (suc (suc zero)))))) (v ∷ []) = some (Rpc.value v)
read_call (suc (suc (suc (suc (suc (suc (suc zero))))))) (v ∷ []) = some (Rpc.saved v)
read_call (suc (suc (suc (suc (suc (suc (suc (suc zero)))))))) (v ∷ []) = some (Rpc.pong v)
read_call _ _ = none

abbrev read_rpc : List Bytes → Option Rpc
read_rpc ((tag ∷ []) ∷ v) = read_call tag v
read_rpc _ = none

pub rpc_back : (rpc : Rpc) → read_rpc (write_rpc rpc) ≡ some rpc
rpc_back Rpc.ping = refl
rpc_back (Rpc.new_peer v) = refl
rpc_back (Rpc.store k v) = refl
rpc_back (Rpc.find_node v) = refl
rpc_back (Rpc.find_value v) = refl
rpc_back (Rpc.nodes v) = refl
rpc_back (Rpc.value v) = refl
rpc_back (Rpc.saved v) = refl
rpc_back (Rpc.pong v) = refl

abbrev read_req : List Bytes → Option Req
read_req (id ∷ sender ∷ payload ∷ []) =
    some (record { id = id; sender = sender; payload = payload })
read_req _ = none

abbrev read_resp : List Bytes → Option Resp
read_resp (request ∷ receiver ∷ payload ∷ []) =
    some (record { request = request; receiver = receiver; payload = payload })
read_resp _ = none

abbrev write_kad : KadMessage → List Bytes
write_kad (KadMessage.request v) = (0 ∷ []) ∷ v ∷ []
write_kad (KadMessage.response v) = (1 ∷ []) ∷ v ∷ []
write_kad KadMessage.kill = []

abbrev read_kad : List Bytes → Option KadMessage
read_kad ((zero ∷ []) ∷ v ∷ []) = some (KadMessage.request v)
read_kad ((suc n ∷ []) ∷ v ∷ []) = some (KadMessage.response v)
read_kad [] = some KadMessage.kill
read_kad _ = none

pub kad_back : (m : KadMessage) → read_kad (write_kad m) ≡ some m
kad_back (KadMessage.request v) = refl
kad_back (KadMessage.response v) = refl
kad_back KadMessage.kill = refl

abbrev pub flat_formats : KadFormats
flat_formats = record {
  peer = by_lists write_peer read_peer (λ p. refl);
  rpc = by_lists write_rpc read_rpc rpc_back;
  req = by_lists (λ r. r.id ∷ r.sender ∷ r.payload ∷ []) read_req (λ r. refl);
  resp = by_lists (λ r. r.request ∷ r.receiver ∷ r.payload ∷ []) read_resp (λ r. refl);
  kad = by_lists write_kad read_kad kad_back;
}
