-- ===== src/Node/Peer.antt =====
-- src/node/peer_info.rs and src/node/peer_id.rs: who a peer is. A text is the list of its bytes. An
-- address is an IPv4 address, its four bytes as one number, and a port; the crate makes no other.
use udp2p.Base.{
  ℕ, ap₂, ◌≡◌, refl, sym, ◌∙◌, ◌↔◌, List, [], ◌∷◌, Bool, true, Option, some, Outcome, ok, panic,
  leb, ltb, ◌==◌, if◌then◌else◌, ℕ_discrete, decided, arith,
}
use udp2p.Node.Key.{Key, IsKey, xor, leading_zeros}
use udp2p.Node.Key.Metric.{xor-injective, xor_comm}

abbrev pub Text : Type 0
Text = List ℕ

unfoldable pub cons_decision :
    {x y : ℕ} {xs ys : Text} → Dec (x ≡ y) → Dec (xs ≡ ys) → Dec (x ∷ xs ≡ y ∷ ys)
cons_decision (yes p) (yes q) = yes (ap₂ ◌∷◌ p q)
cons_decision (yes p) (no q) = no (λ e. q (cc))
cons_decision (no p) d = no (λ e. p (cc))

unfoldable pub Text-discrete : Discrete Text
unfolding ℕ_discrete cons_decision
Text-discrete [] [] = yes refl
Text-discrete [] (y ∷ ys) = no (λ e. cc)
Text-discrete (x ∷ xs) [] = no (λ e. cc)
Text-discrete (x ∷ xs) (y ∷ ys) = cons_decision (ℕ_discrete x y) (Text-discrete xs ys)

pub record SocketAddr : Type 0 where
  pub ip : ℕ
  pub port : ℕ

unfoldable pub address_decision :
    {a b : SocketAddr} → Dec (a.ip ≡ b.ip) → Dec (a.port ≡ b.port) → Dec (a ≡ b)
address_decision (yes p) (yes q) = yes (λ i. record { ip = p i; port = q i })
address_decision (yes p) (no q) = no (λ e. q (λ i. (e i).port))
address_decision (no p) d = no (λ e. p (λ i. (e i).ip))

unfoldable pub SocketAddr-discrete : Discrete SocketAddr
unfolding ℕ_discrete address_decision
SocketAddr-discrete a b = address_decision (ℕ_discrete a.ip b.ip) (ℕ_discrete a.port b.port)

pub record PeerInfo : Type 0 where
  pub id : Text
  pub key : Key
  pub ip : ℕ
  pub port : ℕ
  pub address : SocketAddr

-- `PeerId::from_key`: the hash is that of the sha256 crate.
unfoldable pub from_key : (Key → Text) → Key → Text
from_key digest_bytes key = digest_bytes key

-- `PeerInfo::new`: the text "ip:port" is an address exactly if the port, a `u32`, is one.
unfoldable pub new : Text → Key → ℕ → ℕ → Outcome PeerInfo
new id key ip port =
    if leb port 65535
    then ok (record {
      id = id;
      key = key;
      ip = ip;
      port = port;
      address = record { ip = ip; port = port };
    })
    else panic

-- `Routable` and `Distance` for `PeerInfo`.
unfoldable pub get_id : PeerInfo → Text
get_id self = self.id

unfoldable pub get_key : PeerInfo → Key
get_key self = self.key

unfoldable pub get_address : PeerInfo → SocketAddr
get_address self = self.address

unfoldable pub peer_xor : PeerInfo → Key → Key
unfolding xor
peer_xor self other = xor self.key other

unfoldable pub peer_leading_zeros : PeerInfo → ℕ
unfolding leading_zeros
peer_leading_zeros self = leading_zeros self.key

-- `PartialEq for PeerInfo`: by key alone.
unfoldable pub peer_eq : PeerInfo → PeerInfo → Bool
unfolding Text-discrete ℕ_discrete
peer_eq self other = decided (Text-discrete self.key other.key)

-- `PeerInfoDistancePair`, and its `PartialEq` and `Ord`.
pub record PeerInfoDistancePair : Type 0 where
  pub peer : PeerInfo
  pub distance : Key

unfoldable pub pair_eq : PeerInfoDistancePair → PeerInfoDistancePair → Bool
unfolding peer_eq
pair_eq self other = peer_eq self.peer other.peer

-- `Ordering`, of the order on keys.
pub data Ordering : Type 0 where
  less equal greater : Ordering

unfoldable pub key_cmp : Key → Key → Ordering
key_cmp [] [] = equal
key_cmp [] (b ∷ other) = less
key_cmp (a ∷ self) [] = greater
key_cmp (a ∷ self) (b ∷ other) =
    let rest = key_cmp self other in if a == b then rest else if ltb a b then less else greater

-- `Some(other.key.cmp(&self.key))`: the larger key is the lesser peer.
unfoldable pub peer_partial_cmp : PeerInfo → PeerInfo → Option Ordering
unfolding key_cmp
peer_partial_cmp self other = some (key_cmp other.key self.key)

unfoldable pub pair_cmp : PeerInfoDistancePair → PeerInfoDistancePair → Ordering
unfolding key_cmp
pair_cmp self other = key_cmp other.distance self.distance

pub decided_iff {ℓ} : {P : Type ℓ} (d : Dec P) → (decided d ≡ true) ↔ P
decided_iff (yes p) = (λ _. p, λ _. refl)
decided_iff (no p) = (λ e. cc, λ q. absurd (p q))

key_cmp_self : (a : Key) → key_cmp a a ≡ equal
unfolding key_cmp
key_cmp_self [] = refl
key_cmp_self (x ∷ a) = ground (arith, key_cmp_self a)

key_cmp_equal : (a b : Key) → key_cmp a b ≡ equal → a ≡ b
unfolding key_cmp
key_cmp_equal [] [] h = refl
key_cmp_equal [] (y ∷ b) h = cc
key_cmp_equal (x ∷ a) [] h = cc
key_cmp_equal (x ∷ a) (y ∷ b) h = ground (arith, key_cmp_equal a b)

-- Over distances to one target, equality of pairs (by the peers' keys) and their order (by the
-- distances) agree: two pairs compare as equal exactly if they are equal.
pub pair_cmp-pair_eq_iff :
    (target : Key) (p q : PeerInfo)
    → IsKey target
    → IsKey p.key
    → IsKey q.key
    → (pair_cmp
          (record { peer = p; distance = xor p.key target })
          (record { peer = q; distance = xor q.key target })
        ≡ equal)
      ↔ (pair_eq
            (record { peer = p; distance = xor p.key target })
            (record { peer = q; distance = xor q.key target })
          ≡ true)
unfolding pair_cmp pair_eq
pair_cmp-pair_eq_iff target p q v kp kq = (
  λ e. (decided_iff (Text-discrete p.key q.key)).1 (
      xor-injective target p.key q.key v kp kq
        (xor_comm target p.key ∙ sym (key_cmp_equal _ _ e) ∙ xor_comm q.key target)),
  λ e.
      let same = (decided_iff (Text-discrete p.key q.key)).0 e in
      rw same (key_cmp_self (xor q.key target)),
)
