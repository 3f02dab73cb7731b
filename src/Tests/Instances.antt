-- ===== src/Tests/Instances.antt =====
-- Concrete formats and a concrete linked map, for the runs.
use udp2p.Base.{
  ℕ, zero, suc, ap, ap₂, subst, take, ◌<◌, ◌≡◌, refl, List, [], ◌∷◌, ◌++◌, Option, some, none, Bool,
  true, false, ◌&&◌, ltb, length, drop, get_elem?, All, Bool-cases, inl, inr, if◌then◌else◌, arith,
  replicate,
}
use udp2p.Base.Codec.{Codec, Hex}
use udp2p.Base.Dict
use udp2p.Node.Peer.{Text, Text-discrete, SocketAddr, PeerInfo}
use udp2p.Node.Address.{AddressFormat}
use udp2p.Protocol.{Bytes, Header, Message, Packet, KadMessage}
use udp2p.Handler.{Formats}
use udp2p.Routing.Linked.{LinkedMap, is_some}

abbrev pub plain_hex : Hex
plain_hex = record { encode = λ v. v; decode = λ v. some v; decode-encode = λ v h. refl }

abbrev pub plain_address : AddressFormat
plain_address = record {
  to_string = λ a. a.ip ∷ a.port ∷ [];
  parse = parse_plain;
  parse-to_string = λ a. refl;
}
  where
    parse_plain : Text → Option SocketAddr
    parse_plain (ip ∷ port ∷ []) = some (record { ip = ip; port = port })
    parse_plain _ = none

pub nothing_written : (v : Bytes) → none ≡ some v → ⊥
nothing_written v e = cc

-- A format of which nothing can be written, and which reads by a given function.
abbrev pub reader : {A : Type 0} → (Bytes → Option A) → Codec A
reader read = record {
  as_bytes = λ a. none;
  from_bytes = read;
  from_bytes-as_bytes = λ a v e. absurd (nothing_written v e);
  as_bytes-IsByte = λ a v e. absurd (nothing_written v e);
}

pub All-replicate : (n b : ℕ) → b < 256 → All (λ c. c < 256) (replicate n b)
All-replicate zero b h = tt
All-replicate (suc n) b h = (h, All-replicate n b h)

abbrev pub all_small : Bytes → Bool
all_small [] = true
all_small (b ∷ v) = ltb b 256 && all_small v

all_small-All : (v : Bytes) → all_small v ≡ true → All (λ b. b < 256) v
all_small-All [] h = tt
all_small-All (b ∷ v) h =
    (and_left b (all_small v) h, all_small-All v (and_right (ltb b 256) (all_small v) h))
  where
    and_left : (b : ℕ) (c : Bool) → (ltb b 256 && c) ≡ true → b < 256
    and_left b c h = ground arith

    and_right : (a c : Bool) → (a && c) ≡ true → c ≡ true
    and_right true c h = h
    and_right false c h = absurd (cc)

abbrev pub header_byte : Header → ℕ
header_byte Header.request = 0
header_byte Header.response = 1
header_byte Header.gossip = 2
header_byte Header.ack = 3

abbrev pub byte_header : ℕ → Header
byte_header zero = Header.request
byte_header (suc zero) = Header.response
byte_header (suc (suc zero)) = Header.gossip
byte_header (suc (suc (suc n))) = Header.ack

header_back : (h : Header) → byte_header (header_byte h) ≡ h
header_back Header.request = refl
header_back Header.response = refl
header_back Header.gossip = refl
header_back Header.ack = refl

-- Bytes are written if they are bytes.
abbrev pub checked : Bytes → Option Bytes
checked v = if all_small v then some v else none

pub checked-some : (v w : Bytes) → checked v ≡ some w → (v ≡ w) × All (λ b. b < 256) v
checked-some v w e = elim (Bool-cases (all_small v)) [
  | inl small ↦
      let made : some v ≡ some w = rw small at e in
      let same : v ≡ w = cc made in (same, all_small-All v small)
  | inr big ↦ absurd (let clash : none ≡ some w = rw big at e in cc)
]

-- A format from a plain writer and its reader.
abbrev pub by_bytes :
    {A : Type 0} (write : A → Bytes) (read : Bytes → Option A)
    → ((a : A) → read (write a) ≡ some a)
    → Codec A
by_bytes write read back = record {
  as_bytes = λ a. checked (write a);
  from_bytes = read;
  from_bytes-as_bytes =
      λ a v e. subst (λ w. read w ≡ some a) (checked-some (write a) v e).0 (back a);
  as_bytes-IsByte = λ a v e.
      subst (λ w. All (λ b. b < 256) w) (checked-some (write a) v e).0
        (checked-some (write a) v e).1;
}

abbrev pub write_message : Message → Bytes
write_message m = header_byte m.head ∷ m.msg

abbrev pub read_message : Bytes → Option Message
read_message [] = none
read_message (b ∷ v) = some (record { head = byte_header b; msg = v })

pub message_back : (m : Message) → read_message (write_message m) ≡ some m
message_back m = ap (λ h. some (record { head = h; msg = m.msg })) (header_back m.head)

abbrev pub plain_message : Codec Message
plain_message = by_bytes write_message read_message message_back

pub take-append : (xs ys : Bytes) → take (length xs) (xs ++ ys) ≡ xs
take-append [] ys = refl
take-append (x ∷ xs) ys = ap (◌∷◌ x) (take-append xs ys)

pub drop-append : (xs ys : Bytes) → drop (length xs) (xs ++ ys) ≡ ys
drop-append [] ys = refl
drop-append (x ∷ xs) ys = drop-append xs ys

-- An id is written behind its length.
abbrev pub write_packet : Packet → Bytes
write_packet p = length p.id ∷ p.n ∷ p.total_n ∷ p.ret ∷ p.id ++ p.bytes

abbrev pub read_packet : Bytes → Option Packet
read_packet (len ∷ n ∷ total ∷ ret ∷ rest) =
    some (record { id = take len rest; n = n; total_n = total; bytes = drop len rest; ret = ret })
read_packet _ = none

pub packet_back : (p : Packet) → read_packet (write_packet p) ≡ some p
packet_back p =
    ap₂
      (λ (i b : Bytes).
        some (record { id = i; n = p.n; total_n = p.total_n; bytes = b; ret = p.ret }))
      (take-append p.id p.bytes) (drop-append p.id p.bytes)

abbrev pub plain_packet : Codec Packet
plain_packet = by_bytes write_packet read_packet packet_back

abbrev pub formats : Formats
formats = record {
  hex = plain_hex;
  address = plain_address;
  packet = plain_packet;
  message = plain_message;
  kad = reader (λ v. some (KadMessage.request v));
  ack = reader (λ v. none);
}

-- A linked map is the list of its entries.
abbrev pub plain_map : LinkedMap
plain_map = record {
  Map = List (Text × PeerInfo);
  empty = [];
  insert = λ k v m. Dict.remove Text-discrete k m ++ (k, v) ∷ [];
  contains_key = λ k m. is_some (Dict.get Text-discrete k m);
  remove = λ k m. (Dict.remove Text-discrete k m, Dict.get Text-discrete k m);
  pop_front = λ m. (drop 1 m, get_elem? m 0);
  len = λ m. length m;
  iter = λ m. m;
  iter-empty = refl;
  iter-insert = λ k v m. refl;
  contains_key-get = λ k m. refl;
  iter-remove = λ k m. (refl, refl);
  iter-pop_front = λ m. (refl, refl);
  len-iter = λ m. refl;
}
