-- ===== src/Tests/Unary.antt =====
-- Formats that write every packet and every acknowledgement, in unary digits.
use udp2p.Base.{
  ℕ, zero, suc, ◌+◌, ◌<◌, ◌≡◌, refl, subst, ap, ap₂, ◌∙◌, List, [], ◌∷◌, ◌++◌, Option, some, none,
  length, take, drop, replicate, All, All-append, arith,
}
use udp2p.Base.Codec.{Codec}
use udp2p.Protocol.{Bytes, AckMessage}
use udp2p.Handler.{Formats}
use udp2p.Network.{Writers}
use udp2p.Tests.Instances.{
  formats, write_packet, read_packet, packet_back, take-append, drop-append,
}

abbrev pub unary : List ℕ → Bytes
unary [] = []
unary (n ∷ v) = replicate n 1 ++ 0 ∷ unary v

abbrev pub read_unary : ℕ → Bytes → List ℕ
read_unary k [] = []
read_unary k (zero ∷ v) = k ∷ read_unary 0 v
read_unary k (suc b ∷ v) = read_unary (suc k) v

read_digits :
    (n k : ℕ) (v : Bytes) → read_unary k (replicate n 1 ++ 0 ∷ v) ≡ (k + n) ∷ read_unary 0 v
read_digits zero k v = ap (λ (m : ℕ). m ∷ read_unary 0 v) {x = k} {y = k + 0} (omega arith)
read_digits (suc n) k v =
    read_digits n (suc k) v
    ∙ ap (λ (m : ℕ). m ∷ read_unary 0 v) {x = suc k + n} {y = k + suc n} (omega arith)

read_unary-unary : (v : List ℕ) → read_unary 0 (unary v) ≡ v
read_unary-unary [] = refl
read_unary-unary (n ∷ v) =
    read_digits n 0 (unary v)
    ∙ ap₂ (λ (m : ℕ) (w : List ℕ). m ∷ w) (omega arith) (read_unary-unary v)

digits-IsByte : (n : ℕ) → All (λ b. b < 256) (replicate n 1)
digits-IsByte zero = tt
digits-IsByte (suc n) = (omega arith, digits-IsByte n)

unary-IsByte : (v : List ℕ) → All (λ b. b < 256) (unary v)
unary-IsByte [] = tt
unary-IsByte (n ∷ v) =
    All-append (λ b. b < 256) (replicate n 1) (0 ∷ unary v) (digits-IsByte n)
      (omega arith, unary-IsByte v)

pub unary_read :
    {A : Type 0} (write : A → List ℕ) (read : List ℕ → Option A) (a : A) (v : Bytes)
    → read (write a) ≡ some a
    → some (unary (write a)) ≡ some v
    → read (read_unary 0 v) ≡ some a
unary_read write read a v back e =
    let same : unary (write a) ≡ v = cc e in
    subst (λ w. read (read_unary 0 w) ≡ some a) same (ap read (read_unary-unary (write a)) ∙ back)

pub unary_small : (v : List ℕ) (w : Bytes) → some (unary v) ≡ some w → All (λ b. b < 256) w
unary_small v w e =
    let same : unary v ≡ w = cc e in subst (All (λ b. b < 256)) same (unary-IsByte v)

-- A format from a plain writer, whose numbers are written in unary, and its reader.
abbrev pub by_unary :
    {A : Type 0} (write : A → List ℕ) (read : List ℕ → Option A)
    → ((a : A) → read (write a) ≡ some a)
    → Codec A
by_unary write read back = record {
  as_bytes = λ a. some (unary (write a));
  from_bytes = λ v. read (read_unary 0 v);
  from_bytes-as_bytes = λ a v e. unary_read write read a v (back a) e;
  as_bytes-IsByte = λ a v e. unary_small (write a) v e;
}

abbrev pub write_ack : AckMessage → List ℕ
write_ack a = length a.packet_id ∷ a.packet_number ∷ a.packet_id ++ a.src

abbrev pub read_ack : List ℕ → Option AckMessage
read_ack (len ∷ n ∷ rest) =
    some (record { packet_id = take len rest; packet_number = n; src = drop len rest })
read_ack _ = none

pub ack_back : (a : AckMessage) → read_ack (write_ack a) ≡ some a
ack_back a =
    ap₂ (λ (i b : Bytes). some (record { packet_id = i; packet_number = a.packet_number; src = b }))
      (take-append a.packet_id a.src) (drop-append a.packet_id a.src)

abbrev pub unary_formats : Formats
unary_formats = record formats {
  packet = by_unary write_packet read_packet packet_back;
  ack = by_unary write_ack read_ack ack_back;
}

abbrev pub unary_writers : Writers unary_formats
unary_writers = record {
  packet = λ p. unary (write_packet p);
  ack = λ a. unary (write_ack a);
  packet_lem = λ p. refl;
  ack_lem = λ a. refl;
}
