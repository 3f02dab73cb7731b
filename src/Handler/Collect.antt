-- ===== src/Handler/Collect.antt =====
-- `assemble_packets` of src/transport/handler.rs over a map that collects the packets of one message.
use udp2p.Base.{
  ℕ, suc, ◌+◌, ◌-◌, ◌≤◌, ◌<◌, ◌≢◌, ◌≡◌, ◌⊎◌, refl, sym, subst, ap, ◌∙◌, List, [], ◌∷◌, none, some,
  inl, inr, ok, length, get_elem?, All, Option-cases, ℕ_discrete, ite, if_pos, if_neg, arith,
}
use udp2p.Base.Dict.{Dict, get, insert, get-insert, length-insert_new, get-insert_ne}
use udp2p.Node.Peer.{Text-discrete}
use udp2p.Protocol.{Bytes, InnerKey, Packet}
use udp2p.Protocol.Packetize.{contents}
use udp2p.Handler.{Formats, collect_from, assemble_packets}
use udp2p.Handler.Present.{present, present-nil, present_full, present-insert}
use udp2p.Handler.Arrival.{IsPacketOf}

-- Some of the packets of `ps`, each under its number.
pub record Collects (ps : List Packet) (m : Dict ℕ Packet) : Type 0 where
  pub counted : length m ≡ present m (length ps)
  pub genuine : (n : ℕ) (p : Packet) → get ℕ_discrete n m ≡ some p → get_elem? ps (n - 1) ≡ some p

-- The message is pending with all its packets.
abbrev pub IsComplete : InnerKey → List Packet → Dict InnerKey (Dict ℕ Packet) → Type 0
IsComplete id ps pending =
    (m : Dict ℕ Packet) × (get Text-discrete id pending ≡ some m)
    × Collects ps m
    × (length m ≡ length ps)

-- After its delivery a message of one packet is not pending, another is, with all its packets.
abbrev pub IsDelivered : InnerKey → List Packet → Dict InnerKey (Dict ℕ Packet) → Type 0
IsDelivered id ps pending =
    ((length ps ≡ 1) × (get Text-discrete id pending ≡ none)) ⊎ IsComplete id ps pending

pub Collects-nil : (ps : List Packet) → Collects ps []
unfolding get
Collects-nil ps = record { counted = sym (present-nil (length ps)); genuine = λ n p e. cc }

pub Collects-insert :
    (id : InnerKey) (ps : List Packet) (m : Dict ℕ Packet) (q : Packet)
    → Collects ps m
    → IsPacketOf id ps q
    → get ℕ_discrete q.n m ≡ none
    → Collects ps (insert ℕ_discrete q.n q m)
Collects-insert id ps m q c v e = record {
  counted = omega (
    arith,
    length-insert_new ℕ_discrete q.n q m e,
    present-insert q.n q m (length ps) e v.2 v.3,
    c.counted,
  );
  genuine = λ n p h. genuine-insert n p (sym (get-insert ℕ_discrete n q.n q m) ∙ h);
}
  where
    genuine-insert :
        (n : ℕ) (p : Packet)
        → ite (ℕ_discrete q.n n) (some q) (get ℕ_discrete n m) ≡ some p
        → get_elem? ps (n - 1) ≡ some p
    genuine-insert n p h = elim (ℕ_discrete q.n n) [
      | yes same ↦ subst (λ k. get_elem? ps (k - 1) ≡ some p) same (v.4 ∙ (rw (if_pos _ same) at h))
      | no other ↦ c.genuine n p (rw (if_neg _ other) at h)
    ]

-- With as many entries as packets every number is there, with its packet.
pub Collects-full :
    (ps : List Packet) (m : Dict ℕ Packet) (j : ℕ)
    → Collects ps m
    → length m ≡ length ps
    → 1 ≤ j
    → j ≤ length ps
    → get ℕ_discrete j m ≡ get_elem? ps (j - 1)
Collects-full ps m j c full lo hi =
    let (p, hit) = present_full m (length ps) j (sym c.counted ∙ full) lo hi in
    hit ∙ sym (c.genuine j p hit)

pub All-new : (xs : List Packet) → All (λ x. get {V = Packet} ℕ_discrete x.n [] ≡ none) xs
unfolding get
All-new [] = tt
All-new (x ∷ xs) = (refl, All-new xs)

pub still_new :
    (m : Dict ℕ Packet) (q : Packet) (xs : List Packet)
    → All (λ x. get ℕ_discrete x.n m ≡ none) xs
    → All (λ x. x.n ≢ q.n) xs
    → All (λ x. get ℕ_discrete x.n (insert ℕ_discrete q.n q m) ≡ none) xs
still_new m q [] h k = tt
still_new m q (x ∷ xs) h k =
    (get-insert_ne ℕ_discrete x.n q.n q m (λ e. k.0 (sym e)) ∙ h.0, still_new m q xs h.1 k.1)

module _ (f : Formats) where
  collect_from-contents :
      (rest : List Packet) (bytes : Bytes) (n : ℕ) (m : Dict ℕ Packet)
      → contents f.hex rest ≡ some bytes
      → ((i j : ℕ) → j ≡ n + i → i < length rest → get ℕ_discrete j m ≡ get_elem? rest i)
      → collect_from f (length rest) n m ≡ ok bytes
  unfolding collect_from contents
  collect_from-contents [] bytes n m e at = ground arith
  collect_from-contents (p ∷ rest) bytes n m e at = elim (Option-cases (f.hex.decode p.bytes)) [
    | inl bad ↦ absurd (ground arith)
    | inr (v, decoded) ↦ elim (Option-cases (contents f.hex rest)) [
      | inl bad ↦ absurd (ground arith)
      | inr (tail, follow) ↦
          let rest_lem =
            collect_from-contents rest tail (suc n) m follow
              (λ i j s h. at (suc i) j (omega arith) (omega arith)) in
          rw (at 0 n (omega arith) (omega arith), decoded, rest_lem) (ground arith)
    ]
  ]

  -- A complete map gives back the message that was cut.
  pub assemble_packets-contents :
      (q : Packet) (ps : List Packet) (m : Dict ℕ Packet) (bytes : Bytes)
      → contents f.hex ps ≡ some bytes
      → q.total_n ≡ length ps
      → Collects ps m
      → length m ≡ length ps
      → assemble_packets f q m ≡ ok (f.message.from_bytes bytes)
  unfolding assemble_packets
  assemble_packets-contents q ps m bytes e total c full =
      let all = collect_from-contents ps bytes 1 m e (λ i j s h.
        Collects-full ps m j c full (omega arith) (omega arith)
        ∙ ap (get_elem? ps) {x = j - 1} {y = i} (omega arith)) in
      rw (total, all)
