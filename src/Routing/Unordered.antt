-- ===== src/Routing/Unordered.antt =====
-- The sort of src/discovery/routing.rs does not see the order in which a `HashMap` gives its buckets.
use mathlib.Core.List.{Permᴰ}
use udp2p.Base.{
  ℕ, ◌≡◌, ◌≢◌, refl, sym, ap, ◌∙◌, List, [], ◌∷◌, true, false, Bool, Bool-cases, take, All, inl,
  inr, arith,
}
use udp2p.Base.Perm.{Apart, Apart-perm, All-perm}
use udp2p.Node.Key.{Key, IsKey, xor, key_le}
use udp2p.Node.Key.Metric.{xor-injective, xor_comm}
use udp2p.Node.Key.Order.{key_le_total, key_le_trans}
use udp2p.Node.Peer.{PeerInfo}
use udp2p.Routing.{insert_sorted, sort_by, nearer, nearest}

module _ {ℓ} {A : Type ℓ} (le : A → A → Bool)
    (trans : (x y z : A) → le x y ≡ true → le y z ≡ true → le x z ≡ true) where
  -- Of two members that are not alike the lesser one stands first, whichever came first.
  insert_sorted_comm :
      (x y : A) (xs : List A)
      → le x y ≡ true
      → le y x ≡ false
      → insert_sorted le x (insert_sorted le y xs) ≡ insert_sorted le y (insert_sorted le x xs)
  unfolding insert_sorted
  insert_sorted_comm x y [] less more = rw (less, more) refl
  insert_sorted_comm x y (z ∷ zs) less more = elim (Bool-cases (le y z)) [
    | inl before ↦ rw (before, trans x y z less before, less, more, before) refl
    | inr behind ↦ elim (Bool-cases (le x z)) [
      | inl first ↦ rw (behind, first, more, behind) refl
      | inr last ↦ rw (behind, last, behind) (ap (◌∷◌ z) (insert_sorted_comm x y zs less more))
    ]
  ]

key_le_antisym : (a b : Key) → key_le a b ≡ true → key_le b a ≡ true → a ≡ b
unfolding key_le
key_le_antisym [] [] h k = refl
key_le_antisym [] (y ∷ b) h k = absurd (let clash : false ≡ true = k in cc)
key_le_antisym (x ∷ a) [] h k = absurd (let clash : false ≡ true = h in cc)
key_le_antisym (x ∷ a) (y ∷ b) h k = ground (arith, key_le_antisym a b)

-- The peers have keys, and no two of them one.
abbrev pub HasOwnKeys : List PeerInfo → Type 0
HasOwnKeys peers = All (λ (p : PeerInfo). IsKey p.key) peers × Apart (λ (p : PeerInfo). p.key) peers

module _ (target : Key) (v : IsKey target) where
  nearer_one_way :
      (p q : PeerInfo)
      → IsKey p.key
      → IsKey q.key
      → p.key ≢ q.key
      → nearer target p q ≡ true
      → nearer target q p ≡ false
  nearer_one_way p q kp kq apart less = elim (Bool-cases (nearer target q p)) [
    | inl both ↦ absurd (
        apart (
          xor-injective target p.key q.key v kp kq (
            xor_comm target p.key
            ∙ key_le_antisym (xor p.key target) (xor q.key target) less both
            ∙ xor_comm q.key target)))
    | inr other ↦ other
  ]

  nearer_trans :
      (p q r : PeerInfo)
      → nearer target p q ≡ true
      → nearer target q r ≡ true
      → nearer target p r ≡ true
  nearer_trans p q r = key_le_trans (xor p.key target) (xor q.key target) (xor r.key target)

  insert_either :
      (p q : PeerInfo) (peers : List PeerInfo)
      → IsKey p.key
      → IsKey q.key
      → p.key ≢ q.key
      → insert_sorted (nearer target) p (insert_sorted (nearer target) q peers)
        ≡ insert_sorted (nearer target) q (insert_sorted (nearer target) p peers)
  insert_either p q peers kp kq apart = elim (Bool-cases (nearer target p q)) [
    | inl less ↦
        insert_sorted_comm (nearer target) nearer_trans p q peers less
          (nearer_one_way p q kp kq apart less)
    | inr more ↦ sym (
        insert_sorted_comm (nearer target) nearer_trans q p peers
          (key_le_total (xor p.key target) (xor q.key target) more) more)
  ]

  sort_by_unordered :
      {ps qs : List PeerInfo}
      → Permᴰ ps qs
      → HasOwnKeys ps
      → sort_by (nearer target) ps ≡ sort_by (nearer target) qs
  unfolding sort_by
  sort_by_unordered Permᴰ.nil h = refl
  sort_by_unordered (Permᴰ.cons {a = a} {b = b} {l₂ = l₂} e p) h =
      ap (insert_sorted (nearer target) a) (sort_by_unordered p (h.0.1, h.1.1))
      ∙ ap (λ x. insert_sorted (nearer target) x (sort_by (nearer target) l₂)) e
  sort_by_unordered (Permᴰ.swap {a = a} {b = b} {a' = a'} {b' = b'} {l = l} e d) h =
      insert_either a b (sort_by (nearer target) l) h.0.0 h.0.1.0 (λ same. h.1.0.0 (sym same))
      ∙ ap
          (λ x.
            insert_sorted (nearer target) x
              (insert_sorted (nearer target) a (sort_by (nearer target) l)))
          d
      ∙ ap
          (λ x.
            insert_sorted (nearer target) a'
              (insert_sorted (nearer target) x (sort_by (nearer target) l)))
          e
  sort_by_unordered (Permᴰ.trans p q) h =
      sort_by_unordered p h ∙ sort_by_unordered q (All-perm _ p h.0, Apart-perm _ p h.1)

-- The peers that `get_closest_peers` picks of those that it looked at do not depend on the order
-- in which it met them, if these have keys of 32 bytes and no two of them one key.
pub nearest_unordered :
    (peer : PeerInfo) (count : ℕ) (ps qs : List PeerInfo)
    → IsKey peer.key
    → HasOwnKeys ps
    → Permᴰ ps qs
    → nearest peer count ps ≡ nearest peer count qs
unfolding nearest
nearest_unordered peer count ps qs v own order =
    ap (take count) (sort_by_unordered peer.key v order own)
