-- ===== src/Routing/Sort.antt =====
-- The stable sort that src/discovery/routing.rs uses twice.
use mathlib.Core.List.{Permᴰ}
use mathlib.Core.List.Permᴰ
use udp2p.Base.{
  ℕ, suc, ◌≡◌, refl, ap, ◌∙◌, List, [], ◌∷◌, ◌++◌, All-of_append, Bool, true, false, Bool-cases,
  inl, inr, length, take, All, All-imp, All-take, zero, arith,
}
use udp2p.Node.Key.{Key, xor}
use udp2p.Node.Key.Order.{key_le_total, key_le_trans}
use udp2p.Node.Peer.{PeerInfo}
use udp2p.Routing.{insert_sorted, sort_by, nearer}

module _ {ℓ} {A : Type ℓ} (le : A → A → Bool) where
  abbrev pub IsSorted : List A → Type ℓ
  IsSorted [] = Unit
  IsSorted (x ∷ xs) = All (λ y. le x y ≡ true) xs × IsSorted xs

  length-insert_sorted : (x : A) (xs : List A) → length (insert_sorted le x xs) ≡ suc (length xs)
  unfolding insert_sorted
  length-insert_sorted x [] = refl
  length-insert_sorted x (y ∷ ys) = ground (arith, length-insert_sorted x ys)

  pub length-sort_by : (xs : List A) → length (sort_by le xs) ≡ length xs
  unfolding sort_by
  length-sort_by [] = refl
  length-sort_by (x ∷ xs) = length-insert_sorted x (sort_by le xs) ∙ ap suc (length-sort_by xs)

  All-insert_sorted {κ} :
      (P : A → Type κ) (x : A) (xs : List A) → P x → All P xs → All P (insert_sorted le x xs)
  unfolding insert_sorted
  All-insert_sorted P x [] p h = (p, tt)
  All-insert_sorted P x (y ∷ ys) p h = elim (Bool-cases (le x y)) [
    | inl e ↦ rw e (p, h)
    | inr e ↦ rw e (h.0, All-insert_sorted P x ys p h.1)
  ]

  pub All-sort_by {κ} : (P : A → Type κ) (xs : List A) → All P xs → All P (sort_by le xs)
  unfolding sort_by
  All-sort_by P [] h = tt
  All-sort_by P (x ∷ xs) h = All-insert_sorted P x (sort_by le xs) h.0 (All-sort_by P xs h.1)

  insert_sorted-IsSorted :
      ((x y : A) → le x y ≡ false → le y x ≡ true)
      → ((x y z : A) → le x y ≡ true → le y z ≡ true → le x z ≡ true)
      → (x : A) (xs : List A) → IsSorted xs
      → IsSorted (insert_sorted le x xs)
  unfolding insert_sorted
  insert_sorted-IsSorted flip trans x [] v = (tt, tt)
  insert_sorted-IsSorted flip trans x (y ∷ ys) v = elim (Bool-cases (le x y)) [
    | inl e ↦ rw e ((e, All-imp (λ z. trans x y z e) ys v.0), v)
    | inr e ↦ rw e (
      All-insert_sorted (λ z. le y z ≡ true) x ys (flip x y e) v.0,
      insert_sorted-IsSorted flip trans x ys v.1,
    )
  ]

  pub sort_by-IsSorted :
      ((x y : A) → le x y ≡ false → le y x ≡ true)
      → ((x y z : A) → le x y ≡ true → le y z ≡ true → le x z ≡ true)
      → (xs : List A) → IsSorted (sort_by le xs)
  unfolding sort_by
  sort_by-IsSorted flip trans [] = tt
  sort_by-IsSorted flip trans (x ∷ xs) =
      insert_sorted-IsSorted flip trans x (sort_by le xs) (sort_by-IsSorted flip trans xs)

  take-IsSorted : (n : ℕ) (xs : List A) → IsSorted xs → IsSorted (take n xs)
  take-IsSorted zero xs v = tt
  take-IsSorted (suc n) [] v = tt
  take-IsSorted (suc n) (x ∷ xs) v =
      (All-take (λ y. le x y ≡ true) n xs v.0, take-IsSorted n xs v.1)

module _ {ℓ} {A : Type ℓ} (le : A → A → Bool) where
  insert_sorted-perm : (x : A) (xs : List A) → Permᴰ (x ∷ xs) (insert_sorted le x xs)
  unfolding insert_sorted
  insert_sorted-perm x [] = Permᴰ.refl (x ∷ [])
  insert_sorted-perm x (y ∷ ys) = elim (Bool-cases (le x y)) [
    | inl e ↦ rw e (Permᴰ.refl (x ∷ y ∷ ys))
    | inr e ↦ rw e (Permᴰ.trans (Permᴰ.swap refl refl) (Permᴰ.cons refl (insert_sorted-perm x ys)))
  ]

  -- A sort only reorders.
  pub sort_by-perm : (xs : List A) → Permᴰ xs (sort_by le xs)
  unfolding sort_by
  sort_by-perm [] = Permᴰ.nil
  sort_by-perm (x ∷ xs) =
      Permᴰ.trans (Permᴰ.cons refl (sort_by-perm xs)) (insert_sorted-perm x (sort_by le xs))

  -- In a sorted list what stands behind a cut is not less than what stands before.
  pub IsSorted-parts :
      (xs ys : List A) → IsSorted le (xs ++ ys) → All (λ x. All (λ y. le x y ≡ true) ys) xs
  IsSorted-parts [] ys v = tt
  IsSorted-parts (x ∷ xs) ys v =
      ((All-of_append (λ y. le x y ≡ true) xs ys v.0).1, IsSorted-parts xs ys v.1)

pub by_distance :
    (target : Key) (peers : List PeerInfo)
    → IsSorted (nearer target) (sort_by (nearer target) peers)
by_distance target peers =
    sort_by-IsSorted (nearer target) (λ x y. key_le_total (xor x.key target) (xor y.key target))
      (λ x y z. key_le_trans (xor x.key target) (xor y.key target) (xor z.key target)) peers

-- Peers sorted by their distance are in order of it.
pub nearest-IsSorted :
    (target : Key) (count : ℕ) (peers : List PeerInfo)
    → IsSorted (nearer target) (take count (sort_by (nearer target) peers))
nearest-IsSorted target count peers =
    take-IsSorted (nearer target) count (sort_by (nearer target) peers) (by_distance target peers)
