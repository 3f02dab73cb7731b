-- ===== src/Base/Sets.antt =====
-- `std::collections::HashSet`: what the crate uses of it. A set is the list of its members.
use mathlib.Core.Path.{◌≡◌, refl, ap}
use mathlib.Core.Logic.{inl, inr}
use mathlib.Core.Bool.{Bool, true, false, not, ◌&&◌, ◌||◌}
use mathlib.Core.List.{List, [], ◌∷◌}
use native.Mathlib.Omega.{arith}
use Prim.Native.Nat.{◌≤◌}
use udp2p.Base.Lists.{length, All, All-imp}
use udp2p.Base.Perm.{Apart}
use udp2p.Base.Tests.{decided, if◌then◌else◌, Bool-cases}

module _ {ℓ} {A : Type ℓ} (dec : Discrete A) where
  unfoldable pub contains : A → List A → Bool
  contains a [] = false
  contains a (x ∷ s) = decided (dec x a) || contains a s

  unfoldable pub insert : A → List A → List A
  unfolding contains
  insert a s = if contains a s then s else a ∷ s

  unfoldable pub difference : List A → List A → List A
  unfolding contains
  difference [] t = []
  difference (x ∷ s) t = let rest = difference s t in if contains x t then rest else x ∷ rest

  unfoldable pub is_subset : List A → List A → Bool
  unfolding contains
  is_subset [] t = true
  is_subset (x ∷ s) t = contains x t && is_subset s t

  -- `==` of two sets: each has all members of the other.
  unfoldable pub same_set : List A → List A → Bool
  unfolding is_subset
  same_set s t = is_subset s t && is_subset t s

  pub contains-insert :
      (a b : A) (s : List A) → contains b (insert a s) ≡ (decided (dec a b) || contains b s)
  unfolding insert
  contains-insert a b s = ground arith

  pub insert_of_contains : (a : A) (s : List A) → contains a s ≡ true → insert a s ≡ s
  unfolding insert
  insert_of_contains a s h = ground arith

  contains_tail : (x a : A) (s : List A) → contains a s ≡ true → contains a (x ∷ s) ≡ true
  unfolding contains
  contains_tail x a s h = ground arith

  difference_from :
      (all s t : List A)
      → All (λ a. contains a all ≡ true) s
      → All (λ a. contains a all ≡ true) (difference s t)
  unfolding difference
  difference_from all [] t h = tt
  difference_from all (x ∷ s) t h = ground (arith, difference_from all s t h.1)

  contains_head : (x : A) (s : List A) → contains x (x ∷ s) ≡ true
  unfolding contains
  contains_head x s = ground arith

  All-contained : (s : List A) → All (λ a. contains a s ≡ true) s
  All-contained [] = tt
  All-contained (x ∷ s) =
      (contains_head x s, All-imp (λ a. contains_tail x a s) s (All-contained s))

  -- What a difference holds is in the first set.
  pub contains-difference : (s t : List A) → All (λ a. contains a s ≡ true) (difference s t)
  contains-difference s t = difference_from s s t (All-contained s)

  pub contains-difference-eq :
      (a : A) (s t : List A) → contains a (difference s t) ≡ (contains a s && not (contains a t))
  unfolding difference contains
  contains-difference-eq a [] t = refl
  contains-difference-eq a (x ∷ s) t = elim (dec x a) [
    | yes p ↦
        let same : contains x t ≡ contains a t = ap (λ y. contains y t) p in
        ground (arith, same, contains-difference-eq a s t)
    | no p ↦ ground (arith, contains-difference-eq a s t)
  ]

  All-difference {κ} : (P : A → Type κ) (s t : List A) → All P s → All P (difference s t)
  unfolding difference
  All-difference P [] t h = tt
  All-difference P (x ∷ s) t h = elim (Bool-cases (contains x t)) [
    | inl e ↦ rw e (All-difference P s t h.1)
    | inr e ↦ rw e (h.0, All-difference P s t h.1)
  ]

  -- A difference lists each member once, if the first set does.
  pub Apart-difference : (s t : List A) → Apart (λ a. a) s → Apart (λ a. a) (difference s t)
  unfolding difference
  Apart-difference [] t h = tt
  Apart-difference (x ∷ s) t h = elim (Bool-cases (contains x t)) [
    | inl e ↦ rw e (Apart-difference s t h.1)
    | inr e ↦ rw e (All-difference _ s t h.0, Apart-difference s t h.1)
  ]

  -- A difference is empty exactly if the first set lies in the second.
  pub difference-eq-nil : (s t : List A) → is_subset s t ≡ true → difference s t ≡ []
  unfolding difference is_subset
  difference-eq-nil [] t h = refl
  difference-eq-nil (x ∷ s) t h = ground (arith, difference-eq-nil s t)

  pub difference_ne-nil : (s t : List A) → is_subset s t ≡ false → 1 ≤ length (difference s t)
  unfolding difference is_subset
  difference_ne-nil [] t h = absurd (ground arith)
  difference_ne-nil (x ∷ s) t h = ground (arith, difference_ne-nil s t)

  pub is_subset_one : (a : A) → is_subset (a ∷ []) (a ∷ []) ≡ true
  unfolding is_subset contains
  is_subset_one a = ground arith

  pub is_subset_insert : (a b : A) → is_subset (a ∷ []) (insert b (a ∷ [])) ≡ true
  unfolding is_subset insert contains
  is_subset_insert a b = ground arith

  pub insert_not_subset : (a b : A) → ¬ (a ≡ b) → is_subset (insert b (a ∷ [])) (a ∷ []) ≡ false
  unfolding is_subset insert contains
  insert_not_subset a b h = ground arith

  pub one_not-is_subset : (a b : A) → ¬ (b ≡ a) → is_subset (a ∷ []) (b ∷ []) ≡ false
  unfolding is_subset contains
  one_not-is_subset a b h = ground arith

  pub difference_one : (a b : A) → ¬ (b ≡ a) → difference (a ∷ []) (b ∷ []) ≡ a ∷ []
  unfolding difference contains
  difference_one a b h = ground arith

  pub All-insert {κ} : (P : A → Type κ) (a : A) (s : List A) → P a → All P s → All P (insert a s)
  unfolding insert
  All-insert P a s p h = elim (Bool-cases (contains a s)) [ inl e ↦ rw e h | inr e ↦ rw e (p, h) ]
