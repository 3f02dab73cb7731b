-- ===== src/Base/Dict.antt =====
-- `std::collections::HashMap` and `HashSet`: what the crate uses of them. A map is the list of its
-- entries and a set the list of its members, in the order in which an iteration would meet them.
use mathlib.Core.Path.{◌≡◌, refl, ap, subst, sym, ◌∙◌}
use mathlib.Core.Logic.{◌≢◌, inl, inr, ite, if_pos, if_neg}
use Prim.Native.Nat.{suc, ◌≤◌}
use mathlib.Core.List.{List, [], ◌∷◌, ◌++◌}
use udp2p.Base.Tests.{Option-cases}
use udp2p.Base.Lists.{length, All}
use mathlib.Core.Option.{Option, none, some}
use native.Mathlib.Omega.{arith}

abbrev pub Dict {ℓ} : Type ℓ → Type ℓ → Type ℓ
Dict K V = List (K × V)

module _ {ℓ} {K V : Type ℓ} (dec : Discrete K) where
  unfoldable pub get : K → Dict K V → Option V
  get k [] = none
  get k ((j, v) ∷ m) = ite (dec j k) (some v) (get k m)

  unfoldable pub insert : K → V → Dict K V → Dict K V
  insert k v [] = (k, v) ∷ []
  insert k v ((j, w) ∷ m) = ite (dec j k) ((k, v) ∷ m) ((j, w) ∷ insert k v m)

  unfoldable pub remove : K → Dict K V → Dict K V
  remove k [] = []
  remove k ((j, w) ∷ m) = ite (dec j k) m ((j, w) ∷ remove k m)

  pub get-insert :
      (j k : K) (v : V) (m : Dict K V) → get j (insert k v m) ≡ ite (dec k j) (some v) (get j m)
  unfolding get insert
  get-insert j k v [] = refl
  get-insert j k v ((i, w) ∷ m) = ground (arith, get-insert j k v m)

  pub get-nil : (k : K) → get k [] ≡ none
  unfolding get
  get-nil k = refl

  pub get-cons_same : (j k : K) (v : V) (m : Dict K V) → j ≡ k → get k ((j, v) ∷ m) ≡ some v
  unfolding get
  get-cons_same j k v m e = if_pos (dec j k) e (some v) (get k m)

  pub get-cons_ne : (j k : K) (v : V) (m : Dict K V) → j ≢ k → get k ((j, v) ∷ m) ≡ get k m
  unfolding get
  get-cons_ne j k v m e = if_neg (dec j k) e (some v) (get k m)

  pub get-insert_same : (j k : K) (v : V) (m : Dict K V) → k ≡ j → get j (insert k v m) ≡ some v
  get-insert_same j k v m e = get-insert j k v m ∙ if_pos (dec k j) e (some v) (get j m)

  pub get-insert_ne : (j k : K) (v : V) (m : Dict K V) → k ≢ j → get j (insert k v m) ≡ get j m
  get-insert_ne j k v m e = get-insert j k v m ∙ if_neg (dec k j) e (some v) (get j m)

  -- `entry(k).or_insert(v)`.
  unfoldable pub or_insert : K → V → Dict K V → Dict K V
  or_insert k v m = elim (get k m) [ none ↦ insert k v m | some w ↦ m ]

  pub length-insert_new :
      (k : K) (v : V) (m : Dict K V) → get k m ≡ none → length (insert k v m) ≡ suc (length m)
  unfolding get insert
  length-insert_new k v [] h = refl
  length-insert_new k v ((j, w) ∷ m) h = elim (dec j k) [
    | yes p ↦ absurd (ground arith)
    | no p ↦ rw (if_neg _ p) (ap suc (length-insert_new k v m (ground arith)))
  ]

  pub All-insert {κ} :
      (P : K × V → Type κ) (k : K) (v : V) (m : Dict K V)
      → P (k, v)
      → All P m
      → All P (insert k v m)
  unfolding insert
  All-insert P k v [] p h = (p, tt)
  All-insert P k v ((j, w) ∷ m) p h = elim (dec j k) [
    | yes e ↦ rw (if_pos _ e) (p, h.1)
    | no e ↦ rw (if_neg _ e) (h.0, All-insert P k v m p h.1)
  ]

  pub All-get {κ} :
      (P : K × V → Type κ) (k : K) (v : V) (m : Dict K V) → All P m → get k m ≡ some v → P (k, v)
  unfolding get
  All-get P k v [] h e = absurd (cc)
  All-get P k v ((j, w) ∷ m) h e = elim (dec j k) [
    | yes p ↦
        let found : some w ≡ some v = rw (if_pos _ p) at e in
        let same : w ≡ v = cc found in subst P (λ i. (p i, same i)) h.0
    | no p ↦ All-get P k v m h.1 (rw (if_neg _ p) at e)
  ]

  pub All-remove {κ} : (P : K × V → Type κ) (k : K) (m : Dict K V) → All P m → All P (remove k m)
  unfolding remove
  All-remove P k [] h = tt
  All-remove P k ((j, w) ∷ m) h = elim (dec j k) [
    | yes e ↦ rw (if_pos _ e) h.1
    | no e ↦ rw (if_neg _ e) (h.0, All-remove P k m h.1)
  ]

  pub length-remove : (k : K) (m : Dict K V) → length (remove k m) ≤ length m
  unfolding remove
  length-remove k [] = omega arith
  length-remove k ((j, w) ∷ m) = ground (arith, length-remove k m)

  pub length-insert_pos : (k : K) (v : V) (m : Dict K V) → 1 ≤ length (insert k v m)
  unfolding insert
  length-insert_pos k v [] = omega arith
  length-insert_pos k v ((j, w) ∷ m) = ground arith

  pub get-append_last : (k : K) (v : V) (m : Dict K V) → get k (m ++ (k, v) ∷ []) ≢ none
  get-append_last k v [] e = let found : some v ≡ none = sym (get-cons_same k k v [] refl) ∙ e in cc
  get-append_last k v ((j, w) ∷ m) e = elim (dec j k) [
    | yes p ↦ let found : some w ≡ none = sym (get-cons_same j k w _ p) ∙ e in cc
    | no p ↦ get-append_last k v m (sym (get-cons_ne j k w _ p) ∙ e)
  ]

  pub get-or_insert_ne-none : (k : K) (v : V) (m : Dict K V) → get k (or_insert k v m) ≢ none
  unfolding or_insert
  get-or_insert_ne-none k v m e = elim (Option-cases (get k m)) [
    | inl missing ↦
        let clash : some v ≡ none =
          sym (get-insert_same k k v m refl) ∙ (rw (missing, or_insert) at e) in
        cc
    | inr (w, found) ↦ let clash : some w ≡ none = sym found ∙ (rw (found, or_insert) at e) in cc
  ]

  get-append_ne :
      (j k : K) (v : V) (m : Dict K V) → get k m ≢ none → get k (m ++ (j, v) ∷ []) ≢ none
  get-append_ne j k v [] h = absurd (h (get-nil k))
  get-append_ne j k v ((i, w) ∷ m) h = elim (dec i k) [
    | yes p ↦ λ e. let found : some w ≡ none = sym (get-cons_same i k w _ p) ∙ e in cc
    | no p ↦ λ e.
        get-append_ne j k v m (λ missing. h (get-cons_ne i k w m p ∙ missing))
          (sym (get-cons_ne i k w _ p) ∙ e)
  ]

  pub get-remove_ne : (j k : K) (m : Dict K V) → j ≢ k → get k (remove j m) ≡ get k m
  unfolding get remove
  get-remove_ne j k [] h = refl
  get-remove_ne j k ((i, w) ∷ m) h = ground (arith, get-remove_ne j k m h)

  -- A key moved to the back leaves every key there is.
  pub get-remove_append :
      (j k : K) (v : V) (m : Dict K V) → get k m ≢ none → get k (remove j m ++ (j, v) ∷ []) ≢ none
  get-remove_append j k v m h = elim (dec j k) [
    | yes p ↦
        subst (λ i. get i (remove j m ++ (j, v) ∷ []) ≢ none) p (get-append_last j v (remove j m))
    | no p ↦ get-append_ne j k v (remove j m) (λ missing. h (sym (get-remove_ne j k m p) ∙ missing))
  ]

  -- No key stands twice.
  abbrev pub IsDistinct : Dict K V → Type ℓ
  IsDistinct [] = Unit
  IsDistinct ((k, v) ∷ m) = (get k m ≡ none) × IsDistinct m

  pub get-remove_same : (k : K) (m : Dict K V) → IsDistinct m → get k (remove k m) ≡ none
  unfolding get remove
  get-remove_same k [] h = refl
  get-remove_same k ((j, w) ∷ m) h = elim (dec j k) [
    | yes p ↦ rw (if_pos _ p) (subst (λ i. get i m ≡ none) p h.0)
    | no p ↦ rw (if_neg _ p) (get-cons_ne j k w (remove k m) p ∙ get-remove_same k m h.1)
  ]

  get-remove_none : (j k : K) (m : Dict K V) → get k m ≡ none → get k (remove j m) ≡ none
  unfolding get remove
  get-remove_none j k [] h = refl
  get-remove_none j k ((i, w) ∷ m) h = elim (dec i k) [
    | yes p ↦ let clash : some w ≡ none = sym (get-cons_same i k w m p) ∙ h in cc
    | no p ↦
        let rest = sym (get-cons_ne i k w m p) ∙ h in
        elim (dec i j) [
          | yes q ↦ rw (if_pos _ q) rest
          | no q ↦ rw (if_neg _ q) (get-cons_ne i k w (remove j m) p ∙ get-remove_none j k m rest)
        ]
  ]

  pub IsDistinct-remove : (k : K) (m : Dict K V) → IsDistinct m → IsDistinct (remove k m)
  unfolding remove
  IsDistinct-remove k [] h = tt
  IsDistinct-remove k ((j, w) ∷ m) h = elim (dec j k) [
    | yes p ↦ rw (if_pos _ p) h.1
    | no p ↦ rw (if_neg _ p) (get-remove_none k j m h.0, IsDistinct-remove k m h.1)
  ]

  insert-IsDistinct : (k : K) (v : V) (m : Dict K V) → IsDistinct m → IsDistinct (insert k v m)
  unfolding insert
  insert-IsDistinct k v [] h = (get-nil k, tt)
  insert-IsDistinct k v ((j, w) ∷ m) h = elim (dec j k) [
    | yes p ↦ rw (if_pos _ p) (subst (λ i. get i m ≡ none) p h.0, h.1)
    | no p ↦
        rw (if_neg _ p) (get-insert_ne j k v m (λ e. p (sym e)) ∙ h.0, insert-IsDistinct k v m h.1)
  ]

  pub or_insert-IsDistinct :
      (k : K) (v : V) (m : Dict K V) → IsDistinct m → IsDistinct (or_insert k v m)
  unfolding or_insert
  or_insert-IsDistinct k v m h = elim (Option-cases (get k m)) [
    | inl missing ↦ rw (missing, or_insert) (insert-IsDistinct k v m h)
    | inr (w, found) ↦ rw (found, or_insert) h
  ]
