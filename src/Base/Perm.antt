-- ===== src/Base/Perm.antt =====
-- What does not depend on the order of a list.
use mathlib.Core.Path.{◌≡◌, refl, sym, subst, ap, ◌∙◌}
use mathlib.Core.Logic.{◌≢◌}
use mathlib.Core.List.{List, [], ◌∷◌, Permᴰ}
use Prim.Native.Nat.{suc}
use udp2p.Base.Lists.{All, length}

pub All-perm {ℓ κ} :
    {A : Type ℓ} (P : A → Type κ) {xs ys : List A} → Permᴰ xs ys → All P xs → All P ys
All-perm P Permᴰ.nil h = tt
All-perm P (Permᴰ.cons e p) h = (subst P e h.0, All-perm P p h.1)
All-perm P (Permᴰ.swap e d) h = (subst P d h.1.0, (subst P e h.0, h.1.1))
All-perm P (Permᴰ.trans p q) h = All-perm P q (All-perm P p h)

pub length-perm {ℓ} : {A : Type ℓ} {xs ys : List A} → Permᴰ xs ys → length xs ≡ length ys
length-perm Permᴰ.nil = refl
length-perm (Permᴰ.cons e p) = ap suc (length-perm p)
length-perm (Permᴰ.swap e d) = refl
length-perm (Permᴰ.trans p q) = length-perm p ∙ length-perm q

module _ {ℓ κ} {A : Type ℓ} {B : Type κ} (f : A → B) where
  -- No two members have one image.
  abbrev pub Apart : List A → Type κ
  Apart [] = Unit
  Apart (x ∷ xs) = All (λ y. f y ≢ f x) xs × Apart xs

  pub Apart-perm : {xs ys : List A} → Permᴰ xs ys → Apart xs → Apart ys
  Apart-perm Permᴰ.nil h = tt
  Apart-perm (Permᴰ.cons {l₂ = ys} e p) h =
      (subst (λ b. All (λ y. f y ≢ f b) ys) e (All-perm _ p h.0), Apart-perm p h.1)
  Apart-perm (Permᴰ.swap {l = l} e d) h = (
    (λ q. h.0.0 (ap f d ∙ sym q ∙ sym (ap f e)), subst (λ b. All (λ y. f y ≢ f b) l) d h.1.0),
    (subst (λ b. All (λ y. f y ≢ f b) l) e h.0.1, h.1.1),
  )
  Apart-perm (Permᴰ.trans p q) h = Apart-perm q (Apart-perm p h)
