-- ===== src/Base/Panics.antt =====
-- A Rust expression that may panic: an unwrap of `None`, a slice or an index out of range, a key
-- that a map lacks.
use mathlib.Core.Path.{◌≡◌, refl, subst, ap}
use mathlib.Core.Option.{Option, none, some}
use mathlib.Core.List.{List, [], ◌∷◌, ◌++◌}

pub data Outcome {ℓ} (A : Type ℓ) : Type ℓ where
  ok : A → Outcome A
  panic : Outcome A

infixl 5 ◌>>=◌
abbrev pub ◌>>=◌ {ℓ κ} : {A : Type ℓ} {B : Type κ} → Outcome A → (A → Outcome B) → Outcome B
ok a >>= f = f a
panic >>= f = panic

abbrev pub unwrap {ℓ} : {A : Type ℓ} → Option A → Outcome A
unwrap none = panic
unwrap (some a) = ok a

-- `for_each` over a list with a state that each round may panic on.
unfoldable pub for_each {ℓ κ} :
    {A : Type ℓ} {S : Type κ} → (A → S → Outcome S) → List A → S → Outcome S
for_each f [] s = ok s
for_each f (x ∷ xs) s = f x s >>= for_each f xs

-- A chain that returns has a first part that returns, and goes on with what that gave.
pub >>=-eq-ok {ℓ κ} :
    {A : Type ℓ} {B : Type κ} (part : Outcome A) (next : A → Outcome B) {result : B}
    → (part >>= next) ≡ ok result
    → (given : A) × (part ≡ ok given) × (next given ≡ ok result)
>>=-eq-ok panic next returned = cc
>>=-eq-ok (ok given) next returned = (given, refl, returned)

pub for_each-append {ℓ κ} :
    {A : Type ℓ} {S : Type κ} (f : A → S → Outcome S) (xs ys : List A) (s t : S)
    → for_each f xs s ≡ ok t
    → for_each f (xs ++ ys) s ≡ for_each f ys t
unfolding for_each
for_each-append f [] ys s t e = let same : s ≡ t = cc e in ap (for_each f ys) same
for_each-append f (x ∷ xs) ys s t e =
    let (u, first, rest) = >>=-eq-ok (f x s) (for_each f xs) e in
    rw first (for_each-append f xs ys u t rest)

-- What every round keeps, the loop keeps.
pub for_each-inv {ℓ κ μ} :
    {A : Type ℓ} {S : Type κ} (P : S → Type μ) (f : A → S → Outcome S)
    → ((x : A) (s t : S) → P s → f x s ≡ ok t → P t)
    → (xs : List A) (s t : S) → P s
    → for_each f xs s ≡ ok t
    → P t
unfolding for_each
for_each-inv P f keep [] s t p e = subst P (cc) p
for_each-inv P f keep (x ∷ xs) s t p e =
    let (u, first, rest) = >>=-eq-ok (f x s) (for_each f xs) e in
    for_each-inv P f keep xs u t (keep x s u p first) rest

pub >>=-panic {ℓ κ} :
    {A : Type ℓ} {B : Type κ} (m : Outcome A) (f : A → Outcome B)
    → ((a : A) → f a ≡ panic)
    → (m >>= f) ≡ panic
>>=-panic (ok a) f h = h a
>>=-panic panic f h = refl

pub unwrap-eq-ok {ℓ} : {A : Type ℓ} (o : Option A) {a : A} → unwrap o ≡ ok a → o ≡ some a
unwrap-eq-ok none h = cc
unwrap-eq-ok (some x) h = cc

-- Two continuations that agree on what is returned make the same outcome.
pub >>=-congr {ℓ κ} :
    {A : Type ℓ} {B : Type κ} (m : Outcome A) {f g : A → Outcome B}
    → ((a : A) → m ≡ ok a → f a ≡ g a)
    → (m >>= f) ≡ (m >>= g)
>>=-congr (ok a) h = h a refl
>>=-congr panic h = refl
