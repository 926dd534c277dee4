-- ===== src/Prelude/Result.antt =====
-- Results of code that can fail, and the chain of such code.
use mathlib.Core.Path.{◌≡◌, refl}
use mathlib.Core.Bool.{Bool, true, false}
use native.Mathlib.Omega.{arith}
use mathlib.Core.List.{List, [], ◌∷◌}

pub data Result {ℓ κ} (E : Type κ) (A : Type ℓ) : Type (ℓ ⊔ κ) where
  ok : A → Result E A
  err : E → Result E A

infixl 5 ◌>>=◌ ◌>>◌
abbrev pub ◌>>=◌ {ℓ κ ι} :
    {E : Type ι} {A : Type ℓ} {B : Type κ} → Result E A → (A → Result E B) → Result E B
ok a >>= f = f a
err e >>= f = err e

abbrev pub ◌>>◌ {ℓ ι} : {E : Type ι} {B : Type ℓ} → Result E (Unit {0}) → Result E B → Result E B
m >> k = m >>= λ _. k

abbrev pub guard {ι} : {E : Type ι} → Bool → E → Result E (Unit {0})
guard true e = ok tt
guard false e = err e

-- `iter().map(f).collect::<Result<Vec<_>, _>>()`
abbrev pub collect {ℓ κ ι} :
    {E : Type ι} {A : Type ℓ} {B : Type κ} → (A → Result E B) → List A → Result E (List B)
collect f [] = ok []
collect f (x ∷ xs) = elim (f x) [
  | err e ↦ err e
  | ok y ↦ elim (collect f xs) [ err e ↦ err e | ok ys ↦ ok (y ∷ ys) ]
]

-- A value out of a chain came out of its last step.
pub bind_ok {ℓ κ ι} :
    {E : Type ι} {A : Type ℓ} {B : Type κ} (m : Result E A) (f : A → Result E B) {b : B}
    → (m >>= f) ≡ ok b
    → (a : A) × (m ≡ ok a) × (f a ≡ ok b)
bind_ok (ok a) f h = (a, refl, h)
bind_ok {A} {B} (err e) f h = absurd (ok≢err h)
  where
    ok≢err : {b : B} → err e ≡ ok b → ⊥
    ok≢err q = cc

pub guard_ok {ι} : {E : Type ι} (c : Bool) (e : E) → guard c e ≡ ok tt → c ≡ true
guard_ok true e h = refl
guard_ok false e h = cc h

pub collect_cons {ℓ κ ι} :
    {E : Type ι} {A : Type ℓ} {B : Type κ} (f : A → Result E B) (x : A) (xs : List A) (y : B)
    (ys : List B)
    → f x ≡ ok y
    → collect f xs ≡ ok ys
    → collect f (x ∷ xs) ≡ ok (y ∷ ys)
collect_cons f x xs y ys first rest = cc (first, rest)

-- A list that was collected has its first value from the first element.
pub collect_inverse {ℓ κ ι} :
    {E : Type ι} {A : Type ℓ} {B : Type κ} (f : A → Result E B) (x : A) (xs : List A) (y : B)
    (ys : List B)
    → collect f (x ∷ xs) ≡ ok (y ∷ ys)
    → (f x ≡ ok y) × (collect f xs ≡ ok ys)
collect_inverse f x xs y ys h = (ground (arith, h), ground (arith, h))
