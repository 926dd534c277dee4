-- ===== src/State/Table.antt =====
-- SQL tables as lists of rows, in the order of insertion, and the statements that the store makes.
use onchain_strategy_mcp.Prelude.{
  ℕ, suc, Bool, true, false, not, Option, none, some, List, [], ◌∷◌, ◌++◌, ◌≡◌, refl, ◌↔◌, inl, inr,
  arith, if◌then◌else◌, any, All, is_some, Bool-cases,
}

module _ {A : Type 0} where
  -- `SELECT … WHERE p LIMIT 1`
  abbrev pub find : (A → Bool) → List A → Option A
  find p [] = none
  find p (x ∷ xs) = if p x then some x else find p xs

  -- `SELECT … WHERE p`
  abbrev pub filter : (A → Bool) → List A → List A
  filter p [] = []
  filter p (x ∷ xs) = let rest = filter p xs in if p x then x ∷ rest else rest

  -- `SELECT COUNT(*) … WHERE p`
  abbrev pub count : (A → Bool) → List A → ℕ
  count p [] = 0
  count p (x ∷ xs) = let rest = count p xs in if p x then suc rest else rest

  -- `UPDATE … SET f WHERE p`
  abbrev pub update : (A → Bool) → (A → A) → List A → List A
  update p f [] = []
  update p f (x ∷ xs) = (if p x then f x else x) ∷ update p f xs

  -- `DELETE … WHERE p`
  abbrev pub delete : (A → Bool) → List A → List A
  delete p l = filter (λ x. not (p x)) l

  pub find-append :
      (p : A → Bool) (xs ys : List A)
      → find p (xs ++ ys) ≡ (if is_some (find p xs) then find p xs else find p ys)
  find-append p [] ys = refl
  find-append p (x ∷ xs) ys = ground (arith, find-append p xs ys)

  -- No row matches exactly when the count is 0, which is how the code finds what an update hit.
  pub any-count : (p : A → Bool) (xs : List A) → (count p xs ≡ 0) ↔ (any p xs ≡ false)
  any-count p [] = ((λ e. refl), λ e. refl)
  any-count p (x ∷ xs) = let (there, back) = any-count p xs in ground (arith, there, back)

  pub any-find : (p : A → Bool) (xs : List A) → is_some (find p xs) ≡ any p xs
  any-find p [] = refl
  any-find p (x ∷ xs) = ground (arith, any-find p xs)

  -- What an update makes of one row.
  abbrev pub set_if : (A → Bool) → (A → A) → Option A → Option A
  set_if p f none = none
  set_if p f (some x) = some (if p x then f x else x)

  -- An update that keeps what `q` tests commutes with the search for `q`.
  pub find-update :
      (q p : A → Bool) (f : A → A) (xs : List A)
      → ((x : A) → q (f x) ≡ q x)
      → find q (update p f xs) ≡ set_if p f (find q xs)
  find-update q p f [] h = refl
  find-update q p f (x ∷ xs) h = ground (arith, find-update q p f xs h, h x)

  pub All-update :
      (P : A → Type 0) (p : A → Bool) (f : A → A) (xs : List A)
      → ((x : A) → P x → p x ≡ true → P (f x))
      → All P xs
      → All P (update p f xs)
  All-update P p f [] h a = tt
  All-update P p f (x ∷ xs) h a = elim (Bool-cases (p x)) [
    | inl hit ↦ rw hit (h x a.0 hit, All-update P p f xs h a.1)
    | inr miss ↦ rw miss (a.0, All-update P p f xs h a.1)
  ]

  -- An update of rows that `count` did not find changes nothing.
  pub update_of_count_zero :
      (p : A → Bool) (f : A → A) (xs : List A) → count p xs ≡ 0 → update p f xs ≡ xs
  update_of_count_zero p f [] h = refl
  update_of_count_zero p f (x ∷ xs) h = ground (arith, update_of_count_zero p f xs)

  abbrev pub Holds : (A → Type 0) → Option A → Type 0
  Holds P none = Unit
  Holds P (some x) = P x

  -- What holds of every row holds of the row that is found.
  pub find-All : (P : A → Type 0) (p : A → Bool) (xs : List A) → All P xs → Holds P (find p xs)
  find-All P p [] h = tt
  find-All P p (x ∷ xs) h = elim (Bool-cases (p x)) [
    | inl hit ↦ rw hit h.0
    | inr miss ↦ rw miss (find-All P p xs h.1)
  ]
