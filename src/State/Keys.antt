-- ===== src/State/Keys.antt =====
-- Tables whose rows have a key: the primary keys of the store, and what each statement keeps of them.
use onchain_strategy_mcp.Prelude.{
  String, Bool, true, false, ◌||◌, List, [], ◌∷◌, ◌++◌, ◌≡◌, refl, inl, inr, ◌==◌, string_eq, any,
  All, arith, Bool-cases,
}
use text.Mathlib.TextEquality.{eq_iff}
use onchain_strategy_mcp.State.Table.{update, delete, filter}

module _ {A : Type 0} where
  pub any-append : (p : A → Bool) (xs ys : List A) → any p (xs ++ ys) ≡ (any p xs || any p ys)
  any-append p [] ys = refl
  any-append p (x ∷ xs) ys = ground (arith, any-append p xs ys)

  -- An update that keeps what `q` tests keeps the search for `q`.
  pub any-update :
      (q p : A → Bool) (f : A → A) (xs : List A)
      → ((x : A) → q (f x) ≡ q x)
      → any q (update p f xs) ≡ any q xs
  any-update q p f [] h = refl
  any-update q p f (x ∷ xs) h = ground (arith, any-update q p f xs h, h x)

  -- Rows that `q` finds and that are not deleted are still found.
  pub any-delete-kept :
      (q p : A → Bool) (xs : List A)
      → ((x : A) → q x ≡ true → p x ≡ false)
      → any q (delete p xs) ≡ any q xs
  any-delete-kept q p [] h = refl
  any-delete-kept q p (x ∷ xs) h = ground (arith, any-delete-kept q p xs h, h x)

  pub any-delete : (p : A → Bool) (xs : List A) → any p (delete p xs) ≡ false
  any-delete p [] = refl
  any-delete p (x ∷ xs) = ground (arith, any-delete p xs)

  pub any-delete-none :
      (q p : A → Bool) (xs : List A) → any q xs ≡ false → any q (delete p xs) ≡ false
  any-delete-none q p [] h = refl
  any-delete-none q p (x ∷ xs) h = ground (arith, any-delete-none q p xs)

  pub All-filter : (P : A → Type 0) (p : A → Bool) (xs : List A) → All P xs → All P (filter p xs)
  All-filter P p [] h = tt
  All-filter P p (x ∷ xs) h = elim (Bool-cases (p x)) [
    | inl kept ↦ rw kept (h.0, All-filter P p xs h.1)
    | inr dropped ↦ rw dropped (All-filter P p xs h.1)
  ]

  -- A property may use what the filter tested.
  pub All-filter-with :
      (P Q : A → Type 0) (p : A → Bool) (xs : List A)
      → ((x : A) → p x ≡ true → P x → Q x)
      → All P xs
      → All Q (filter p xs)
  All-filter-with P Q p [] f h = tt
  All-filter-with P Q p (x ∷ xs) f h = elim (Bool-cases (p x)) [
    | inl kept ↦ rw kept (f x kept h.0, All-filter-with P Q p xs f h.1)
    | inr dropped ↦ rw dropped (All-filter-with P Q p xs f h.1)
  ]

  pub All-map : (P Q : A → Type 0) (xs : List A) → ((x : A) → P x → Q x) → All P xs → All Q xs
  All-map P Q [] f h = tt
  All-map P Q (x ∷ xs) f h = (f x h.0, All-map P Q xs f h.1)

module _ {A : Type 0} (key : A → String) where
  abbrev pub has_key : String → A → Bool
  has_key k x = key x == k

  -- Every key stands in one row at most.
  abbrev pub UniqueKeys : List A → Type 0
  UniqueKeys [] = Unit
  UniqueKeys (x ∷ xs) = (any (has_key (key x)) xs ≡ false) × UniqueKeys xs

  pub UniqueKeys-append :
      (xs : List A) (y : A)
      → UniqueKeys xs
      → any (has_key (key y)) xs ≡ false
      → UniqueKeys (xs ++ y ∷ [])
  UniqueKeys-append [] y u h = (refl, tt)
  UniqueKeys-append (x ∷ xs) y u h = (
    rw (any-append (has_key (key x)) xs (y ∷ []))
        (ground (arith, eq_iff (key x) (key y), eq_iff (key y) (key x))),
    UniqueKeys-append xs y u.1 (ground arith),
  )

  pub UniqueKeys-update :
      (p : A → Bool) (f : A → A) (xs : List A)
      → ((x : A) → key (f x) ≡ key x)
      → UniqueKeys xs
      → UniqueKeys (update p f xs)
  UniqueKeys-update p f [] h u = tt
  UniqueKeys-update p f (x ∷ xs) h u =
      let still : any (has_key (key x)) (update p f xs) ≡ any (has_key (key x)) xs =
        any-update (has_key (key x)) p f xs (λ y. rw (h y) refl) in
      let rest = UniqueKeys-update p f xs h u.1 in
      elim (Bool-cases (p x)) [
        | inl hit ↦ rw (hit, h x, still) (u.0, rest)
        | inr miss ↦ rw (miss, still) (u.0, rest)
      ]

  pub UniqueKeys-filter : (p : A → Bool) (xs : List A) → UniqueKeys xs → UniqueKeys (filter p xs)
  UniqueKeys-filter p [] u = tt
  UniqueKeys-filter p (x ∷ xs) u = elim (Bool-cases (p x)) [
    | inl kept ↦ rw kept (none_left (key x) xs u.0, UniqueKeys-filter p xs u.1)
    | inr dropped ↦ rw dropped (UniqueKeys-filter p xs u.1)
  ]
    where
      none_left :
          (k : String) (ys : List A)
          → any (has_key k) ys ≡ false
          → any (has_key k) (filter p ys) ≡ false
      none_left k [] h = refl
      none_left k (y ∷ ys) h = ground (arith, none_left k ys)
