-- ===== src/Prelude/Canonical.antt =====
-- The order of texts, and JSON with the fields of its objects in that order: `canonicalize` of
-- crates/executor-state/src/triggers.rs.
use mathlib.Core.Path.{◌≡◌, refl, ap, ◌∙◌}
use mathlib.Core.Logic.{◌⊎◌, inl, inr}
use mathlib.Core.Bool.{Bool, true, false, ◌&&◌, ◌||◌}
use mathlib.Core.List.{[], ◌∷◌}
use native.Mathlib.Omega.{arith}
use onchain_strategy_mcp.Prelude.Tests.{ltb, nat_beq, if◌then◌else◌, Bool-cases}
use onchain_strategy_mcp.Prelude.Text.{Text, text_beq}
use onchain_strategy_mcp.Prelude.Json.{Json, Items, Fields, nil, cons, end, field}

-- `str::cmp`, by bytes.
abbrev pub text_ltb : Text → Text → Bool
text_ltb [] [] = false
text_ltb [] (y ∷ ys) = true
text_ltb (x ∷ xs) [] = false
text_ltb (x ∷ xs) (y ∷ ys) = ltb x y || nat_beq x y && text_ltb xs ys

-- The place of a field among fields in order.
abbrev pub insert_field : Text → Json → Fields → Fields
insert_field n v end = field n v end
insert_field n v (field m w rest) =
    let later = field m w (insert_field n v rest) in
    if text_ltb m n then later else field n v (field m w rest)

abbrev mutual
  pub canonicalize : Json → Json
  canonicalize (Json.object o) = Json.object (canonical_fields o)
  canonicalize (Json.array l) = Json.array (canonical_items l)
  canonicalize Json.null = Json.null
  canonicalize (Json.bool b) = Json.bool b
  canonicalize (Json.number n) = Json.number n
  canonicalize (Json.string s) = Json.string s

  pub canonical_items : Items → Items
  canonical_items nil = nil
  canonical_items (cons j js) = cons (canonicalize j) (canonical_items js)

  pub canonical_fields : Fields → Fields
  canonical_fields end = end
  canonical_fields (field n v rest) = insert_field n (canonicalize v) (canonical_fields rest)

pub text_ltb_asym : (a b : Text) → text_ltb a b ≡ true → text_ltb b a ≡ false
text_ltb_asym [] [] h = refl
text_ltb_asym [] (y ∷ b) h = refl
text_ltb_asym (x ∷ a) [] h = ground (arith, h)
text_ltb_asym (x ∷ a) (y ∷ b) h = ground (arith, text_ltb_asym a b, h)

pub text_ltb_total :
    (a b : Text) → text_beq a b ≡ false → text_ltb a b ≡ false → text_ltb b a ≡ true
text_ltb_total [] [] h k = ground (arith, h)
text_ltb_total [] (y ∷ b) h k = ground (arith, k)
text_ltb_total (x ∷ a) [] h k = refl
text_ltb_total (x ∷ a) (y ∷ b) h k = ground (arith, text_ltb_total a b, h, k)

-- What is not after the first and before the second.
text_ltb_between : (k n m : Text) → text_ltb k n ≡ false → text_ltb k m ≡ true → text_ltb n m ≡ true
text_ltb_between k [] [] h l = ground (arith, h, l)
text_ltb_between [] [] (z ∷ m) h l = refl
text_ltb_between (x ∷ k) [] (z ∷ m) h l = refl
text_ltb_between [] (y ∷ n) m h l = ground (arith, h)
text_ltb_between (x ∷ k) (y ∷ n) [] h l = ground (arith, l)
text_ltb_between (x ∷ k) (y ∷ n) (z ∷ m) h l = ground (arith, text_ltb_between k n m, h, l)

-- Of two different texts one comes first.
text_ltb_order :
    (m n : Text)
    → text_beq n m ≡ false
    → ((text_ltb m n ≡ true) × (text_ltb n m ≡ false))
      ⊎ ((text_ltb m n ≡ false) × (text_ltb n m ≡ true))
text_ltb_order m n apart = elim (Bool-cases (text_ltb n m)) [
  | inl less ↦ inr (text_ltb_asym n m less, less)
  | inr not_less ↦ inl (text_ltb_total n m apart not_less, not_less)
]

-- Two fields with different names find their places in either order.
insert_field_comm :
    (n m : Text) (v w : Json) (o : Fields)
    → text_beq n m ≡ false
    → insert_field n v (insert_field m w o) ≡ insert_field m w (insert_field n v o)
insert_field_comm n m v w end apart = elim (text_ltb_order m n apart) [
  | inl (mn, nm) ↦ rw (mn, nm) refl
  | inr (mn, nm) ↦ rw (mn, nm) refl
]
insert_field_comm n m v w (field k u o) apart = elim (Bool-cases (text_ltb k m)) [
  | inl km ↦ elim (Bool-cases (text_ltb k n)) [
    | inl kn ↦ rw (km, kn, km) (ap (field k u) (insert_field_comm n m v w o apart))
    | inr kn ↦ rw (km, kn, text_ltb_between k n m kn km, km) refl
  ]
  | inr km ↦ elim (Bool-cases (text_ltb k n)) [
    | inl kn ↦ rw (km, kn, text_ltb_between k m n km kn, km) refl
    | inr kn ↦ elim (text_ltb_order m n apart) [
      | inl (mn, nm) ↦ rw (km, kn, mn, nm) refl
      | inr (mn, nm) ↦ rw (km, kn, mn, nm, km) refl
    ]
  ]
]

-- The same value, the fields of its objects in another order.
mutual
  pub data SameJson : Json → Json → Type 0 where
    same : (j : Json) → SameJson j j
    arrays : {l m : Items} → SameItems l m → SameJson (Json.array l) (Json.array m)
    objects : {o p : Fields} → SameFields o p → SameJson (Json.object o) (Json.object p)

  pub data SameItems : Items → Items → Type 0 where
    none_left : SameItems nil nil
    both :
        {i j : Json} {l m : Items} → SameJson i j → SameItems l m → SameItems (cons i l) (cons j m)

  pub data SameFields : Fields → Fields → Type 0 where
    no_fields : SameFields end end
    one :
        (n : Text) {i j : Json} {o p : Fields}
        → SameJson i j
        → SameFields o p
        → SameFields (field n i o) (field n j p)
    swap :
        (n m : Text) (v w : Json) (o : Fields)
        → text_beq n m ≡ false
        → SameFields (field n v (field m w o)) (field m w (field n v o))
    chain : {o p q : Fields} → SameFields o p → SameFields p q → SameFields o q

-- The order of the fields does not matter.
mutual
  pub canonicalize_same : {i j : Json} → SameJson i j → canonicalize i ≡ canonicalize j
  canonicalize_same (same j) = refl
  canonicalize_same (arrays h) = ap Json.array (canonical_items_same h)
  canonicalize_same (objects h) = ap Json.object (canonical_fields_same h)

  canonical_items_same : {l m : Items} → SameItems l m → canonical_items l ≡ canonical_items m
  canonical_items_same none_left = refl
  canonical_items_same (both h k) = cc (canonicalize_same h, canonical_items_same k)

  canonical_fields_same : {o p : Fields} → SameFields o p → canonical_fields o ≡ canonical_fields p
  canonical_fields_same no_fields = refl
  canonical_fields_same (one n h k) =
      let value = canonicalize_same h in let rest = canonical_fields_same k in cc (value, rest)
  canonical_fields_same (swap n m v w o apart) =
      insert_field_comm n m (canonicalize v) (canonicalize w) (canonical_fields o) apart
  canonical_fields_same (chain h k) = canonical_fields_same h ∙ canonical_fields_same k
