-- ===== src/PolicyDiff/Patch/Maps.antt =====
-- Objects as maps: the keys in order, the values that they give, and the keys that the walk visits.
use onchain_strategy_mcp.Prelude.{
  true, false, ◌||◌, none, some, List, [], ◌∷◌, ◌++◌, ◌≡◌, refl, sym, ap, ◌∙◌, arith, Bool-cases,
  inl, inr, contains, is_some, ◌==◌, ==_refl, subst,
}
use mathlib.Core.Bool.{false≢true}
use onchain_strategy_mcp.Prelude.Text.{Text, text_eq, text_beq, text_beq_iff}
use onchain_strategy_mcp.Prelude.Canonical.{text_ltb, text_ltb_asym}
use onchain_strategy_mcp.Prelude.Json.{Json, Fields, end, field, lookup}
use onchain_strategy_mcp.State.Keys.{any-append}
use onchain_strategy_mcp.PolicyDiff.{keys}
use onchain_strategy_mcp.PolicyDiff.Granted.{contains-keys}
use onchain_strategy_mcp.PolicyDiff.Patch.{insert_key, sort_keys, drop_equal, dedup, keys_of_both}

-- The map of an object lists its keys in order, each once.
abbrev pub AllAfter : Text → Fields → Type 0
AllAfter n end = Unit
AllAfter n (field m v rest) = (text_ltb n m ≡ true) × AllAfter n rest

abbrev pub Sorted : Fields → Type 0
Sorted end = Unit
Sorted (field n v rest) = AllAfter n rest × Sorted rest

abbrev mutual
  pub IsMap : Json → Type 0
  IsMap (Json.object o) = Sorted o × AllMaps o
  IsMap Json.null = Unit
  IsMap (Json.bool b) = Unit
  IsMap (Json.number n) = Unit
  IsMap (Json.string s) = Unit
  IsMap (Json.array l) = Unit

  pub AllMaps : Fields → Type 0
  AllMaps end = Unit
  AllMaps (field n v rest) = IsMap v × AllMaps rest

pub AllMaps-lookup : (k : Text) (o : Fields) (v : Json) → AllMaps o → lookup k o ≡ some v → IsMap v
AllMaps-lookup k end v h e = cc e
AllMaps-lookup k (field n w rest) v h e = elim (Bool-cases (n == k)) [
  | inl hit ↦ subst IsMap (some_injective (rw hit at e)) h.0
  | inr miss ↦ AllMaps-lookup k rest v h.1 (rw miss at e)
]
  where
    some_injective : {i j : Json} → some i ≡ some j → i ≡ j
    some_injective q = cc q

lookup-AllAfter :
    (m k : Text) (o : Fields) → AllAfter m o → text_ltb m k ≡ false → lookup k o ≡ none
lookup-AllAfter m k end h low = refl
lookup-AllAfter m k (field n v rest) h low = elim (Bool-cases (n == k)) [
  | inl hit ↦
      absurd
        (false≢true (sym low ∙ subst (λ t. text_ltb m t ≡ true) ((text_beq_iff n k).0 hit) h.0))
  | inr miss ↦ rw miss (lookup-AllAfter m k rest h.1 low)
]

text_ltb_irrefl : (t : Text) → text_ltb t t ≡ false
text_ltb_irrefl t = elim (Bool-cases (text_ltb t t)) [
  | inl less ↦ text_ltb_asym t t less
  | inr not_less ↦ not_less
]

lookup_first : (n : Text) (v : Json) (o : Fields) → lookup n (field n v o) ≡ some v
lookup_first n v o = rw (==_refl n) refl

lookup_other :
    (n k : Text) (v : Json) (o : Fields)
    → text_beq n k ≡ false
    → lookup k (field n v o) ≡ lookup k o
lookup_other n k v o apart = rw apart refl

pub none≢some : (v : Json) → none ≡ some v → ⊥
none≢some v e = cc e

text_beq_sym : (a b : Text) → text_beq a b ≡ false → text_beq b a ≡ false
text_beq_sym a b e = ground (arith, e, text_beq_iff a b, text_beq_iff b a)

-- The first key of one map is a key of the other.
first_missing :
    (n m : Text) (v w : Json) (a b : Fields)
    → text_beq n m ≡ false
    → lookup n b ≡ none
    → lookup n (field n v a) ≡ lookup n (field m w b)
    → ⊥
first_missing n m v w a b apart missing same = none≢some v (
    sym missing
    ∙ sym (lookup_other m n w b (text_beq_sym n m apart))
    ∙ sym same
    ∙ lookup_first n v a)

-- The values of the rest, when the first keys are the same.
rest_same :
    (n k : Text) (v w : Json) (a b : Fields)
    → AllAfter n a
    → AllAfter n b
    → lookup k (field n v a) ≡ lookup k (field n w b)
    → lookup k a ≡ lookup k b
rest_same n k v w a b aa ab same = elim (Bool-cases (text_beq n k)) [
  | inl hit ↦
      let low : text_ltb n k ≡ false =
        subst (λ t. text_ltb n t ≡ false) ((text_beq_iff n k).0 hit) (text_ltb_irrefl n) in
      lookup-AllAfter n k a aa low ∙ sym (lookup-AllAfter n k b ab low)
  | inr apart ↦ sym (lookup_other n k v a apart) ∙ same ∙ lookup_other n k w b apart
]

field_same :
    (n m : Text) (v w : Json) (a b : Fields)
    → n ≡ m
    → lookup n (field n v a) ≡ lookup n (field m w b)
    → a ≡ b
    → field n v a ≡ field m w b
field_same n m v w a b e same rest =
    let value : v ≡ w = some_injective (
      sym (lookup_first n v a)
      ∙ same
      ∙ subst (λ t. lookup n (field t w b) ≡ some w) e (lookup_first n w b)) in
    cc (e, value, rest)
  where
    some_injective : some v ≡ some w → v ≡ w
    some_injective q = cc q

-- Maps that give the same values are the same.
pub Sorted-same :
    (a b : Fields) → Sorted a → Sorted b → ((k : Text) → lookup k a ≡ lookup k b) → a ≡ b
Sorted-same end end sa sb h = refl
Sorted-same end (field m w b) sa sb h = absurd (none≢some w (h m ∙ lookup_first m w b))
Sorted-same (field n v a) end sa sb h = absurd (none≢some v (sym (h n) ∙ lookup_first n v a))
Sorted-same (field n v a) (field m w b) sa sb h = elim (Bool-cases (text_beq n m)) [
  | inl same ↦
      let e : n ≡ m = (text_beq_iff n m).0 same in
      let aligned : AllAfter n b = subst (λ t. AllAfter t b) (sym e) sb.0 in
      let values : (k : Text) → lookup k (field n v a) ≡ lookup k (field n w b) =
        subst (λ t. (k : Text) → lookup k (field n v a) ≡ lookup k (field t w b)) (sym e) h in
      field_same n m v w a b e (h n)
        (Sorted-same a b sa.1 sb.1 (λ k. rest_same n k v w a b sa.0 aligned (values k)))
  | inr apart ↦ elim (Bool-cases (text_ltb m n)) [
    | inr not_less ↦
        absurd (first_missing n m v w a b apart (lookup-AllAfter m n b sb.0 not_less) (h n))
    | inl less ↦ absurd (
        first_missing m n w v b a (text_beq_sym n m apart)
          (lookup-AllAfter n m a sa.0 (text_ltb_asym m n less)) (sym (h m)))
  ]
]

contains-insert_key :
    (k j : Text) (xs : List Text) → contains (insert_key k xs) j ≡ (k == j || contains xs j)
contains-insert_key k j [] = refl
contains-insert_key k j (x ∷ xs) = ground (arith, contains-insert_key k j xs)

contains-sort_keys : (j : Text) (xs : List Text) → contains (sort_keys xs) j ≡ contains xs j
contains-sort_keys j [] = refl
contains-sort_keys j (x ∷ xs) =
    contains-insert_key x j (sort_keys xs) ∙ ap (λ b. x == j || b) (contains-sort_keys j xs)

contains-drop_equal :
    (k j : Text) (xs : List Text) → contains (drop_equal k xs) j ≡ (k == j || contains xs j)
contains-drop_equal k j [] = refl
contains-drop_equal k j (x ∷ xs) = elim (Bool-cases (k == x)) [
  | inr apart ↦ rw apart refl
  | inl same ↦
      let e : k ≡ x = (text_beq_iff k x).0 same in
      let both : text_beq k j ≡ text_beq x j = ap (λ t. text_beq t j) e in
      ground (arith, same, both)
]

contains-dedup : (j : Text) (xs : List Text) → contains (dedup xs) j ≡ contains xs j
contains-dedup j [] = refl
contains-dedup j (x ∷ xs) =
    contains-drop_equal x j (dedup xs) ∙ ap (λ b. x == j || b) (contains-dedup j xs)

-- The keys of either map are visited.
pub contains-keys_of_both :
    (j : Text) (a b : Fields)
    → contains (keys_of_both a b) j ≡ (is_some (lookup j a) || is_some (lookup j b))
unfolding keys_of_both
contains-keys_of_both j a b =
    contains-dedup j (sort_keys (keys a ++ keys b))
    ∙ contains-sort_keys j (keys a ++ keys b)
    ∙ any-append (λ x. x == j) (keys a) (keys b)
    ∙ rw (contains-keys j a, contains-keys j b) refl
