-- ===== src/PolicyDiff/Patch/Equality.antt =====
-- The comparison of two values decides their equality.
use onchain_strategy_mcp.Prelude.{Bool, true, false, ◌&&◌, ◌≡◌, refl, sym, ap}
use mathlib.Core.Bool.{and-eq-true_iff}
use onchain_strategy_mcp.Prelude.Text.{text_beq, text_beq_iff}
use onchain_strategy_mcp.Prelude.Json.{Json, Items, Fields, nil, cons, end, field}
use onchain_strategy_mcp.PolicyDiff.Patch.{bool_beq, json_beq, items_beq, fields_beq}

bool_beq_sound : (a b : Bool) → bool_beq a b ≡ true → a ≡ b
bool_beq_sound true b h = sym h
bool_beq_sound false true h = cc h
bool_beq_sound false false h = refl

bool_beq_refl : (a : Bool) → bool_beq a a ≡ true
bool_beq_refl true = refl
bool_beq_refl false = refl

mutual
  unfolding json_beq

  pub json_beq_sound : (i j : Json) → json_beq i j ≡ true → i ≡ j
  json_beq_sound Json.null Json.null h = refl
  json_beq_sound (Json.bool a) (Json.bool b) h = ap Json.bool (bool_beq_sound a b h)
  json_beq_sound (Json.number a) (Json.number b) h = ap Json.number ((text_beq_iff a b).0 h)
  json_beq_sound (Json.string a) (Json.string b) h = ap Json.string ((text_beq_iff a b).0 h)
  json_beq_sound (Json.array l) (Json.array m) h = ap Json.array (items_beq_sound l m h)
  json_beq_sound (Json.object o) (Json.object p) h = ap Json.object (fields_beq_sound o p h)
  json_beq_sound _ _ h = cc h

  items_beq_sound : (l m : Items) → items_beq l m ≡ true → l ≡ m
  items_beq_sound nil nil h = refl
  items_beq_sound (cons i l) (cons j m) h =
      let (value, rest) = (and-eq-true_iff (json_beq i j) (items_beq l m)).0 h in
      cc (json_beq_sound i j value, items_beq_sound l m rest)
  items_beq_sound _ _ h = cc h

  fields_beq_sound : (o p : Fields) → fields_beq o p ≡ true → o ≡ p
  fields_beq_sound end end h = refl
  fields_beq_sound (field n i o) (field m j p) h =
      let (here, rest) = (and-eq-true_iff (text_beq n m && json_beq i j) (fields_beq o p)).0 h in
      let (name, value) = (and-eq-true_iff (text_beq n m) (json_beq i j)).0 here in
      cc ((text_beq_iff n m).0 name, json_beq_sound i j value, fields_beq_sound o p rest)
  fields_beq_sound _ _ h = cc h

mutual
  unfolding json_beq

  pub json_beq_refl : (j : Json) → json_beq j j ≡ true
  json_beq_refl Json.null = refl
  json_beq_refl (Json.bool b) = bool_beq_refl b
  json_beq_refl (Json.number n) = (text_beq_iff n n).1 refl
  json_beq_refl (Json.string s) = (text_beq_iff s s).1 refl
  json_beq_refl (Json.array l) = items_beq_refl l
  json_beq_refl (Json.object o) = fields_beq_refl o

  items_beq_refl : (l : Items) → items_beq l l ≡ true
  items_beq_refl nil = refl
  items_beq_refl (cons j l) = rw (json_beq_refl j, items_beq_refl l) refl

  fields_beq_refl : (o : Fields) → fields_beq o o ≡ true
  fields_beq_refl end = refl
  fields_beq_refl (field n j o) =
      rw ((text_beq_iff n n).1 refl, json_beq_refl j, fields_beq_refl o) refl
