-- ===== src/PolicyDiff/Patch.antt =====
-- crates/executor-mcp/src/policy_diff.rs: `diff_json`, the JSON patch of two policies. The walk goes
-- down at most as far as the old value is deep, which is the fuel that it is given.
pub mod Equality
pub mod Total
pub mod Truthful
pub mod Pointers
pub mod Maps
pub mod Empty
use onchain_strategy_mcp.Prelude.{
  ℕ, zero, suc, nat_beq, Bool, true, false, ◌&&◌, Option, none, some, List, [], ◌∷◌, ◌++◌, ◌==◌,
  if◌then◌else◌, leb,
}
use onchain_strategy_mcp.Prelude.Text.{Text, codes, text_eq, text_beq}
use onchain_strategy_mcp.Prelude.Json.{Json, Items, Fields, nil, cons, end, field, lookup}
use onchain_strategy_mcp.Prelude.Canonical.{text_ltb}
use onchain_strategy_mcp.PolicyDiff.{keys}

pub data DiffOp : Type 0 where
  add : Text → Json → DiffOp
  remove : Text → DiffOp
  replace : Text → Json → DiffOp

abbrev bool_beq : Bool → Bool → Bool
bool_beq true b = b
bool_beq false true = false
bool_beq false false = true

-- `Value::eq`; the map of an object is compared in the order of its keys.
unfoldable mutual
  pub json_beq : Json → Json → Bool
  json_beq Json.null Json.null = true
  json_beq (Json.bool a) (Json.bool b) = bool_beq a b
  json_beq (Json.number a) (Json.number b) = text_beq a b
  json_beq (Json.string a) (Json.string b) = text_beq a b
  json_beq (Json.array l) (Json.array m) = items_beq l m
  json_beq (Json.object o) (Json.object p) = fields_beq o p
  json_beq _ _ = false

  pub items_beq : Items → Items → Bool
  items_beq nil nil = true
  items_beq (cons i l) (cons j m) = json_beq i j && items_beq l m
  items_beq _ _ = false

  pub fields_beq : Fields → Fields → Bool
  fields_beq end end = true
  fields_beq (field n i o) (field m j p) = text_beq n m && json_beq i j && fields_beq o p
  fields_beq _ _ = false

-- `str::replace` of one byte.
abbrev pub replace_byte : ℕ → Text → Text → Text
replace_byte c by [] = []
replace_byte c by (x ∷ t) =
    let rest = replace_byte c by t in if nat_beq x c then by ++ rest else x ∷ rest

unfoldable pub escape_pointer_token : Text → Text
escape_pointer_token t = replace_byte 47 (codes "~1") (replace_byte 126 (codes "~0") t)

-- `sort` and `dedup`
abbrev pub insert_key : Text → List Text → List Text
insert_key k [] = k ∷ []
insert_key k (x ∷ xs) = let rest = insert_key k xs in if text_ltb x k then x ∷ rest else k ∷ x ∷ xs

abbrev pub sort_keys : List Text → List Text
sort_keys [] = []
sort_keys (k ∷ ks) = insert_key k (sort_keys ks)

abbrev pub drop_equal : Text → List Text → List Text
drop_equal k [] = k ∷ []
drop_equal k (x ∷ xs) = if k == x then x ∷ xs else k ∷ x ∷ xs

abbrev pub dedup : List Text → List Text
dedup [] = []
dedup (k ∷ ks) = drop_equal k (dedup ks)

unfoldable pub keys_of_both : Fields → Fields → List Text
keys_of_both a b = dedup (sort_keys (keys a ++ keys b))

abbrev pub Walk : Type 0
Walk = Text → Json → Json → Option (List DiffOp)

abbrev pub append_ops : Option (List DiffOp) → Option (List DiffOp) → Option (List DiffOp)
append_ops none rest = none
append_ops (some ops) none = none
append_ops (some ops) (some rest) = some (ops ++ rest)

-- One key of the two objects, with the walk for what stands below.
abbrev pub walk_key : Walk → Text → Option Json → Option Json → Option (List DiffOp)
walk_key walk child (some av) (some bv) = walk child av bv
walk_key walk child none (some bv) = some (add child bv ∷ [])
walk_key walk child (some av) none = some (remove child ∷ [])
walk_key walk child none none = some []

abbrev pub child_path : Text → Text → Text
child_path path k = path ++ 47 ∷ escape_pointer_token k

abbrev pub walk_keys : Walk → Text → Fields → Fields → List Text → Option (List DiffOp)
walk_keys walk path a b [] = some []
walk_keys walk path a b (k ∷ ks) =
    append_ops (walk_key walk (child_path path k) (lookup k a) (lookup k b))
      (walk_keys walk path a b ks)

abbrev pub as_object : Json → Option Fields
as_object (Json.object o) = some o
as_object _ = none

abbrev pub walk_objects : Walk → Text → Json → Option Fields → Option Fields → Option (List DiffOp)
walk_objects walk path new (some a) (some b) = walk_keys walk path a b (keys_of_both a b)
walk_objects walk path new (some a) none = some (replace path new ∷ [])
walk_objects walk path new none b = some (replace path new ∷ [])

unfoldable pub walk : ℕ → Walk
walk zero path old new = none
walk (suc n) path old new =
    if json_beq old new
    then some []
    else walk_objects (walk n) path new (as_object old) (as_object new)

abbrev max : ℕ → ℕ → ℕ
max a b = if leb a b then b else a

abbrev mutual
  pub depth : Json → ℕ
  depth Json.null = 0
  depth (Json.bool b) = 0
  depth (Json.number n) = 0
  depth (Json.string s) = 0
  depth (Json.array l) = 0
  depth (Json.object o) = suc (depth_of_fields o)

  pub depth_of_fields : Fields → ℕ
  depth_of_fields end = 0
  depth_of_fields (field n v rest) = max (depth v) (depth_of_fields rest)

unfoldable pub diff_json : Json → Json → Option (List DiffOp)
diff_json old new = walk (suc (depth old)) [] old new
