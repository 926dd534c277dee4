-- ===== src/PolicyDiff/Patch/Total.antt =====
-- The walk ends: the fuel that `diff_json` gives is enough.
use onchain_strategy_mcp.Prelude.{
  ℕ, zero, suc, ◌≤◌, ◌<◌, Option, none, some, List, [], ◌∷◌, ◌++◌, ◌≡◌, refl, arith, Bool-cases,
  inl, inr, ◌==◌,
}
use onchain_strategy_mcp.Prelude.Text.{Text, text_eq}
use onchain_strategy_mcp.Prelude.Json.{Json, Fields, end, field, lookup}
use onchain_strategy_mcp.PolicyDiff.Patch.{
  DiffOp, Walk, json_beq, append_ops, walk_key, child_path, walk_keys, as_object, walk_objects,
  walk, depth, depth_of_fields, keys_of_both, diff_json, add, remove, replace,
}

-- What stands under a key is no deeper than the deepest field.
depth-lookup :
    (k : Text) (o : Fields) (v : Json) → lookup k o ≡ some v → depth v ≤ depth_of_fields o
depth-lookup k end v h = cc h
depth-lookup k (field n w rest) v h = elim (Bool-cases (n == k)) [
  | inl hit ↦ (let same : some w ≡ some v = rw hit at h in ground (arith, some_injective w v same))
  | inr miss ↦ ground (arith, depth-lookup k rest v (rw miss at h))
]
  where
    some_injective : (a b : Json) → some a ≡ some b → depth a ≡ depth b
    some_injective a b e = cc e

-- A result, and not the end of the fuel.
abbrev pub Returns : Option (List DiffOp) → Type 0
Returns r = (ops : List DiffOp) × (r ≡ some ops)

append_ops-Returns : (r q : Option (List DiffOp)) → Returns r → Returns q → Returns (append_ops r q)
append_ops-Returns none q (ops, e) h = cc e
append_ops-Returns (some ops) none h (more, e) = cc e
append_ops-Returns (some ops) (some more) h k = (ops ++ more, refl)

-- The walk returns on every value that is less deep than the bound.
abbrev ReturnsBelow : ℕ → Walk → Type 0
ReturnsBelow n go = (path : Text) (old new : Json) → depth old < n → Returns (go path old new)

walk_key-Returns :
    (n : ℕ) (go : Walk) (child : Text) (o p : Option Json)
    → ReturnsBelow n go
    → ((v : Json) → o ≡ some v → depth v < n)
    → Returns (walk_key go child o p)
walk_key-Returns n go child (some v) (some w) below shallow = below child v w (shallow v refl)
walk_key-Returns n go child none (some w) below shallow = (add child w ∷ [], refl)
walk_key-Returns n go child (some v) none below shallow = (remove child ∷ [], refl)
walk_key-Returns n go child none none below shallow = ([], refl)

walk_keys-Returns :
    (n : ℕ) (go : Walk) (path : Text) (a b : Fields) (ks : List Text)
    → ReturnsBelow n go
    → depth_of_fields a < n
    → Returns (walk_keys go path a b ks)
walk_keys-Returns n go path a b [] below shallow = ([], refl)
walk_keys-Returns n go path a b (k ∷ ks) below shallow =
    append_ops-Returns (walk_key go (child_path path k) (lookup k a) (lookup k b))
      (walk_keys go path a b ks)
      (walk_key-Returns n go (child_path path k) (lookup k a) (lookup k b) below
        (λ v found. ground (arith, depth-lookup k a v found)))
      (walk_keys-Returns n go path a b ks below shallow)

walk_objects-Returns :
    (n : ℕ) (go : Walk) (path : Text) (old new : Json) (q : Option Fields)
    → ReturnsBelow n go
    → depth old < suc n
    → Returns (walk_objects go path new (as_object old) q)
walk_objects-Returns n go path (Json.object a) new (some b) below h =
    walk_keys-Returns n go path a b (keys_of_both a b) below (omega arith)
walk_objects-Returns n go path (Json.object a) new none below h = (replace path new ∷ [], refl)
walk_objects-Returns n go path Json.null new q below h = (replace path new ∷ [], refl)
walk_objects-Returns n go path (Json.bool c) new q below h = (replace path new ∷ [], refl)
walk_objects-Returns n go path (Json.number c) new q below h = (replace path new ∷ [], refl)
walk_objects-Returns n go path (Json.string c) new q below h = (replace path new ∷ [], refl)
walk_objects-Returns n go path (Json.array c) new q below h = (replace path new ∷ [], refl)

walk-Returns : (n : ℕ) → ReturnsBelow n (walk n)
unfolding walk
walk-Returns zero path old new h = absurd (omega arith)
walk-Returns (suc n) path old new h = elim (Bool-cases (json_beq old new)) [
  | inl same ↦ rw same ([], refl)
  | inr apart ↦
      rw apart (walk_objects-Returns n (walk n) path old new (as_object new) (walk-Returns n) h)
]

-- The patch of any two values is computed to its end: the walk never goes deeper than the old value.
pub diff_json-Returns : (old new : Json) → Returns (diff_json old new)
unfolding diff_json
diff_json-Returns old new = walk-Returns (suc (depth old)) [] old new (omega arith)
