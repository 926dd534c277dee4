-- ===== src/PolicyDiff/Patch/Truthful.antt =====
-- Every operation of the patch says what holds of the two values.
use onchain_strategy_mcp.Prelude.{
  append_assoc, ℕ, zero, suc, Option, none, some, List, [], ◌∷◌, ◌++◌, ◌≡◌, ◌≢◌, refl, sym, ap, ◌∙◌,
  Bool-cases, inl, inr, subst, All, All-append,
}
use mathlib.Core.List.{append-nil}
use mathlib.Core.Bool.{false≢true}
use onchain_strategy_mcp.Prelude.Text.{Text, text_eq}
use onchain_strategy_mcp.Prelude.Json.{Json, Fields, lookup}
use onchain_strategy_mcp.PolicyDiff.Patch.{
  DiffOp, add, remove, replace, Walk, json_beq, escape_pointer_token, append_ops, walk_key,
  child_path, walk_keys, as_object, walk_objects, walk, keys_of_both, depth, diff_json,
}
use onchain_strategy_mcp.PolicyDiff.Patch.Equality.{json_beq_refl}

-- RFC 6901: the text of a pointer, and the value that stands there.
abbrev pub pointer : List Text → Text
pointer [] = []
pointer (k ∷ ks) = 47 ∷ (escape_pointer_token k ++ pointer ks)

abbrev pub field_at : Text → Json → Option Json
field_at k (Json.object o) = lookup k o
field_at k _ = none

abbrev pub value_at : List Text → Option Json → Option Json
value_at [] v = v
value_at (k ∷ ks) none = none
value_at (k ∷ ks) (some v) = value_at ks (field_at k v)

-- An operation below a path, for the values that stand there: an addition names what is in the new
-- value and was not in the old, a removal what was and is not, a replacement what is another value.
abbrev pub SaysBelow : Text → Option Json → Option Json → DiffOp → Type 0
SaysBelow path old new (add p v) =
    (ks : List Text) × (p ≡ path ++ pointer ks)
    × (value_at ks old ≡ none)
    × (value_at ks new ≡ some v)
SaysBelow path old new (remove p) =
    (ks : List Text) × (u : Json) × (p ≡ path ++ pointer ks)
    × (value_at ks old ≡ some u)
    × (value_at ks new ≡ none)
SaysBelow path old new (replace p v) =
    (ks : List Text) × (u : Json) × (p ≡ path ++ pointer ks)
    × (value_at ks old ≡ some u)
    × (value_at ks new ≡ some v)
    × (u ≢ v)

abbrev pub AllSayBelow : Text → Option Json → Option Json → Option (List DiffOp) → Type 0
AllSayBelow path old new none = Unit
AllSayBelow path old new (some ops) = All (SaysBelow path old new) ops

-- One token further up.
up : (path k : Text) (ks : List Text) → child_path path k ++ pointer ks ≡ path ++ pointer (k ∷ ks)
up path k ks = append_assoc path (47 ∷ escape_pointer_token k) (pointer ks)

SaysBelow-up :
    (path k : Text) (a b : Fields) (op : DiffOp)
    → SaysBelow (child_path path k) (lookup k a) (lookup k b) op
    → SaysBelow path (some (Json.object a)) (some (Json.object b)) op
SaysBelow-up path k a b (add p v) (ks, e, gone, there) = (k ∷ ks, e ∙ up path k ks, gone, there)
SaysBelow-up path k a b (remove p) (ks, u, e, was, gone) = (k ∷ ks, u, e ∙ up path k ks, was, gone)
SaysBelow-up path k a b (replace p v) (ks, u, e, was, now, differ) =
    (k ∷ ks, u, e ∙ up path k ks, was, now, differ)

All-up :
    (path k : Text) (a b : Fields) (ops : List DiffOp)
    → All (SaysBelow (child_path path k) (lookup k a) (lookup k b)) ops
    → All (SaysBelow path (some (Json.object a)) (some (Json.object b))) ops
All-up path k a b [] h = tt
All-up path k a b (op ∷ ops) h = (SaysBelow-up path k a b op h.0, All-up path k a b ops h.1)

append_ops-AllSayBelow :
    (path : Text) (old new : Option Json) (r q : Option (List DiffOp))
    → AllSayBelow path old new r
    → AllSayBelow path old new q
    → AllSayBelow path old new (append_ops r q)
append_ops-AllSayBelow path old new none q h k = tt
append_ops-AllSayBelow path old new (some ops) none h k = tt
append_ops-AllSayBelow path old new (some ops) (some more) h k =
    All-append (SaysBelow path old new) ops more h k

abbrev WalkSays : Walk → Type 0
WalkSays go =
    (path : Text) (old new : Json) → AllSayBelow path (some old) (some new) (go path old new)

walk_key-AllSayBelow :
    (go : Walk) (child : Text) (o p : Option Json)
    → WalkSays go
    → AllSayBelow child o p (walk_key go child o p)
walk_key-AllSayBelow go child (some v) (some w) says = says child v w
walk_key-AllSayBelow go child none (some w) says = (([], sym (append-nil child), refl, refl), tt)
walk_key-AllSayBelow go child (some v) none says = (([], v, sym (append-nil child), refl, refl), tt)
walk_key-AllSayBelow go child none none says = tt

walk_keys-AllSayBelow :
    (go : Walk) (path : Text) (a b : Fields) (ks : List Text)
    → WalkSays go
    → AllSayBelow path (some (Json.object a)) (some (Json.object b)) (walk_keys go path a b ks)
walk_keys-AllSayBelow go path a b [] says = tt
walk_keys-AllSayBelow go path a b (k ∷ ks) says =
    append_ops-AllSayBelow path (some (Json.object a)) (some (Json.object b))
      (walk_key go (child_path path k) (lookup k a) (lookup k b)) (walk_keys go path a b ks)
      (raise (walk_key go (child_path path k) (lookup k a) (lookup k b))
        (walk_key-AllSayBelow go (child_path path k) (lookup k a) (lookup k b) says))
      (walk_keys-AllSayBelow go path a b ks says)
  where
    raise :
        (r : Option (List DiffOp))
        → AllSayBelow (child_path path k) (lookup k a) (lookup k b) r
        → AllSayBelow path (some (Json.object a)) (some (Json.object b)) r
    raise none h = tt
    raise (some ops) h = All-up path k a b ops h

replace-AllSayBelow :
    (path : Text) (old new : Json)
    → old ≢ new
    → AllSayBelow path (some old) (some new) (some (replace path new ∷ []))
replace-AllSayBelow path old new apart = (([], old, sym (append-nil path), refl, refl, apart), tt)

walk_objects-AllSayBelow :
    (go : Walk) (path : Text) (old new : Json)
    → WalkSays go
    → old ≢ new
    → AllSayBelow path
        (some old)
        (some new)
        (walk_objects go path new (as_object old) (as_object new))
walk_objects-AllSayBelow go path (Json.object a) (Json.object b) says apart =
    walk_keys-AllSayBelow go path a b (keys_of_both a b) says
walk_objects-AllSayBelow go path (Json.object a) Json.null says apart =
    replace-AllSayBelow path _ _ apart
walk_objects-AllSayBelow go path (Json.object a) (Json.bool c) says apart =
    replace-AllSayBelow path _ _ apart
walk_objects-AllSayBelow go path (Json.object a) (Json.number c) says apart =
    replace-AllSayBelow path _ _ apart
walk_objects-AllSayBelow go path (Json.object a) (Json.string c) says apart =
    replace-AllSayBelow path _ _ apart
walk_objects-AllSayBelow go path (Json.object a) (Json.array c) says apart =
    replace-AllSayBelow path _ _ apart
walk_objects-AllSayBelow go path Json.null new says apart = replace-AllSayBelow path _ _ apart
walk_objects-AllSayBelow go path (Json.bool c) new says apart = replace-AllSayBelow path _ _ apart
walk_objects-AllSayBelow go path (Json.number c) new says apart = replace-AllSayBelow path _ _ apart
walk_objects-AllSayBelow go path (Json.string c) new says apart = replace-AllSayBelow path _ _ apart
walk_objects-AllSayBelow go path (Json.array c) new says apart = replace-AllSayBelow path _ _ apart

walk-Says : (n : ℕ) → WalkSays (walk n)
unfolding walk
walk-Says zero path old new = tt
walk-Says (suc n) path old new = elim (Bool-cases (json_beq old new)) [
  | inl same ↦ rw same tt
  | inr differ ↦
      let apart : old ≢ new =
        λ e. false≢true (sym differ ∙ ap (json_beq old) (sym e) ∙ json_beq_refl old) in
      rw differ (walk_objects-AllSayBelow (walk n) path old new (walk-Says n) apart)
]

-- Each operation of the patch has the pointer of a place. An addition is of what stands there in the
-- new value, where the old one has nothing; a removal is where the old value has something and the new
-- one nothing; a replacement is of what stands there in the new value, where the old one has another.
pub diff_json_truthful :
    (old new : Json) (ops : List DiffOp)
    → diff_json old new ≡ some ops
    → All (SaysBelow [] (some old) (some new)) ops
unfolding diff_json
diff_json_truthful old new ops h =
    subst (AllSayBelow [] (some old) (some new)) h (walk-Says (suc (depth old)) [] old new)
