-- ===== src/PolicyDiff/Patch/Empty.antt =====
-- When the patch is empty.
use onchain_strategy_mcp.Prelude.{
  ℕ, zero, suc, true, false, ◌||◌, Option, none, some, List, [], ◌∷◌, ◌≡◌, ◌↔◌, refl, sym, ap, ◌∙◌,
  Bool-cases, inl, inr, contains, is_some, ◌==◌, subst,
}
use onchain_strategy_mcp.Prelude.Text.{Text, text_eq, text_beq_iff}
use onchain_strategy_mcp.Prelude.Json.{Json, Fields, lookup}
use onchain_strategy_mcp.PolicyDiff.Patch.{
  DiffOp, Walk, json_beq, keys_of_both, append_ops, walk_key, child_path, walk_keys, as_object,
  walk_objects, walk, depth, diff_json,
}
use onchain_strategy_mcp.PolicyDiff.Patch.Equality.{json_beq_sound, json_beq_refl}
use onchain_strategy_mcp.PolicyDiff.Patch.Maps.{
  Sorted-same, IsMap, AllMaps, AllMaps-lookup, contains-keys_of_both,
}

-- Below a key, a walk that finds nothing shows that both maps give the same.
abbrev ShowsSame : Walk → Type 0
ShowsSame go =
    (path : Text) (old new : Json) → IsMap old → IsMap new → go path old new ≡ some [] → old ≡ new

append_ops_nothing :
    (r q : Option (List DiffOp)) → append_ops r q ≡ some [] → (r ≡ some []) × (q ≡ some [])
append_ops_nothing none q h = absurd (cc h)
append_ops_nothing (some []) (some []) h = (refl, refl)
append_ops_nothing (some []) (some (x ∷ xs)) h = absurd (cc h)
append_ops_nothing (some []) none h = absurd (cc h)
append_ops_nothing (some (x ∷ xs)) none h = absurd (cc h)
append_ops_nothing (some (x ∷ xs)) (some ys) h = absurd (cc h)

walk_key_nothing :
    (go : Walk) (child : Text) (o p : Option Json)
    → ShowsSame go
    → ((v : Json) → o ≡ some v → IsMap v)
    → ((v : Json) → p ≡ some v → IsMap v)
    → walk_key go child o p ≡ some []
    → o ≡ p
walk_key_nothing go child (some v) (some w) shows mv mw h =
    ap (λ x. some x) (shows child v w (mv v refl) (mw w refl) h)
walk_key_nothing go child none (some w) shows mv mw h = absurd (cc h)
walk_key_nothing go child (some v) none shows mv mw h = absurd (cc h)
walk_key_nothing go child none none shows mv mw h = refl

walk_keys_nothing :
    (go : Walk) (path : Text) (a b : Fields) (ks : List Text)
    → ShowsSame go
    → AllMaps a
    → AllMaps b
    → walk_keys go path a b ks ≡ some []
    → (k : Text) → contains ks k ≡ true
    → lookup k a ≡ lookup k b
walk_keys_nothing go path a b [] shows ma mb h k there = cc there
walk_keys_nothing go path a b (j ∷ ks) shows ma mb h k there =
    let (first, rest) =
      append_ops_nothing (walk_key go (child_path path j) (lookup j a) (lookup j b))
        (walk_keys go path a b ks) h in
    elim (Bool-cases (j == k)) [
      | inl hit ↦
          subst (λ t. lookup t a ≡ lookup t b) ((text_beq_iff j k).0 hit)
            (walk_key_nothing go (child_path path j) (lookup j a) (lookup j b) shows
              (λ v found. AllMaps-lookup j a v ma found) (λ v found. AllMaps-lookup j b v mb found)
              first)
      | inr miss ↦ walk_keys_nothing go path a b ks shows ma mb rest k (rw miss at there)
    ]

-- A key that is not visited is in neither map.
unvisited :
    (k : Text) (a b : Fields) → contains (keys_of_both a b) k ≡ false → lookup k a ≡ lookup k b
unvisited k a b h = neither (lookup k a) (lookup k b) (sym (contains-keys_of_both k a b) ∙ h)
  where
    neither : (o p : Option Json) → (is_some o || is_some p) ≡ false → o ≡ p
    neither none none e = refl
    neither none (some v) e = cc e
    neither (some v) p e = cc e

walk_objects_nothing :
    (go : Walk) (path : Text) (old new : Json)
    → ShowsSame go
    → IsMap old
    → IsMap new
    → walk_objects go path new (as_object old) (as_object new) ≡ some []
    → old ≡ new
walk_objects_nothing go path (Json.object a) (Json.object b) shows (sa, ma) (sb, mb) h =
    ap Json.object (
      Sorted-same a b sa sb (λ k. elim (Bool-cases (contains (keys_of_both a b) k)) [
        | inl there ↦ walk_keys_nothing go path a b (keys_of_both a b) shows ma mb h k there
        | inr missing ↦ unvisited k a b missing
      ]))
walk_objects_nothing go path (Json.object a) Json.null shows mo mn h = absurd (cc h)
walk_objects_nothing go path (Json.object a) (Json.bool c) shows mo mn h = absurd (cc h)
walk_objects_nothing go path (Json.object a) (Json.number c) shows mo mn h = absurd (cc h)
walk_objects_nothing go path (Json.object a) (Json.string c) shows mo mn h = absurd (cc h)
walk_objects_nothing go path (Json.object a) (Json.array c) shows mo mn h = absurd (cc h)
walk_objects_nothing go path Json.null new shows mo mn h = absurd (cc h)
walk_objects_nothing go path (Json.bool c) new shows mo mn h = absurd (cc h)
walk_objects_nothing go path (Json.number c) new shows mo mn h = absurd (cc h)
walk_objects_nothing go path (Json.string c) new shows mo mn h = absurd (cc h)
walk_objects_nothing go path (Json.array c) new shows mo mn h = absurd (cc h)

walk-ShowsSame : (n : ℕ) → ShowsSame (walk n)
unfolding walk
walk-ShowsSame zero path old new mo mn h = cc h
walk-ShowsSame (suc n) path old new mo mn h = elim (Bool-cases (json_beq old new)) [
  | inl same ↦ json_beq_sound old new same
  | inr apart ↦ walk_objects_nothing (walk n) path old new (walk-ShowsSame n) mo mn (rw apart at h)
]

-- For values whose objects list their keys in order and once, the patch is empty exactly when the two
-- values are equal.
pub diff_json_empty_iff :
    (old new : Json) → IsMap old → IsMap new → (diff_json old new ≡ some []) ↔ (old ≡ new)
unfolding diff_json walk
diff_json_empty_iff old new mo mn = (
  walk-ShowsSame (suc (depth old)) [] old new mo mn,
  λ e.
      let same : json_beq old new ≡ true =
        subst (λ v. json_beq old v ≡ true) e (json_beq_refl old) in
      rw same refl,
)
