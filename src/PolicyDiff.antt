-- ===== src/PolicyDiff.antt =====
-- crates/executor-mcp/src/policy_diff.rs: what a new policy allows that the old one did not, as the
-- answer of `policy_set` lists it. The two policies are their JSON bodies, whose objects keep each key
-- once; the keys of an object come in the order of its map.
pub mod Granted
pub mod Alignment
pub mod Patch
use onchain_strategy_mcp.Prelude.{
  Bool, true, false, not, ◌&&◌, ◌||◌, Option, none, some, List, [], ◌∷◌, ◌++◌, ◌≡◌, refl, sym, ◌∙◌,
  ap, map, ◌==◌, if◌then◌else◌, any, is_some, arith, Bool-cases, inl, inr, contains, ==_refl, ◌⊎◌,
}
use onchain_strategy_mcp.Prelude.Text.{
  Text, codes, text_eq, text_beq_iff, eq_ignore_ascii_case, split_once,
}
use onchain_strategy_mcp.Prelude.Json.{lookup, Json, Items, Fields, nil, cons, end, field}
use onchain_strategy_mcp.State.Table.{filter}

pub data Capability : Type 0 where
  raw_call_enabled : Capability
  contract_allowed : (chain contract : Text) → Capability
  selector_allowed : (chain contract selector : Text) → Capability

abbrev pub keys : Fields → List Text
keys end = []
keys (field n v rest) = n ∷ keys rest

-- `as_object().cloned().unwrap_or_default()`
abbrev pub object_of : Option Json → Fields
object_of (some (Json.object o)) = o
object_of (some Json.null) = end
object_of (some (Json.bool b)) = end
object_of (some (Json.number n)) = end
object_of (some (Json.string s)) = end
object_of (some (Json.array l)) = end
object_of none = end

-- One token of a pointer; none of those that are asked for is an index of an array.
abbrev pub child : Text → Option Json → Option Json
child k v = lookup k (object_of v)

abbrev pub bool_of : Option Json → Bool
bool_of (some (Json.bool b)) = b
bool_of (some Json.null) = false
bool_of (some (Json.number n)) = false
bool_of (some (Json.string s)) = false
bool_of (some (Json.array l)) = false
bool_of (some (Json.object o)) = false
bool_of none = false

-- `filter_map(Value::as_str)`
abbrev pub strings_of : Items → List Text
strings_of nil = []
strings_of (cons (Json.string s) rest) = s ∷ strings_of rest
strings_of (cons Json.null rest) = strings_of rest
strings_of (cons (Json.bool b) rest) = strings_of rest
strings_of (cons (Json.number n) rest) = strings_of rest
strings_of (cons (Json.array l) rest) = strings_of rest
strings_of (cons (Json.object o) rest) = strings_of rest

abbrev pub texts_of : Option Json → List Text
texts_of (some (Json.array l)) = strings_of l
texts_of (some Json.null) = []
texts_of (some (Json.bool b)) = []
texts_of (some (Json.number n)) = []
texts_of (some (Json.string s)) = []
texts_of (some (Json.object o)) = []
texts_of none = []

-- The strings of `<section>.<key>.allow`.
abbrev pub allowed : Text → Json → Text → List Text
allowed section v key =
    texts_of (child (codes "allow") (lookup key (object_of (child section (some v)))))

abbrev pub section_keys : Text → Json → List Text
section_keys section v = keys (object_of (child section (some v)))

abbrev pub concat_map : {A B : Type 0} → (A → List B) → List A → List B
concat_map f [] = []
concat_map f (x ∷ xs) = f x ++ concat_map f xs

abbrev pub is_new_contract : Json → Text → Text → Bool
is_new_contract old chain addr =
    not (any (λ a. eq_ignore_ascii_case a addr) (allowed (codes "contracts") old chain))

abbrev pub new_contracts : Json → Json → Text → List Capability
new_contracts old new chain =
    map (contract_allowed chain)
      (filter (is_new_contract old chain) (allowed (codes "contracts") new chain))

abbrev pub is_new_selector : Json → Text → Text → Bool
is_new_selector old key sel = not (contains (allowed (codes "selectors") old key) sel)

-- A key without a colon is passed over.
abbrev pub selectors_at : Option (Text × Text) → Json → Json → Text → List Capability
selectors_at none old new key = []
selectors_at (some (chain, contract)) old new key =
    map (selector_allowed chain contract)
      (filter (is_new_selector old key) (allowed (codes "selectors") new key))

abbrev pub new_selectors : Json → Json → Text → List Capability
new_selectors old new key = selectors_at (split_once key 58) old new key

abbrev pub allows_global : Json → Bool
allows_global v = bool_of (child (codes "allow_global") (child (codes "raw_call") (some v)))

abbrev pub new_global : Json → Json → List Capability
new_global old new =
    if not (allows_global old) && allows_global new then raw_call_enabled ∷ [] else []

unfoldable pub new_capabilities_granted : Json → Json → List Capability
new_capabilities_granted old new =
    new_global old new
    ++ (concat_map (new_contracts old new) (section_keys (codes "contracts") new)
        ++ concat_map (new_selectors old new) (section_keys (codes "selectors") new))
