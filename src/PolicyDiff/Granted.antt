-- ===== src/PolicyDiff/Granted.antt =====
-- Which capabilities are listed.
use onchain_strategy_mcp.Prelude.{
  ℕ, Bool, true, false, not, ◌&&◌, ◌||◌, Option, none, some, List, [], ◌∷◌, ◌++◌, ◌≡◌, refl, ◌∙◌,
  ap, map, ◌==◌, nat_beq, if◌then◌else◌, any, is_some, arith, Bool-cases, inl, inr, contains,
}
use onchain_strategy_mcp.Prelude.Text.{
  Text, codes, text_eq, text_beq_iff, eq_ignore_ascii_case, split_once, prepend_fst,
}
use onchain_strategy_mcp.Prelude.Json.{lookup, Json, Fields, end, field}
use onchain_strategy_mcp.State.Table.{filter}
use onchain_strategy_mcp.State.Keys.{any-append}
use onchain_strategy_mcp.PolicyDiff.{
  Capability, raw_call_enabled, contract_allowed, selector_allowed, keys, object_of, child,
  texts_of, allowed, section_keys, concat_map, is_new_contract, new_contracts, is_new_selector,
  selectors_at, new_selectors, allows_global, new_global, new_capabilities_granted,
}

abbrev pub is_raw_call : Capability → Bool
is_raw_call raw_call_enabled = true
is_raw_call (contract_allowed c a) = false
is_raw_call (selector_allowed c a s) = false

abbrev pub is_contract : Text → Text → Capability → Bool
is_contract chain addr raw_call_enabled = false
is_contract chain addr (contract_allowed c a) = c == chain && a == addr
is_contract chain addr (selector_allowed c a s) = false

abbrev pub is_selector : Text → Text → Text → Capability → Bool
is_selector chain contract sel raw_call_enabled = false
is_selector chain contract sel (contract_allowed c a) = false
is_selector chain contract sel (selector_allowed c a s) = c == chain && a == contract && s == sel

module _ {A B : Type 0} where
  any-concat_map :
      (p : B → Bool) (f : A → List B) (xs : List A)
      → any p (concat_map f xs) ≡ any (λ x. any p (f x)) xs
  any-concat_map p f [] = refl
  any-concat_map p f (x ∷ xs) =
      any-append p (f x) (concat_map f xs) ∙ rw (any-concat_map p f xs) refl

  any-map : (p : B → Bool) (f : A → B) (xs : List A) → any p (map f xs) ≡ any (λ x. p (f x)) xs
  any-map p f [] = refl
  any-map p f (x ∷ xs) = rw (any-map p f xs) refl

module _ {A : Type 0} where
  any_none : (p : A → Bool) (xs : List A) → ((x : A) → p x ≡ false) → any p xs ≡ false
  any_none p [] h = refl
  any_none p (x ∷ xs) h = rw (h x) (any_none p xs h)

  any_same : (p q : A → Bool) (xs : List A) → ((x : A) → p x ≡ q x) → any p xs ≡ any q xs
  any_same p q [] h = refl
  any_same p q (x ∷ xs) h = rw (h x, any_same p q xs h) refl

any-and :
    {A : Type 0} (b : Bool) (p : A → Bool) (xs : List A) → any (λ x. b && p x) xs ≡ (b && any p xs)
any-and true p xs = refl
any-and false p [] = refl
any-and false p (x ∷ xs) = any-and false p xs

-- A search for one text that passed a filter.
any-filter :
    (q : Text → Bool) (a : Text) (xs : List Text)
    → any (λ x. x == a) (filter q xs) ≡ (contains xs a && q a)
any-filter q a [] = refl
any-filter q a (x ∷ xs) = elim (Bool-cases (x == a)) [
  | inl same ↦
      (let equal : q x ≡ q a = ap q ((text_beq_iff x a).0 same) in
        ground (arith, same, equal, any-filter q a xs))
  | inr other ↦ ground (arith, other, any-filter q a xs)
]

-- A search for one key, with a test of what is found there.
any-key :
    (f : Text → Bool) (k : Text) (ks : List Text)
    → any (λ x. x == k && f x) ks ≡ (contains ks k && f k)
any-key f k [] = refl
any-key f k (x ∷ xs) = elim (Bool-cases (x == k)) [
  | inl same ↦
      (let equal : f x ≡ f k = ap f ((text_beq_iff x k).0 same) in
        ground (arith, same, equal, any-key f k xs))
  | inr other ↦ ground (arith, other, any-key f k xs)
]

pub contains-keys : (k : Text) (o : Fields) → contains (keys o) k ≡ is_some (lookup k o)
contains-keys k end = refl
contains-keys k (field n v rest) = ground (arith, contains-keys k rest)

contains_nothing :
    (k a : Text) (section : Text) (v : Json)
    → lookup k (object_of (child section (some v))) ≡ none
    → contains (allowed section v k) a ≡ false
contains_nothing k a section v h = rw h refl

-- A key whose list has a string is a key of the section.
contains-allowed :
    (section : Text) (v : Json) (k a : Text)
    → (contains (section_keys section v) k && contains (allowed section v k) a)
      ≡ contains (allowed section v k) a
contains-allowed section v k a =
    let o = object_of (child section (some v)) in rw (contains-keys k o) (go (lookup k o))
  where
    go :
        (x : Option Json)
        → (is_some x && contains (texts_of (child (codes "allow") x)) a)
          ≡ contains (texts_of (child (codes "allow") x)) a
    go none = refl
    go (some j) = refl

-- The two parts of a key are these.
abbrev splits_into : Option (Text × Text) → Text → Text → Bool
splits_into none chain contract = false
splits_into (some (c, a)) chain contract = c == chain && a == contract

splits_into-prepend :
    (x y : ℕ) (o : Option (Text × Text)) (chain contract : Text)
    → splits_into (prepend_fst x o) (y ∷ chain) contract
      ≡ (nat_beq x y && splits_into o chain contract)
splits_into-prepend x y none chain contract = ground arith
splits_into-prepend x y (some (c, a)) chain contract = ground arith

splits_into-prepend_empty :
    (x : ℕ) (o : Option (Text × Text)) (contract : Text)
    → splits_into (prepend_fst x o) [] contract ≡ false
splits_into-prepend_empty x none contract = refl
splits_into-prepend_empty x (some (c, a)) contract = refl

-- A key is split into a chain without a colon and a contract exactly when it is their pair.
split_once-pair :
    (k chain contract : Text)
    → any (λ b. nat_beq b 58) chain ≡ false
    → (k == chain ++ 58 ∷ contract) ≡ splits_into (split_once k 58) chain contract
split_once-pair [] [] contract plain = refl
split_once-pair [] (y ∷ chain) contract plain = refl
split_once-pair (x ∷ k) [] contract plain = elim (Bool-cases (nat_beq x 58)) [
  | inl colon ↦ rw colon refl
  | inr other ↦ rw (other, splits_into-prepend_empty x (split_once k 58) contract) refl
]
split_once-pair (x ∷ k) (y ∷ chain) contract plain = elim (Bool-cases (nat_beq x 58)) [
  | inl colon ↦ rw colon (ground (arith, colon, plain))
  | inr other ↦
      rw (other, splits_into-prepend x y (split_once k 58) chain contract)
        (ground (arith, split_once-pair k chain contract, plain))
]

module _ (old new : Json) where
  global_none :
      (p : Capability → Bool) → p raw_call_enabled ≡ false → any p (new_global old new) ≡ false
  global_none p h = go (not (allows_global old) && allows_global new)
    where
      go : (b : Bool) → any p (if b then raw_call_enabled ∷ [] else []) ≡ false
      go true = rw h refl
      go false = refl

  new_contracts-any :
      (chain addr k : Text)
      → any (is_contract chain addr) (new_contracts old new k) ≡ (
          k == chain
          && (contains (allowed (codes "contracts") new k) addr && is_new_contract old k addr))
  new_contracts-any chain addr k =
      any-map (is_contract chain addr) (contract_allowed k) _
      ∙ any-and (k == chain) (λ a. a == addr)
          (filter (is_new_contract old k) (allowed (codes "contracts") new k))
      ∙ rw (any-filter (is_new_contract old k) addr (allowed (codes "contracts") new k)) refl

  selectors_none :
      (chain addr k : Text) → any (is_contract chain addr) (new_selectors old new k) ≡ false
  selectors_none chain addr k = go (split_once k 58)
    where
      go :
          (o : Option (Text × Text))
          → any (is_contract chain addr) (selectors_at o old new k) ≡ false
      go none = refl
      go (some (c, a)) =
          any-map (is_contract chain addr) (selector_allowed c a)
            (filter (is_new_selector old k) (allowed (codes "selectors") new k))
          ∙ any_none (λ s. false)
              (filter (is_new_selector old k) (allowed (codes "selectors") new k)) (λ s. refl)

  -- The listed contracts of a chain that are `addr`, up to the test of a key.
  is_granted_contract : Text → Text → Bool
  is_granted_contract addr k =
      contains (allowed (codes "contracts") new k) addr && is_new_contract old k addr

  contracts_listed :
      (chain addr : Text)
      → any (is_contract chain addr) (new_capabilities_granted old new)
        ≡ (contains (allowed (codes "contracts") new chain) addr && is_new_contract old chain addr)
  unfolding new_capabilities_granted is_granted_contract
  contracts_listed chain addr =
      let p = is_contract chain addr in
      let ks = section_keys (codes "contracts") new in
      let in_keys =
        any-concat_map p (new_contracts old new) ks
        ∙ any_same (λ k. any p (new_contracts old new k))
            (λ k. k == chain && is_granted_contract addr k) ks (new_contracts-any chain addr)
        ∙ any-key (is_granted_contract addr) chain ks in
      let elsewhere =
        any-concat_map p (new_selectors old new) (section_keys (codes "selectors") new)
        ∙ any_none (λ k. any p (new_selectors old new k)) (section_keys (codes "selectors") new)
            (selectors_none chain addr) in
      any-append p (new_global old new) _
      ∙ rw (global_none p refl) (
          any-append p (concat_map (new_contracts old new) ks) _
          ∙ rw (in_keys, elsewhere)
              (ground (arith, contains-allowed (codes "contracts") new chain addr)))

  is_granted_selector : Text → Text → Bool
  is_granted_selector sel k =
      contains (allowed (codes "selectors") new k) sel && is_new_selector old k sel

  new_selectors-any :
      (chain contract sel k : Text)
      → any (λ b. nat_beq b 58) chain ≡ false
      → any (is_selector chain contract sel) (new_selectors old new k)
        ≡ (k == chain ++ 58 ∷ contract && is_granted_selector sel k)
  unfolding is_granted_selector
  new_selectors-any chain contract sel k plain =
      go (split_once k 58) ∙ rw (split_once-pair k chain contract plain) refl
    where
      go :
          (o : Option (Text × Text))
          → any (is_selector chain contract sel) (selectors_at o old new k) ≡ (
              splits_into o chain contract
              && (contains (allowed (codes "selectors") new k) sel && is_new_selector old k sel))
      go none = refl
      go (some (c, a)) =
          let fresh = filter (is_new_selector old k) (allowed (codes "selectors") new k) in
          any-map (is_selector chain contract sel) (selector_allowed c a) fresh
          ∙ any_same (λ s. c == chain && a == contract && s == sel)
              (λ s. (c == chain && a == contract) && s == sel) fresh (λ s. ground arith)
          ∙ any-and (c == chain && a == contract) (λ s. s == sel) fresh
          ∙ rw (any-filter (is_new_selector old k) sel (allowed (codes "selectors") new k)) refl

  contracts_none :
      (p : Capability → Bool)
      → ((c a : Text) → p (contract_allowed c a) ≡ false)
      → (ks : List Text) → any p (concat_map (new_contracts old new) ks) ≡ false
  contracts_none p h ks =
      any-concat_map p (new_contracts old new) ks
      ∙ any_none (λ k. any p (new_contracts old new k)) ks
          (λ k.
            let fresh = filter (is_new_contract old k) (allowed (codes "contracts") new k) in
            any-map p (contract_allowed k) fresh
            ∙ any_none (λ a. p (contract_allowed k a)) fresh (h k))

  selectors_listed :
      (chain contract sel : Text)
      → any (λ b. nat_beq b 58) chain ≡ false
      → any (is_selector chain contract sel) (new_capabilities_granted old new) ≡ (
          contains (allowed (codes "selectors") new (chain ++ 58 ∷ contract)) sel
          && is_new_selector old (chain ++ 58 ∷ contract) sel)
  unfolding new_capabilities_granted is_granted_selector
  selectors_listed chain contract sel plain =
      let p = is_selector chain contract sel in
      let ks = section_keys (codes "selectors") new in
      let pair = chain ++ 58 ∷ contract in
      let in_keys =
        any-concat_map p (new_selectors old new) ks
        ∙ any_same (λ k. any p (new_selectors old new k))
            (λ k. k == pair && is_granted_selector sel k) ks
            (λ k. new_selectors-any chain contract sel k plain)
        ∙ any-key (is_granted_selector sel) pair ks in
      let elsewhere = contracts_none p (λ c a. refl) (section_keys (codes "contracts") new) in
      any-append p (new_global old new) _
      ∙ rw (global_none p refl) (
          any-append p (concat_map (new_contracts old new) (section_keys (codes "contracts") new)) _
          ∙ rw (elsewhere, in_keys)
              (ground (arith, contains-allowed (codes "selectors") new pair sel)))

  selectors_silent :
      (p : Capability → Bool)
      → ((c a s : Text) → p (selector_allowed c a s) ≡ false)
      → (k : Text) → any p (new_selectors old new k) ≡ false
  selectors_silent p h k = go (split_once k 58)
    where
      go : (o : Option (Text × Text)) → any p (selectors_at o old new k) ≡ false
      go none = refl
      go (some (c, a)) =
          let fresh = filter (is_new_selector old k) (allowed (codes "selectors") new k) in
          any-map p (selector_allowed c a) fresh
          ∙ any_none (λ s. p (selector_allowed c a s)) fresh (h c a)

  raw_calls_listed :
      any is_raw_call (new_capabilities_granted old new)
      ≡ (not (allows_global old) && allows_global new)
  unfolding new_capabilities_granted
  raw_calls_listed =
      let cs = section_keys (codes "contracts") new in
      let ss = section_keys (codes "selectors") new in
      let no_selector =
        any-concat_map is_raw_call (new_selectors old new) ss
        ∙ any_none (λ k. any is_raw_call (new_selectors old new k)) ss
            (selectors_silent is_raw_call (λ c a s. refl)) in
      any-append is_raw_call (new_global old new) _
      ∙ rw (any-append is_raw_call (concat_map (new_contracts old new) cs) _) (
          rw (contracts_none is_raw_call (λ c a. refl) cs, no_selector)
            (go (not (allows_global old) && allows_global new)))
    where
      go : (b : Bool) → (any is_raw_call (if b then raw_call_enabled ∷ [] else []) || false) ≡ b
      go true = refl
      go false = refl

-- What the answer lists is what the lists of the new body name and those of the old one did not: a
-- contract in the list of a chain, up to the case of its letters; a text in the list of selectors of
-- a contract, letter by letter, for a chain that is written without a colon; and the switch for all
-- raw calls, if it is on and was off.
pub new_capabilities_granted_lem :
    (old new : Json) (chain contract sel : Text)
    → any (λ b. nat_beq b 58) chain ≡ false
    → let listed = new_capabilities_granted old new in
      let pair = chain ++ 58 ∷ contract in
      (any (is_contract chain contract) listed ≡ (
        contains (allowed (codes "contracts") new chain) contract
        && not
            (any (λ a. eq_ignore_ascii_case a contract) (allowed (codes "contracts") old chain))))
      × (any (is_selector chain contract sel) listed ≡ (
          contains (allowed (codes "selectors") new pair) sel
          && not (contains (allowed (codes "selectors") old pair) sel)))
      × (any is_raw_call listed ≡ (not (allows_global old) && allows_global new))
new_capabilities_granted_lem old new chain contract sel plain = (
  contracts_listed old new chain contract,
  selectors_listed old new chain contract sel plain,
  raw_calls_listed old new,
)
