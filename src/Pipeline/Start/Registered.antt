-- ===== src/Pipeline/Start/Registered.antt =====
-- crates/executor-mcp/src/tools.rs: the named actions as `strategy_register` canonicalises them, and
-- that each of them can be run. A `BTreeMap` is an association list, in no order, since it is only
-- looked up here; what serde_json reads back of it is an argument of the theorem.
use onchain_strategy_mcp.Prelude.{
  String, Bool, true, false, Option, some, List, [], ◌∷◌, ◌++◌, ◌≡◌, ◌≢◌, refl, sym, ap, ◌∙◌,
  if◌then◌else◌, Bool-cases, inl, inr, ◌==◌, string_eq, contains, any, Exists, is_some, subst,
  ==_refl,
}
use mathlib.Core.Bool.{false≢true}
use onchain_strategy_mcp.Prelude.Text.{Text, text_eq, starts_with}
use onchain_strategy_mcp.Prelude.Map.{get, contains_key, insert, get-insert}
use onchain_strategy_mcp.Prelude.Result.{Result, ok, err}
use onchain_strategy_mcp.State.Strategies.{Strategy}
use onchain_strategy_mcp.Pipeline.Start.Names.{trim}
use onchain_strategy_mcp.Pipeline.Start.{
  Actions, actions_of, reserved_action_keys, resolved_source, trimmed,
}
use onchain_strategy_mcp.Pipeline.Start.Resolved.{resolved_source_iff}

-- The bytes of the characters that `str::trim` drops.
abbrev pub white_space : List Text
white_space =
    (9 ∷ [])
    ∷ (10 ∷ [])
    ∷ (11 ∷ [])
    ∷ (12 ∷ [])
    ∷ (13 ∷ [])
    ∷ (32 ∷ [])
    ∷ (0xc2 ∷ 0x85 ∷ [])
    ∷ (0xc2 ∷ 0xa0 ∷ [])
    ∷ (0xe1 ∷ 0x9a ∷ 0x80 ∷ [])
    ∷ (0xe2 ∷ 0x80 ∷ 0x80 ∷ [])
    ∷ (0xe2 ∷ 0x80 ∷ 0x81 ∷ [])
    ∷ (0xe2 ∷ 0x80 ∷ 0x82 ∷ [])
    ∷ (0xe2 ∷ 0x80 ∷ 0x83 ∷ [])
    ∷ (0xe2 ∷ 0x80 ∷ 0x84 ∷ [])
    ∷ (0xe2 ∷ 0x80 ∷ 0x85 ∷ [])
    ∷ (0xe2 ∷ 0x80 ∷ 0x86 ∷ [])
    ∷ (0xe2 ∷ 0x80 ∷ 0x87 ∷ [])
    ∷ (0xe2 ∷ 0x80 ∷ 0x88 ∷ [])
    ∷ (0xe2 ∷ 0x80 ∷ 0x89 ∷ [])
    ∷ (0xe2 ∷ 0x80 ∷ 0x8a ∷ [])
    ∷ (0xe2 ∷ 0x80 ∷ 0xa8 ∷ [])
    ∷ (0xe2 ∷ 0x80 ∷ 0xa9 ∷ [])
    ∷ (0xe2 ∷ 0x80 ∷ 0xaf ∷ [])
    ∷ (0xe2 ∷ 0x81 ∷ 0x9f ∷ [])
    ∷ (0xe3 ∷ 0x80 ∷ 0x80 ∷ [])
    ∷ []

-- White space alone, after the first bytes of a character.
unfoldable pub is_blank_after : Text → Text → Bool
is_blank_after begun [] = begun == []
is_blank_after begun (b ∷ t) = elim (contains white_space (begun ++ b ∷ [])) [
  | true ↦ is_blank_after [] t
  | false ↦ elim (any (λ w. starts_with w (begun ++ b ∷ [])) white_space) [
    | true ↦ is_blank_after (begun ++ b ∷ []) t
    | false ↦ false
  ]
]

-- `raw_src.trim().is_empty()`
abbrev pub is_blank : Text → Bool
is_blank t = is_blank_after [] t

pub data ActionFault : Type 0 where
  blank_name : ActionFault
  reserved blank_source duplicate_name : String → ActionFault

abbrev pub check_action : Actions → String → Text → Result ActionFault (Unit {0})
check_action acc name src =
    if name == ""
    then err blank_name
    else if contains reserved_action_keys name
    then err (reserved name)
    else if is_blank src
    then err (blank_source name)
    else if contains_key acc name
    then err (duplicate_name name)
    else ok tt

-- The loop over the entries, in the order in which the map of the input yields them.
unfoldable pub canonical_actions : Actions → List (String × Text) → Result ActionFault Actions
canonical_actions acc [] = ok acc
canonical_actions acc ((raw_name, src) ∷ rest) = elim (check_action acc (trim raw_name) src) [
  | err e ↦ err e
  | ok _ ↦ canonical_actions (insert acc (trim raw_name) src) rest
]

-- What is accepted: the name is fit for a run, and new.
check_action_ok :
    (acc : Actions) (name : String) (src : Text)
    → check_action acc name src ≡ ok tt
    → (name ≢ "") × (contains reserved_action_keys name ≡ false) × (contains_key acc name ≡ false)
check_action_ok acc name src h = elim (Bool-cases (name == "")) [
  | inl e ↦ absurd (cc (rw e at h))
  | inr e ↦ elim (Bool-cases (contains reserved_action_keys name)) [
    | inl r ↦ absurd (cc (rw (e, r) at h))
    | inr r ↦ elim (Bool-cases (is_blank src)) [
      | inl b ↦ absurd (cc (rw (e, r, b) at h))
      | inr b ↦ elim (Bool-cases (contains_key acc name)) [
        | inl k ↦ absurd (cc (rw (e, r, b, k) at h))
        | inr k ↦ (λ q. cc (e, (string_eq.decides name "").1 q), r, k)
      ]
    ]
  ]
]

-- The first entry passed its check, and the rest was accepted after it.
canonical_actions-cons :
    (acc m : Actions) (name : String) (src : Text) (rest : List (String × Text))
    → canonical_actions acc ((name, src) ∷ rest) ≡ ok m
    → (check_action acc (trim name) src ≡ ok tt)
      × (canonical_actions (insert acc (trim name) src) rest ≡ ok m)
unfolding canonical_actions
canonical_actions-cons acc m name src rest h = go (check_action acc (trim name) src) h
  where
    go :
        (r : Result ActionFault (Unit {0}))
        → (elim r as (λ _. Result ActionFault Actions) [
          | err e ↦ err e
          | ok _ ↦ canonical_actions (insert acc (trim name) src) rest
        ])
          ≡ ok m
        → (r ≡ ok tt) × (canonical_actions (insert acc (trim name) src) rest ≡ ok m)
    go (ok _) g = (refl, g)
    go (err e) g = absurd (cc g)

get-insert_new :
    (acc : Actions) (name k : String) (src v : Text)
    → contains_key acc name ≡ false
    → get acc k ≡ some v
    → get (insert acc name src) k ≡ some v
get-insert_new acc name k src v free kept = elim (Bool-cases (name == k)) [
  | inr other ↦ get-insert acc name k src ∙ (rw other kept)
  | inl same ↦
      let there : get acc name ≡ some v =
        subst (λ t. get acc t ≡ some v) (sym ((string_eq.decides name k).0 same)) kept in
      absurd (false≢true (sym free ∙ ap is_some there))
]

-- What is kept under a name stays, since a name that is there is refused.
canonical_actions-keeps :
    (acc m : Actions) (raw : List (String × Text)) (k : String) (v : Text)
    → canonical_actions acc raw ≡ ok m
    → get acc k ≡ some v
    → get m k ≡ some v
unfolding canonical_actions
canonical_actions-keeps acc m [] k v h kept = cc (h, kept)
canonical_actions-keeps acc m ((name, src) ∷ rest) k v h kept =
    let (checked, later) = canonical_actions-cons acc m name src rest h in
    let fresh = (check_action_ok acc (trim name) src checked).2 in
    canonical_actions-keeps (insert acc (trim name) src) m rest k v later
      (get-insert_new acc (trim name) k src v fresh kept)

abbrev pub Fits : Actions → String → Text → Type 0
Fits m name src =
    (name ≢ "") × (contains reserved_action_keys name ≡ false) × (get m name ≡ some src)

-- An entry that was accepted is in the map, under its trimmed name, which a run may use.
canonical_actions-Fits :
    (acc m : Actions) (raw : List (String × Text)) (name : String) (src : Text)
    → canonical_actions acc raw ≡ ok m
    → Exists (λ entry. entry ≡ (name, src)) raw
    → Fits m (trim name) src
canonical_actions-Fits acc m [] name src h there = absurd there
canonical_actions-Fits acc m ((n, s) ∷ rest) name src h there =
    let (checked, later) = canonical_actions-cons acc m n s rest h in
    elim there [
      | inr below ↦ canonical_actions-Fits (insert acc (trim n) s) m rest name src later below
      | inl here ↦
          let (named, free, fresh) = check_action_ok acc (trim n) s checked in
          let first : get m (trim n) ≡ some s =
            canonical_actions-keeps (insert acc (trim n) s) m rest (trim n) s later
              (get-insert acc (trim n) (trim n) s ∙ (rw (==_refl (trim n)) refl)) in
          subst (λ entry. Fits m (trim entry.0) entry.1) here (named, free, first)
    ]

-- When a registration accepts the actions it is given, and the text that the strategy keeps of them is
-- read back with the same values, a run of any of them by the name it was given under is of its
-- source.
pub canonical_actions-resolved_source :
    (parse : Text → Option Actions) (raw : List (String × Text)) (m read : Actions) (text : Text)
    (s : Strategy) (name : String) (src : Text)
    → canonical_actions [] raw ≡ ok m
    → s.actions_json ≡ some text
    → parse text ≡ some read
    → ((k : String) → get read k ≡ get m k)
    → Exists (λ entry. entry ≡ (name, src)) raw
    → resolved_source parse s (trimmed (some name)) ≡ ok src
canonical_actions-resolved_source parse raw m read text s name src h kept parsed same there =
    let (named, free, found) = canonical_actions-Fits [] m raw name src h there in
    let actions : actions_of parse s.actions_json ≡ read = rw (kept, parsed) refl in
    (resolved_source_iff parse s (some (trim name)) src).1
      (named, free, ap (λ a. get a (trim name)) actions ∙ same (trim name) ∙ found)
