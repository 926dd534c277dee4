-- ===== src/Pipeline/Output/Accepted.antt =====
-- Which values of a script are outcomes.
use onchain_strategy_mcp.Prelude.{
  ℕ, suc, false, Option, none, some, List, [], ◌∷◌, ◌==◌, length, ltb, map, ◌≤◌, ◌≡◌, ◌↔◌, ◌⊎◌, inl,
  inr, refl, sym, ap, arith, Bool-cases,
}
use onchain_strategy_mcp.Prelude.Text.{Text, codes, text_eq, text_beq_iff}
use onchain_strategy_mcp.Prelude.Json.{Json, Items}
use onchain_strategy_mcp.Prelude.Result.{Result, ok, err, ◌>>=◌, bind_ok}
use onchain_strategy_mcp.Evm.Validate.{EvmError}
use onchain_strategy_mcp.Evm.Normalize.{
  Action, noop, contract_call, raw_call, erc20_transfer, erc20_approve, native_transfer,
}
use onchain_strategy_mcp.Evm.Wire.{items, kind}
use onchain_strategy_mcp.Evm.Wire.RoundTrip.{parse_action-kind}
use onchain_strategy_mcp.Pipeline.Types.{StrategyOutcome, OutputFault}
use onchain_strategy_mcp.Pipeline.Output.{
  validate_action_kind_allowlisted, kind_of, check_kinds, from_value, or_invalid, read_actions,
  or_not_encodable, check_encoding, check_encodings, validate_items, validate_strategy_output,
}

-- The actions are what the items of the list are read as, one by one.
abbrev pub Reads : List Json → List Action → Type 0
Reads vs acts = map from_value vs ≡ map (λ a. some a) acts

kind-allowed : (a : Action) → validate_action_kind_allowlisted (kind a) ≡ ok tt
unfolding validate_action_kind_allowlisted kind
kind-allowed noop = refl
kind-allowed (contract_call _) = refl
kind-allowed (raw_call _) = refl
kind-allowed (erc20_transfer _) = refl
kind-allowed (erc20_approve _) = refl
kind-allowed (native_transfer _) = refl

-- The pass over the tags refuses nothing that is read as an action.
from_value-kind_of : (v : Json) (a : Action) → from_value v ≡ some a → kind_of v ≡ some (kind a)
from_value-kind_of (Json.object o) a h = parse_action-kind o a h
from_value-kind_of Json.null a h = cc h
from_value-kind_of (Json.bool b) a h = cc h
from_value-kind_of (Json.number n) a h = cc h
from_value-kind_of (Json.string s) a h = cc h
from_value-kind_of (Json.array l) a h = cc h

cons_injective : {A : Type 0} (x y : A) (xs ys : List A) → (x ∷ xs) ≡ (y ∷ ys) → (x ≡ y) × (xs ≡ ys)
cons_injective x y xs ys h = (cc h, cc h)

check_kinds-Reads :
    (i : ℕ) (vs : List Json) (acts : List Action) → Reads vs acts → check_kinds i vs ≡ ok tt
unfolding check_kinds
check_kinds-Reads i [] acts h = refl
check_kinds-Reads i (v ∷ vs) [] h = cc h
check_kinds-Reads i (v ∷ vs) (a ∷ acts) h =
    let (here, later) = cons_injective _ _ _ _ h in
    rw (from_value-kind_of v a here, kind-allowed a, check_kinds-Reads (suc i) vs acts later) refl

read_actions_complete :
    (i : ℕ) (vs : List Json) (acts : List Action) → Reads vs acts → read_actions i vs ≡ ok acts
unfolding read_actions
read_actions_complete i [] [] h = refl
read_actions_complete i [] (a ∷ acts) h = cc h
read_actions_complete i (v ∷ vs) [] h = cc h
read_actions_complete i (v ∷ vs) (a ∷ acts) h =
    let (here, later) = cons_injective _ _ _ _ h in
    rw (here, read_actions_complete (suc i) vs acts later) refl

or_invalid_ok : (i : ℕ) (o : Option Action) (a : Action) → or_invalid i o ≡ ok a → o ≡ some a
or_invalid_ok i none a h = cc h
or_invalid_ok i (some b) a h = cc h

read_actions_sound :
    (i : ℕ) (vs : List Json) (acts : List Action) → read_actions i vs ≡ ok acts → Reads vs acts
unfolding read_actions
read_actions_sound i [] [] h = refl
read_actions_sound i [] (a ∷ acts) h = cc h
read_actions_sound i (v ∷ vs) acts h =
    let (a, first, rest) = bind_ok (or_invalid i (from_value v)) _ h in
    let (later, reads, whole) = bind_ok (read_actions (suc i) vs) _ rest in
    cc (or_invalid_ok i (from_value v) a first, read_actions_sound (suc i) vs later reads, whole)

module _ (enc : Text → Text → List Json → Result EvmError (List ℕ)) where
  -- Every contract call has calldata.
  abbrev pub Encodes : List Action → Type 0
  Encodes [] = Unit
  Encodes (contract_call c ∷ acts) =
      ((bytes : List ℕ) × (enc c.abi c.function c.args ≡ ok bytes)) × Encodes acts
  Encodes (noop ∷ acts) = Encodes acts
  Encodes (raw_call c ∷ acts) = Encodes acts
  Encodes (erc20_transfer c ∷ acts) = Encodes acts
  Encodes (erc20_approve c ∷ acts) = Encodes acts
  Encodes (native_transfer c ∷ acts) = Encodes acts

  -- The values that stand for an outcome.
  abbrev pub IsOutcome : Json → StrategyOutcome → Type 0
  IsOutcome v outcome =
      ((v ≡ Json.string (codes "noop")) × (outcome ≡ StrategyOutcome.noop))
      ⊎ ((l : Items) × (acts : List Action) × (v ≡ Json.array l)
          × (length (items l) ≤ 32)
          × Reads (items l) acts
          × Encodes acts
          × (outcome ≡ StrategyOutcome.actions acts []))

  encoded :
      (i : ℕ) (r : Result EvmError (List ℕ))
      → (or_not_encodable enc i (r >>= λ _. ok tt) ≡ ok tt) ↔ ((bytes : List ℕ) × (r ≡ ok bytes))
  encoded i (ok bytes) = (λ h. (bytes, refl), λ h. refl)
  encoded i (err e) = (λ h. cc h, λ h. cc (h.1))

  check_encodings_iff :
      (i : ℕ) (acts : List Action) → (check_encodings enc i acts ≡ ok tt) ↔ Encodes acts
  unfolding check_encodings
  check_encodings_iff i [] = (λ h. tt, λ h. refl)
  check_encodings_iff i (noop ∷ acts) = check_encodings_iff (suc i) acts
  check_encodings_iff i (raw_call c ∷ acts) = check_encodings_iff (suc i) acts
  check_encodings_iff i (erc20_transfer c ∷ acts) = check_encodings_iff (suc i) acts
  check_encodings_iff i (erc20_approve c ∷ acts) = check_encodings_iff (suc i) acts
  check_encodings_iff i (native_transfer c ∷ acts) = check_encodings_iff (suc i) acts
  check_encodings_iff i (contract_call c ∷ acts) = (
    λ h.
        let (_, first, later) = bind_ok (check_encoding enc i (contract_call c)) _ h in
        (
          (encoded i (enc c.abi c.function c.args)).0 first,
          (check_encodings_iff (suc i) acts).0 later,
        ),
    λ h.
        rw ((encoded i (enc c.abi c.function c.args)).1 h.0)
          ((check_encodings_iff (suc i) acts).1 h.1),
  )

  validate_items_iff :
      (vs : List Json) (outcome : StrategyOutcome)
      → (validate_items enc vs ≡ ok outcome) ↔ (
          (acts : List Action) × Reads vs acts
          × Encodes acts
          × (outcome ≡ StrategyOutcome.actions acts []))
  unfolding validate_items
  validate_items_iff vs outcome = (
    λ h.
        let (_, kinds, h1) = bind_ok (check_kinds 0 vs) _ h in
        let (acts, reads, h2) = bind_ok (read_actions 0 vs) _ h1 in
        let (_, encodes, h3) = bind_ok (check_encodings enc 0 acts) _ h2 in
        (acts, read_actions_sound 0 vs acts reads, (check_encodings_iff 0 acts).0 encodes, cc h3),
    λ (acts, reads, encodes, e).
        rw
          (
            check_kinds-Reads 0 vs acts reads,
            read_actions_complete 0 vs acts reads,
            (check_encodings_iff 0 acts).1 encodes,
          )
          (ap (λ o. ok o) (sym e)),
  )

  refused_iff :
      (v : Json) (outcome : StrategyOutcome) (fault : OutputFault)
      → (v ≡ Json.string (codes "noop") → ⊥)
      → ((l : Items) → v ≡ Json.array l → ⊥)
      → (err fault ≡ ok outcome) ↔ IsOutcome v outcome
  refused_iff v outcome fault no_text no_list = (
    λ h. cc h,
    λ h. elim h [ inl (e, f) ↦ absurd (no_text e) | inr found ↦ absurd (no_list found.0 found.2) ],
  )

  -- A script's value is accepted exactly when it is the text `noop`, or a list of at most 32 objects
  -- that are read as actions, one by one, whose contract calls have calldata; the outcome has those
  -- actions in order and no decisions.
  pub validate_strategy_output_iff :
      (v : Json) (outcome : StrategyOutcome)
      → (validate_strategy_output enc v ≡ ok outcome) ↔ IsOutcome v outcome
  unfolding validate_strategy_output
  validate_strategy_output_iff (Json.string s) outcome = (
    λ h. elim (Bool-cases (s == codes "noop")) [
      | inl e ↦ inl (ap (λ t. Json.string t) ((text_beq_iff s (codes "noop")).0 e), cc (rw e at h))
      | inr e ↦ absurd (cc (rw e at h))
    ],
    λ h. elim h [
      | inl (e, f) ↦ rw (string-injective s e, f) refl
      | inr found ↦ absurd (cc (found.2))
    ],
  )
    where
      string-injective : (t : Text) → Json.string t ≡ Json.string (codes "noop") → t ≡ codes "noop"
      string-injective t e = cc e
  validate_strategy_output_iff (Json.array l) outcome = (
    λ h. elim (Bool-cases (ltb 32 (length (items l)))) [
      | inl e ↦ absurd (cc (rw e at h))
      | inr e ↦
          let (acts, reads, encodes, same) = (validate_items_iff (items l) outcome).0 (rw e at h) in
          inr (l, acts, refl, ground arith, reads, encodes, same)
    ],
    λ h. elim h [
      | inl (e, f) ↦ absurd (cc e)
      | inr (m, acts, e, short, reads, encodes, f) ↦ go m e acts short (reads, encodes, f)
    ],
  )
    where
      go :
          (m : Items)
          → Json.array l ≡ Json.array m
          → (acts : List Action) → length (items m) ≤ 32
          → Reads (items m) acts × Encodes acts × (outcome ≡ StrategyOutcome.actions acts [])
          → validate_strategy_output enc (Json.array l) ≡ ok outcome
      go m e acts short rest =
          let same : items l ≡ items m = cc e in
          let fits : ltb 32 (length (items m)) ≡ false = ground arith in
          rw (same, fits) ((validate_items_iff (items m) outcome).1 (acts, rest.0, rest.1, rest.2))
  validate_strategy_output_iff Json.null outcome =
      refused_iff Json.null outcome _ (λ e. cc e) (λ l e. cc e)
  validate_strategy_output_iff (Json.bool b) outcome =
      refused_iff (Json.bool b) outcome _ (λ e. cc e) (λ l e. cc e)
  validate_strategy_output_iff (Json.number n) outcome =
      refused_iff (Json.number n) outcome _ (λ e. cc e) (λ l e. cc e)
  validate_strategy_output_iff (Json.object o) outcome =
      refused_iff (Json.object o) outcome _ (λ e. cc e) (λ l e. cc e)
