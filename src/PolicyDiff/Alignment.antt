-- ===== src/PolicyDiff/Alignment.antt =====
-- crates/executor-mcp/src/alignment.rs: whether a policy allows the contracts that a strategy touches.
-- The index of the source is a search here: of the chains that allow a contract the first one in the
-- order of the map counts, and of the entries for one chain and contract the last one.
pub mod Covered
pub mod Verdict
use onchain_strategy_mcp.Prelude.{
  ℕ, suc, ◌+◌, ◌≤◌, Bool, true, false, not, Option, none, some, List, [], ◌∷◌, ◌≡◌, refl, ◌↔◌, ◌⊎◌,
  inl, inr, map, ◌==◌, ◌&&◌, nat_eq, if◌then◌else◌, any, arith, Bool-cases,
}
use onchain_strategy_mcp.Prelude.Text.{
  Text, codes, text_eq, starts_with, to_ascii_lowercase, eq_ignore_ascii_case, split_once,
}
use onchain_strategy_mcp.Prelude.Json.{Json, Fields, end, field}
use onchain_strategy_mcp.PolicyDiff.{allowed, section_keys, child, texts_of, object_of}

pub data AlignmentVerdict : Type 0 where
  satisfied partial missing incomplete : AlignmentVerdict

pub data Reason : Type 0 where
  contract_not_in_policy selectors_by_hex selectors_not_in_policy : Reason

pub record MissingCapability : Type 0 where
  pub contract : Text
  pub selectors : List Text
  pub reason : Reason

-- The remediation is a text for each verdict and is left out.
pub record PolicyAlignment : Type 0 where
  pub verdict : AlignmentVerdict
  pub missing_entries : List MissingCapability

abbrev pub lowercase : Text → Text
lowercase s = map to_ascii_lowercase s

-- `lookup_chain_for_contract`
abbrev pub first_chain : Json → Text → List Text → Option Text
first_chain policy addr_lc [] = none
first_chain policy addr_lc (chain ∷ rest) =
    let later = first_chain policy addr_lc rest in
    if any (λ a. lowercase a == addr_lc) (allowed (codes "contracts") policy chain)
    then some chain
    else later

abbrev pub is_pair : Text → Text → Option (Text × Text) → Bool
is_pair chain addr_lc none = false
is_pair chain addr_lc (some (c, a)) = c == chain && lowercase a == addr_lc

abbrev pub or_later : Option Bool → Bool → Bool → Option Bool
or_later (some b) here any_here = some b
or_later none true any_here = some any_here
or_later none false any_here = none

-- Whether the entry for a chain and a contract has `any`, if there is an entry.
abbrev pub selector_entry : Json → Text → Text → List Text → Option Bool
selector_entry policy chain addr_lc [] = none
selector_entry policy chain addr_lc (key ∷ rest) =
    or_later (selector_entry policy chain addr_lc rest) (is_pair chain addr_lc (split_once key 58))
      (any (λ s. eq_ignore_ascii_case s (codes "any")) (allowed (codes "selectors") policy key))

pub data Coverage : Type 0 where
  covered : Coverage
  uncovered : Reason → Coverage

abbrev pub entry_coverage : Option Bool → Coverage
entry_coverage (some true) = covered
entry_coverage (some false) = uncovered selectors_by_hex
entry_coverage none = uncovered selectors_not_in_policy

abbrev pub chain_coverage : Json → Text → Option Text → Coverage
chain_coverage policy addr_lc none = uncovered contract_not_in_policy
chain_coverage policy addr_lc (some chain) =
    entry_coverage (selector_entry policy chain addr_lc (section_keys (codes "selectors") policy))

-- One contract of the loop.
unfoldable pub coverage : Json → Text → Coverage
coverage policy addr =
    chain_coverage policy (lowercase addr)
      (first_chain policy (lowercase addr) (section_keys (codes "contracts") policy))

pub record Survey : Type 0 where
  pub total : ℕ
  pub covered_count : ℕ
  pub partial_count : ℕ
  pub entries : List MissingCapability

abbrev pub is_reserved : Text → Bool
is_reserved addr = starts_with addr (codes "_")

abbrev pub entry_for : Text → Json → Reason → MissingCapability
entry_for addr funcs reason = record {
  contract = addr;
  selectors = texts_of (some funcs);
  reason = reason;
}

abbrev pub counted : Text → Json → Coverage → Survey → Survey
counted addr funcs covered t = record t { total = suc t.total; covered_count = suc t.covered_count }
counted addr funcs (uncovered selectors_by_hex) t = record t {
  total = suc t.total;
  partial_count = suc t.partial_count;
  entries = entry_for addr funcs selectors_by_hex ∷ t.entries;
}
counted addr funcs (uncovered contract_not_in_policy) t = record t {
  total = suc t.total;
  entries = entry_for addr funcs contract_not_in_policy ∷ t.entries;
}
counted addr funcs (uncovered selectors_not_in_policy) t = record t {
  total = suc t.total;
  entries = entry_for addr funcs selectors_not_in_policy ∷ t.entries;
}

-- The loop over the contracts that are touched; keys with `_` are no contracts.
unfoldable pub survey : Json → Fields → Survey
survey policy end = record { total = 0; covered_count = 0; partial_count = 0; entries = [] }
survey policy (field addr funcs rest) =
    let t = survey policy rest in
    if is_reserved addr then t else counted addr funcs (coverage policy addr) t

abbrev pub roll_up : Bool → Survey → AlignmentVerdict
roll_up extraction_incomplete t =
    if extraction_incomplete
    then incomplete
    else if t.total == 0
    then satisfied
    else if t.covered_count == t.total
    then satisfied
    else if t.covered_count + t.partial_count == 0
    then missing
    else partial

abbrev pub says_incomplete : Option Json → Bool
says_incomplete (some (Json.string s)) = eq_ignore_ascii_case s (codes "incomplete")
says_incomplete (some Json.null) = false
says_incomplete (some (Json.bool b)) = false
says_incomplete (some (Json.number n)) = false
says_incomplete (some (Json.array l)) = false
says_incomplete (some (Json.object o)) = false
says_incomplete none = false

abbrev pub unknown : PolicyAlignment
unknown = record { verdict = incomplete; missing_entries = [] }

abbrev pub align_touched : Json → Json → PolicyAlignment
align_touched policy (Json.object o) =
    let t = survey policy o in
    record {
      verdict = roll_up (says_incomplete (child (codes "_extraction") (some (Json.object o)))) t;
      missing_entries = t.entries;
    }
align_touched policy Json.null = unknown
align_touched policy (Json.bool b) = unknown
align_touched policy (Json.number n) = unknown
align_touched policy (Json.string s) = unknown
align_touched policy (Json.array l) = unknown

unfoldable pub compute_alignment : Option Json → Option Json → PolicyAlignment
compute_alignment touched none = unknown
compute_alignment none (some policy) = unknown
compute_alignment (some touched) (some policy) = align_touched policy touched
