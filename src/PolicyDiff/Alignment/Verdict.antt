-- ===== src/PolicyDiff/Alignment/Verdict.antt =====
-- When the verdict is that a policy satisfies a strategy.
use onchain_strategy_mcp.Prelude.{
  suc, ◌≤◌, true, false, some, [], ◌∷◌, ◌≡◌, refl, ◌↔◌, ◌⊎◌, inl, inr, nat_eq, arith, Bool-cases,
}
use mathlib.Core.Bool.{false≢true}
use onchain_strategy_mcp.Prelude.Text.{Text, codes}
use onchain_strategy_mcp.Prelude.Json.{Json, Fields, end, field}
use onchain_strategy_mcp.PolicyDiff.{child}
use onchain_strategy_mcp.PolicyDiff.Alignment.Covered.{IsCovered, coverage_iff}
use onchain_strategy_mcp.PolicyDiff.Alignment.{
  satisfied, Reason, contract_not_in_policy, selectors_by_hex, selectors_not_in_policy,
  MissingCapability, Coverage, covered, uncovered, coverage, Survey, is_reserved, entry_for,
  counted, survey, roll_up, says_incomplete, compute_alignment,
}

-- Every contract that is touched is covered: a chain lists it, and the last entry of the selectors for
-- it on the first such chain has `any`.
abbrev pub AllCovered : Json → Fields → Type 0
AllCovered policy end = Unit
AllCovered policy (field addr funcs rest) =
    ((is_reserved addr ≡ true) ⊎ IsCovered policy addr) × AllCovered policy rest

-- The loop takes every contract for covered.
abbrev AllTaken : Json → Fields → Type 0
AllTaken policy end = Unit
AllTaken policy (field addr funcs rest) =
    ((is_reserved addr ≡ true) ⊎ (coverage policy addr ≡ covered)) × AllTaken policy rest

or_mono : {R A B : Type 0} → (A → B) → R ⊎ A → R ⊎ B
or_mono f (inl r) = inl r
or_mono f (inr a) = inr (f a)

AllTaken-iff : (policy : Json) (o : Fields) → AllTaken policy o ↔ AllCovered policy o
AllTaken-iff policy end = ((λ h. h), λ h. h)
AllTaken-iff policy (field addr funcs rest) =
    let (forth, back) = AllTaken-iff policy rest in
    let (one, eno) = coverage_iff policy addr in
    ((λ h. (or_mono one h.0, forth h.1)), λ h. (or_mono eno h.0, back h.1))

-- A covered contract is counted as one, another is an entry.
abbrev IsTally : Survey → Type 0 → Type 0
IsTally t All =
    (t.covered_count ≤ t.total) × ((t.covered_count ≡ t.total) ↔ All) × ((t.entries ≡ []) ↔ All)

-- One contract more that is not covered, and one entry.
uncovered-IsTally :
    (t u : Survey) (x : MissingCapability) (All Now : Type 0)
    → u.covered_count ≡ t.covered_count
    → u.total ≡ suc t.total
    → u.entries ≡ x ∷ t.entries
    → ¬ Now
    → IsTally t All
    → IsTally u (Now × All)
uncovered-IsTally t u x All Now same_count more same_entries never (le, _, _) = (
  omega (arith, le, same_count, more),
  ((λ e. absurd (omega (arith, e, le, same_count, more))), λ h. absurd (never h.0)),
  ((λ e. absurd (cc (e, same_entries))), λ h. absurd (never h.0)),
)

counted-IsTally :
    (addr : Text) (funcs : Json) (c : Coverage) (t : Survey) (All R : Type 0)
    → ¬ R
    → IsTally t All
    → IsTally (counted addr funcs c t) ((R ⊎ (c ≡ covered)) × All)
counted-IsTally addr funcs covered t All R refuted (le, (all, counts), (none_left, empty)) = (
  omega (arith, le),
  ((λ e. (inr refl, all (omega (arith, e)))), λ h. omega (arith, counts h.1)),
  ((λ e. (inr refl, none_left e)), λ h. empty h.1),
)
counted-IsTally addr funcs (uncovered reason) t All R refuted tally = go reason
  where
    never : (r : Reason) → ¬ (R ⊎ (uncovered r ≡ covered))
    never r (inl reserved) = refuted reserved
    never r (inr q) = absurd (cc q)

    go :
        (r : Reason)
        → IsTally (counted addr funcs (uncovered r) t) ((R ⊎ (uncovered r ≡ covered)) × All)
    go selectors_by_hex =
        uncovered-IsTally t (counted addr funcs (uncovered selectors_by_hex) t)
          (entry_for addr funcs selectors_by_hex) All (R ⊎ (uncovered selectors_by_hex ≡ covered))
          refl refl refl (never selectors_by_hex) tally
    go contract_not_in_policy =
        uncovered-IsTally t (counted addr funcs (uncovered contract_not_in_policy) t)
          (entry_for addr funcs contract_not_in_policy) All
          (R ⊎ (uncovered contract_not_in_policy ≡ covered)) refl refl refl
          (never contract_not_in_policy) tally
    go selectors_not_in_policy =
        uncovered-IsTally t (counted addr funcs (uncovered selectors_not_in_policy) t)
          (entry_for addr funcs selectors_not_in_policy) All
          (R ⊎ (uncovered selectors_not_in_policy ≡ covered)) refl refl refl
          (never selectors_not_in_policy) tally

survey-IsTally : (policy : Json) (o : Fields) → IsTally (survey policy o) (AllTaken policy o)
unfolding survey
survey-IsTally policy end = (omega arith, ((λ e. tt), λ h. refl), ((λ e. tt), λ h. refl))
survey-IsTally policy (field addr funcs rest) = elim (Bool-cases (is_reserved addr)) [
  | inl reserved ↦
      (let (le, (all, counts), (none_left, empty)) = survey-IsTally policy rest in
        rw reserved (
          le,
          ((λ e. (inl refl, all e)), λ h. counts h.1),
          ((λ e. (inl refl, none_left e)), λ h. empty h.1),
        ))
  | inr contract ↦ rw contract (
      counted-IsTally addr funcs (coverage policy addr) (survey policy rest) (AllTaken policy rest)
        (false ≡ true) (λ q. false≢true q) (survey-IsTally policy rest))
]

-- For contracts whose extraction was complete, the verdict is satisfied exactly when every contract
-- that is touched is in the list of a chain, in some letters, and the last entry of the selectors for
-- it on the first such chain has the word `any`; and that is exactly when nothing is listed as
-- missing.
pub compute_alignment-satisfied :
    (o : Fields) (policy : Json)
    → says_incomplete (child (codes "_extraction") (some (Json.object o))) ≡ false
    → let a = compute_alignment (some (Json.object o)) (some policy) in
      ((a.verdict ≡ satisfied) ↔ AllCovered policy o)
      × ((a.missing_entries ≡ []) ↔ AllCovered policy o)
unfolding compute_alignment
compute_alignment-satisfied o policy complete =
    let t = survey policy o in
    let (le, (all, counts), entries) = survey-IsTally policy o in
    let (forth, back) = AllTaken-iff policy o in
    rw complete (
      ((λ e. forth (all (reached t le e))), λ h. rolled t (counts (back h))),
      ((λ e. forth (entries.0 e)), λ h. entries.1 (back h)),
    )
  where
    reached :
        (t : Survey)
        → t.covered_count ≤ t.total
        → roll_up false t ≡ satisfied
        → t.covered_count ≡ t.total
    reached t le h = ground (arith, le, h)

    rolled : (t : Survey) → t.covered_count ≡ t.total → roll_up false t ≡ satisfied
    rolled t h = ground (arith, h)
