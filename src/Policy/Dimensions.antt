-- ===== src/Policy/Dimensions.antt =====
-- Each test that the evaluator makes decides the demand of its dimension.
use onchain_strategy_mcp.Prelude.{
  ℕ, ◌+◌, min, Bool, true, false, not, Option, none, some, List, ◌≡◌, refl, ◌↔◌, inl, inr, arith,
  ltb, if◌then◌else◌, Exists, any_iff, contains_iff, Bool-cases, Option-cases, is_some, nat_eq,
}
use onchain_strategy_mcp.Prelude.Map.{get}
use onchain_strategy_mcp.Alloy.{Address, U256, u256_max, Alloy, Saturates}
use onchain_strategy_mcp.Policy.Model.{
  Selector, SelectorPattern, specific, any_selector, selector_beq_iff, chain_contract,
  chain_contract_eq, LoadedPolicy, RawCallAllowResolved, allows_chain, allows_contract,
  allows_selector, pattern_admits, native_value_cap, erc20_spend_cap, raw_call_allows,
  raw_entry_admits, raw_selector_admits, Decision, Rule, chain_not_allowed, contract_not_allowed,
  raw_call_denied, selector_not_allowed, native_value_exceeds, erc20_spend_exceeds,
}
use onchain_strategy_mcp.Policy.Eval.{Tally, is_raw_call, is_erc20, next_total, exceeds}
use onchain_strategy_mcp.Policy.Spec.{
  Covers, by_any, by_bytes, Names, RawCallHolds, SelectorHolds, WithinCap, SpendHolds, Holds,
}

Covers-specific : {s t : Selector} → Covers (specific s) (some t) → s ≡ t
Covers-specific by_bytes = refl

raw_selector_admits_iff :
    (q : SelectorPattern) (o : Option Selector) → (raw_selector_admits q o ≡ true) ↔ Covers q o
raw_selector_admits_iff any_selector o = ((λ e. by_any), λ c. refl)
raw_selector_admits_iff (specific s) none = ((λ e. cc), λ c. elim c [ ])
raw_selector_admits_iff (specific s) (some t) = (
  (λ e. rw ((selector_beq_iff s t).0 e) by_bytes),
  λ c. (selector_beq_iff s t).1 (Covers-specific c),
)

pattern_admits_iff :
    (sel : Selector) (q : SelectorPattern) → (pattern_admits sel q ≡ true) ↔ Covers q (some sel)
pattern_admits_iff sel any_selector = raw_selector_admits_iff any_selector (some sel)
pattern_admits_iff sel (specific s) = raw_selector_admits_iff (specific s) (some sel)

raw_entry_admits_iff :
    (c : ℕ) (a : Address) (o : Option Selector) (e : RawCallAllowResolved)
    → (raw_entry_admits c a o e ≡ true) ↔ Names c a o e
raw_entry_admits_iff c a o e =
    let (sound, complete) = raw_selector_admits_iff e.selector o in
    (
      (λ h. (ground arith, ground arith, sound (ground arith))),
      λ h. let full : raw_selector_admits e.selector o ≡ true = complete h.2 in ground arith,
    )

pub allows_chain_iff :
    (p : LoadedPolicy) (c : ℕ) → (allows_chain p c ≡ true) ↔ Exists (λ x. x ≡ c) p.chains_allow
unfolding allows_chain
allows_chain_iff p c = contains_iff p.chains_allow c

same_list {ℓ} : {A : Type ℓ} {x y : List A} → some x ≡ some y → y ≡ x
same_list e = cc

pub allows_contract_iff :
    (p : LoadedPolicy) (c : ℕ) (a : Address)
    → (allows_contract p c a ≡ true)
      ↔ ((l : List Address) × (get p.contracts_by_chain c ≡ some l) × Exists (λ x. x ≡ a) l)
unfolding allows_contract
allows_contract_iff p c a = elim (Option-cases (get p.contracts_by_chain c)) [
  | inl missing ↦ rw missing ((λ e. cc), λ h. cc)
  | inr (l, found) ↦ rw found (
    (λ e. (l, refl, (contains_iff l a).0 e)),
    λ h. (contains_iff l a).1 (rw (← same_list h.1) h.2),
  )
]

pub allows_selector_iff :
    (p : LoadedPolicy) (d : Decision) (s : Selector)
    → (allows_selector p d.chain_id d.to s ≡ true) ↔ SelectorHolds p d (some s)
unfolding allows_selector
allows_selector_iff p d s =
    let key = chain_contract d.chain_id d.to in
    elim (Option-cases (get p.selectors_by_chain_contract key)) [
      | inl missing ↦ rw missing ((λ e. cc), λ h. cc)
      | inr (l, found) ↦
          let iff = any_iff (pattern_admits s) (λ q. Covers q (some s)) l (pattern_admits_iff s) in
          rw found ((λ e. (l, refl, iff.0 e)), λ h. iff.1 (rw (← same_list h.1) h.2))
    ]

pub raw_call_allows_iff :
    (p : LoadedPolicy) (d : Decision)
    → (raw_call_allows p d.chain_id d.to d.selector ≡ true) ↔ RawCallHolds p d
unfolding raw_call_allows
raw_call_allows_iff p d =
    let iff =
      any_iff (raw_entry_admits d.chain_id d.to d.selector) (Names d.chain_id d.to d.selector)
        p.raw_call_allow (raw_entry_admits_iff d.chain_id d.to d.selector) in
    elim (Bool-cases p.raw_call_allow_global) [
      | inl open_gate ↦ rw open_gate ((λ e. inl refl), λ h. refl)
      | inr shut ↦
          rw shut ((λ e. inr (iff.0 e)), λ h. elim h [ inl e ↦ cc | inr named ↦ iff.1 named ])
    ]

-- The Boolean form of each demand.
module _ (alloy : Alloy) where
  abbrev pub within : Option U256 → U256 → Bool
  within cap next = not (is_some (exceeds alloy cap next))

  abbrev pub spend_passes : LoadedPolicy → Tally → Decision → Option U256 → Bool
  spend_passes p tally d none = true
  spend_passes p tally d (some amount) =
      within (erc20_spend_cap p d.chain_id d.to)
        (next_total alloy tally (chain_contract d.chain_id d.to) amount)

  abbrev pub selector_passes : LoadedPolicy → Decision → Option Selector → Bool
  selector_passes p d none = true
  selector_passes p d (some sel) = allows_selector p d.chain_id d.to sel

  abbrev pub passes : LoadedPolicy → Tally → Decision → Rule → Bool
  passes p tally d chain_not_allowed = allows_chain p d.chain_id
  passes p tally d contract_not_allowed = allows_contract p d.chain_id d.to
  passes p tally d raw_call_denied =
      if is_raw_call d.action_kind then raw_call_allows p d.chain_id d.to d.selector else true
  passes p tally d selector_not_allowed =
      if is_raw_call d.action_kind then true else selector_passes p d d.selector
  passes p tally d native_value_exceeds = not (ltb (native_value_cap p d.chain_id) d.native_value)
  passes p tally d erc20_spend_exceeds =
      if is_erc20 d.action_kind then spend_passes p tally d d.erc20_amount else true

  module _ (saturates : Saturates alloy) where
    within_iff :
        (cap : Option U256) (x y : U256)
        → (within cap (alloy.saturating_add x y) ≡ true) ↔ WithinCap cap (min (x + y) u256_max)
    within_iff none x y = ((λ e. tt), λ h. refl)
    within_iff (some cap) x y = rw (saturates x y) (ground arith)

    spend_passes_iff :
        (p : LoadedPolicy) (tally : Tally) (d : Decision) (o : Option U256)
        → (spend_passes p tally d o ≡ true) ↔ SpendHolds p d tally o
    unfolding erc20_spend_cap
    spend_passes_iff p tally d none = ((λ e. tt), λ h. refl)
    spend_passes_iff p tally d (some amount) = within_iff _ _ amount

    selector_passes_iff :
        (p : LoadedPolicy) (d : Decision) (o : Option Selector)
        → (selector_passes p d o ≡ true) ↔ SelectorHolds p d o
    selector_passes_iff p d none = ((λ e. tt), λ h. refl)
    selector_passes_iff p d (some s) = allows_selector_iff p d s

    -- Where a test picks a demand, the chosen one decides.
    if_iff :
        (b x : Bool) (P : Type 0)
        → ((x ≡ true) ↔ P)
        → ((if b then x else true) ≡ true) ↔ (if b then P else Unit)
    if_iff true x P h = h
    if_iff false x P h = ((λ e. tt), λ t. refl)

    if_not_iff :
        (b x : Bool) (P : Type 0)
        → ((x ≡ true) ↔ P)
        → ((if b then true else x) ≡ true) ↔ (if b then Unit else P)
    if_not_iff false x P h = h
    if_not_iff true x P h = ((λ e. tt), λ t. refl)

    pub passes_iff :
        (p : LoadedPolicy) (tally : Tally) (d : Decision) (r : Rule)
        → (passes p tally d r ≡ true) ↔ Holds p tally d r
    unfolding native_value_cap
    passes_iff p tally d chain_not_allowed = allows_chain_iff p d.chain_id
    passes_iff p tally d contract_not_allowed = allows_contract_iff p d.chain_id d.to
    passes_iff p tally d raw_call_denied =
        if_iff (is_raw_call d.action_kind) _ _ (raw_call_allows_iff p d)
    passes_iff p tally d selector_not_allowed =
        if_not_iff (is_raw_call d.action_kind) _ _ (selector_passes_iff p d d.selector)
    passes_iff p tally d native_value_exceeds = ground arith
    passes_iff p tally d erc20_spend_exceeds =
        if_iff (is_erc20 d.action_kind) _ _ (spend_passes_iff p tally d d.erc20_amount)
