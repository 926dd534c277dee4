-- ===== src/Policy/Spec.antt =====
-- What each dimension of the policy demands of an action, without the evaluator: the rules of the
-- taxonomy as predicates, and the order in which they are tried.
use onchain_strategy_mcp.Prelude.{
  ℕ, ◌+◌, ◌≤◌, min, true, Option, none, some, List, ◌≡◌, ◌⊎◌, if◌then◌else◌, unwrap_or, Exists,
  nat_eq,
}
use onchain_strategy_mcp.Prelude.Map.{get}
use onchain_strategy_mcp.Alloy.{Address, U256, u256_max}
use onchain_strategy_mcp.Policy.Model.{
  Selector, SelectorPattern, specific, any_selector, chain_contract, chain_contract_eq,
  LoadedPolicy, RawCallAllowResolved, Decision, Rule, chain_not_allowed, contract_not_allowed,
  raw_call_denied, selector_not_allowed, native_value_exceeds, erc20_spend_exceeds,
}
use onchain_strategy_mcp.Policy.Eval.{Tally, is_raw_call, is_erc20}

-- A pattern covers a selector. A call with fewer than four bytes of data is covered by `any` only.
pub data Covers : SelectorPattern → Option Selector → Type 0 where
  by_any : {sel : Option Selector} → Covers any_selector sel
  by_bytes : {s : Selector} → Covers (specific s) (some s)

-- A raw call is named by an entry of the policy.
abbrev pub Names : ℕ → Address → Option Selector → RawCallAllowResolved → Type 0
Names chain_id contract sel e =
    (e.chain ≡ chain_id) × (e.contract ≡ contract) × Covers e.selector sel

abbrev pub RawCallHolds : LoadedPolicy → Decision → Type 0
RawCallHolds p d =
    (p.raw_call_allow_global ≡ true) ⊎ Exists (Names d.chain_id d.to d.selector) p.raw_call_allow

abbrev pub SelectorHolds : LoadedPolicy → Decision → Option Selector → Type 0
SelectorHolds p d none = Unit
SelectorHolds p d (some sel) =
    (l : List SelectorPattern) × (get p.selectors_by_chain_contract (chain_contract d.chain_id d.to)
      ≡ some l)
    × Exists (λ q. Covers q (some sel)) l

-- The total with this action is within the cap, if the token has one. Totals stop at the largest
-- 256-bit number.
abbrev pub WithinCap : Option U256 → U256 → Type 0
WithinCap none next = Unit
WithinCap (some cap) next = next ≤ cap

abbrev pub SpendHolds : LoadedPolicy → Decision → Tally → Option U256 → Type 0
SpendHolds p d tally none = Unit
SpendHolds p d tally (some amount) =
    let key = chain_contract d.chain_id d.to in
    WithinCap (get p.erc20_spend_by_chain_token key)
      (min (unwrap_or (get tally key) 0 + amount) u256_max)

-- The dimension that a rule names is satisfied.
abbrev pub Holds : LoadedPolicy → Tally → Decision → Rule → Type 0
Holds p tally d chain_not_allowed = Exists (λ c. c ≡ d.chain_id) p.chains_allow
Holds p tally d contract_not_allowed =
    (l : List Address) × (get p.contracts_by_chain d.chain_id ≡ some l) × Exists (λ a. a ≡ d.to) l
Holds p tally d raw_call_denied = if is_raw_call d.action_kind then RawCallHolds p d else Unit
Holds p tally d selector_not_allowed =
    if is_raw_call d.action_kind then Unit else SelectorHolds p d d.selector
Holds p tally d native_value_exceeds =
    d.native_value ≤ unwrap_or (get p.native_value_by_chain d.chain_id) 0
Holds p tally d erc20_spend_exceeds =
    if is_erc20 d.action_kind then SpendHolds p d tally d.erc20_amount else Unit

-- The position of a rule in the evaluator's order.
abbrev pub rank : Rule → ℕ
rank chain_not_allowed = 1
rank contract_not_allowed = 2
rank raw_call_denied = 3
rank selector_not_allowed = 4
rank native_value_exceeds = 5
rank erc20_spend_exceeds = 6
