-- ===== src/Policy/Eval.antt =====
-- crates/executor-policy/src/eval.rs: the six dimensions of `evaluate`, in the order of the code.
-- The running totals are an argument and a part of the result.
use onchain_strategy_mcp.Prelude.{
  Bool, true, false, not, Option, none, some, List, ltb, if◌then◌else◌, unwrap_or,
}
use onchain_strategy_mcp.Prelude.Map.{get, insert}
use onchain_strategy_mcp.Alloy.{U256, Alloy}
use onchain_strategy_mcp.Policy.Model.{
  Selector, ChainContract, chain_contract, chain_contract_eq, LoadedPolicy, allows_chain,
  allows_contract, allows_selector, native_value_cap, erc20_spend_cap, raw_call_allows, Decision,
  NormalizedActionKindCopy, contract_call, raw_call, erc20_transfer, erc20_approve, native_transfer,
  DecisionVerdict, allow, deny, chain_not_allowed, contract_not_allowed, raw_call_denied,
  selector_not_allowed, native_value_exceeds, erc20_spend_exceeds, chain_not_in_allowlist,
  contract_not_on_chain, raw_call_not_in_allowlist, selector_not_for, value_exceeds_cap,
  spend_exceeds_cap,
}

-- `HashMap<(u64, Address), U256>`
abbrev pub Tally : Type 0
Tally = List (ChainContract × U256)

-- `matches!(decision.action_kind, NormalizedActionKindCopy::RawCall)`
abbrev pub is_raw_call : NormalizedActionKindCopy → Bool
is_raw_call raw_call = true
is_raw_call contract_call = false
is_raw_call erc20_transfer = false
is_raw_call erc20_approve = false
is_raw_call native_transfer = false

abbrev pub is_erc20 : NormalizedActionKindCopy → Bool
is_erc20 erc20_transfer = true
is_erc20 erc20_approve = true
is_erc20 contract_call = false
is_erc20 raw_call = false
is_erc20 native_transfer = false

abbrev pub selector_gate : LoadedPolicy → Decision → Option Selector → Option DecisionVerdict
selector_gate p d none = none
selector_gate p d (some sel) =
    if not (allows_selector p d.chain_id d.to sel)
    then some (deny selector_not_allowed (selector_not_for sel d.to d.chain_id))
    else none

-- Dimensions 3 and 4, one of which applies.
abbrev pub call_gate : LoadedPolicy → Decision → Option DecisionVerdict
call_gate p d =
    if is_raw_call d.action_kind
    then (if not (raw_call_allows p d.chain_id d.to d.selector)
        then some (deny raw_call_denied (raw_call_not_in_allowlist d.to d.selector))
        else none)
    else selector_gate p d d.selector

-- Dimension 5.
abbrev pub native_value_gate : LoadedPolicy → Decision → Option DecisionVerdict
native_value_gate p d =
    let cap = native_value_cap p d.chain_id in
    if ltb 0 d.native_value
    then (if ltb cap d.native_value
        then some (deny native_value_exceeds (value_exceeds_cap d.native_value cap d.chain_id))
        else none)
    else none

module _ (alloy : Alloy) where
  -- `next` of dimension 6.
  abbrev pub next_total : Tally → ChainContract → U256 → U256
  next_total tally key amount = alloy.saturating_add (unwrap_or (get tally key) 0) amount

  -- `Some(cap) && next > cap`
  abbrev pub exceeds : Option U256 → U256 → Option U256
  exceeds none next = none
  exceeds (some cap) next = if ltb cap next then some cap else none

  -- Dimension 6 for an action that carries an amount.
  abbrev pub spend_amount : LoadedPolicy → Decision → Tally → U256 → DecisionVerdict × Tally
  spend_amount p d tally amount =
      let key = chain_contract d.chain_id d.to in
      let next = next_total tally key amount in
      elim (exceeds (erc20_spend_cap p d.chain_id d.to) next) [
        | some cap ↦ (deny erc20_spend_exceeds (spend_exceeds_cap d.to cap), tally)
        | none ↦ (allow, insert tally key next)
      ]

  abbrev pub spend_option : LoadedPolicy → Decision → Tally → Option U256 → DecisionVerdict × Tally
  spend_option p d tally none = (allow, tally)
  spend_option p d tally (some amount) = spend_amount p d tally amount

  abbrev pub spend_gate : LoadedPolicy → Decision → Tally → DecisionVerdict × Tally
  spend_gate p d tally =
      if is_erc20 d.action_kind then spend_option p d tally d.erc20_amount else (allow, tally)

  unfoldable pub evaluate : LoadedPolicy → Decision → Tally → DecisionVerdict × Tally
  evaluate p d tally =
      if not (allows_chain p d.chain_id)
      then (deny chain_not_allowed (chain_not_in_allowlist d.chain_id), tally)
      else if not (allows_contract p d.chain_id d.to)
      then (deny contract_not_allowed (contract_not_on_chain d.to d.chain_id), tally)
      else elim (call_gate p d) [
        | some verdict ↦ (verdict, tally)
        | none ↦ elim (native_value_gate p d) [
          | some verdict ↦ (verdict, tally)
          | none ↦ spend_gate p d tally
        ]
      ]
