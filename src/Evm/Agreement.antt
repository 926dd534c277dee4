-- ===== src/Evm/Agreement.antt =====
-- What the policy is shown of a normalized action agrees with the transaction that is sent.
use onchain_strategy_mcp.Prelude.{
  ℕ, Option, none, some, List, [], ◌∷◌, ◌≡◌, refl, arith, is_some, true,
}
use onchain_strategy_mcp.Prelude.Text.{Text, codes}
use onchain_strategy_mcp.Prelude.Json.{Json, string}
use onchain_strategy_mcp.Prelude.Result.{Result, ok, err}
use onchain_strategy_mcp.Alloy.{Alloy, Address}
use onchain_strategy_mcp.Policy.Model.{Selector, Decision}
use onchain_strategy_mcp.Pipeline.Gates.{decision_for, decision_from_normalized}
use onchain_strategy_mcp.Evm.Validate.{EvmError}
use onchain_strategy_mcp.Evm.Normalize.{
  Action, noop, contract_call, raw_call, erc20_transfer, erc20_approve, native_transfer,
  NormalizedAction, first_four, transfer_selector, approve_selector, erc20_write_abi,
  normalize_action,
}

module _ (alloy : Alloy)
    (encode_call_input : Text → Text → List Json → Result EvmError (List ℕ)) where
  abbrev pub StartsWith : Selector → Result EvmError (List ℕ) → Type 0
  StartsWith s (ok calldata) = first_four calldata ≡ some s
  StartsWith s (err e) = Unit

  -- The encoder begins the calldata of the two token calls with their well-known selectors.
  abbrev pub EncodesErc20 : Type 0
  EncodesErc20 =
      (args : List Json)
      → StartsWith transfer_selector (encode_call_input erc20_write_abi (codes "transfer") args)
        × StartsWith approve_selector (encode_call_input erc20_write_abi (codes "approve") args)

  -- The transaction has a target, and the action has its value and its selector.
  record Describes (na : NormalizedAction) : Type 0 where
    pub targeted : is_some na.tx.to ≡ true
    pub value : na.native_value ≡ na.tx.value
    pub selector : na.selector ≡ first_four na.tx.input

  abbrev DescribesIf : Option NormalizedAction → Type 0
  DescribesIf none = Unit
  DescribesIf (some na) = Describes na

  normalize_action-Describes :
      (action : Action) (o : Option NormalizedAction)
      → EncodesErc20
      → normalize_action alloy encode_call_input action ≡ ok o
      → DescribesIf o
  unfolding normalize_action
  normalize_action-Describes noop none encodes h = tt
  normalize_action-Describes noop (some na) encodes h = cc
  normalize_action-Describes action none encodes h = tt
  normalize_action-Describes (contract_call a) (some na) encodes h = ground arith
  normalize_action-Describes (raw_call a) (some na) encodes h = ground arith
  normalize_action-Describes (erc20_transfer a) (some na) encodes h =
      ground (arith, encodes (string a.to ∷ string a.amount ∷ []))
  normalize_action-Describes (erc20_approve a) (some na) encodes h =
      ground (arith, encodes (string a.spender ∷ string a.amount ∷ []))
  normalize_action-Describes (native_transfer a) (some na) encodes h = ground arith

  -- There is a decision for the policy, at this place and on this chain, and its target, its value and
  -- its selector are those of the transaction.
  abbrev pub Agrees : ℕ → ℕ → NormalizedAction → Type 0
  Agrees chain idx na =
      (d : Decision) × (decision_from_normalized chain idx na ≡ some d)
      × (na.tx.to ≡ some d.to)
      × (d.native_value ≡ na.tx.value)
      × (d.selector ≡ first_four na.tx.input)
      × (d.chain_id ≡ chain)
      × (d.action_index ≡ idx)

  abbrev pub AgreesIf : ℕ → ℕ → Option NormalizedAction → Type 0
  AgreesIf chain idx none = Unit
  AgreesIf chain idx (some na) = Agrees chain idx na

  Describes-Agrees : (chain idx : ℕ) (na : NormalizedAction) → Describes na → Agrees chain idx na
  unfolding decision_from_normalized
  Describes-Agrees chain idx na h = go na.tx.to refl h.targeted
    where
      go : (o : Option Address) → na.tx.to ≡ o → is_some o ≡ true → Agrees chain idx na
      go none q there = cc there
      go (some target) q there =
          (decision_for chain idx na target, rw q refl, q, h.value, h.selector, refl, refl)

  -- For an encoder that begins token calls with their selectors, a normalized action has a decision
  -- for the policy, and the target, the value and the selector of the decision, on which the policy
  -- judges, are those of the transaction that is sent.
  pub normalize_action-Agrees :
      (action : Action) (o : Option NormalizedAction) (chain idx : ℕ)
      → EncodesErc20
      → normalize_action alloy encode_call_input action ≡ ok o
      → AgreesIf chain idx o
  normalize_action-Agrees action none chain idx encodes h = tt
  normalize_action-Agrees action (some na) chain idx encodes h =
      Describes-Agrees chain idx na (normalize_action-Describes action (some na) encodes h)
