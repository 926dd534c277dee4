-- ===== src/Scenarios.antt =====
-- A small policy, chain and strategy, and what the theorems say of them.
use onchain_strategy_mcp.Prelude.{
  ℕ, ◌+◌, ◌*◌, ◌≤◌, ◌<◌, min, false, Option, none, some, List, [], ◌∷◌, ◌≡◌, refl, ◌↔◌, arith,
  Exists, All, if◌then◌else◌, ◌==◌, string_eq, nat_eq,
}
use onchain_strategy_mcp.Prelude.Text.{Text, codes, text_eq, strip_prefix}
use onchain_strategy_mcp.Prelude.Json.{Json}
use onchain_strategy_mcp.Prelude.Map.{get}
use onchain_strategy_mcp.Prelude.Result.{Result, ok, collect}
use onchain_strategy_mcp.Alloy.{Alloy, Address, U256, Saturates, u256_max}
use onchain_strategy_mcp.Policy.Model.{
  any_selector, SelectorPattern, specific, ChainContract, chain_contract, chain_contract_eq,
  LoadedPolicy, allows_chain, allows_contract, allows_selector, native_value_cap, erc20_spend_cap,
  Decision, NormalizedActionKindCopy, allow, deny, Rule, native_value_exceeds, value_exceeds_cap,
}
use onchain_strategy_mcp.Policy.Eval.{evaluate}
use onchain_strategy_mcp.Policy.Spec.{Holds, rank}
use onchain_strategy_mcp.Policy.Correct.{evaluate_allow_iff, evaluate_deny}
use onchain_strategy_mcp.Policy.Config.{
  PolicyConfig, parse_selector_pattern, parse_chain_id, parse_address_lenient, parse_u256_decimal,
  digits_from, bad_selector_key, bad_erc20_spend_key, hex_value, parse_u64,
}
use onchain_strategy_mcp.Policy.Load.{resolve, resolve_entry, parse_key, insert_all}
use onchain_strategy_mcp.Policy.Loaded.{Says, resolve-granted}
use onchain_strategy_mcp.Evm.Validate.{EvmError, validate_address, validate_decimal_amount}
use onchain_strategy_mcp.Evm.Normalize.{
  Action, native_transfer, NormalizedAction, NormalizedActionKind, request, transfer_selector,
  normalize_action, normalize_native_transfer,
}
use onchain_strategy_mcp.Evm.Agreement.{EncodesErc20, AgreesIf, normalize_action-Agrees}
use onchain_strategy_mcp.State.Executions.{record_broadcast, record_receipt_success}
use onchain_strategy_mcp.State.Error.{running}
use onchain_strategy_mcp.State.Runs.{new_row, update_run_status_with_transition}
use onchain_strategy_mcp.State.Status.{status_to_wire}
use onchain_strategy_mcp.Pipeline.Types.{
  pass, StrategyOutcome, ActionDecision, GateVerdict, single, Store, Env, configured, deployed,
}
use onchain_strategy_mcp.Pipeline.Gates.{
  policy_gate, judge, decision_from_normalized, simulation_gate, simulate_one, run_gates,
  push_normalized, normalize_all, gate_actions,
}
use onchain_strategy_mcp.Pipeline.Execute.{
  finish_run, execute_if_any, execute_approved_actions, execute_sequential,
}
use onchain_strategy_mcp.Pipeline.Journal.{
  record_decision_row, transition as run_transition, record_action, record_gate_action_outcome,
  record_execution_broadcast, record_execution_receipt_success,
}
use onchain_strategy_mcp.Pipeline.Safety.Spend.{named_amounts, policy_gate-spent}

abbrev hex_number : ℕ → Text → ℕ
hex_number n [] = n
hex_number n (b ∷ s) = hex_number (n * 16 + hex_value b) s

abbrev without_prefix : Option Text → Option Address
without_prefix none = none
without_prefix (some s) = some (hex_number 0 s)

-- A stand-in for the alloy library: no text has a valid checksum, so every address is read by
-- `from_str`.
abbrev pub the_alloy : Alloy
the_alloy = record {
  saturating_add = λ x y. min (x + y) u256_max;
  from_decimal = digits_from 0;
  parse_checksummed = λ s. none;
  from_str = λ s. without_prefix (strip_prefix s (codes "0x"));
  bytes_from_str = λ s. none;
}

pub the_alloy-Saturates : Saturates the_alloy
the_alloy-Saturates x y = refl

abbrev pub encode : Text → Text → List Json → Result EvmError (List ℕ)
encode abi function args =
    if function == codes "transfer"
    then ok (0xa9 ∷ 0x05 ∷ 0x9c ∷ 0xbb ∷ [])
    else ok (0x09 ∷ 0x5e ∷ 0xa7 ∷ 0xb3 ∷ [])

encode-EncodesErc20 : EncodesErc20 the_alloy encode
encode-EncodesErc20 args = (refl, refl)

abbrev pub the_policy : LoadedPolicy
the_policy = record {
  chains_allow = 1 ∷ [];
  contracts_by_chain = (1, 7 ∷ 42 ∷ []) ∷ [];
  selectors_by_chain_contract = (chain_contract 1 7, specific transfer_selector ∷ []) ∷ [];
  native_value_by_chain = (1, 100) ∷ [];
  erc20_spend_by_chain_token = (chain_contract 1 7, 50) ∷ [];
  raw_call_allow_global = false;
  raw_call_allow = [];
}

abbrev pay : ℕ → Decision
pay value = record {
  chain_id = 1;
  action_index = 0;
  action_kind = NormalizedActionKindCopy.native_transfer;
  to = 42;
  selector = none;
  native_value = value;
  erc20_amount = none;
}

abbrev pay_token : ℕ → Decision
pay_token amount = record {
  chain_id = 1;
  action_index = 0;
  action_kind = NormalizedActionKindCopy.erc20_transfer;
  to = 7;
  selector = some transfer_selector;
  native_value = 0;
  erc20_amount = some amount;
}

evaluate_allow_iff_example :
    ((evaluate the_alloy the_policy (pay_token 30) []).0 ≡ allow)
    ↔ ((r : Rule) → Holds the_policy [] (pay_token 30) r)
evaluate_allow_iff_example =
    evaluate_allow_iff the_alloy the_alloy-Saturates the_policy (pay_token 30) []

overpay :
    (evaluate the_alloy the_policy (pay 101) []).0
    ≡ deny native_value_exceeds (value_exceeds_cap 101 100 1)
unfolding evaluate allows_chain allows_contract allows_selector native_value_cap erc20_spend_cap
overpay = refl

evaluate_deny_example :
    (¬ Holds the_policy [] (pay 101) native_value_exceeds)
    × ((q : Rule) → rank q < rank native_value_exceeds → Holds the_policy [] (pay 101) q)
    × ((evaluate the_alloy the_policy (pay 101) []).1 ≡ [])
evaluate_deny_example =
    evaluate_deny the_alloy the_alloy-Saturates the_policy (pay 101) [] native_value_exceeds
      (value_exceeds_cap 101 100 1) overpay

within : (evaluate the_alloy the_policy (pay_token 30) ((chain_contract 1 7, 20) ∷ [])).0 ≡ allow
unfolding evaluate allows_chain allows_contract allows_selector native_value_cap erc20_spend_cap
within = refl

abbrev pub the_env : Env
the_env = record {
  now = "2026-01-01T00:00:00Z";
  row_id = λ i. "row";
  provider = ok tt;
  chain_id = ok 1;
  simulate = λ i tx. pass [] (some 21000);
  aa_delegate = none;
  signer_config = configured;
  execution_chain_id = ok 1;
  resolve_signer = ok "signer";
  delegate_code = deployed;
  broadcast = λ i tx. ok "hash";
  receipt = λ i. ok record { receipt_status = "success"; gas_used = "21000" };
  send_7702_batch = ok "hash";
  batch_receipt = ok record { receipt_status = "success"; gas_used = "21000" };
}

abbrev the_store : Store
the_store = record {
  runs = new_row "r" "2026-01-01T00:00:00Z" "s" running none ∷ [];
  decisions = [];
  outcomes = [];
  executions = [];
  sent = [];
}

abbrev token_action : ℕ → NormalizedAction
token_action amount = record {
  tx = request 7 (0xa9 ∷ 0x05 ∷ 0x9c ∷ 0xbb ∷ []) 0;
  source = NormalizedActionKind.erc20_transfer;
  selector = some transfer_selector;
  native_value = 0;
  erc20_amount = some amount;
}

abbrev two_decisions : List ActionDecision
two_decisions =
    record { action_index = 0; policy = GateVerdict.pass; simulation = GateVerdict.skipped }
    ∷ record { action_index = 2; policy = GateVerdict.pass; simulation = GateVerdict.skipped }
    ∷ []

two_tokens :
    (policy_gate the_alloy the_env "r" the_policy 1 0
      (some (token_action 30) ∷ none ∷ some (token_action 20) ∷ [])
      []
      []
      the_store).0
    ≡ ok two_decisions
unfolding policy_gate judge evaluate decision_from_normalized record_decision_row allows_chain
    allows_contract allows_selector native_value_cap erc20_spend_cap
two_tokens = refl

policy_gate-spent_example :
    named_amounts 1 0
      (chain_contract 1 7)
      (some (token_action 30) ∷ none ∷ some (token_action 20) ∷ [])
    ≤ 50
policy_gate-spent_example =
    policy_gate-spent the_policy (chain_contract 1 7) 50 refl (omega arith) the_alloy
      the_alloy-Saturates the_env "r" 1
      (some (token_action 30) ∷ none ∷ some (token_action 20) ∷ []) the_store two_decisions
      two_tokens

abbrev the_transfer : Action
the_transfer =
    native_transfer
      record { to = codes "0x000000000000000000000000000000000000002a"; value = codes "5" }

abbrev the_outcome : StrategyOutcome
the_outcome = StrategyOutcome.actions (the_transfer ∷ []) []

-- The run of the example sends its one transaction.
the_run_sends :
    (finish_run the_env "r" the_alloy encode (some the_policy) the_outcome the_store).1.sent
    ≡ single (request 42 [] 5) ∷ []
unfolding finish_run gate_actions normalize_all push_normalized normalize_action
    normalize_native_transfer validate_address validate_decimal_amount run_gates policy_gate judge
    evaluate decision_from_normalized simulation_gate simulate_one record_decision_row
    execute_if_any execute_approved_actions execute_sequential record_execution_broadcast
    record_execution_receipt_success record_action record_gate_action_outcome run_transition
    allows_chain allows_contract allows_selector native_value_cap erc20_spend_cap record_broadcast
    record_receipt_success update_run_status_with_transition status_to_wire
the_run_sends = refl

the_transfer_normalized :
    normalize_action the_alloy encode the_transfer
    ≡ ok (
        some record {
          tx = request 42 [] 5;
          source = NormalizedActionKind.native_transfer;
          selector = none;
          native_value = 5;
          erc20_amount = none;
        })
unfolding normalize_action normalize_native_transfer validate_address validate_decimal_amount
the_transfer_normalized = refl

normalize_action-Agrees_example : AgreesIf the_alloy encode 1 0 (
    some record {
      tx = request 42 [] 5;
      source = NormalizedActionKind.native_transfer;
      selector = none;
      native_value = 5;
      erc20_amount = none;
    })
normalize_action-Agrees_example =
    normalize_action-Agrees the_alloy encode the_transfer _ 1 0 encode-EncodesErc20
      the_transfer_normalized

abbrev the_config : PolicyConfig
the_config = record {
  chains_allow = 1 ∷ [];
  contracts = (codes "1", codes "0x2a" ∷ []) ∷ [];
  selectors = [];
  native_value = (codes "1", codes "100") ∷ [];
  erc20_spend = (codes "1:0x07", codes "50") ∷ [];
  raw_call = record {
    allow_global = false;
    allow = record { chain = 1; contract = codes "0x2a"; selector = codes "any" } ∷ [];
  };
}

abbrev the_loaded : LoadedPolicy
the_loaded = record {
  chains_allow = 1 ∷ [];
  contracts_by_chain = (1, 42 ∷ []) ∷ [];
  selectors_by_chain_contract = [];
  native_value_by_chain = (1, 100) ∷ [];
  erc20_spend_by_chain_token = (chain_contract 1 7, 50) ∷ [];
  raw_call_allow_global = false;
  raw_call_allow = record { chain = 1; contract = 42; selector = any_selector } ∷ [];
}

the_config_loads : resolve the_alloy the_config ≡ ok the_loaded
unfolding resolve insert_all parse_key parse_chain_id parse_u64 parse_address_lenient
    parse_u256_decimal resolve_entry parse_selector_pattern
the_config_loads = refl

resolve-granted_example :
    ((c : ℕ) (l : List Address)
      → get the_loaded.contracts_by_chain c ≡ some l
      → Exists
          (Says parse_chain_id (collect (parse_address_lenient the_alloy)) c l)
          the_config.contracts)
    × ((k : ChainContract) (l : List SelectorPattern)
        → get the_loaded.selectors_by_chain_contract k ≡ some l
        → Exists
            (Says (parse_key the_alloy bad_selector_key) (collect parse_selector_pattern) k l)
            the_config.selectors)
    × ((c : ℕ) (v : U256)
        → get the_loaded.native_value_by_chain c ≡ some v
        → Exists (Says parse_chain_id (parse_u256_decimal the_alloy) c v) the_config.native_value)
    × ((k : ChainContract) (v : U256)
        → get the_loaded.erc20_spend_by_chain_token k ≡ some v
        → Exists
            (Says (parse_key the_alloy bad_erc20_spend_key) (parse_u256_decimal the_alloy) k v)
            the_config.erc20_spend)
    × All
        (λ x. Exists (λ entry. resolve_entry the_alloy entry ≡ ok x) the_config.raw_call.allow)
        the_loaded.raw_call_allow
    × (the_loaded.chains_allow ≡ the_config.chains_allow)
    × (the_loaded.raw_call_allow_global ≡ the_config.raw_call.allow_global)
resolve-granted_example = resolve-granted the_alloy the_config the_loaded the_config_loads
