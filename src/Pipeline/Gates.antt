-- ===== src/Pipeline/Gates.antt =====
-- STEP 7 of `run_strategy_with_event`: the policy gate over all actions, then the simulation gate.
use onchain_strategy_mcp.Prelude.{
  ℕ, zero, suc, String, Bool, true, false, not, ◌&&◌, Option, none, some, List, [], ◌∷◌, ◌++◌, leb,
  if◌then◌else◌, is_some, all,
}
use onchain_strategy_mcp.Prelude.Text.{Text}
use onchain_strategy_mcp.Prelude.Json.{Json}
use onchain_strategy_mcp.Prelude.Result.{Result, ok, err}
use onchain_strategy_mcp.Alloy.{Alloy, Address}
use onchain_strategy_mcp.Policy.Model.{
  LoadedPolicy, Decision, NormalizedActionKindCopy, DecisionVerdict, allow, deny, Rule, Detail,
}
use onchain_strategy_mcp.Policy.Eval.{Tally, evaluate}
use onchain_strategy_mcp.Evm.Validate.{EvmError}
use onchain_strategy_mcp.Evm.Normalize.{
  Action, noop, contract_call, raw_call, erc20_transfer, erc20_approve, native_transfer,
  NormalizedAction, NormalizedActionKind, normalize_action,
}
use onchain_strategy_mcp.State.Error.{running, failed, policy_denied, simulation_denied}
use onchain_strategy_mcp.Pipeline.Types.{
  DecisionGate, JournalVerdict, SimulationOutcome, pass, fail, SimulationFailReason, policy_rule,
  simulation_rule, policy_detail, simulation_detail, skipped_policy_denied, skipped_batch,
  policy_payload, simulation_skipped_payload, simulation_pass_payload, simulation_fail_payload,
  GateVerdict, ActionDecision, StrategyOutcome, policy_file_not_loaded, evm_detail,
  policy_violation_payload, simulation_failure_payload, JournalActionOutcome, Env,
  policy_not_loaded, missing_to, policy_violation, simulation_failed, evm, M, pure, throw, ◌>>=◌,
  ◌>>◌, or_throw,
}
use onchain_strategy_mcp.Pipeline.Journal.{
  transition, record_decision_row, record_gate_action_outcome, record_runtime_error,
}

-- `na_kind_to_copy`
abbrev pub na_kind_to_copy : NormalizedActionKind → NormalizedActionKindCopy
na_kind_to_copy NormalizedActionKind.contract_call = NormalizedActionKindCopy.contract_call
na_kind_to_copy NormalizedActionKind.raw_call = NormalizedActionKindCopy.raw_call
na_kind_to_copy NormalizedActionKind.erc20_transfer = NormalizedActionKindCopy.erc20_transfer
na_kind_to_copy NormalizedActionKind.erc20_approve = NormalizedActionKindCopy.erc20_approve
na_kind_to_copy NormalizedActionKind.native_transfer = NormalizedActionKindCopy.native_transfer

-- `decision_from_normalized`; `none` is its error, a transaction without a target.
abbrev pub decision_for : ℕ → ℕ → NormalizedAction → Address → Decision
decision_for chain_id idx na target = record {
  chain_id = chain_id;
  action_index = idx;
  action_kind = na_kind_to_copy na.source;
  to = target;
  selector = na.selector;
  native_value = na.native_value;
  erc20_amount = na.erc20_amount;
}

unfoldable pub decision_from_normalized : ℕ → ℕ → NormalizedAction → Option Decision
decision_from_normalized chain_id idx na = elim na.tx.to [
  | none ↦ none
  | some target ↦ some (decision_for chain_id idx na target)
]

abbrev pub or_missing_to : Option Decision → M Decision
or_missing_to none = throw missing_to
or_missing_to (some d) = pure d

-- `decisions.get_mut(pos)` and the write of its `simulation` field.
abbrev pub set_simulation : ℕ → GateVerdict → List ActionDecision → List ActionDecision
set_simulation n v [] = []
set_simulation zero v (d ∷ ds) = record d { simulation = v } ∷ ds
set_simulation (suc n) v (d ∷ ds) = d ∷ set_simulation n v ds

-- `normalized.iter().filter(|n| n.is_some()).count()`
abbrev pub executable_count : List (Option NormalizedAction) → ℕ
executable_count [] = 0
executable_count (none ∷ ns) = executable_count ns
executable_count (some na ∷ ns) = suc (executable_count ns)

abbrev pub is_noop : Action → Bool
is_noop noop = true
is_noop (contract_call a) = false
is_noop (raw_call a) = false
is_noop (erc20_transfer a) = false
is_noop (erc20_approve a) = false
is_noop (native_transfer a) = false

module _ (alloy : Alloy) (env : Env) (run_id : String) where
  -- The journal rows and the status of a denial, and the error of the tool.
  unfoldable pub policy_denial : {A : Type 0} → ℕ → Decision → Rule → Detail → M A
  policy_denial idx d rule detail = do
    record_decision_row env run_id idx DecisionGate.policy JournalVerdict.fail
        (some (policy_rule rule)) (some (policy_detail detail)) (some (policy_payload d))
    record_decision_row env run_id idx DecisionGate.simulation JournalVerdict.skipped none
        (some skipped_policy_denied) (some (simulation_skipped_payload d rule))
    record_gate_action_outcome env run_id JournalActionOutcome.policy_denied
        (policy_violation_payload idx rule detail)
    transition env run_id running policy_denied
    throw (policy_violation rule detail idx)

  -- The entry of an allowed action in the response.
  abbrev pub allowed_entry : ℕ → ActionDecision
  allowed_entry idx = record {
    action_index = idx;
    policy = GateVerdict.pass;
    simulation = GateVerdict.skipped;
  }

  -- One round of the policy gate, given the evaluator's answer; `next` is the rest of the loop.
  unfoldable pub judge :
      (Tally → List ActionDecision → M (List ActionDecision))
      → ℕ
      → List ActionDecision
      → Decision
      → DecisionVerdict × Tally
      → M (List ActionDecision)
  judge next idx decisions d (allow, tally) = do
    record_decision_row env run_id idx DecisionGate.policy JournalVerdict.pass none none
        (some (policy_payload d))
    next tally (decisions ++ allowed_entry idx ∷ [])
  judge next idx decisions d (deny rule detail, tally) = policy_denial idx d rule detail

  -- `for (idx, normalized_action) in normalized.iter().enumerate()`, with the running totals and the
  -- decisions so far.
  unfoldable pub policy_gate :
      LoadedPolicy
      → ℕ
      → ℕ
      → List (Option NormalizedAction)
      → Tally
      → List ActionDecision
      → M (List ActionDecision)
  policy_gate p chain_id idx [] tally decisions = pure decisions
  policy_gate p chain_id idx (none ∷ ns) tally decisions =
      policy_gate p chain_id (suc idx) ns tally decisions
  policy_gate p chain_id idx (some na ∷ ns) tally decisions =
      or_missing_to (decision_from_normalized chain_id idx na) >>= λ d.
      judge (policy_gate p chain_id (suc idx) ns) idx decisions d (evaluate alloy p d tally)

  -- The rows and the status after a failed simulation.
  unfoldable pub simulation_denial : {A : Type 0} → ℕ → SimulationFailReason → M A
  simulation_denial idx reason = do
    record_decision_row env run_id idx DecisionGate.simulation JournalVerdict.fail
        (some (simulation_rule reason)) (some (simulation_detail reason))
        (some (simulation_fail_payload reason))
    record_gate_action_outcome env run_id JournalActionOutcome.simulation_failure
        (simulation_failure_payload idx reason)
    transition env run_id running simulation_denied
    throw (simulation_failed reason idx)

  -- One round of the simulation gate; `pos` is `decision_pos`, `next` the rest of the loop.
  unfoldable pub simulate_one :
      (List ActionDecision → M (List ActionDecision))
      → ℕ
      → ℕ
      → List ActionDecision
      → SimulationOutcome
      → M (List ActionDecision)
  simulate_one next idx pos decisions (pass return_bytes gas_estimate) = do
    record_decision_row env run_id idx DecisionGate.simulation JournalVerdict.pass none none
        (some (simulation_pass_payload return_bytes gas_estimate))
    next (set_simulation pos GateVerdict.pass decisions)
  simulate_one next idx pos decisions (fail reason) = simulation_denial idx reason

  -- The round under EIP-7702 batching.
  unfoldable pub skip_one :
      (List ActionDecision → M (List ActionDecision))
      → ℕ
      → ℕ
      → List ActionDecision
      → M (List ActionDecision)
  skip_one next idx pos decisions = do
    record_decision_row env run_id idx DecisionGate.simulation JournalVerdict.skipped none
        (some skipped_batch) none
    next (set_simulation pos GateVerdict.skipped decisions)

  unfoldable pub simulation_gate :
      Bool → ℕ → List (Option NormalizedAction) → ℕ → List ActionDecision → M (List ActionDecision)
  simulation_gate batch idx [] pos decisions = pure decisions
  simulation_gate batch idx (none ∷ ns) pos decisions =
      simulation_gate batch (suc idx) ns pos decisions
  simulation_gate true idx (some na ∷ ns) pos decisions =
      skip_one (simulation_gate true (suc idx) ns (suc pos)) idx pos decisions
  simulation_gate false idx (some na ∷ ns) pos decisions =
      simulate_one (simulation_gate false (suc idx) ns (suc pos)) idx pos decisions
        (env.simulate idx na.tx)

  -- `aa_batch_active`
  abbrev pub batch_active : List (Option NormalizedAction) → Bool
  batch_active ns = is_some env.aa_delegate && leb 2 (executable_count ns)

  -- `policy violation: policy file not loaded`
  unfoldable pub refuse_without_policy : {A : Type 0} → M A
  refuse_without_policy = do
    record_runtime_error env run_id policy_file_not_loaded
    transition env run_id running policy_denied
    throw policy_not_loaded

  -- The two gates in order, once there is a policy and something to execute.
  abbrev pub simulate_decided :
      List Action → List (Option NormalizedAction) → List ActionDecision → M StrategyOutcome
  simulate_decided acts normalized decisions =
      simulation_gate (batch_active normalized) 0 normalized 0 decisions >>= λ decisions'.
      pure (StrategyOutcome.actions acts decisions')

  abbrev pub gates_on_chain :
      LoadedPolicy → List Action → List (Option NormalizedAction) → ℕ → M StrategyOutcome
  gates_on_chain p acts normalized chain_id =
      policy_gate p chain_id 0 normalized [] [] >>= simulate_decided acts normalized

  unfoldable pub run_gates :
      LoadedPolicy → List Action → List (Option NormalizedAction) → M StrategyOutcome
  run_gates p acts normalized =
      or_throw evm env.provider >> (or_throw evm env.chain_id >>= gates_on_chain p acts normalized)

  abbrev pub gate_policy :
      Option LoadedPolicy → List Action → List (Option NormalizedAction) → M StrategyOutcome
  gate_policy none acts normalized = refuse_without_policy
  gate_policy (some p) acts normalized = run_gates p acts normalized

  module _ (encode_call_input : Text → Text → List Json → Result EvmError (List ℕ)) where
    -- The failure of one normalization ends the run as `failed`.
    unfoldable pub reject_action : {A : Type 0} → EvmError → M A
    reject_action e = do
      record_runtime_error env run_id (evm_detail e)
      transition env run_id running failed
      throw (evm e)

    unfoldable pub push_normalized :
        M (List (Option NormalizedAction))
        → Result EvmError (Option NormalizedAction)
        → M (List (Option NormalizedAction))
    push_normalized rest (err e) = reject_action e
    push_normalized rest (ok n) = rest >>= λ ns. pure (n ∷ ns)

    -- `for action in &actions { match normalize_action(action) … }`
    unfoldable pub normalize_all : List Action → M (List (Option NormalizedAction))
    normalize_all [] = pure []
    normalize_all (a ∷ acts) =
        push_normalized (normalize_all acts) (normalize_action alloy encode_call_input a)

    -- Nothing to execute: no gate. Otherwise the gates, and all normalized actions are approved.
    abbrev pub gate_normalized :
        Option LoadedPolicy
        → List Action
        → List (Option NormalizedAction)
        → M (StrategyOutcome × List (Option NormalizedAction))
    gate_normalized policy acts normalized =
        if all (λ n. not (is_some n)) normalized
        then pure (StrategyOutcome.actions acts [], [])
        else (gate_policy policy acts normalized >>= λ outcome. pure (outcome, normalized))

    -- The whole of STEP 7: the outcome, and the actions that may be executed.
    unfoldable pub gate_actions :
        Option LoadedPolicy → StrategyOutcome → M (StrategyOutcome × List (Option NormalizedAction))
    gate_actions policy StrategyOutcome.noop = pure (StrategyOutcome.noop, [])
    gate_actions policy (StrategyOutcome.actions acts ds) =
        if not (is_some policy) && not (all is_noop acts)
        then refuse_without_policy
        else (normalize_all acts >>= gate_normalized policy acts)
