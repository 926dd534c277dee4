-- ===== src/Pipeline/Filed.antt =====
-- The status that the table of runs has for a run when its tool call answers.
pub mod Gates
pub mod Execution
use onchain_strategy_mcp.Prelude.{
  ℕ, zero, suc, String, Bool, true, false, not, ◌&&◌, ◌||◌, Option, none, some, List, [], ◌∷◌, ◌++◌,
  ◌≡◌, refl, sym, ap, ◌∙◌, arith, if◌then◌else◌, Bool-cases, any, is_some, all, leb, ◌==◌,
  string_eq, nat_eq, ◌⊎◌, inl, inr, ==_refl,
}
use onchain_strategy_mcp.Prelude.Text.{Text}
use onchain_strategy_mcp.Prelude.Json.{Json}
use onchain_strategy_mcp.Prelude.Result.{Result, ok, err}
use onchain_strategy_mcp.Alloy.{Alloy, Address}
use onchain_strategy_mcp.Policy.Model.{
  LoadedPolicy, Decision, Rule, Detail, DecisionVerdict, allow, deny,
}
use onchain_strategy_mcp.Policy.Eval.{Tally, evaluate}
use onchain_strategy_mcp.Evm.Validate.{EvmError}
use onchain_strategy_mcp.Evm.Normalize.{Action, NormalizedAction, normalize_action}
use onchain_strategy_mcp.State.Error.{
  RunStatus, running, failed, succeeded, policy_denied, simulation_denied, StateError,
}
use onchain_strategy_mcp.State.Table.{find, count, update}
use onchain_strategy_mcp.State.Status.{status_to_wire}
use onchain_strategy_mcp.State.Runs.{
  Runs, RunRow, has_id_status, set_status, update_run_status_with_transition,
}
use onchain_strategy_mcp.Pipeline.Types.{
  DecisionGate, JournalVerdict, SimulationOutcome, pass, fail, SimulationFailReason, GateRule,
  GateDetail, GatePayload, ActionDecision, StrategyOutcome, RuntimeDetail, OutcomePayload,
  JournalActionOutcome, Sent, Store, Env, Receipt, SignerConfig, invalid, absent, configured,
  DelegateCode, deployed, not_deployed, unknown, McpError, policy_not_loaded, missing_to,
  policy_violation, simulation_failed, evm, state, runtime, invalid_strategy_id, run_row_vanished,
  strategy_deleted, unknown_action, strategy_invalid_output, M, pure, throw, ◌>>=◌, ◌>>◌, or_throw,
}
use onchain_strategy_mcp.Pipeline.Journal.{
  transition, record_decision_row, record_gate_action_outcome, record_runtime_error, record_action,
  record_execution_broadcast, record_execution_receipt_success, record_error,
}

-- The status that an error of the tool stands for. An error of the chain's connection, of the store
-- or of a transaction without a target stands for none, and neither does one that comes before the
-- row of the run.
abbrev pub status_of : McpError → Option RunStatus
status_of policy_not_loaded = some policy_denied
status_of missing_to = none
status_of (policy_violation rule detail idx) = some policy_denied
status_of (simulation_failed reason idx) = some simulation_denied
status_of (evm e) = none
status_of (state e) = none
status_of (runtime kind) = some failed
status_of invalid_strategy_id = none
status_of run_row_vanished = none
status_of (strategy_deleted id) = none
status_of (unknown_action id name available hint) = none
status_of (strategy_invalid_output fault) = some failed

abbrev pub HasStatus : String → Option RunStatus → Runs → Type 0
HasStatus run_id none t = Unit
HasStatus run_id (some s) t = any (has_id_status run_id s) t ≡ true

-- An error is answered only with its status in the table.
abbrev pub Filed : {A : Type 0} → String → Result McpError A × Store → Type 0
Filed run_id (ok a, s) = Unit
Filed run_id (err e, s) = HasStatus run_id (status_of e) s.runs

abbrev pub Files : {A : Type 0} → String → M A → Type 0
Files run_id m = (s : Store) → Filed run_id (m s)

-- An update that hits a row makes one that has what the update writes.
any-update :
    (p q : RunRow → Bool) (f : RunRow → RunRow) (t : Runs)
    → ((r : RunRow) → p r ≡ true → q (f r) ≡ true)
    → (count p t == 0) ≡ false
    → any q (update p f t) ≡ true
any-update p q f [] h hit = sym hit
any-update p q f (r ∷ t) h hit = ground (arith, any-update p q f t h, h r)

set_status-has_id_status :
    (run_id now : String) (from to : RunStatus) (r : RunRow)
    → has_id_status run_id from r ≡ true
    → has_id_status run_id to (set_status to now r) ≡ true
set_status-has_id_status run_id now from to r h = ground (arith, h, ==_refl (status_to_wire to))

update_run_status_with_transition-HasStatus :
    (now run_id : String) (from to : RunStatus) (t : Runs)
    → (update_run_status_with_transition now run_id from to t).0 ≡ ok tt
    → HasStatus run_id (some to) (update_run_status_with_transition now run_id from to t).1
unfolding update_run_status_with_transition
update_run_status_with_transition-HasStatus now run_id from to t h = ground (
  arith,
  h,
  any-update (has_id_status run_id from) (has_id_status run_id to) (set_status to now) t
      (set_status-has_id_status run_id now from to),
)

module _ (run_id : String) where
  pub bind-Files :
      {A B : Type 0} (m : M A) (f : A → M B)
      → Files run_id m
      → ((a : A) → Files run_id (f a))
      → Files run_id (m >>= f)
  bind-Files {A} {B} m f km kf s = go (m s) (km s)
    where
      go :
          (r : Result McpError A × Store)
          → Filed run_id r
          → Filed run_id (elim r.0 as (λ _. Result McpError B × Store) [
            | ok a ↦ f a r.1
            | err e ↦ (err e, r.1)
          ])
      go (ok a, s') h = kf a s'
      go (err e, s') h = h

  pub pure-Files : {A : Type 0} (a : A) → Files run_id (pure a)
  pure-Files a s = tt

  pub evm-Files : {A : Type 0} (r : Result EvmError A) → Files run_id (or_throw evm r)
  evm-Files (ok a) s = tt
  evm-Files (err e) s = tt

  module _ (env : Env) where
    transition-HasStatus :
        (from to : RunStatus) (s : Store)
        → (transition env run_id from to s).0 ≡ ok tt
        → HasStatus run_id (some to) (transition env run_id from to s).1.runs
    unfolding transition
    transition-HasStatus from to s h =
        ground (arith, h, update_run_status_with_transition-HasStatus env.now run_id from to s.runs)

    pub transition-Files : (from to : RunStatus) → Files run_id (transition env run_id from to)
    unfolding transition
    transition-Files from to s = ground arith

    -- A status change before the error that stands for it.
    pub transition-throw-Files :
        (A : Type 0) (from to : RunStatus) (e : McpError)
        → (status_of e ≡ some to) ⊎ (status_of e ≡ none)
        → Files run_id (transition env run_id from to >> throw {A = A} e)
    transition-throw-Files A from to e h s =
        go (transition env run_id from to s) (transition-HasStatus from to s)
          (transition-Files from to s)
      where
        go :
            (r : Result McpError (Unit {0}) × Store)
            → (r.0 ≡ ok tt → HasStatus run_id (some to) r.1.runs)
            → Filed run_id r
            → Filed run_id (elim r.0 as (λ _. Result McpError A × Store) [
              | ok a ↦ (err e, r.1)
              | err x ↦ (err x, r.1)
            ])
        go (ok a, s') k f = elim h [ inl same ↦ rw same (k refl) | inr free ↦ rw free tt ]
        go (err x, s') k f = f

    pub record_decision_row-Files :
        (idx : ℕ) (g : DecisionGate) (v : JournalVerdict) (r : Option GateRule)
        (d : Option GateDetail) (p : Option GatePayload)
        → Files run_id (record_decision_row env run_id idx g v r d p)
    unfolding record_decision_row
    record_decision_row-Files idx g v r d p s = tt

    pub record_gate_action_outcome-Files :
        (o : JournalActionOutcome) (p : OutcomePayload)
        → Files run_id (record_gate_action_outcome env run_id o p)
    unfolding record_gate_action_outcome
    record_gate_action_outcome-Files o p s = tt

    pub record_runtime_error-Files :
        (d : RuntimeDetail) → Files run_id (record_runtime_error env run_id d)
    unfolding record_runtime_error record_gate_action_outcome
    record_runtime_error-Files d s = tt

    record_action-Files : (o : StrategyOutcome) → Files run_id (record_action env run_id o)
    unfolding record_action record_gate_action_outcome
    record_action-Files StrategyOutcome.noop s = tt
    record_action-Files (StrategyOutcome.actions a d) s = tt

    record_execution_broadcast-Files :
        (idx : ℕ) (signer hash : String)
        → Files run_id (record_execution_broadcast env run_id idx signer hash)
    unfolding record_execution_broadcast
    record_execution_broadcast-Files idx signer hash s = ground arith

    record_execution_receipt_success-Files :
        (idx : ℕ) (status gas : String)
        → Files run_id (record_execution_receipt_success env run_id idx status gas)
    unfolding record_execution_receipt_success
    record_execution_receipt_success-Files idx status gas s = ground arith

    pub record_error-Files :
        (idx : ℕ) (signer : Option String) (kind : String) (detail : Option String)
        → Files run_id (record_error env run_id idx signer kind detail)
    unfolding record_error
    record_error-Files idx signer kind detail s = ground arith

-- The steps that answer no error but those of the store, and the ends of a run.
pub ruleset filing = (
  bind-Files, evm-Files, transition-throw-Files, record_decision_row-Files,
  record_gate_action_outcome-Files, record_runtime_error-Files, record_error-Files,
)
