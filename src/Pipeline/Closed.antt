-- ===== src/Pipeline/Closed.antt =====
-- Predicates on the steps of a run that hold of the single writes and are kept by the chain of steps:
-- they hold of the gates, of the execution and of the run.
pub mod Gates
pub mod Execution
use onchain_strategy_mcp.Prelude.{ℕ, String, Option}
use onchain_strategy_mcp.Prelude.Result.{Result, ok, err}
use onchain_strategy_mcp.State.Error.{RunStatus}
use onchain_strategy_mcp.Pipeline.Types.{
  DecisionGate, JournalVerdict, GateRule, GateDetail, GatePayload, StrategyOutcome, RuntimeDetail,
  OutcomePayload, JournalActionOutcome, Store, Env, McpError, M, pure, throw, ◌>>=◌, or_throw,
}
use onchain_strategy_mcp.Pipeline.Journal.{
  transition, record_decision_row, record_gate_action_outcome, record_runtime_error, record_action,
  record_execution_broadcast, record_execution_receipt_success, record_error,
}

pub record Closed (env : Env) (run_id : String) (P : (A : Type 0) → M A → Type 0) : Type 1 where
  pub bind : {A B : Type 0} (m : M A) (f : A → M B) → P _ m → ((a : A) → P _ (f a)) → P _ (m >>= f)
  pub pure_step : {A : Type 0} (a : A) → P _ (pure a)
  pub throw_step : (A : Type 0) (e : McpError) → P _ (throw {A = A} e)
  pub transition_step : (from to : RunStatus) → P _ (transition env run_id from to)
  pub decision_step :
      (idx : ℕ) (g : DecisionGate) (v : JournalVerdict) (r : Option GateRule)
      (d : Option GateDetail) (p : Option GatePayload)
      → P _ (record_decision_row env run_id idx g v r d p)
  pub outcome_step :
      (o : JournalActionOutcome) (p : OutcomePayload)
      → P _ (record_gate_action_outcome env run_id o p)
  pub broadcast_step :
      (idx : ℕ) (signer hash : String) → P _ (record_execution_broadcast env run_id idx signer hash)
  pub receipt_step :
      (idx : ℕ) (status gas : String)
      → P _ (record_execution_receipt_success env run_id idx status gas)
  pub error_step :
      (idx : ℕ) (signer : Option String) (kind : String) (detail : Option String)
      → P _ (record_error env run_id idx signer kind detail)

module _ {env : Env} {run_id : String} {P : (A : Type 0) → M A → Type 0}
    (c : Closed env run_id P) where
  pub or_throw-Closed : {E A : Type 0} (f : E → McpError) (r : Result E A) → P _ (or_throw f r)
  or_throw-Closed f (ok a) = c.pure_step a
  or_throw-Closed {A} f (err e) = c.throw_step A (f e)

  pub record_runtime_error-Closed : (d : RuntimeDetail) → P _ (record_runtime_error env run_id d)
  unfolding record_runtime_error
  record_runtime_error-Closed d = c.outcome_step _ _

  pub record_action-Closed : (o : StrategyOutcome) → P _ (record_action env run_id o)
  unfolding record_action
  record_action-Closed StrategyOutcome.noop = c.outcome_step _ _
  record_action-Closed (StrategyOutcome.actions a d) = c.outcome_step _ _

-- What a step does to the store is in a relation that is kept by one change after another.
module _ (R : Store → Store → Type 0) (then_step : (s t u : Store) → R s t → R t u → R s u) where
  pub bind-related :
      {A B : Type 0} (m : M A) (f : A → M B)
      → ((s : Store) → R s (m s).1)
      → ((a : A) (s : Store) → R s (f a s).1)
      → (s : Store) → R s ((m >>= f) s).1
  bind-related {A} {B} m f km kf s = go (m s) (km s)
    where
      go :
          (r : Result McpError A × Store)
          → R s r.1
          → R s
              (elim r.0 as (λ _. Result McpError B × Store) [
                | ok a ↦ f a r.1
                | err e ↦ (err e, r.1)
              ]).1
      go (ok a, s') h = then_step s s' (f a s').1 h (kf a s')
      go (err e, s') h = h
