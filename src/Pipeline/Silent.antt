-- ===== src/Pipeline/Silent.antt =====
-- The steps of the pipeline that send nothing.
use onchain_strategy_mcp.Prelude.{ℕ, String, Option, List, ◌≡◌, refl, ◌∙◌, arith}
use onchain_strategy_mcp.Prelude.Text.{Text}
use onchain_strategy_mcp.Prelude.Json.{Json}
use onchain_strategy_mcp.Prelude.Result.{Result, ok, err}
use onchain_strategy_mcp.Alloy.{Alloy}
use onchain_strategy_mcp.Policy.Model.{LoadedPolicy}
use onchain_strategy_mcp.Evm.Validate.{EvmError}
use onchain_strategy_mcp.State.Error.{RunStatus}
use onchain_strategy_mcp.Pipeline.Types.{
  DecisionGate, JournalVerdict, GateRule, GateDetail, GatePayload, StrategyOutcome, RuntimeDetail,
  OutcomePayload, JournalActionOutcome, Store, Env, McpError, M, pure, throw, ◌>>=◌, or_throw,
}
use onchain_strategy_mcp.Pipeline.Journal.{
  transition, record_decision_row, record_gate_action_outcome, record_runtime_error, record_action,
  record_execution_broadcast, record_execution_receipt_success, record_error,
}
use onchain_strategy_mcp.Pipeline.Closed.{Closed, bind-related}
use onchain_strategy_mcp.Pipeline.Closed.Gates.{gate_actions-Closed}
use onchain_strategy_mcp.Pipeline.Gates.{gate_actions}

-- A step that leaves the log of what was sent alone.
abbrev pub Keeps : {A : Type 0} → M A → Type 0
Keeps m = (s : Store) → (m s).1.sent ≡ s.sent

pub bind-Keeps :
    {A B : Type 0} (m : M A) (f : A → M B) → Keeps m → ((a : A) → Keeps (f a)) → Keeps (m >>= f)
bind-Keeps m f = bind-related (λ s t. t.sent ≡ s.sent) (λ s t u h k. k ∙ h) m f

pub or_throw-Keeps : {E A : Type 0} (f : E → McpError) (r : Result E A) → Keeps (or_throw f r)
or_throw-Keeps f (ok a) s = refl
or_throw-Keeps f (err e) s = refl

module _ (env : Env) (run_id : String) where
  pub transition-Keeps : (from to : RunStatus) → Keeps (transition env run_id from to)
  unfolding transition
  transition-Keeps from to s = ground arith

  pub record_decision_row-Keeps :
      (idx : ℕ) (g : DecisionGate) (v : JournalVerdict) (r : Option GateRule)
      (d : Option GateDetail) (p : Option GatePayload)
      → Keeps (record_decision_row env run_id idx g v r d p)
  unfolding record_decision_row
  record_decision_row-Keeps idx g v r d p s = refl

  pub record_gate_action_outcome-Keeps :
      (o : JournalActionOutcome) (p : OutcomePayload)
      → Keeps (record_gate_action_outcome env run_id o p)
  unfolding record_gate_action_outcome
  record_gate_action_outcome-Keeps o p s = refl

  pub record_runtime_error-Keeps : (d : RuntimeDetail) → Keeps (record_runtime_error env run_id d)
  unfolding record_runtime_error record_gate_action_outcome
  record_runtime_error-Keeps d s = refl

  pub record_action-Keeps : (o : StrategyOutcome) → Keeps (record_action env run_id o)
  unfolding record_action record_gate_action_outcome
  record_action-Keeps StrategyOutcome.noop s = refl
  record_action-Keeps (StrategyOutcome.actions a d) s = refl

  pub record_execution_broadcast-Keeps :
      (idx : ℕ) (signer hash : String)
      → Keeps (record_execution_broadcast env run_id idx signer hash)
  unfolding record_execution_broadcast
  record_execution_broadcast-Keeps idx signer hash s = ground arith

  pub record_execution_receipt_success-Keeps :
      (idx : ℕ) (status gas : String)
      → Keeps (record_execution_receipt_success env run_id idx status gas)
  unfolding record_execution_receipt_success
  record_execution_receipt_success-Keeps idx status gas s = ground arith

  pub record_error-Keeps :
      (idx : ℕ) (signer : Option String) (kind : String) (detail : Option String)
      → Keeps (record_error env run_id idx signer kind detail)
  unfolding record_error
  record_error-Keeps idx signer kind detail s = ground arith

pub ruleset quiet = (
  bind-Keeps, or_throw-Keeps, transition-Keeps, record_decision_row-Keeps,
  record_gate_action_outcome-Keeps, record_runtime_error-Keeps,
)

pub pure-Keeps : {A : Type 0} (a : A) → Keeps (pure a)
pure-Keeps a s = refl

pub throw-Keeps : (A : Type 0) (e : McpError) → Keeps (throw {A = A} e)
throw-Keeps A e s = refl

module _ (env : Env) (run_id : String) where
  pub Keeps-Closed : Closed env run_id (λ A m. Keeps m)
  Keeps-Closed = record {
    bind = bind-Keeps;
    pure_step = pure-Keeps;
    throw_step = throw-Keeps;
    transition_step = transition-Keeps env run_id;
    decision_step = record_decision_row-Keeps env run_id;
    outcome_step = record_gate_action_outcome-Keeps env run_id;
    broadcast_step = record_execution_broadcast-Keeps env run_id;
    receipt_step = record_execution_receipt_success-Keeps env run_id;
    error_step = record_error-Keeps env run_id;
  }

  -- The gates send nothing, whatever they answer.
  pub gate_actions-Keeps :
      (alloy : Alloy) (enc : Text → Text → List Json → Result EvmError (List ℕ))
      (policy : Option LoadedPolicy) (o : StrategyOutcome)
      → Keeps (gate_actions alloy env run_id enc policy o)
  gate_actions-Keeps alloy enc policy o = gate_actions-Closed alloy Keeps-Closed enc policy o
