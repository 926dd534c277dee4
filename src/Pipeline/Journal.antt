-- ===== src/Pipeline/Journal.antt =====
-- The writes of the pipeline: tools.rs over journal.rs, runs.rs and executions.rs.
use onchain_strategy_mcp.Prelude.{
  ℕ, ◌+◌, String, Option, List, [], ◌∷◌, ◌++◌, ◌==◌, string_eq, if◌then◌else◌, leb,
}
use onchain_strategy_mcp.Prelude.Result.{Result, ok, err}
use onchain_strategy_mcp.State.Error.{RunStatus, StateError}
use onchain_strategy_mcp.State.Runs.{Runs, update_run_status_with_transition}
use onchain_strategy_mcp.State.Executions.{
  Executions, record_broadcast, record_receipt_success, record_execution_error,
}
use onchain_strategy_mcp.Pipeline.Types.{
  DecisionGate, JournalVerdict, GateRule, GateDetail, GatePayload, DecisionEntry, RuntimeDetail,
  OutcomePayload, runtime_error_payload, JournalActionOutcome, runtime_error, Env, state, M, modify,
  StrategyOutcome, outcome_payload,
}

-- journal.rs: `next_decision_seq`, one more than the largest number of the run.
unfoldable pub next_decision_seq : String → List DecisionEntry → ℕ
next_decision_seq run_id [] = 0
next_decision_seq run_id (d ∷ ds) =
    let rest = next_decision_seq run_id ds in
    if d.run_id == run_id then (if leb rest d.seq then d.seq + 1 else rest) else rest

-- A store call as a step of the pipeline, with `map_state_error`.
abbrev pub on_runs : {A : Type 0} → (Runs → Result StateError A × Runs) → M A
on_runs f s =
    let (r, t) = f s.runs in
    elim r [ ok a ↦ (ok a, record s { runs = t }) | err e ↦ (err (state e), record s { runs = t }) ]

abbrev pub on_executions :
    {A : Type 0} → (Executions → Result StateError A × Executions) → M (Unit {0})
on_executions f s =
    let (r, t) = f s.executions in
    elim r [
      | ok a ↦ (ok tt, record s { executions = t })
      | err e ↦ (err (state e), record s { executions = t })
    ]

module _ (env : Env) (run_id : String) where
  unfoldable pub transition : RunStatus → RunStatus → M (Unit {0})
  transition from to = on_runs (update_run_status_with_transition env.now run_id from to)

  unfoldable pub record_decision_row :
      ℕ
      → DecisionGate
      → JournalVerdict
      → Option GateRule
      → Option GateDetail
      → Option GatePayload
      → M (Unit {0})
  record_decision_row idx gate verdict rule detail payload = modify (λ s. record s {
    decisions =
        s.decisions
        ++ record {
          run_id = run_id;
          action_index = idx;
          gate = gate;
          verdict = verdict;
          rule = rule;
          detail = detail;
          payload = payload;
          seq = next_decision_seq run_id s.decisions;
        }
          ∷ [];
  })

  unfoldable pub record_gate_action_outcome : JournalActionOutcome → OutcomePayload → M (Unit {0})
  record_gate_action_outcome outcome payload = modify (λ s. record s {
    outcomes = s.outcomes ++ record { run_id = run_id; outcome = outcome; payload = payload } ∷ [];
  })

  unfoldable pub record_runtime_error : RuntimeDetail → M (Unit {0})
  record_runtime_error detail =
      record_gate_action_outcome runtime_error (runtime_error_payload detail)

  unfoldable pub record_action : StrategyOutcome → M (Unit {0})
  record_action StrategyOutcome.noop =
      record_gate_action_outcome JournalActionOutcome.noop (outcome_payload StrategyOutcome.noop)
  record_action (StrategyOutcome.actions acts ds) =
      record_gate_action_outcome JournalActionOutcome.actions
        (outcome_payload (StrategyOutcome.actions acts ds))

  unfoldable pub record_execution_broadcast : ℕ → String → String → M (Unit {0})
  record_execution_broadcast idx signer hash =
      on_executions (record_broadcast (env.row_id idx) env.now run_id idx signer hash)

  unfoldable pub record_execution_receipt_success : ℕ → String → String → M (Unit {0})
  record_execution_receipt_success idx receipt_status gas =
      on_executions (record_receipt_success env.now run_id idx receipt_status gas)

  unfoldable pub record_error : ℕ → Option String → String → Option String → M (Unit {0})
  record_error idx signer kind detail =
      on_executions (record_execution_error (env.row_id idx) env.now run_id idx signer kind detail)
