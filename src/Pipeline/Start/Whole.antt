-- ===== src/Pipeline/Start/Whole.antt =====
-- A run from the lookup of the strategy to its end, for a closed predicate that also holds of the
-- hand-over and of the insert of the row.
use onchain_strategy_mcp.Prelude.{String, Option, List, ℕ}
use onchain_strategy_mcp.Prelude.Text.{Text}
use onchain_strategy_mcp.Prelude.Json.{Json, null}
use onchain_strategy_mcp.Prelude.Result.{Result, ok, err}
use onchain_strategy_mcp.Alloy.{Alloy}
use onchain_strategy_mcp.Policy.Model.{LoadedPolicy}
use onchain_strategy_mcp.Evm.Validate.{EvmError}
use onchain_strategy_mcp.State.Error.{queued, running}
use onchain_strategy_mcp.State.Runs.{insert_run_with_action}
use onchain_strategy_mcp.State.Strategies.{Strategy, get_by_id}
use onchain_strategy_mcp.Pipeline.Types.{
  StrategyOutcome, Sent, RuntimeError, timeout, oom, stack_overflow, exception, invalid_output,
  engine_init, OutputFault, reported, Env, McpError, evm, M, ◌>>=◌, ◌>>◌, or_throw,
}
use onchain_strategy_mcp.Pipeline.Journal.{on_runs, transition}
use onchain_strategy_mcp.Pipeline.Output.{validate_strategy_output}
use onchain_strategy_mcp.Pipeline.Execute.{send, finish_run}
use onchain_strategy_mcp.Pipeline.Closed.{Closed, or_throw-Closed, record_runtime_error-Closed}
use onchain_strategy_mcp.Pipeline.Closed.Execution.{finish_run-Closed}
use onchain_strategy_mcp.Pipeline.Start.{
  World, lineage_of, trimmed, record_validation_error, reject_output, fail_script, or_rejected,
  accept_output, run_script, start_run, with_source, with_strategy, load_strategy, resolved_source,
  run_strategy_with_event,
}

module _ {env : Env} {run_id : String} {P : (A : Type 0) → M A → Type 0}
    (c : Closed env run_id P) where
  reject_output-Closed :
      (A : Type 0) (fault : OutputFault) (raw : Json)
      → P _ (reject_output env run_id {A = A} fault raw)
  unfolding reject_output record_validation_error
  reject_output-Closed A fault raw =
      search (c.bind, c.throw_step, c.transition_step, c.outcome_step)

  fail_script-Closed : (A : Type 0) (e : RuntimeError) → P _ (fail_script env run_id {A = A} e)
  unfolding fail_script
  fail_script-Closed A e =
      search (c.bind, c.throw_step, c.transition_step, record_runtime_error-Closed c)

  or_rejected-Closed :
      (raw : Json) (r : Result OutputFault StrategyOutcome) → P _ (or_rejected env run_id raw r)
  or_rejected-Closed raw (ok o) = c.pure_step o
  or_rejected-Closed raw (err fault) = reject_output-Closed StrategyOutcome fault raw

  module _ (alloy : Alloy) (enc : Text → Text → List Json → Result EvmError (List ℕ)) where
    accept_output-Closed :
        (r : Result RuntimeError Json) → P _ (accept_output env run_id alloy enc r)
    unfolding accept_output
    accept_output-Closed (ok raw) = or_rejected-Closed raw (validate_strategy_output enc raw)
    accept_output-Closed (err timeout) = fail_script-Closed StrategyOutcome timeout
    accept_output-Closed (err oom) = fail_script-Closed StrategyOutcome oom
    accept_output-Closed (err stack_overflow) = fail_script-Closed StrategyOutcome stack_overflow
    accept_output-Closed (err (exception m)) = fail_script-Closed StrategyOutcome (exception m)
    accept_output-Closed (err (engine_init m)) = fail_script-Closed StrategyOutcome (engine_init m)
    accept_output-Closed (err (RuntimeError.evm e)) =
        fail_script-Closed StrategyOutcome (RuntimeError.evm e)
    accept_output-Closed (err (invalid_output d)) =
        reject_output-Closed StrategyOutcome (reported d) null

    module _ (send_step : (x : Sent) → P _ (send env run_id x))
        (insert_step : (lineage : Option (Option String)) (sid : String) (action : Option String)
          → P _ (on_runs (insert_run_with_action lineage run_id env.now sid queued action)))
        (w : World) (policy : Option LoadedPolicy) (event : Option Json) where
      run_script-Closed :
          (answer : Result RuntimeError Json) → P _ (run_script env run_id alloy enc policy answer)
      run_script-Closed answer =
          c.bind (or_throw evm env.provider)
            (λ _.
              accept_output env run_id alloy enc answer >>= finish_run env run_id alloy enc policy)
            (or_throw-Closed c evm env.provider)
            (λ _.
              c.bind (accept_output env run_id alloy enc answer)
                (finish_run env run_id alloy enc policy) (accept_output-Closed answer)
                (finish_run-Closed c send_step alloy enc policy))

      start_run-Closed :
          (action : Option String) (s : Strategy) (source : Text)
          → P _ (start_run env run_id alloy enc w policy event action s source)
      unfolding start_run
      start_run-Closed action s source =
          let lineage = lineage_of (get_by_id s.id w.strategies_at_insert) in
          let script = run_script env run_id alloy enc policy (w.sandbox source event) in
          c.bind (on_runs (insert_run_with_action lineage run_id env.now s.id queued action))
            (λ _. transition env run_id queued running >> script) (insert_step lineage s.id action)
            (λ _.
              c.bind (transition env run_id queued running) (λ _. script)
                (c.transition_step queued running)
                (λ _. run_script-Closed (w.sandbox source event)))

      with_source-Closed :
          (action : Option String) (s : Strategy) (r : Result McpError Text)
          → P _ (with_source env run_id alloy enc w policy event action s r)
      with_source-Closed action s (ok source) = start_run-Closed action s source
      with_source-Closed action s (err e) = c.throw_step StrategyOutcome e

      with_strategy-Closed :
          (action : Option String) (r : Result McpError Strategy)
          → P _ (with_strategy env run_id alloy enc w policy event action r)
      with_strategy-Closed action (ok s) =
          with_source-Closed action s (resolved_source w.parse_actions s action)
      with_strategy-Closed action (err e) = c.throw_step StrategyOutcome e

      pub run_strategy_with_event-Closed :
          (id : String) (action : Option String)
          → P _ (run_strategy_with_event env run_id alloy enc w policy id event action)
      unfolding run_strategy_with_event
      run_strategy_with_event-Closed id action =
          with_strategy-Closed (trimmed action) (load_strategy id w.strategies)
