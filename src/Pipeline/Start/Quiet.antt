-- ===== src/Pipeline/Start/Quiet.antt =====
-- The start of a run sends nothing, and a run that may not start leaves everything as it is.
use onchain_strategy_mcp.Prelude.{ℕ, String, Option, List, ◌≡◌, refl, arith, inl, inr, ◌⊎◌}
use onchain_strategy_mcp.Prelude.Text.{Text}
use onchain_strategy_mcp.Prelude.Json.{Json, null}
use onchain_strategy_mcp.Prelude.Result.{Result, ok, err}
use onchain_strategy_mcp.Alloy.{Alloy}
use onchain_strategy_mcp.Policy.Model.{LoadedPolicy}
use onchain_strategy_mcp.Evm.Validate.{EvmError}
use onchain_strategy_mcp.State.Error.{StateError}
use onchain_strategy_mcp.State.Runs.{Runs}
use onchain_strategy_mcp.State.Strategies.{Strategy}
use onchain_strategy_mcp.Pipeline.Types.{
  StrategyOutcome, RuntimeError, timeout, oom, stack_overflow, exception, invalid_output,
  engine_init, OutputFault, reported, Env, Store, McpError,
}
use onchain_strategy_mcp.Pipeline.Journal.{on_runs}
use onchain_strategy_mcp.Pipeline.Output.{validate_strategy_output}
use onchain_strategy_mcp.Pipeline.Silent.{
  Keeps, quiet, pure-Keeps, throw-Keeps, record_gate_action_outcome-Keeps,
}
use onchain_strategy_mcp.Pipeline.Sends.{Fails, bind-Fails, throw-Fails}
use onchain_strategy_mcp.Pipeline.Start.{
  World, record_validation_error, reject_output, fail_script, or_rejected, accept_output,
  load_strategy, resolved_source, trimmed, with_source, with_strategy, run_strategy_with_event,
  start_run,
}
use onchain_strategy_mcp.Pipeline.Start.Resolved.{
  Ready, Loads, load_strategy_iff, resolved_source_iff,
}

pub on_runs-Keeps : {A : Type 0} (f : Runs → Result StateError A × Runs) → Keeps (on_runs f)
on_runs-Keeps f s = ground arith

module _ (env : Env) (run_id : String) where
  record_validation_error-Keeps :
      (fault : OutputFault) (raw : Json) → Keeps (record_validation_error env run_id fault raw)
  unfolding record_validation_error
  record_validation_error-Keeps fault raw = record_gate_action_outcome-Keeps env run_id _ _

  reject_output-Keeps :
      (A : Type 0) (fault : OutputFault) (raw : Json)
      → Keeps (reject_output env run_id {A = A} fault raw)
  unfolding reject_output
  reject_output-Keeps A fault raw = search (quiet, throw-Keeps, record_validation_error-Keeps)

  fail_script-Keeps : (A : Type 0) (e : RuntimeError) → Keeps (fail_script env run_id {A = A} e)
  unfolding fail_script
  fail_script-Keeps A e = search (quiet, throw-Keeps)

  reject_output-Fails :
      (A : Type 0) (fault : OutputFault) (raw : Json)
      → Fails (reject_output env run_id {A = A} fault raw)
  unfolding reject_output
  reject_output-Fails A fault raw = search (bind-Fails, throw-Fails)

  fail_script-Fails : (A : Type 0) (e : RuntimeError) → Fails (fail_script env run_id {A = A} e)
  unfolding fail_script
  fail_script-Fails A e = search (bind-Fails, throw-Fails)

  or_rejected-Keeps :
      (raw : Json) (r : Result OutputFault StrategyOutcome) → Keeps (or_rejected env run_id raw r)
  or_rejected-Keeps raw (ok o) = pure-Keeps o
  or_rejected-Keeps raw (err fault) = reject_output-Keeps StrategyOutcome fault raw

  or_rejected_ok :
      (raw : Json) (r : Result OutputFault StrategyOutcome) (s : Store) (o : StrategyOutcome)
      → (or_rejected env run_id raw r s).0 ≡ ok o
      → r ≡ ok o
  or_rejected_ok raw (ok o) s p h = cc h
  or_rejected_ok raw (err fault) s p h =
      absurd (cc (h, (reject_output-Fails StrategyOutcome fault raw s).1))

  module _ (alloy : Alloy) (enc : Text → Text → List Json → Result EvmError (List ℕ)) where
    pub accept_output-Keeps :
        (r : Result RuntimeError Json) → Keeps (accept_output env run_id alloy enc r)
    unfolding accept_output
    accept_output-Keeps (ok raw) = or_rejected-Keeps raw (validate_strategy_output enc raw)
    accept_output-Keeps (err timeout) = fail_script-Keeps StrategyOutcome timeout
    accept_output-Keeps (err oom) = fail_script-Keeps StrategyOutcome oom
    accept_output-Keeps (err stack_overflow) = fail_script-Keeps StrategyOutcome stack_overflow
    accept_output-Keeps (err (exception m)) = fail_script-Keeps StrategyOutcome (exception m)
    accept_output-Keeps (err (engine_init m)) = fail_script-Keeps StrategyOutcome (engine_init m)
    accept_output-Keeps (err (RuntimeError.evm e)) =
        fail_script-Keeps StrategyOutcome (RuntimeError.evm e)
    accept_output-Keeps (err (invalid_output d)) =
        reject_output-Keeps StrategyOutcome (reported d) null

    failed_script :
        (e : RuntimeError) (s : Store) → Fails (accept_output env run_id alloy enc (err e))
    unfolding accept_output
    failed_script timeout s = fail_script-Fails StrategyOutcome timeout
    failed_script oom s = fail_script-Fails StrategyOutcome oom
    failed_script stack_overflow s = fail_script-Fails StrategyOutcome stack_overflow
    failed_script (exception m) s = fail_script-Fails StrategyOutcome (exception m)
    failed_script (engine_init m) s = fail_script-Fails StrategyOutcome (engine_init m)
    failed_script (RuntimeError.evm e) s = fail_script-Fails StrategyOutcome (RuntimeError.evm e)
    failed_script (invalid_output d) s = reject_output-Fails StrategyOutcome (reported d) null

    -- What goes on to the gates was accepted by the validator.
    pub accept_output_ok :
        (r : Result RuntimeError Json) (s : Store) (o : StrategyOutcome)
        → (accept_output env run_id alloy enc r s).0 ≡ ok o
        → (raw : Json) × (r ≡ ok raw) × (validate_strategy_output enc raw ≡ ok o)
    unfolding accept_output
    accept_output_ok (ok raw) s o h =
        (raw, refl, or_rejected_ok raw (validate_strategy_output enc raw) s o h)
    accept_output_ok (err e) s o h = absurd (cc (h, (failed_script e s s).1))

    -- A run starts for a strategy and a source that are ready, or answers with an error at once.
    pub run-cases :
        (w : World) (policy : Option LoadedPolicy) (id : String) (event : Option Json)
        (action : Option String) (st : Store)
        → ((found : Strategy) × (source : Text) × Ready w id action found source
            × (run_strategy_with_event env run_id alloy enc w policy id event action st
                ≡ start_run env run_id alloy enc w policy event (trimmed action) found source st))
          ⊎ ((e : McpError) × (run_strategy_with_event env run_id alloy enc w policy id event action
                  st
                ≡ (err e, st)))
    unfolding run_strategy_with_event
    run-cases w policy id event action st =
        loaded (load_strategy id w.strategies) (λ s. (load_strategy_iff id w.strategies s).0)
      where
        resolved :
            (s : Strategy) (r : Result McpError Text)
            → ((source : Text) → r ≡ ok source → Ready w id action s source)
            → ((found : Strategy) × (source : Text) × Ready w id action found source
                × (with_source env run_id alloy enc w policy event (trimmed action) s r st
                    ≡ start_run env run_id alloy enc w policy event
                        (trimmed action)
                        found
                        source
                        st))
              ⊎ ((e : McpError) × (with_source env run_id alloy enc w policy event
                      (trimmed action)
                      s
                      r
                      st
                    ≡ (err e, st)))
        resolved s (ok source) ready = inl (s, source, ready source refl, refl)
        resolved s (err e) ready = inr (e, refl)

        loaded :
            (r : Result McpError Strategy)
            → ((s : Strategy) → r ≡ ok s → Loads id w.strategies s)
            → ((found : Strategy) × (source : Text) × Ready w id action found source
                × (with_strategy env run_id alloy enc w policy event (trimmed action) r st
                    ≡ start_run env run_id alloy enc w policy event
                        (trimmed action)
                        found
                        source
                        st))
              ⊎ ((e : McpError) × (with_strategy env run_id alloy enc w policy event
                      (trimmed action)
                      r
                      st
                    ≡ (err e, st)))
        loaded (ok s) loads =
            resolved s (resolved_source w.parse_actions s (trimmed action)) (λ source h.
              (loads s refl, (resolved_source_iff w.parse_actions s (trimmed action) source).0 h))
        loaded (err e) loads = inr (e, refl)

    -- A run of a strategy that is not there or is deleted, or of an action whose trimmed name is empty,
    -- reserved or not one of the strategy's, answers with an error and leaves the store as it is.
    pub run_strategy_with_event-refused :
        (w : World) (policy : Option LoadedPolicy) (id : String) (event : Option Json)
        (action : Option String) (st : Store)
        → ((s : Strategy) (source : Text) → Ready w id action s source → ⊥)
        → (e : McpError) × (run_strategy_with_event env run_id alloy enc w policy id event action st
            ≡ (err e, st))
    run_strategy_with_event-refused w policy id event action st unready =
        elim (run-cases w policy id event action st) [
          | inl (s, source, ready, same) ↦ absurd (unready s source ready)
          | inr refused ↦ refused
        ]
