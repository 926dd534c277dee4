-- ===== src/Pipeline/Start/Answered.antt =====
-- The status that the table has for a run when the whole call answers.
use onchain_strategy_mcp.Prelude.{
  ℕ, String, Option, none, some, List, ◌≡◌, refl, inl, inr, ◌⊎◌, arith, ◌==◌, string_eq, contains,
  Bool-cases,
}
use onchain_strategy_mcp.Prelude.Text.{Text}
use onchain_strategy_mcp.Prelude.Map.{get}
use onchain_strategy_mcp.Prelude.Json.{Json, null}
use onchain_strategy_mcp.Prelude.Result.{Result, ok, err}
use onchain_strategy_mcp.Alloy.{Alloy}
use onchain_strategy_mcp.Policy.Model.{LoadedPolicy}
use onchain_strategy_mcp.Evm.Validate.{EvmError}
use onchain_strategy_mcp.State.Error.{StateError, queued, running, failed}
use onchain_strategy_mcp.State.Runs.{Runs, insert_run_with_action}
use onchain_strategy_mcp.State.Strategies.{Strategy, Strategies, get_by_id}
use onchain_strategy_mcp.Pipeline.Types.{
  StrategyOutcome, RuntimeError, timeout, oom, stack_overflow, exception, invalid_output,
  engine_init, OutputFault, reported, Env, Store, McpError, evm, ◌>>=◌, ◌>>◌, or_throw,
}
use onchain_strategy_mcp.Pipeline.Journal.{on_runs, transition}
use onchain_strategy_mcp.Pipeline.Output.{validate_strategy_output}
use onchain_strategy_mcp.Pipeline.Execute.{finish_run}
use onchain_strategy_mcp.Pipeline.Filed.{
  Files, HasStatus, status_of, pure-Files, evm-Files, filing, transition-Files,
  record_gate_action_outcome-Files,
}
use onchain_strategy_mcp.Pipeline.Filed.Execution.{Answered, bind-Answered, finish_run-Answered}
use onchain_strategy_mcp.Pipeline.Start.{
  World, Actions, or_unknown, resolved_source, if_active, or_not_found, load_strategy, lineage_of,
  trimmed, record_validation_error, reject_output, fail_script, or_rejected, accept_output,
  run_script, start_run, map_runtime_error, with_source, with_strategy, run_strategy_with_event,
  actions_of, reserved_action_keys,
}

-- A refusal, which comes before the row of the run, stands for no status.
abbrev HasNoStatus : {A : Type 0} → Result McpError A → Type 0
HasNoStatus (ok a) = Unit
HasNoStatus (err e) = status_of e ≡ none

or_unknown-HasNoStatus :
    (s : Strategy) (name : String) (acts : Actions) (o : Option Text)
    → HasNoStatus (or_unknown s name acts o)
or_unknown-HasNoStatus s name acts none = refl
or_unknown-HasNoStatus s name acts (some t) = tt

resolved_source-HasNoStatus :
    (parse : Text → Option Actions) (s : Strategy) (action : Option String)
    → HasNoStatus (resolved_source parse s action)
unfolding resolved_source
resolved_source-HasNoStatus parse s none = tt
resolved_source-HasNoStatus parse s (some name) =
    let acts = actions_of parse s.actions_json in
    elim (Bool-cases (name == "")) [
      | inl e ↦ rw e refl
      | inr e ↦ elim (Bool-cases (contains reserved_action_keys name)) [
        | inl r ↦ rw (e, r) refl
        | inr r ↦ rw (e, r) (or_unknown-HasNoStatus s name acts (get acts name))
      ]
    ]

load_strategy-HasNoStatus : (id : String) (t : Strategies) → HasNoStatus (load_strategy id t)
unfolding load_strategy
load_strategy-HasNoStatus id t = found (get_by_id id t)
  where
    active : (s : Strategy) (o : Option String) → HasNoStatus (if_active s o)
    active s none = tt
    active s (some at) = refl

    found : (o : Option Strategy) → HasNoStatus (or_not_found id o)
    found none = refl
    found (some s) = active s s.deleted_at

module _ (env : Env) (run_id : String) where
  insert-Files : {A : Type 0} (f : Runs → Result StateError A × Runs) → Files run_id (on_runs f)
  insert-Files f s = ground arith

  record_validation_error-Files :
      (fault : OutputFault) (raw : Json)
      → Files run_id (record_validation_error env run_id fault raw)
  unfolding record_validation_error
  record_validation_error-Files fault raw = record_gate_action_outcome-Files run_id env _ _

  reject_output-Files :
      (A : Type 0) (fault : OutputFault) (raw : Json)
      → Files run_id (reject_output env run_id {A = A} fault raw)
  unfolding reject_output
  reject_output-Files A fault raw = search (filing, inl, record_validation_error-Files) depth 12

  map_runtime_error-status :
      (e : RuntimeError)
      → (status_of (map_runtime_error e) ≡ some failed) ⊎ (status_of (map_runtime_error e) ≡ none)
  unfolding map_runtime_error
  map_runtime_error-status timeout = inl refl
  map_runtime_error-status oom = inl refl
  map_runtime_error-status stack_overflow = inl refl
  map_runtime_error-status (exception m) = inl refl
  map_runtime_error-status (invalid_output d) = inl refl
  map_runtime_error-status (engine_init m) = inl refl
  map_runtime_error-status (RuntimeError.evm e) = inr refl

  fail_script-Files :
      (A : Type 0) (e : RuntimeError) → Files run_id (fail_script env run_id {A = A} e)
  unfolding fail_script
  fail_script-Files A e = search (filing, map_runtime_error-status) depth 12

  or_rejected-Files :
      (raw : Json) (r : Result OutputFault StrategyOutcome)
      → Files run_id (or_rejected env run_id raw r)
  or_rejected-Files raw (ok o) = pure-Files run_id o
  or_rejected-Files raw (err fault) = reject_output-Files StrategyOutcome fault raw

  module _ (alloy : Alloy) (enc : Text → Text → List Json → Result EvmError (List ℕ)) where
    accept_output-Files :
        (r : Result RuntimeError Json) → Files run_id (accept_output env run_id alloy enc r)
    unfolding accept_output
    accept_output-Files (ok raw) = or_rejected-Files raw (validate_strategy_output enc raw)
    accept_output-Files (err timeout) = fail_script-Files StrategyOutcome timeout
    accept_output-Files (err oom) = fail_script-Files StrategyOutcome oom
    accept_output-Files (err stack_overflow) = fail_script-Files StrategyOutcome stack_overflow
    accept_output-Files (err (exception m)) = fail_script-Files StrategyOutcome (exception m)
    accept_output-Files (err (engine_init m)) = fail_script-Files StrategyOutcome (engine_init m)
    accept_output-Files (err (RuntimeError.evm e)) =
        fail_script-Files StrategyOutcome (RuntimeError.evm e)
    accept_output-Files (err (invalid_output d)) =
        reject_output-Files StrategyOutcome (reported d) null

    start_run-Answered :
        (w : World) (policy : Option LoadedPolicy) (event : Option Json) (action : Option String)
        (s : Strategy) (source : Text) (st : Store)
        → Answered env run_id (start_run env run_id alloy enc w policy event action s source st)
    unfolding start_run
    start_run-Answered w policy event action s source =
        let answer = w.sandbox source event in
        bind-Answered env run_id
          (on_runs (
            insert_run_with_action (lineage_of (get_by_id s.id w.strategies_at_insert)) run_id
              env.now s.id queued action))
          (λ _.
            transition env run_id queued running >> run_script env run_id alloy enc policy answer)
          (insert-Files _)
          (λ _.
            bind-Answered env run_id (transition env run_id queued running)
              (λ _. run_script env run_id alloy enc policy answer)
              (transition-Files run_id env queued running)
              (λ _.
                bind-Answered env run_id (or_throw evm env.provider)
                  (λ _.
                    accept_output env run_id alloy enc answer
                    >>= finish_run env run_id alloy enc policy)
                  (evm-Files run_id env.provider)
                  (λ _.
                    bind-Answered env run_id (accept_output env run_id alloy enc answer)
                      (finish_run env run_id alloy enc policy) (accept_output-Files answer)
                      (finish_run-Answered env run_id alloy enc policy))))

    -- When a run answers with a value, the table has the run as succeeded; when it answers that the
    -- policy is missing or denied it, as denied by the policy; that a simulation failed, as denied by
    -- the simulation; that the script failed or gave no outcome, or that signing, sending or a receipt
    -- failed, as failed.
    pub run_strategy_with_event-Answered :
        (w : World) (policy : Option LoadedPolicy) (id : String) (event : Option Json)
        (action : Option String) (st : Store)
        → Answered env run_id
            (run_strategy_with_event env run_id alloy enc w policy id event action st)
    unfolding run_strategy_with_event
    run_strategy_with_event-Answered w policy id event action st =
        loaded (load_strategy id w.strategies) (load_strategy-HasNoStatus id w.strategies)
      where
        refused : (e : McpError) → status_of e ≡ none → HasStatus run_id (status_of e) st.runs
        refused e h = rw h tt

        resolved :
            (s : Strategy) (r : Result McpError Text)
            → HasNoStatus r
            → Answered env run_id
                (with_source env run_id alloy enc w policy event (trimmed action) s r st)
        resolved s (ok source) h = start_run-Answered w policy event (trimmed action) s source st
        resolved s (err e) h = refused e h

        loaded :
            (r : Result McpError Strategy)
            → HasNoStatus r
            → Answered env run_id
                (with_strategy env run_id alloy enc w policy event (trimmed action) r st)
        loaded (ok s) h =
            resolved s (resolved_source w.parse_actions s (trimmed action))
              (resolved_source-HasNoStatus w.parse_actions s (trimmed action))
        loaded (err e) h = refused e h
