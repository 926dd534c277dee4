-- ===== src/Pipeline/Start/Succeeds.antt =====
-- A run that has nothing to do is carried through to its end.
use onchain_strategy_mcp.Prelude.{
  ℕ, String, true, false, Option, some, List, [], ◌∷◌, ◌++◌, ◌≡◌, refl, ap, ◌∙◌, arith, string_eq,
  any, subst, ==_refl,
}
use onchain_strategy_mcp.Prelude.Text.{Text, codes}
use onchain_strategy_mcp.Prelude.Json.{Json, string}
use onchain_strategy_mcp.Prelude.Result.{Result, ok, err}
use onchain_strategy_mcp.Alloy.{Alloy}
use onchain_strategy_mcp.Policy.Model.{LoadedPolicy}
use onchain_strategy_mcp.Evm.Validate.{EvmError}
use onchain_strategy_mcp.State.Error.{RunStatus, queued, running, succeeded}
use onchain_strategy_mcp.State.Status.{status_to_wire}
use onchain_strategy_mcp.State.Table.{find, find-append, any-find}
use onchain_strategy_mcp.State.Strategies.{Strategy, get_by_id}
use onchain_strategy_mcp.State.Runs.{
  RunRow, has_id, new_row, set_status, insert_run_with_action, update_run_status_with_transition,
}
use onchain_strategy_mcp.State.Runs.Transitions.{transition-answer, transition-find, is_guarded}
use onchain_strategy_mcp.State.Runs.Life.{
  insert, transition as change, perform_all, perform_all-IsSound, IsSound,
}
use onchain_strategy_mcp.Pipeline.Types.{
  RuntimeError, StrategyOutcome, Store, Env, McpError, evm, M, pure, ◌>>=◌, ◌>>◌, or_throw,
}
use onchain_strategy_mcp.Pipeline.Journal.{
  on_runs, transition, record_action, record_gate_action_outcome,
}
use onchain_strategy_mcp.Pipeline.Output.{validate_strategy_output}
use onchain_strategy_mcp.Pipeline.Gates.{gate_actions}
use onchain_strategy_mcp.Pipeline.Execute.{execute_if_any, finish_run}
use onchain_strategy_mcp.Pipeline.Start.{
  World, trimmed, load_strategy, resolved_source, accept_output, run_script, start_run, lineage_of,
  with_source, with_strategy, run_strategy_with_event,
}

then_step :
    {A B : Type 0} (m : M A) (f : A → M B) (s s' : Store) (a : A)
    → m s ≡ (ok a, s')
    → (m >>= f) s ≡ f a s'
then_step {B} m f s s' a h =
    ap
      (λ out. elim out.0 as (λ _. Result McpError B × Store) [
        | ok x ↦ f x out.1
        | err e ↦ (err e, out.1)
      ])
      h

module _ (env : Env) (run_id : String) where
  -- The run is there, in a status.
  abbrev pub IsIn : RunStatus → Store → Type 0
  IsIn status s =
      IsSound s.runs
      × ((r : RunRow) × (find (has_id run_id) s.runs ≡ some r) × (r.status ≡ status_to_wire status))

  -- A status change that the state machine knows, of a run that is in the status it starts from.
  transition-IsIn :
      (from to : RunStatus) (s : Store)
      → is_guarded from to ≡ true
      → IsIn from s
      → (s' : Store) × (transition env run_id from to s ≡ (ok tt, s'))
        × (s'.sent ≡ s.sent)
        × IsIn to s'
  unfolding transition perform_all
  transition-IsIn from to s guarded (sound, (r, found, stored)) =
      let t' = (update_run_status_with_transition env.now run_id from to s.runs).1 in
      let answer : (update_run_status_with_transition env.now run_id from to s.runs).0 ≡ ok tt =
        transition-answer env.now run_id from to s.runs sound.0
        ∙ (rw found (ground (arith, guarded, stored, ==_refl (status_to_wire from)))) in
      (
        record s { runs = t' },
        cc answer,
        refl,
        (
          perform_all-IsSound (change env.now run_id from to ∷ []) s.runs sound,
          (
            set_status to env.now r,
            transition-find env.now run_id run_id from to s.runs r found
                ∙ (ground (arith, guarded, stored, ==_refl run_id, ==_refl (status_to_wire from))),
            refl,
          ),
        ),
      )

  -- The insert of a run with a fresh identifier, of a strategy that is there.
  insert-IsIn :
      (l : Option String) (sid : String) (action : Option String) (s : Store)
      → IsSound s.runs
      → any (has_id run_id) s.runs ≡ false
      → (s' : Store) × (on_runs (insert_run_with_action (some l) run_id env.now sid queued action) s
          ≡ (ok run_id, s'))
        × (s'.sent ≡ s.sent)
        × IsIn queued s'
  unfolding perform_all insert_run_with_action
  insert-IsIn l sid action s sound fresh =
      let row : RunRow = record (new_row run_id env.now sid queued action) {
        strategy_lineage_id = l;
      } in
      let extended : insert_run_with_action (some l) run_id env.now sid queued action s.runs
          ≡ (ok run_id, s.runs ++ row ∷ []) =
        rw fresh refl in
      (
        record s { runs = s.runs ++ row ∷ [] },
        cc extended,
        refl,
        (
          subst IsSound (ap (λ out. out.1) extended) (
              perform_all-IsSound (insert (some l) run_id env.now sid queued action ∷ []) s.runs
                sound),
          (
            row,
            find-append (has_id run_id) s.runs (row ∷ [])
                ∙ (rw (any-find (has_id run_id) s.runs, fresh) (rw (==_refl run_id) refl)),
            refl,
          ),
        ),
      )

  module _ (alloy : Alloy) (enc : Text → Text → List Json → Result EvmError (List ℕ)) where
    -- The end of a run without actions.
    finish_noop :
        (policy : Option LoadedPolicy) (s : Store)
        → IsIn running s
        → (s' : Store) × (finish_run env run_id alloy enc policy StrategyOutcome.noop s
            ≡ (ok StrategyOutcome.noop, s'))
          × (s'.sent ≡ s.sent)
          × IsIn succeeded s'
    unfolding finish_run gate_actions execute_if_any record_action record_gate_action_outcome
    finish_noop policy s there =
        let recorded : Store = (record_action env run_id StrategyOutcome.noop s).1 in
        let (s', step, kept, done) = transition-IsIn running succeeded recorded refl there in
        (
          s',
          then_step (transition env run_id running succeeded) (λ _. pure StrategyOutcome.noop)
              recorded s' tt step,
          kept,
          done,
        )

    -- The script's part of a run, when its answer is `noop`.
    run_script-noop :
        (policy : Option LoadedPolicy) (answer : Result RuntimeError Json) (s : Store)
        (out : Result McpError StrategyOutcome × Store)
        → env.provider ≡ ok tt
        → answer ≡ ok (string (codes "noop"))
        → finish_run env run_id alloy enc policy StrategyOutcome.noop s ≡ out
        → run_script env run_id alloy enc policy answer s ≡ out
    unfolding accept_output validate_strategy_output
    run_script-noop policy answer s out provided answered ended =
        let finish : StrategyOutcome → M StrategyOutcome = finish_run env run_id alloy enc policy in
        ap (λ p. (or_throw evm p >> (accept_output env run_id alloy enc answer >>= finish)) s)
          provided
        ∙ ap (λ a. (accept_output env run_id alloy enc a >>= finish) s) answered
        ∙ ended

    -- What follows the lookups of a run, step by step.
    start_run-steps :
        (w : World) (policy : Option LoadedPolicy) (event : Option Json) (action : Option String)
        (s : Strategy) (source : Text) (l : Strategy) (st s1 s2 : Store)
        → get_by_id s.id w.strategies_at_insert ≡ some l
        → on_runs
            (insert_run_with_action (some (some l.lineage_id)) run_id env.now s.id queued action)
            st
          ≡ (ok run_id, s1)
        → transition env run_id queued running s1 ≡ (ok tt, s2)
        → start_run env run_id alloy enc w policy event action s source st
          ≡ run_script env run_id alloy enc policy (w.sandbox source event) s2
    unfolding start_run
    start_run-steps w policy event action s source l st s1 s2 there inserted started =
        let rest : M StrategyOutcome =
          run_script env run_id alloy enc policy (w.sandbox source event) in
        let insertion : Option (Option String) → M String =
          λ found. on_runs (insert_run_with_action found run_id env.now s.id queued action) in
        ap
          (λ found.
            (insertion (lineage_of found) >>= λ _. transition env run_id queued running >> rest) st)
          there
        ∙ then_step (insertion (lineage_of (some l)))
            (λ _. transition env run_id queued running >> rest) st s1 run_id inserted
        ∙ then_step (transition env run_id queued running) (λ _. rest) s1 s2 tt started

    -- When a strategy is ready and still there when the row is inserted, the identifier is fresh, the
    -- provider can be had and the script returns `noop`, the run answers with `noop`, hands nothing to
    -- the signer, and the table of runs, which was sound, is sound and has the run as succeeded.
    pub run_strategy_with_event-noop :
        (w : World) (policy : Option LoadedPolicy) (id : String) (event : Option Json)
        (action : Option String) (s : Strategy) (source : Text) (l : Strategy) (st : Store)
        → load_strategy id w.strategies ≡ ok s
        → resolved_source w.parse_actions s (trimmed action) ≡ ok source
        → get_by_id s.id w.strategies_at_insert ≡ some l
        → env.provider ≡ ok tt
        → w.sandbox source event ≡ ok (string (codes "noop"))
        → IsSound st.runs
        → any (has_id run_id) st.runs ≡ false
        → (s' : Store) × (run_strategy_with_event env run_id alloy enc w policy id event action st
            ≡ (ok StrategyOutcome.noop, s'))
          × (s'.sent ≡ st.sent)
          × IsIn succeeded s'
    unfolding run_strategy_with_event
    run_strategy_with_event-noop w policy id event action s source l st loaded resolved there
          provided answered sound fresh =
        let (s1, inserted, kept1, in1) =
          insert-IsIn (some l.lineage_id) s.id (trimmed action) st sound fresh in
        let (s2, started, kept2, in2) = transition-IsIn queued running s1 refl in1 in
        let (s3, ended, kept3, in3) = finish_noop policy s2 in2 in
        (
          s3,
          ap (λ found. with_strategy env run_id alloy enc w policy event (trimmed action) found st)
                loaded
              ∙ ap
                  (λ found.
                    with_source env run_id alloy enc w policy event (trimmed action) s found st)
                  resolved
              ∙ start_run-steps w policy event (trimmed action) s source l st s1 s2 there inserted
                  started
              ∙ run_script-noop policy (w.sandbox source event) s2 (ok StrategyOutcome.noop, s3)
                  provided answered ended,
          kept3 ∙ kept2 ∙ kept1,
          in3,
        )
