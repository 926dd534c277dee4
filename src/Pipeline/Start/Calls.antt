-- ===== src/Pipeline/Start/Calls.antt =====
-- A run and the table of runs: the calls that it makes on the table, and what follows for the rows.
use onchain_strategy_mcp.Prelude.{
  ℕ, String, Option, none, some, List, [], ◌∷◌, ◌++◌, ◌≡◌, ◌≢◌, refl, sym, ap, ◌∙◌, arith, All,
  All-append, ◌==◌, string_eq, false, inl, inr, Option-cases,
}
use text.Mathlib.TextEquality.{eq_iff}
use onchain_strategy_mcp.Prelude.Text.{Text}
use onchain_strategy_mcp.Prelude.Json.{Json}
use onchain_strategy_mcp.Prelude.Result.{Result}
use onchain_strategy_mcp.Alloy.{Alloy}
use onchain_strategy_mcp.Policy.Model.{LoadedPolicy}
use onchain_strategy_mcp.Evm.Validate.{EvmError}
use onchain_strategy_mcp.State.Error.{RunStatus, StateError, queued}
use onchain_strategy_mcp.State.Executions.{Executions}
use onchain_strategy_mcp.State.Runs.{
  Runs, has_id, new_row, insert_run_with_action, update_run_status_with_transition,
}
use onchain_strategy_mcp.State.Table.{find, find-append}
use onchain_strategy_mcp.State.Runs.Transitions.{transition-find, transition-find-none}
use onchain_strategy_mcp.State.Runs.Life.{
  RunCall, insert, transition as change, perform, perform_all, perform_all-IsSound, IsSound,
}
use onchain_strategy_mcp.Pipeline.Types.{Store, Env, M}
use onchain_strategy_mcp.Pipeline.Journal.{
  on_runs, on_executions, transition, record_decision_row, record_gate_action_outcome,
  record_execution_broadcast, record_execution_receipt_success, record_error,
}
use onchain_strategy_mcp.Pipeline.Closed.{Closed, bind-related}
use onchain_strategy_mcp.Pipeline.Start.{World, run_strategy_with_event}
use onchain_strategy_mcp.Pipeline.Start.Whole.{run_strategy_with_event-Closed}

-- A call that concerns the run alone.
abbrev pub IsOwn : String → RunCall → Type 0
IsOwn run_id (insert lineage id now sid status action) = id ≡ run_id
IsOwn run_id (change now id from to) = id ≡ run_id

-- The table is what a list of calls of its own makes of it.
abbrev pub Performed : String → Runs → Runs → Type 0
Performed run_id t t' = (cs : List RunCall) × All (IsOwn run_id) cs × (t' ≡ perform_all cs t)

abbrev pub Performs : String → (A : Type 0) → M A → Type 0
Performs run_id A m = (s : Store) → Performed run_id s.runs (m s).1.runs

perform_all-append :
    (cs ds : List RunCall) (t : Runs) → perform_all (cs ++ ds) t ≡ perform_all ds (perform_all cs t)
unfolding perform_all
perform_all-append [] ds t = refl
perform_all-append (c ∷ cs) ds t = perform_all-append cs ds (perform c t)

module _ (run_id : String) where
  same-Performed : (t t' : Runs) → t' ≡ t → Performed run_id t t'
  unfolding perform_all
  same-Performed t t' e = ([], tt, e)

  one-Performed : (t : Runs) (c : RunCall) → IsOwn run_id c → Performed run_id t (perform c t)
  unfolding perform_all
  one-Performed t c own = (c ∷ [], (own, tt), refl)

  then-Performed :
      (t u v : Runs) → Performed run_id t u → Performed run_id u v → Performed run_id t v
  then-Performed t u v (cs, own, e) (ds, also, f) = (
    cs ++ ds,
    All-append (IsOwn run_id) cs ds own also,
    f ∙ ap (perform_all ds) e ∙ sym (perform_all-append cs ds t),
  )

  on_executions-Performs :
      {A : Type 0} (f : Executions → Result StateError A × Executions)
      → Performs run_id (Unit {0}) (on_executions f)
  on_executions-Performs f s = same-Performed s.runs _ (ground arith)

  module _ (env : Env) where
    transition-runs :
        (from to : RunStatus) (s : Store)
        → (transition env run_id from to s).1.runs ≡ perform (change env.now run_id from to) s.runs
    unfolding transition
    transition-runs from to s = ground arith

    insert-runs :
        (lineage : Option (Option String)) (sid : String) (action : Option String) (s : Store)
        → (on_runs (insert_run_with_action lineage run_id env.now sid queued action) s).1.runs
          ≡ perform (insert lineage run_id env.now sid queued action) s.runs
    insert-runs lineage sid action s = ground arith

    pub Performs-Closed : Closed env run_id (Performs run_id)
    unfolding record_decision_row record_gate_action_outcome record_execution_broadcast
        record_execution_receipt_success record_error
    Performs-Closed = record {
      bind =
          bind-related (λ s t. Performed run_id s.runs t.runs)
            (λ s t u. then-Performed s.runs t.runs u.runs);
      pure_step = λ a s. same-Performed s.runs s.runs refl;
      throw_step = λ A e s. same-Performed s.runs s.runs refl;
      transition_step = λ from to s.
          rw (transition-runs from to s)
            (one-Performed s.runs (change env.now run_id from to) refl);
      decision_step = λ idx g v r d p s. same-Performed s.runs s.runs refl;
      outcome_step = λ o p s. same-Performed s.runs s.runs refl;
      broadcast_step = λ idx signer hash. on_executions-Performs _;
      receipt_step = λ idx status gas. on_executions-Performs _;
      error_step = λ idx signer kind detail. on_executions-Performs _;
    }

module _ (env : Env) (run_id : String) (alloy : Alloy)
    (enc : Text → Text → List Json → Result EvmError (List ℕ)) (w : World)
    (policy : Option LoadedPolicy) (id : String) (event : Option Json)
    (action : Option String) where
  -- A run changes the table of runs by inserts and guarded status changes of its own identifier alone,
  -- however it ends.
  pub run_strategy_with_event-Performs :
      (st : Store)
      → Performed run_id st.runs
          (run_strategy_with_event env run_id alloy enc w policy id event action st).1.runs
  run_strategy_with_event-Performs =
      run_strategy_with_event-Closed (Performs-Closed run_id env) alloy enc
        (λ x s. same-Performed run_id s.runs s.runs refl)
        (λ lineage sid act s.
          rw (insert-runs run_id env lineage sid act s)
            (one-Performed run_id s.runs (insert lineage run_id env.now sid queued act) refl))
        w policy event id action

insert-others :
    (lineage : Option (Option String)) (id now sid j : String) (s : RunStatus)
    (action : Option String) (t : Runs)
    → (id == j) ≡ false
    → find (has_id j) (insert_run_with_action lineage id now sid s action t).1 ≡ find (has_id j) t
unfolding insert_run_with_action
insert-others none id now sid j s action t h = ground arith
insert-others (some l) id now sid j s action t h = ground (
  arith,
  find-append (has_id j) t (record (new_row id now sid s action) { strategy_lineage_id = l } ∷ []),
)

change-others :
    (now id j : String) (from to : RunStatus) (t : Runs)
    → (id == j) ≡ false
    → find (has_id j) (update_run_status_with_transition now id from to t).1 ≡ find (has_id j) t
change-others now id j from to t h = elim (Option-cases (find (has_id j) t)) [
  | inl missing ↦ transition-find-none now id j from to t missing ∙ sym missing
  | inr (r, found) ↦ transition-find now id j from to t r found ∙ (rw (h, found) (ground arith))
]

perform_all-others :
    (run_id j : String) (cs : List RunCall) (t : Runs)
    → run_id ≢ j
    → All (IsOwn run_id) cs
    → find (has_id j) (perform_all cs t) ≡ find (has_id j) t
unfolding perform_all
perform_all-others run_id j [] t h own = refl
perform_all-others run_id j (insert lineage id now sid s action ∷ cs) t h (same, own) =
    perform_all-others run_id j cs _ h own
    ∙ insert-others lineage id now sid j s action t (ground (arith, same, h, eq_iff id j))
perform_all-others run_id j (change now id from to ∷ cs) t h (same, own) =
    perform_all-others run_id j cs _ h own
    ∙ change-others now id j from to t (ground (arith, same, h, eq_iff id j))

-- However a run ends, it leaves the rows of all other runs as they were, and a sound table of runs
-- sound.
pub run_strategy_with_event-runs :
    (env : Env) (run_id : String) (alloy : Alloy)
    (enc : Text → Text → List Json → Result EvmError (List ℕ)) (w : World)
    (policy : Option LoadedPolicy) (id : String) (event : Option Json) (action : Option String)
    (st : Store)
    → IsSound st.runs
    → let t = (run_strategy_with_event env run_id alloy enc w policy id event action st).1.runs in
      IsSound t × ((j : String) → run_id ≢ j → find (has_id j) t ≡ find (has_id j) st.runs)
run_strategy_with_event-runs env run_id alloy enc w policy id event action st sound =
    let (cs, own, same) =
      run_strategy_with_event-Performs env run_id alloy enc w policy id event action st in
    rw same (
      perform_all-IsSound cs st.runs sound,
      λ j other. perform_all-others run_id j cs st.runs other own,
    )
