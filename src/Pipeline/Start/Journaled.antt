-- ===== src/Pipeline/Start/Journaled.antt =====
-- A run and the journal: the rows of decisions and outcomes that it adds.
use onchain_strategy_mcp.Prelude.{
  append_assoc, ℕ, ◌<◌, ◌≤◌, String, Option, List, [], ◌∷◌, ◌++◌, ◌≡◌, refl, sym, ap, ◌∙◌, arith,
  All, All-append, string_eq,
}
use mathlib.Core.List.{append-nil}
use text.Mathlib.TextEquality.{eq_iff}
use onchain_strategy_mcp.Prelude.Text.{Text}
use onchain_strategy_mcp.Prelude.Json.{Json}
use onchain_strategy_mcp.Prelude.Result.{Result}
use onchain_strategy_mcp.Alloy.{Alloy}
use onchain_strategy_mcp.Policy.Model.{LoadedPolicy}
use onchain_strategy_mcp.Evm.Validate.{EvmError}
use onchain_strategy_mcp.State.Error.{StateError}
use onchain_strategy_mcp.State.Executions.{Executions}
use onchain_strategy_mcp.State.Runs.{Runs}
use onchain_strategy_mcp.Pipeline.Types.{DecisionEntry, ActionEntry, Store, Env, M}
use onchain_strategy_mcp.Pipeline.Journal.{
  next_decision_seq, on_runs, on_executions, transition, record_decision_row,
  record_gate_action_outcome, record_execution_broadcast, record_execution_receipt_success,
  record_error,
}
use onchain_strategy_mcp.Pipeline.Execute.{send}
use onchain_strategy_mcp.Pipeline.Closed.{Closed, bind-related}
use onchain_strategy_mcp.Pipeline.Start.{World, run_strategy_with_event}
use onchain_strategy_mcp.Pipeline.Start.Whole.{run_strategy_with_event-Closed}

-- The rows of the run among the list have numbers below.
abbrev pub AllBelow : String → ℕ → List DecisionEntry → Type 0
AllBelow run_id n ds = All (λ d. d.run_id ≡ run_id → d.seq < n) ds

-- Rows of the run, each with a number above those of all rows of the run before it.
abbrev pub Follows : String → List DecisionEntry → List DecisionEntry → Type 0
Follows run_id ds [] = Unit
Follows run_id ds (x ∷ xs) =
    (x.run_id ≡ run_id) × AllBelow run_id x.seq ds × Follows run_id (ds ++ x ∷ []) xs

-- The journal has grown at its end, by rows of the run.
abbrev pub Journaled : String → Store → Store → Type 0
Journaled run_id s s' =
    (xs : List DecisionEntry) × (ys : List ActionEntry) × (s'.decisions ≡ s.decisions ++ xs)
    × Follows run_id s.decisions xs
    × (s'.outcomes ≡ s.outcomes ++ ys)
    × All (λ y. y.run_id ≡ run_id) ys

module _ (run_id : String) where
  next-AllBelow :
      (ds : List DecisionEntry) (n : ℕ) → next_decision_seq run_id ds ≤ n → AllBelow run_id n ds
  unfolding next_decision_seq
  next-AllBelow [] n h = tt
  next-AllBelow (d ∷ ds) n h = (
    λ own. ground (arith, h, own, eq_iff d.run_id run_id),
    next-AllBelow ds n (ground (arith, h)),
  )

  Follows-append :
      (ds xs ys : List DecisionEntry)
      → Follows run_id ds xs
      → Follows run_id (ds ++ xs) ys
      → Follows run_id ds (xs ++ ys)
  Follows-append ds [] ys h k = rw (append-nil ds) at k
  Follows-append ds (x ∷ xs) ys (own, above, h) k =
      (own, above, Follows-append (ds ++ x ∷ []) xs ys h (rw (append_assoc ds (x ∷ []) xs) k))

  same-Journaled :
      (s s' : Store) → s'.decisions ≡ s.decisions → s'.outcomes ≡ s.outcomes → Journaled run_id s s'
  same-Journaled s s' d o = ([], [], rw append-nil d, tt, rw append-nil o, tt)

  then-Journaled :
      (s t u : Store) → Journaled run_id s t → Journaled run_id t u → Journaled run_id s u
  then-Journaled s t u (xs, ys, d, follows, o, own) (xs', ys', d', follows', o', own') = (
    xs ++ xs',
    ys ++ ys',
    d' ∙ ap (λ l. l ++ xs') d ∙ append_assoc s.decisions xs xs',
    Follows-append s.decisions xs xs' follows (rw d at follows'),
    o' ∙ ap (λ l. l ++ ys') o ∙ append_assoc s.outcomes ys ys',
    All-append (λ y. y.run_id ≡ run_id) ys ys' own own',
  )

  abbrev pub Journals : (A : Type 0) → M A → Type 0
  Journals A m = (s : Store) → Journaled run_id s (m s).1

  on_runs-Journals : {A : Type 0} (f : Runs → Result StateError A × Runs) → Journals A (on_runs f)
  on_runs-Journals f s = same-Journaled s (on_runs f s).1 (ground arith) (ground arith)

  on_executions-Journals :
      {A : Type 0} (f : Executions → Result StateError A × Executions)
      → Journals (Unit {0}) (on_executions f)
  on_executions-Journals f s = same-Journaled s (on_executions f s).1 (ground arith) (ground arith)

  pub Journals-Closed : (env : Env) → Closed env run_id Journals
  unfolding transition record_decision_row record_gate_action_outcome record_execution_broadcast
      record_execution_receipt_success record_error
  Journals-Closed env = record {
    bind = bind-related (Journaled run_id) then-Journaled;
    pure_step = λ a s. same-Journaled s s refl refl;
    throw_step = λ A e s. same-Journaled s s refl refl;
    transition_step = λ from to. on_runs-Journals _;
    decision_step = λ idx g v r d p s. (
      _,
      [],
      refl,
      (refl, next-AllBelow s.decisions _ (omega arith), tt),
      sym (append-nil s.outcomes),
      tt,
    );
    outcome_step = λ o p s. ([], _, sym (append-nil s.decisions), tt, refl, (refl, tt));
    broadcast_step = λ idx signer hash. on_executions-Journals _;
    receipt_step = λ idx status gas. on_executions-Journals _;
    error_step = λ idx signer kind detail. on_executions-Journals _;
  }

module _ (env : Env) (run_id : String) (alloy : Alloy)
    (enc : Text → Text → List Json → Result EvmError (List ℕ)) (w : World)
    (policy : Option LoadedPolicy) (id : String) (event : Option Json)
    (action : Option String) where
  -- However a run ends, the journal is what it was with rows of this run at its end, and every decision
  -- row that is added has a number above those of all decision rows of the run before it.
  pub run_strategy_with_event-Journaled :
      (st : Store)
      → Journaled run_id st
          (run_strategy_with_event env run_id alloy enc w policy id event action st).1
  run_strategy_with_event-Journaled =
      run_strategy_with_event-Closed (Journals-Closed run_id env) alloy enc
        (λ x s. same-Journaled run_id s (send env run_id x s).1 refl refl)
        (λ lineage sid act. on_runs-Journals run_id _) w policy event id action
