-- ===== src/Pipeline/Start/Tool.antt =====
-- crates/executor-mcp/src/tools.rs: `strategy_run`, the call of the tool around a run.
use onchain_strategy_mcp.Prelude.{
  ℕ, String, Bool, true, false, ◌&&◌, ◌||◌, Option, none, some, List, [], ◌∷◌, ◌≡◌, refl, sym, ap,
  ◌∙◌, arith, if◌then◌else◌, nat_beq, leb, all, any, string_eq, unwrap_or, Bool-cases, inl, inr,
  is_some, subst,
}
use mathlib.Core.Bool.{false≢true}
use Prim.Native.String.{len}
use text.Mathlib.TextEquality.{eq_iff}
use onchain_strategy_mcp.Prelude.Text.{Text, codes, is_ascii_digit}
use onchain_strategy_mcp.Prelude.Json.{Json}
use onchain_strategy_mcp.Prelude.Result.{Result, ok, err}
use onchain_strategy_mcp.Alloy.{Alloy}
use onchain_strategy_mcp.Policy.Model.{LoadedPolicy}
use onchain_strategy_mcp.Evm.Validate.{EvmError}
use onchain_strategy_mcp.State.Error.{RunStatus, succeeded, StateError}
use onchain_strategy_mcp.State.Status.{status_to_wire}
use onchain_strategy_mcp.State.Table.{find, any-find}
use onchain_strategy_mcp.State.Runs.{Runs, Run, RunRow, has_id, has_id_status, typed_row, get_run}
use onchain_strategy_mcp.State.Runs.Transitions.{UniqueIds}
use onchain_strategy_mcp.State.Runs.Life.{IsSound, get_run-find}
use onchain_strategy_mcp.Pipeline.Types.{
  StrategyOutcome, Store, Env, McpError, state, invalid_strategy_id, run_row_vanished, M, throw,
  ◌>>=◌,
}
use onchain_strategy_mcp.Pipeline.Filed.Execution.{Answered}
use onchain_strategy_mcp.Pipeline.Start.{World, run_strategy_with_event}
use onchain_strategy_mcp.Pipeline.Start.Answered.{run_strategy_with_event-Answered}
use onchain_strategy_mcp.Pipeline.Start.Calls.{run_strategy_with_event-runs}

pub record StrategyRunResponse : Type 0 where
  pub run_id : String
  pub strategy_id : String
  pub status : RunStatus
  pub started_at : String
  pub finished_at : String
  pub outcome : StrategyOutcome

-- validation.rs; which of the two complaints an identifier gets is left out.
unfoldable pub validate_strategy_id_format : String → Bool
validate_strategy_id_format id =
    nat_beq (len id) 64 && all (λ c. is_ascii_digit c || (leb 97 c && leb c 102)) (codes id)

abbrev pub response_of : StrategyOutcome → Run → StrategyRunResponse
response_of outcome r = record {
  run_id = r.id;
  strategy_id = r.strategy_id;
  status = r.status;
  started_at = r.started_at;
  finished_at = unwrap_or r.finished_at "";
  outcome = outcome;
}

abbrev pub response :
    StrategyOutcome → Result StateError (Option Run) → Result McpError StrategyRunResponse
response outcome (err e) = err (state e)
response outcome (ok none) = err run_row_vanished
response outcome (ok (some r)) = ok (response_of outcome r)

module _ (env : Env) (run_id : String) (alloy : Alloy)
    (enc : Text → Text → List Json → Result EvmError (List ℕ)) (w : World)
    (policy : Option LoadedPolicy) where
  -- The row of the run is read again.
  abbrev pub respond : StrategyOutcome → M StrategyRunResponse
  respond outcome s = (response outcome (get_run run_id s.runs), s)

  unfoldable pub strategy_run : String → Option String → M StrategyRunResponse
  strategy_run id action =
      if validate_strategy_id_format id
      then run_strategy_with_event env run_id alloy enc w policy id none action >>= respond
      else throw invalid_strategy_id

has_id_status-find :
    (id : String) (s : RunStatus) (t : Runs)
    → UniqueIds t
    → any (has_id_status id s) t ≡ true
    → (r : RunRow) × (find (has_id id) t ≡ some r) × (r.id ≡ id) × (r.status ≡ status_to_wire s)
has_id_status-find id s [] u h = cc h
has_id_status-find id s (r ∷ t) u h = elim (Bool-cases (has_id_status id s r)) [
  | inl hit ↦ (
    r,
    ground (arith, hit),
    ground (arith, hit, eq_iff r.id id),
    ground (arith, hit, eq_iff r.status (status_to_wire s)),
  )
  | inr miss ↦
      let (x, found, own, stored) = has_id_status-find id s t u.1 (rw miss at h) in
      elim (Bool-cases (has_id id r)) [
        | inr other ↦ (x, rw other found, own, stored)
        | inl same ↦
            let twice : any (has_id id) t ≡ true =
              sym (any-find (has_id id) t) ∙ ap is_some found in
            let once : any (has_id id) t ≡ false =
              subst (λ j. any (has_id j) t ≡ false) ((eq_iff r.id id).0 same) u.0 in
            absurd (false≢true (sym once ∙ twice))
      ]
]

get_run-stored :
    (id : String) (s : RunStatus) (t : Runs)
    → UniqueIds t
    → any (has_id_status id s) t ≡ true
    → (r : Run) × (get_run id t ≡ ok (some r)) × (r.id ≡ id) × (r.status ≡ s)
get_run-stored id s t u h =
    let (r, found, own, stored) = has_id_status-find id s t u h in
    (typed_row r s, get_run-find id t r s found stored, own, refl)

-- On a sound table of runs, when the run behind a call of the tool answers with an outcome, the call
-- answers with that outcome, the identifier of the run and the status succeeded; the row is never
-- missing.
pub strategy_run-answers :
    (env : Env) (run_id : String) (alloy : Alloy)
    (enc : Text → Text → List Json → Result EvmError (List ℕ)) (w : World)
    (policy : Option LoadedPolicy) (id : String) (action : Option String) (st : Store)
    (outcome : StrategyOutcome)
    → IsSound st.runs
    → validate_strategy_id_format id ≡ true
    → (run_strategy_with_event env run_id alloy enc w policy id none action st).0 ≡ ok outcome
    → (r : StrategyRunResponse) × ((strategy_run env run_id alloy enc w policy id action st).0
        ≡ ok r)
      × (r.run_id ≡ run_id)
      × (r.status ≡ succeeded)
      × (r.outcome ≡ outcome)
unfolding strategy_run
strategy_run-answers env run_id alloy enc w policy id action st outcome sound valid answered =
    rw valid (
      go (run_strategy_with_event env run_id alloy enc w policy id none action st) answered
        (run_strategy_with_event-Answered env run_id alloy enc w policy id none action st)
        (run_strategy_with_event-runs env run_id alloy enc w policy id none action st sound).0)
  where
    go :
        (out : Result McpError StrategyOutcome × Store)
        → out.0 ≡ ok outcome
        → Answered env run_id out
        → IsSound out.1.runs
        → (r : StrategyRunResponse) × ((elim out.0
              as (λ _. Result McpError StrategyRunResponse × Store) [
                | ok o ↦ respond env run_id alloy enc w policy o out.1
                | err e ↦ (err e, out.1)
              ]).0
            ≡ ok r)
          × (r.run_id ≡ run_id)
          × (r.status ≡ succeeded)
          × (r.outcome ≡ outcome)
    go (ok o, s) e h valid_table =
        let (r, read, own, status) = get_run-stored run_id succeeded s.runs valid_table.0 h in
        (response_of o r, rw read refl, own, status, cc e)
    go (err x, s) e h valid_table = cc e
