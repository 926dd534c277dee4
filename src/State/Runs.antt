-- ===== src/State/Runs.antt =====
-- crates/executor-state/src/runs.rs: the `runs` table. The identifier that `Ulid::new()` mints and
-- the time that `now_rfc3339()` reads are arguments. Of the strategy a run belongs to, the functions
-- read whether its row exists and its lineage: `lineage` is that lookup (`none`: no such row), and a
-- run of an unknown strategy is refused by the foreign key.
pub mod Transitions
pub mod Life
use onchain_strategy_mcp.Prelude.{
  ℕ, String, Bool, true, false, not, ◌&&◌, Option, none, some, List, [], ◌∷◌, ◌++◌, ◌≡◌, refl, ◌==◌,
  string_eq, nat_eq, nat_beq, if◌then◌else◌, any, is_some, ◌||◌,
}
use onchain_strategy_mcp.Prelude.Result.{Result, ok, err, collect}
use onchain_strategy_mcp.State.Table.{find, filter, count, update}
use onchain_strategy_mcp.State.Error.{
  RunStatus, StateError, storage, not_found, invalid_input, unknown_run_status, primary_key,
  foreign_key, run, reserved_status, reserved_transition, terminal_state, not_in_expected_state,
  Call,
}
use onchain_strategy_mcp.State.Status.{
  phase5_emittable, is_terminal_status, status_to_wire, status_from_wire,
}

-- A row of the table; the status is stored in its wire form.
pub record RunRow : Type 0 where
  pub id : String
  pub strategy_id : String
  pub status : String
  pub started_at : String
  pub finished_at : Option String
  pub error : Option String
  pub strategy_lineage_id : Option String
  pub action : Option String

-- `Run`: the row as the code sees it.
pub record Run : Type 0 where
  pub id : String
  pub strategy_id : String
  pub status : RunStatus
  pub started_at : String
  pub finished_at : Option String
  pub error : Option String
  pub strategy_lineage_id : Option String
  pub action : Option String

abbrev pub Runs : Type 0
Runs = List RunRow

abbrev pub has_id : String → RunRow → Bool
has_id id r = r.id == id

-- `WHERE id = ? AND status = ?`
abbrev pub has_id_status : String → RunStatus → RunRow → Bool
has_id_status id s r = r.id == id && r.status == status_to_wire s

-- The INSERT, with the primary key and the foreign key that the schema declares.
abbrev insert_row : Option (Option String) → RunRow → Call Runs String
insert_row lineage r t =
    if any (has_id r.id) t then (err (storage primary_key), t) else elim lineage [
      | none ↦ (err (storage foreign_key), t)
      | some l ↦ (ok r.id, t ++ record r { strategy_lineage_id = l } ∷ [])
    ]

abbrev pub new_row : String → String → String → RunStatus → Option String → RunRow
new_row id now strategy_id status action = record {
  id = id;
  strategy_id = strategy_id;
  status = status_to_wire status;
  started_at = now;
  finished_at = none;
  error = none;
  strategy_lineage_id = none;
  action = action;
}

unfoldable pub insert_run_with_action :
    Option (Option String) → String → String → String → RunStatus → Option String → Call Runs String
insert_run_with_action lineage id now strategy_id status action t =
    if not (phase5_emittable status)
    then (err (invalid_input (reserved_status status)), t)
    else insert_row lineage (new_row id now strategy_id status action) t

unfoldable pub insert_run :
    Option (Option String) → String → String → String → RunStatus → Call Runs String
unfolding insert_run_with_action
insert_run lineage id now strategy_id status =
    insert_run_with_action lineage id now strategy_id status none

-- The insert that the tests of the crate use, with the start that they choose.
unfoldable pub insert_run_with_started_at :
    Option (Option String) → String → String → RunStatus → String → Call Runs String
unfolding insert_run_with_action
insert_run_with_started_at lineage id strategy_id status started_at =
    insert_run_with_action lineage id started_at strategy_id status none

-- `is_terminal_status(to).then(now_rfc3339)`
abbrev pub finish_time : RunStatus → String → Option String
finish_time s now = if is_terminal_status s then some now else none

-- `COALESCE(?, finished_at)`
abbrev pub coalesce : Option String → Option String → Option String
coalesce none old = old
coalesce (some x) old = some x

-- The SET clause of both status updates.
abbrev pub set_status : RunStatus → String → RunRow → RunRow
set_status s now r = record r {
  status = status_to_wire s;
  finished_at = coalesce (finish_time s now) r.finished_at;
}

-- The deprecated update, with no guard on the present status.
unfoldable pub update_run_status : String → String → RunStatus → Call Runs (Unit {0})
update_run_status now run_id status t =
    if not (phase5_emittable status) then (err (invalid_input (reserved_status status)), t) else (
      if count (has_id run_id) t == 0 then err (not_found (run run_id)) else ok tt,
      update (has_id run_id) (set_status status now) t,
    )

unfoldable pub update_run_status_with_transition :
    String → String → RunStatus → RunStatus → Call Runs (Unit {0})
update_run_status_with_transition now run_id from to t =
    if not (phase5_emittable from) || not (phase5_emittable to)
    then (err (invalid_input (reserved_transition from to)), t)
    else if is_terminal_status from
    then (err (invalid_input (terminal_state run_id from to)), t)
    else let t' = update (has_id_status run_id from) (set_status to now) t in
      (
        if count (has_id_status run_id from) t == 0
            then (if is_some (find (has_id run_id) t')
                then err (invalid_input (not_in_expected_state run_id from))
                else err (not_found (run run_id)))
            else ok tt,
        t',
      )

abbrev pub typed_row : RunRow → RunStatus → Run
typed_row r s = record {
  id = r.id;
  strategy_id = r.strategy_id;
  status = s;
  started_at = r.started_at;
  finished_at = r.finished_at;
  error = r.error;
  strategy_lineage_id = r.strategy_lineage_id;
  action = r.action;
}

unfoldable pub map_run : RunRow → Result StateError Run
map_run r = elim (status_from_wire r.status) [ err e ↦ err e | ok s ↦ ok (typed_row r s) ]

abbrev optional_run : Option RunRow → Result StateError (Option Run)
optional_run none = ok none
optional_run (some r) = elim (map_run r) [ err e ↦ err e | ok x ↦ ok (some x) ]

unfoldable pub get_run : String → Runs → Result StateError (Option Run)
unfolding map_run
get_run run_id t = optional_run (find (has_id run_id) t)
