-- ===== src/TriggerScenarios.antt =====
-- A small table of triggers and two events of one transfer, and what the theorems say of them.
use onchain_strategy_mcp.Prelude.{
  ℕ, ◌*◌, ◌≤◌, String, true, false, Option, none, some, List, [], ◌∷◌, ◌≡◌, refl, ◌⊎◌, arith,
  length, any, if◌then◌else◌, ltb, All,
}
use onchain_strategy_mcp.Prelude.Text.{Text, codes}
use onchain_strategy_mcp.Prelude.Json.{Json, field, end}
use onchain_strategy_mcp.Prelude.Canonical.{objects, swap}
use onchain_strategy_mcp.Prelude.Result.{ok}
use onchain_strategy_mcp.State.Strategies.{Strategies, Bundle, new_strategy}
use onchain_strategy_mcp.State.Triggers.{
  TriggerKind, log, interval, TriggerRow, Tables, Trigger, RegisterTriggerInput,
  TriggerRegisterOutcome, created, already_exists, register, delete_trigger, get_by_id, is_of,
  has_id, new_row, new_trigger, typed, trigger_frame, as_wire, from_wire, list_triggers,
  newest_first, check_dedup, insert_event, set_enabled,
}
use onchain_strategy_mcp.State.Triggers
use onchain_strategy_mcp.State.Triggers.Sound.{
  IsSound, Reach, here, next, deletes, records, Reach-IsSound,
}
use onchain_strategy_mcp.State.Triggers.Rows.{stored, register-again}
use onchain_strategy_mcp.State.Triggers.Framing.{trigger_frame-injective}
use onchain_strategy_mcp.Triggers.{TriggerEvent, RunRequest, System, Answers, Arrival, handle, run}
use onchain_strategy_mcp.Triggers.Pool.{Parsers, interval_worker, boot, boot_all, spawn}
use onchain_strategy_mcp.Triggers.Pool.Boot.{is_worker_of, starts, boot-running}
use onchain_strategy_mcp.Triggers.Gate.{
  MayRun, request_for, IsExecute, handle-requests, handle-starts, run-requests,
}
use onchain_strategy_mcp.Triggers.Filed.{Explains, row_of, handle-history}
use onchain_strategy_mcp.Triggers.Once.{run-once}

-- A stand-in for the printer of JSON.
abbrev print : Json → Text
print j = codes "{}"

abbrev bundle : Bundle
bundle = record {
  name = "rebalance";
  source = codes "a";
  description = none;
  tags = none;
  records_json = none;
  view_source = none;
  contracts_touched_json = none;
  actions_json = none;
}

abbrev strategies : Strategies
strategies = new_strategy bundle "s2" "lineage" "t0" ∷ []

abbrev input : RegisterTriggerInput
input = record {
  strategy_id = "s2";
  kind = log;
  config = Json.object (field (codes "a") Json.null (field (codes "b") Json.null end));
  predicate = some (codes "return true");
  dedup_window_ms = some 5000;
  note = none;
}

-- A stand-in for the hash.
abbrev digest : Text → String
digest t = if ltb (length t) 100 then "t1" else "t2"

abbrev row : TriggerRow
row = new_row input "t1" (codes "{}") (some "lineage") 100

abbrev other_row : TriggerRow
other_row = new_row (record input { kind = interval }) "t2" (codes "{}") (some "lineage") 100

abbrev empty : Tables
empty = record { triggers = []; events = [] }

abbrev tables : Tables
tables = record { triggers = row ∷ other_row ∷ []; events = [] }

tables-IsSound : IsSound tables
tables-IsSound = ((refl, (refl, tt)), tt, tt, ((log, refl), ((interval, refl), tt)))

abbrev event : TriggerEvent
event = record { trigger_id = "t1"; payload = Json.bool true; dedup_key = some "0xabc" }

abbrev answers : ℕ → String → Answers
answers now new_id = record {
  to_json = λ j. some (codes "true");
  evaluate_predicate = λ src payload. ok true;
  now_ms = now * 1000;
  fired_at = now;
  new_id = new_id;
  server_alive = true;
  dedup_error = none;
  lineage_error = none;
  run_strategy = λ request. ok "r1";
  other_tables = λ m db. db;
  other_strategies = λ m t. t;
}

abbrev first : Arrival
first = record { event = event; answers = answers 200 "e1" }

abbrev second : Arrival
second = record { event = event; answers = answers 203 "e2" }

abbrev system : System
system = record { tables = tables; strategies = strategies; requests = [] }

abbrev skipped_event : Triggers.TriggerEvent
skipped_event = record {
  id = "e0";
  trigger_id = "t2";
  event_json = none;
  fired_at = 150;
  run_id = none;
  dedup_key = none;
  skipped_reason = some "predicate_false";
}

abbrev later_tables : Tables
later_tables = (delete_trigger "t1" (insert_event skipped_event tables).1).1

reaches : Reach tables later_tables
reaches =
    next (next here (records skipped_event tables))
      (deletes "t1" (insert_event skipped_event tables).1)

Reach-IsSound_example : IsSound later_tables
Reach-IsSound_example = Reach-IsSound reaches tables-IsSound

abbrev fresh_trigger : Trigger
fresh_trigger = new_trigger input "t1" (codes "{}") (some "lineage") 100

creates : (register digest print strategies input 100 empty).0 ≡ ok (created fresh_trigger)
unfolding register get_by_id trigger_frame
creates = refl

abbrev with_note : RegisterTriggerInput
with_note = record input {
  config = Json.object (field (codes "b") Json.null (field (codes "a") Json.null end));
  note = some "watch";
  dedup_window_ms = none;
}

register-again_example :
    (get_by_id "t1" (register digest print strategies input 100 empty).1
      ≡ ok (some (stored fresh_trigger)))
    × (register digest print strategies with_note 120
          (register digest print strategies input 100 empty).1
        ≡ (
          ok (already_exists (stored fresh_trigger)),
          (register digest print strategies input 100 empty).1,
        ))
register-again_example =
    register-again digest print strategies input with_note 100 120 empty fresh_trigger creates
      (refl, refl, objects (swap (codes "a") (codes "b") Json.null Json.null end refl), refl)

abbrev tables_with_history : Tables
tables_with_history = record tables { events = skipped_event ∷ [] }

same_trigger_frames :
    trigger_frame (codes "s2") (codes (as_wire log)) (codes "{}") none
    ≡ trigger_frame (codes "s2") (codes (as_wire log)) (codes "{}") (some [])
unfolding trigger_frame
same_trigger_frames = refl

trigger_frame-injective_example :
    (codes "s2" ≡ codes "s2") × (log ≡ log) × (codes "{}" ≡ codes "{}") × (◌≡◌ {A = Text} [] [])
trigger_frame-injective_example =
    trigger_frame-injective (codes "s2") (codes "s2") log log (codes "{}") (codes "{}") none
      (some []) refl refl refl refl same_trigger_frames

abbrev loaded : Trigger
loaded = typed row log

reads : get_by_id "t1" tables ≡ ok (some loaded)
unfolding get_by_id from_wire
reads = refl

unseen : check_dedup 200000 "t1" "0xabc" 5000 tables ≡ false
unfolding check_dedup
unseen = refl

handle-requests_example :
    ((handle (answers 200 "e1") event system).1.requests ≡ [])
    ⊎ ((t : Trigger) × MayRun (answers 200 "e1") event t system
        × ((handle (answers 200 "e1") event system).1.requests
            ≡ request_for (answers 200 "e1") event t system ∷ []))
handle-requests_example = handle-requests (answers 200 "e1") event system

handle-starts_example :
    (handle (answers 200 "e1") event system).1.requests
    ≡ record { strategy_id = "s2"; event = some (Json.bool true); action = none } ∷ []
handle-starts_example =
    handle-starts (answers 200 "e1") event loaded system (reads, refl, refl, unseen, refl)

run-requests_example :
    (rs : List RunRequest) × ((run (first ∷ second ∷ []) system).requests ≡ rs)
    × All (IsExecute (first ∷ second ∷ [])) rs
    × (length rs ≤ 2)
run-requests_example = run-requests (first ∷ second ∷ []) system

handle-history_example :
    (((handle (answers 200 "e1") event system).1.tables ≡ tables)
      × ((handle (answers 200 "e1") event system).1.requests ≡ []))
    ⊎ ((t : Trigger) × (run_id : Option String) × (reason : Option String) × (t.id ≡ "t1")
        × ((handle (answers 200 "e1") event system).1.tables.events
            ≡ row_of (answers 200 "e1") event t run_id reason ∷ [])
        × Explains
            (answers 200 "e1")
            []
            (handle (answers 200 "e1") event system).1.requests
            run_id
            reason)
handle-history_example = handle-history (answers 200 "e1") event system (λ m db. refl) refl

run-once_example : length (run (first ∷ second ∷ []) system).requests ≤ 1
run-once_example =
    run-once "t1" "0xabc" 5000 200 (omega arith) (first ∷ second ∷ []) system (row, refl, refl)
      (
        ((λ m db. refl), refl, refl, omega arith, omega arith, refl),
        (((λ m db. refl), refl, refl, omega arith, omega arith, refl), tt),
      )
      ((refl, (refl, tt)), (refl, (refl, tt)))

-- The second event is kept as a duplicate of the first.
runs_once :
    (run (first ∷ second ∷ []) system).requests
    ≡ record { strategy_id = "s2"; event = some (Json.bool true); action = none } ∷ []
unfolding run handle get_by_id from_wire check_dedup insert_event
runs_once = refl

-- A configuration that asks for a tick each minute, and for no address and no topic.
abbrev parsers : Parsers
parsers = record {
  from_str =
      λ t. some (Json.object (field (codes "interval_ms") (Json.number (codes "60000")) end));
  as_u64 = λ t. some 60000;
  parse_address = λ t. none;
  parse_hash = λ t. none;
}

boot-running_example :
    any (is_worker_of "t2") (boot parsers none tables) ≡ starts parsers none (get_by_id "t2" tables)
boot-running_example = boot-running parsers none tables "t2" tables-IsSound

-- The interval trigger has a worker; the log trigger has no socket.
boots : boot parsers none tables ≡ interval_worker "t2" 60000 ∷ []
unfolding boot boot_all spawn list_triggers newest_first get_by_id from_wire
boots = refl
