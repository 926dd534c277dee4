-- ===== src/Triggers.antt =====
-- crates/executor-mcp/src/triggers: the events of the triggers and the dispatcher that drains them.
-- The dispatcher holds the lock of the store only for single calls. What other holders of the lock do
-- to the tables between two of its calls is an argument, as are the sandbox's verdict on a predicate,
-- the run of a strategy, the clock and the fresh identifier. The check for duplicates and the lookup
-- of a lineage may fail, which the dispatcher answers by going on; the other statements of the store
-- fail on constraints and on unknown kinds only. A window of deduplication reaches back no further than the
-- calendar of the clock does.
pub mod Gate
pub mod Filed
pub mod Once
pub mod Pool
use onchain_strategy_mcp.Prelude.{
  ℕ, String, Bool, true, false, not, Option, none, some, List, [], ◌∷◌, ◌++◌, if◌then◌else◌, ltb,
}
use onchain_strategy_mcp.Prelude.Text.{Text}
use onchain_strategy_mcp.Prelude.Json.{Json, null}
use onchain_strategy_mcp.Prelude.Result.{Result, ok, err}
use onchain_strategy_mcp.State.Error.{StateError}
use onchain_strategy_mcp.State.Strategies.{Strategy, Strategies, get_active_for_lineage}
use onchain_strategy_mcp.State.Triggers.{Trigger, Tables, get_by_id, record_event, check_dedup}

-- One unit of work flowing from a worker to the dispatcher.
pub record TriggerEvent : Type 0 where
  pub trigger_id : String
  pub payload : Json
  pub dedup_key : Option String

-- A call of `run_strategy_with_event`.
pub record RunRequest : Type 0 where
  pub strategy_id : String
  pub event : Option Json
  pub action : Option String

-- The tables, and every call that the dispatcher has made to run a strategy.
pub record System : Type 0 where
  pub tables : Tables
  pub strategies : Strategies
  pub requests : List RunRequest

-- Where the dispatcher takes the lock.
pub data Moment : Type 0 where
  before_load before_skip before_dedup before_dedup_row before_lineage before_result : Moment

-- What the world answers while one event is handled.
pub record Answers : Type 0 where
  pub to_json : Json → Option Text
  pub evaluate_predicate : Text → Json → Result String Bool
  pub now_ms : ℕ
  pub fired_at : ℕ
  pub new_id : String
  pub server_alive : Bool
  -- The error of the check for duplicates, and of the lookup of the lineage, if they fail.
  pub dedup_error : Option StateError
  pub lineage_error : Option StateError
  pub run_strategy : RunRequest → Result String String
  pub other_tables : Moment → Tables → Tables
  pub other_strategies : Moment → Strategies → Strategies

-- An event is handled, or the loop is left.
pub data Flow : Type 0 where
  proceed stop : Flow

abbrev pub payload_json : Answers → Json → Option Text
payload_json a null = none
payload_json a (Json.bool b) = a.to_json (Json.bool b)
payload_json a (Json.number n) = a.to_json (Json.number n)
payload_json a (Json.string s) = a.to_json (Json.string s)
payload_json a (Json.array l) = a.to_json (Json.array l)
payload_json a (Json.object o) = a.to_json (Json.object o)

-- The lock is taken: others may have changed the tables since.
abbrev pub lock : Answers → Moment → System → System
lock a m s = record s {
  tables = a.other_tables m s.tables;
  strategies = a.other_strategies m s.strategies;
}

-- A row of the history; the loop drops the answer of the call.
abbrev pub file :
    Answers
    → Moment
    → TriggerEvent
    → Trigger
    → Option String
    → Option String
    → System
    → Flow × System
file a m e t run_id skipped_reason s0 =
    let s = lock a m s0 in
    let (_, db) =
      record_event a.new_id a.fired_at t.id (payload_json a e.payload) run_id e.dedup_key
        skipped_reason s.tables in
    (proceed, record s { tables = db })

abbrev pub active_id : Option Strategy → String → String
active_id none pinned = pinned
active_id (some s) pinned = s.id

-- `.ok().and_then(|r| r.ok()).flatten()`: a lookup that fails finds no version.
abbrev pub found_active : Option StateError → String → Strategies → Option Strategy
found_active none lineage strategies = get_active_for_lineage lineage strategies
found_active (some error) lineage strategies = none

-- The active version of the trigger's lineage, or the version that it was registered with.
abbrev pub target_of : Option StateError → Option String → String → Strategies → String
target_of failed none pinned strategies = pinned
target_of failed (some lineage) pinned strategies =
    active_id (found_active failed lineage strategies) pinned

abbrev pub request_of : Answers → TriggerEvent → Trigger → Strategies → RunRequest
request_of a e t strategies = record {
  strategy_id = target_of a.lineage_error t.strategy_lineage_id t.strategy_id strategies;
  event = some e.payload;
  action = none;
}

abbrev pub after_run :
    Result String String → Answers → TriggerEvent → Trigger → System → Flow × System
after_run (ok run_id) a e t s = file a before_result e t (some run_id) none s
after_run (err error) a e t s = file a before_result e t none (some "run_error") s

abbrev pub send : RunRequest → System → System
send request s = record s { requests = s.requests ++ request ∷ [] }

-- `self.server.upgrade()`: the loop is left when the server is gone.
abbrev pub run_if_alive : Bool → Answers → TriggerEvent → Trigger → System → Flow × System
run_if_alive false a e t s = (stop, s)
run_if_alive true a e t s =
    let request = request_of a e t s.strategies in
    after_run (a.run_strategy request) a e t (send request s)

abbrev pub run_target : Answers → TriggerEvent → Trigger → System → Flow × System
run_target a e t s = run_if_alive a.server_alive a e t (lock a before_lineage s)

-- `.filter(|w| *w > 0)`
abbrev pub positive : Option ℕ → Option ℕ
positive none = none
positive (some w) = if ltb 0 w then some w else none

-- What the check for duplicates answers.
abbrev pub checked : Option StateError → Bool → Result StateError Bool
checked none seen = ok seen
checked (some error) seen = err error

-- A check that fails lets the event through.
abbrev pub run_unless_seen :
    Result StateError Bool → Answers → TriggerEvent → Trigger → System → Flow × System
run_unless_seen (ok true) a e t s = file a before_dedup_row e t none (some "dedup") s
run_unless_seen (ok false) a e t s = run_target a e t s
run_unless_seen (err error) a e t s = run_target a e t s

abbrev pub dedup_gate :
    Option String → Option ℕ → Answers → TriggerEvent → Trigger → System → Flow × System
dedup_gate none window a e t s = run_target a e t s
dedup_gate (some key) none a e t s = run_target a e t s
dedup_gate (some key) (some window) a e t s0 =
    let s = lock a before_dedup s0 in
    run_unless_seen (checked a.dedup_error (check_dedup a.now_ms t.id key window s.tables)) a e t s

abbrev pub to_dedup_gate : Answers → TriggerEvent → Trigger → System → Flow × System
to_dedup_gate a e t s = dedup_gate e.dedup_key (positive t.dedup_window_ms) a e t s

abbrev pub after_predicate :
    Result String Bool → Answers → TriggerEvent → Trigger → System → Flow × System
after_predicate (ok true) a e t s = to_dedup_gate a e t s
after_predicate (ok false) a e t s = file a before_skip e t none (some "predicate_false") s
after_predicate (err error) a e t s = file a before_skip e t none (some "predicate_error") s

abbrev pub predicate_gate : Option Text → Answers → TriggerEvent → Trigger → System → Flow × System
predicate_gate none a e t s = to_dedup_gate a e t s
predicate_gate (some src) a e t s = after_predicate (a.evaluate_predicate src e.payload) a e t s

abbrev pub run_if_enabled : Bool → Answers → TriggerEvent → Trigger → System → Flow × System
run_if_enabled false a e t s = (proceed, s)
run_if_enabled true a e t s = predicate_gate t.predicate a e t s

abbrev pub after_load :
    Result StateError (Option Trigger) → Answers → TriggerEvent → System → Flow × System
after_load (err error) a e s = (proceed, s)
after_load (ok none) a e s = (proceed, s)
after_load (ok (some t)) a e s = run_if_enabled t.enabled a e t s

-- One round of the loop of `Dispatcher::run`.
unfoldable pub handle : Answers → TriggerEvent → System → Flow × System
handle a e s0 = let s = lock a before_load s0 in after_load (get_by_id e.trigger_id s.tables) a e s

-- An event of the channel, with the answers while it is handled.
pub record Arrival : Type 0 where
  pub event : TriggerEvent
  pub answers : Answers

-- `while let Some(e) = events.recv().await`, until the channel is closed.
unfoldable pub run : List Arrival → System → System
run [] s = s
run (x ∷ xs) s0 =
    let (flow, s) = handle x.answers x.event s0 in elim flow [ proceed ↦ run xs s | stop ↦ s ]
