-- ===== src/State/Triggers.antt =====
-- crates/executor-state/src/triggers.rs with the types of crates/executor-core/src/schema/trigger.rs:
-- the tables `triggers` and `trigger_events`. The hash function and the printer of JSON are
-- parameters; the identifier and the time that a call mints are arguments. A time is its number of
-- seconds, which is the order of the RFC 3339 texts that the tables keep. A window of deduplication
-- is kept as the 64 bits of its column, a signed integer.
pub mod Sound
pub mod Framing
pub mod Rows
pub mod Recent
use onchain_strategy_mcp.Prelude.{
  ℕ, ◌+◌, ◌-◌, ◌*◌, ◌/◌, ◌%◌, ◌^◌, String, Bool, true, false, not, ◌&&◌, Option, none, some, List,
  [], ◌∷◌, ◌++◌, ◌==◌, string_eq, nat_eq, if◌then◌else◌, any, is_some, ltb, leb, unwrap_or,
}
use onchain_strategy_mcp.Prelude.Text.{Text, codes}
use onchain_strategy_mcp.Prelude.Json.{Json}
use onchain_strategy_mcp.Prelude.Canonical.{canonicalize}
use onchain_strategy_mcp.Prelude.Result.{Result, ok, err, collect}
use onchain_strategy_mcp.State.Table.{find, filter, count, update, delete}
use onchain_strategy_mcp.State.Error.{
  StateError, storage, not_found, unknown_trigger_kind, primary_key, foreign_key, strategy, trigger,
  Call,
}
use onchain_strategy_mcp.State.Strategies.{Strategy, Strategies}
use onchain_strategy_mcp.State.Strategies

pub data TriggerKind : Type 0 where
  manual interval block log mempool webhook : TriggerKind

abbrev pub as_wire : TriggerKind → String
as_wire manual = "manual"
as_wire interval = "interval"
as_wire block = "block"
as_wire log = "log"
as_wire mempool = "mempool"
as_wire webhook = "webhook"

unfoldable pub from_wire : String → Option TriggerKind
from_wire s =
    if s == "manual"
    then some manual
    else if s == "interval"
    then some interval
    else if s == "block"
    then some block
    else if s == "log"
    then some log
    else if s == "mempool"
    then some mempool
    else if s == "webhook"
    then some webhook
    else none

pub record RegisterTriggerInput : Type 0 where
  pub strategy_id : String
  pub kind : TriggerKind
  pub config : Json
  pub predicate : Option Text
  pub dedup_window_ms : Option ℕ
  pub note : Option String

-- A row of the table, and the value that it is read as.
pub record TriggerRow : Type 0 where
  pub id : String
  pub strategy_id : String
  pub kind : String
  pub config_json : Text
  pub predicate_js : Option Text
  pub enabled : Bool
  pub last_fired_at : Option ℕ
  pub created_at : ℕ
  pub dedup_window_bits : Option ℕ
  pub note : Option String
  pub strategy_lineage_id : Option String

pub record Trigger : Type 0 where
  pub id : String
  pub strategy_id : String
  pub kind : TriggerKind
  pub config_json : Text
  pub predicate : Option Text
  pub enabled : Bool
  pub last_fired_at : Option ℕ
  pub created_at : ℕ
  pub dedup_window_ms : Option ℕ
  pub note : Option String
  pub strategy_lineage_id : Option String

pub record TriggerEvent : Type 0 where
  pub id : String
  pub trigger_id : String
  pub event_json : Option Text
  pub fired_at : ℕ
  pub run_id : Option String
  pub dedup_key : Option String
  pub skipped_reason : Option String

pub record Tables : Type 0 where
  pub triggers : List TriggerRow
  pub events : List TriggerEvent

pub data TriggerRegisterOutcome : Type 0 where
  created : Trigger → TriggerRegisterOutcome
  already_exists : Trigger → TriggerRegisterOutcome

abbrev pub has_id : String → TriggerRow → Bool
has_id id t = t.id == id

abbrev pub is_of : String → TriggerEvent → Bool
is_of trigger_id e = e.trigger_id == trigger_id

-- The bytes that `hash_trigger` hashes: 31 is `\x1f`.
unfoldable pub trigger_frame : Text → Text → Text → Option Text → Text
trigger_frame strategy_id kind config_json predicate =
    strategy_id ++ 31 ∷ (kind ++ 31 ∷ (config_json ++ 31 ∷ unwrap_or predicate []))

-- `n as i64`, and `u64::try_from`
abbrev pub to_bits : ℕ → ℕ
to_bits n = n % 2 ^ 64

abbrev pub from_bits : Option ℕ → Option ℕ
from_bits none = none
from_bits (some b) = if ltb b (2 ^ 63) then some b else none

abbrev pub map_bits : Option ℕ → Option ℕ
map_bits none = none
map_bits (some n) = some (to_bits n)

abbrev pub typed : TriggerRow → TriggerKind → Trigger
typed r kind = record {
  id = r.id;
  strategy_id = r.strategy_id;
  kind = kind;
  config_json = r.config_json;
  predicate = r.predicate_js;
  enabled = r.enabled;
  last_fired_at = r.last_fired_at;
  created_at = r.created_at;
  dedup_window_ms = from_bits r.dedup_window_bits;
  note = r.note;
  strategy_lineage_id = r.strategy_lineage_id;
}

abbrev pub with_kind : TriggerRow → Option TriggerKind → Result StateError Trigger
with_kind r none = err (storage (unknown_trigger_kind r.kind))
with_kind r (some kind) = ok (typed r kind)

abbrev pub map_trigger_row : TriggerRow → Result StateError Trigger
map_trigger_row r = with_kind r (from_wire r.kind)

-- `.map(map_trigger_row).transpose()`
abbrev pub transposed : Result StateError Trigger → Result StateError (Option Trigger)
transposed (ok t) = ok (some t)
transposed (err e) = err e

abbrev pub optional_trigger : Option TriggerRow → Result StateError (Option Trigger)
optional_trigger none = ok none
optional_trigger (some r) = transposed (map_trigger_row r)

unfoldable pub get_by_id : String → Tables → Result StateError (Option Trigger)
get_by_id id db = optional_trigger (find (has_id id) db.triggers)

abbrev pub new_row : RegisterTriggerInput → String → Text → Option String → ℕ → TriggerRow
new_row input id config_json lineage now = record {
  id = id;
  strategy_id = input.strategy_id;
  kind = as_wire input.kind;
  config_json = config_json;
  predicate_js = input.predicate;
  enabled = true;
  last_fired_at = none;
  created_at = now;
  dedup_window_bits = map_bits input.dedup_window_ms;
  note = input.note;
  strategy_lineage_id = lineage;
}

-- What `Created` carries is built from the input, not read back.
abbrev pub new_trigger : RegisterTriggerInput → String → Text → Option String → ℕ → Trigger
new_trigger input id config_json lineage now =
    record (typed (new_row input id config_json lineage now) input.kind) {
      dedup_window_ms = input.dedup_window_ms;
    }

abbrev pub insert_unless :
    Result StateError (Option Trigger)
    → RegisterTriggerInput
    → String
    → Text
    → Option String
    → ℕ
    → Call Tables TriggerRegisterOutcome
insert_unless (err e) input id config_json lineage now db = (err e, db)
insert_unless (ok (some existing)) input id config_json lineage now db =
    (ok (already_exists existing), db)
insert_unless (ok none) input id config_json lineage now db = (
  ok (created (new_trigger input id config_json lineage now)),
  record db { triggers = db.triggers ++ new_row input id config_json lineage now ∷ [] },
)

abbrev pub frame_of : RegisterTriggerInput → Text → Text
frame_of input config_json =
    trigger_frame (codes input.strategy_id) (codes (as_wire input.kind)) config_json input.predicate

abbrev pub register_for :
    Option Strategy
    → (Text → String)
    → Text
    → RegisterTriggerInput
    → ℕ
    → Call Tables TriggerRegisterOutcome
register_for none hash config_json input now db = (err (not_found (strategy input.strategy_id)), db)
register_for (some s) hash config_json input now db =
    let id = hash (frame_of input config_json) in
    insert_unless (get_by_id id db) input id config_json (some s.lineage_id) now db

-- The text of a configuration, whatever the order of the fields in its objects. `to_string` prints
-- what it is given.
abbrev pub canonical_config : (Json → Text) → Json → Text
canonical_config to_string config = to_string (canonicalize config)

unfoldable pub register :
    (Text → String)
    → (Json → Text)
    → Strategies
    → RegisterTriggerInput
    → ℕ
    → Call Tables TriggerRegisterOutcome
register hash to_string strategies input now db =
    register_for (find (Strategies.has_id input.strategy_id) strategies) hash
      (canonical_config to_string input.config) input now db

pub record TriggerListFilter : Type 0 where
  pub kind : Option TriggerKind
  pub enabled : Option Bool
  pub strategy_id : Option String
  pub strategy_lineage_id : Option String

abbrev pub bool_eq : Bool → Bool → Bool
bool_eq a b = if a then b else not b

-- One clause of the WHERE, which is there when the filter has a value.
abbrev pub clause : {A : Type 0} → (A → Bool) → Option A → Bool
clause test none = true
clause test (some a) = test a

-- A comparison with NULL holds of no row.
abbrev pub is_value : String → Option String → Bool
is_value s none = false
is_value s (some t) = t == s

abbrev pub is_listed : TriggerListFilter → TriggerRow → Bool
is_listed f r =
    clause (λ k. r.kind == as_wire k) f.kind
    && clause (λ b. bool_eq b r.enabled) f.enabled
    && clause (λ s. r.strategy_id == s) f.strategy_id
    && clause (λ l. is_value l r.strategy_lineage_id) f.strategy_lineage_id

-- `ORDER BY created_at DESC`; rows of one second may come in any order.
abbrev pub insert_newest : TriggerRow → List TriggerRow → List TriggerRow
insert_newest r [] = r ∷ []
insert_newest r (x ∷ xs) =
    let rest = x ∷ insert_newest r xs in if ltb r.created_at x.created_at then rest else r ∷ x ∷ xs

unfoldable pub newest_first : List TriggerRow → List TriggerRow
newest_first [] = []
newest_first (r ∷ rs) = insert_newest r (newest_first rs)

-- A summary is the trigger with fewer fields.
unfoldable pub list_triggers : TriggerListFilter → Tables → Result StateError (List Trigger)
list_triggers f db = collect map_trigger_row (newest_first (filter (is_listed f) db.triggers))

unfoldable pub delete_trigger : String → Call Tables Bool
delete_trigger id db = (
  ok (not (count (has_id id) db.triggers == 0)),
  record { triggers = delete (has_id id) db.triggers; events = delete (is_of id) db.events },
)

abbrev pub put_enabled : Bool → TriggerRow → TriggerRow
put_enabled enabled t = record t { enabled = enabled }

unfoldable pub set_enabled : String → Bool → Call Tables (Unit {0})
set_enabled id enabled db = (
  if count (has_id id) db.triggers == 0 then err (not_found (trigger id)) else ok tt,
  record db { triggers = update (has_id id) (put_enabled enabled) db.triggers },
)

abbrev pub put_last_fired : ℕ → TriggerRow → TriggerRow
put_last_fired at t = record t { last_fired_at = some at }

-- Only an event that was not skipped is the trigger's last firing.
abbrev pub touch : Option String → ℕ → String → List TriggerRow → List TriggerRow
touch (some reason) at id ts = ts
touch none at id ts = update (has_id id) (put_last_fired at) ts

abbrev pub event_row :
    String → ℕ → String → Option Text → Option String → Option String → Option String → TriggerEvent
event_row new_id at trigger_id event_json run_id dedup_key skipped_reason = record {
  id = new_id;
  trigger_id = trigger_id;
  event_json = event_json;
  fired_at = at;
  run_id = run_id;
  dedup_key = dedup_key;
  skipped_reason = skipped_reason;
}

unfoldable pub insert_event : TriggerEvent → Call Tables TriggerEvent
insert_event e db =
    if any (λ f. f.id == e.id) db.events
    then (err (storage primary_key), db)
    else if not (any (has_id e.trigger_id) db.triggers)
    then (err (storage foreign_key), db)
    else (
      ok e,
      record {
        triggers = touch e.skipped_reason e.fired_at e.trigger_id db.triggers;
        events = db.events ++ e ∷ [];
      },
    )

abbrev pub record_event :
    String
    → ℕ
    → String
    → Option Text
    → Option String
    → Option String
    → Option String
    → Call Tables TriggerEvent
record_event new_id at trigger_id event_json run_id dedup_key skipped_reason =
    insert_event (event_row new_id at trigger_id event_json run_id dedup_key skipped_reason)

abbrev pub has_key : String → Option String → Bool
has_key key none = false
has_key key (some k) = k == key

-- `WHERE trigger_id = ? AND dedup_key = ? AND fired_at >= ?`
abbrev pub is_recent : String → String → ℕ → TriggerEvent → Bool
is_recent trigger_id key cutoff e =
    e.trigger_id == trigger_id && has_key key e.dedup_key && leb cutoff e.fired_at

-- `Utc::now() - window`, cut to seconds; a time before 1970 is before every row.
abbrev pub cutoff : ℕ → ℕ → ℕ
cutoff now_ms window_ms = (now_ms - window_ms) / 1000

unfoldable pub check_dedup : ℕ → String → String → ℕ → Tables → Bool
check_dedup now_ms trigger_id key window_ms db =
    if window_ms == 0
    then false
    else not (count (is_recent trigger_id key (cutoff now_ms window_ms)) db.events == 0)
