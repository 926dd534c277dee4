-- ===== src/Triggers/Pool.antt =====
-- crates/executor-mcp/src/triggers/pool.rs, with the configuration of workers/log.rs and the start of
-- the workers in crates/executor-mcp/src/server.rs (`from_config`). The parsers of JSON, of addresses
-- and of hashes are parameters.
pub mod Boot
use onchain_strategy_mcp.Prelude.{
  ℕ, suc, String, Bool, true, false, Option, none, some, List, [], ◌∷◌, ◌++◌, ◌==◌, if◌then◌else◌,
  ltb, nat_eq, string_eq,
}
use onchain_strategy_mcp.Prelude.Text.{Text, codes, text_eq}
use onchain_strategy_mcp.Prelude.Json.{lookup, Json, Items, Fields, nil, cons, end, field}
use onchain_strategy_mcp.Prelude.Result.{Result, ok, err, ◌>>=◌}
use onchain_strategy_mcp.Alloy.{Address}
use onchain_strategy_mcp.State.Error.{StateError}
use onchain_strategy_mcp.State.Triggers.{
  TriggerKind, interval, manual, mempool, log, block, webhook, Trigger, Tables, TriggerListFilter,
  get_by_id, list_triggers,
}

-- What the workers use of serde_json and alloy.
pub record Parsers : Type 0 where
  pub from_str : Text → Option Json
  pub as_u64 : Text → Option ℕ
  pub parse_address : Text → Option Address
  pub parse_hash : Text → Option ℕ

pub data PoolError : Type 0 where
  invalid_config_json missing_interval_ms zero_interval_ms not_an_array entry_not_a_string
        invalid_address address_not_a_string invalid_topic topic_not_a_string too_many_topics :
      PoolError

-- The boxed workers, with what they were built from.
pub data Worker : Type 0 where
  interval_worker : (trigger_id : String) → (interval_ms : ℕ) → Worker
  mempool_worker :
      (trigger_id wss_url : String) → (to_addresses from_addresses : List Address) → Worker
  log_worker : (trigger_id wss_url : String) → Option Address → List (Option ℕ) → Worker

-- `Value::get` with a key.
abbrev pub get : Text → Json → Option Json
get k (Json.object fields) = lookup k fields
get k Json.null = none
get k (Json.bool b) = none
get k (Json.number n) = none
get k (Json.string s) = none
get k (Json.array l) = none

abbrev pub or_fail : {A : Type 0} → PoolError → Option A → Result PoolError A
or_fail e none = err e
or_fail e (some a) = ok a

abbrev pub boot_filter : TriggerListFilter
boot_filter = record {
  kind = none;
  enabled = some true;
  strategy_id = none;
  strategy_lineage_id = none;
}

module _ (parsers : Parsers) where
  -- `and_then(Value::as_u64)`
  abbrev pub u64_of : Option Json → Option ℕ
  u64_of (some (Json.number n)) = parsers.as_u64 n
  u64_of (some Json.null) = none
  u64_of (some (Json.bool b)) = none
  u64_of (some (Json.string s)) = none
  u64_of (some (Json.array l)) = none
  u64_of (some (Json.object o)) = none
  u64_of none = none

  abbrev pub address_of : Json → Result PoolError Address
  address_of (Json.string s) = or_fail invalid_address (parsers.parse_address s)
  address_of Json.null = err entry_not_a_string
  address_of (Json.bool b) = err entry_not_a_string
  address_of (Json.number n) = err entry_not_a_string
  address_of (Json.array l) = err entry_not_a_string
  address_of (Json.object o) = err entry_not_a_string

  abbrev pub addresses_of : Items → Result PoolError (List Address)
  addresses_of nil = ok []
  addresses_of (cons j js) = address_of j >>= λ a. addresses_of js >>= λ rest. ok (a ∷ rest)

  abbrev pub parse_address_array : Option Json → Result PoolError (List Address)
  parse_address_array none = ok []
  parse_address_array (some (Json.array l)) = addresses_of l
  parse_address_array (some Json.null) = err not_an_array
  parse_address_array (some (Json.bool b)) = err not_an_array
  parse_address_array (some (Json.number n)) = err not_an_array
  parse_address_array (some (Json.string s)) = err not_an_array
  parse_address_array (some (Json.object o)) = err not_an_array

  unfoldable pub parse_mempool_config : Text → Result PoolError (List Address × List Address)
  parse_mempool_config config_json =
      or_fail invalid_config_json (parsers.from_str config_json) >>= λ config.
      parse_address_array (get (codes "to_address") config) >>= λ to.
      parse_address_array (get (codes "from_address") config) >>= λ from. ok (to, from)

  abbrev pub log_address : Option Json → Result PoolError (Option Address)
  log_address none = ok none
  log_address (some Json.null) = ok none
  log_address (some (Json.string s)) =
      or_fail invalid_address (parsers.parse_address s) >>= λ a. ok (some a)
  log_address (some (Json.bool b)) = err address_not_a_string
  log_address (some (Json.number n)) = err address_not_a_string
  log_address (some (Json.array l)) = err address_not_a_string
  log_address (some (Json.object o)) = err address_not_a_string

  abbrev pub topic_of : Json → Result PoolError (Option ℕ)
  topic_of Json.null = ok none
  topic_of (Json.string s) = or_fail invalid_topic (parsers.parse_hash s) >>= λ h. ok (some h)
  topic_of (Json.bool b) = err topic_not_a_string
  topic_of (Json.number n) = err topic_not_a_string
  topic_of (Json.array l) = err topic_not_a_string
  topic_of (Json.object o) = err topic_not_a_string

  abbrev pub topics_of : Items → Result PoolError (List (Option ℕ))
  topics_of nil = ok []
  topics_of (cons j js) = topic_of j >>= λ t. topics_of js >>= λ rest. ok (t ∷ rest)

  abbrev pub items_length : Items → ℕ
  items_length nil = 0
  items_length (cons j js) = suc (items_length js)

  abbrev pub log_topics : Option Json → Result PoolError (List (Option ℕ))
  log_topics none = ok []
  log_topics (some Json.null) = ok []
  log_topics (some (Json.array l)) =
      if ltb 4 (items_length l) then err too_many_topics else topics_of l
  log_topics (some (Json.bool b)) = err not_an_array
  log_topics (some (Json.number n)) = err not_an_array
  log_topics (some (Json.string s)) = err not_an_array
  log_topics (some (Json.object o)) = err not_an_array

  unfoldable pub parse_log_config : Text → Result PoolError (Option Address × List (Option ℕ))
  parse_log_config config_json =
      or_fail invalid_config_json (parsers.from_str config_json) >>= λ config.
      log_address (get (codes "address") config) >>= λ address.
      log_topics (get (codes "topics") config) >>= λ topics. ok (address, topics)

  abbrev pub interval_of : Text → Result PoolError ℕ
  interval_of config_json = or_fail invalid_config_json (parsers.from_str config_json) >>= λ config.
      or_fail missing_interval_ms (u64_of (get (codes "interval_ms") config)) >>= λ interval_ms.
      if interval_ms == 0 then err zero_interval_ms else ok interval_ms

  -- The worker of a trigger, if its kind has one and the socket that it needs is configured.
  abbrev pub worker_of : TriggerKind → Trigger → Option String → Result PoolError (Option Worker)
  worker_of interval t url = interval_of t.config_json >>= λ ms. ok (some (interval_worker t.id ms))
  worker_of manual t url = ok none
  worker_of mempool t none = ok none
  worker_of mempool t (some url) =
      parse_mempool_config t.config_json >>= λ c. ok (some (mempool_worker t.id url c.0 c.1))
  worker_of log t none = ok none
  worker_of log t (some url) =
      parse_log_config t.config_json >>= λ c. ok (some (log_worker t.id url c.0 c.1))
  worker_of block t url = ok none
  worker_of webhook t url = ok none

  -- The workers that run. The table of handles names those that `stop` can abort: a handle that is
  -- replaced is dropped, and its worker runs on.
  abbrev pub started :
      Result PoolError (Option Worker) → List Worker → Result PoolError (Unit {0}) × List Worker
  started (err e) pool = (err e, pool)
  started (ok none) pool = (ok tt, pool)
  started (ok (some w)) pool = (ok tt, pool ++ w ∷ [])

  unfoldable pub spawn :
      Trigger → Option String → List Worker → Result PoolError (Unit {0}) × List Worker
  spawn t url pool = started (worker_of t.kind t url) pool

  -- One trigger of the list at boot: it is read again, and a failure is logged only.
  abbrev pub boot_one :
      Option String → Result StateError (Option Trigger) → List Worker → List Worker
  boot_one url (err e) pool = pool
  boot_one url (ok none) pool = pool
  boot_one url (ok (some t)) pool = (spawn t url pool).1

  unfoldable pub boot_all : Option String → Tables → List Trigger → List Worker → List Worker
  boot_all url db [] pool = pool
  boot_all url db (s ∷ summaries) pool =
      boot_all url db summaries (boot_one url (get_by_id s.id db) pool)

  abbrev pub boot_listed : Option String → Tables → Result StateError (List Trigger) → List Worker
  boot_listed url db (err e) = []
  boot_listed url db (ok summaries) = boot_all url db summaries []

  -- The workers after `from_config`.
  unfoldable pub boot : Option String → Tables → List Worker
  boot url db = boot_listed url db (list_triggers boot_filter db)
