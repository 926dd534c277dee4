-- ===== src/Pipeline/Start.antt =====
-- crates/executor-mcp/src/tools.rs: the start of a run, `run_strategy_with_event` up to the accepted
-- outcome of the script, and the run as a whole. The sandbox is a parameter, a function of the source
-- and the event; so is the reading of the map of named actions, which serde_json does. The strategies
-- are the table at the two moments the lock is held, and the identifier is the one that
-- `Ulid::new()` mints.
pub mod Names
pub mod Resolved
pub mod Quiet
pub mod Sent
pub mod Answered
pub mod Whole
pub mod Calls
pub mod Journaled
pub mod Tool
pub mod Registered
pub mod Succeeds
use onchain_strategy_mcp.Prelude.{
  ℕ, String, true, false, Option, none, some, List, [], ◌∷◌, map, if◌then◌else◌, ◌==◌, string_eq,
  contains, is_some, unwrap_or,
}
use onchain_strategy_mcp.Prelude.Text.{Text}
use onchain_strategy_mcp.Prelude.Json.{Json, null}
use onchain_strategy_mcp.Prelude.Map.{get}
use onchain_strategy_mcp.Prelude.Result.{Result, ok, err}
use onchain_strategy_mcp.Alloy.{Alloy}
use onchain_strategy_mcp.Policy.Model.{LoadedPolicy}
use onchain_strategy_mcp.Evm.Validate.{EvmError}
use onchain_strategy_mcp.State.Error.{queued, running, failed, not_found, strategy}
use onchain_strategy_mcp.State.Runs.{insert_run_with_action}
use onchain_strategy_mcp.State.Strategies.{Strategy, Strategies, get_by_id}
use onchain_strategy_mcp.Pipeline.Types.{
  StrategyOutcome, RuntimeError, timeout, oom, stack_overflow, exception, invalid_output,
  engine_init, OutputFault, reported, script_error, validation_error_payload, JournalActionOutcome,
  validation_error, Env, McpError, evm, state, runtime, strategy_deleted, unknown_action,
  ActionHint, non_empty_name, reserved_name, no_actions, one_of_the_actions,
  strategy_invalid_output, M, pure, throw, ◌>>=◌, ◌>>◌, or_throw,
}
use onchain_strategy_mcp.Pipeline.Journal.{
  on_runs, transition, record_gate_action_outcome, record_runtime_error,
}
use onchain_strategy_mcp.Pipeline.Output.{validate_strategy_output}
use onchain_strategy_mcp.Pipeline.Execute.{finish_run}
use onchain_strategy_mcp.Pipeline.Start.Names.{trim}

abbrev pub reserved_action_keys : List String
reserved_action_keys = "execute" ∷ "view" ∷ "records" ∷ "default" ∷ []

-- `BTreeMap<String, String>`, in the order of its keys.
abbrev pub Actions : Type 0
Actions = List (String × Text)

-- `strategy.actions_json.as_deref().and_then(|j| serde_json::from_str(j).ok()).unwrap_or_default()`
abbrev pub actions_of : (Text → Option Actions) → Option Text → Actions
actions_of parse none = []
actions_of parse (some j) = unwrap_or (parse j) []

abbrev pub names_of : Actions → List String
names_of [] = []
names_of ((name, source) ∷ rest) = name ∷ names_of rest

abbrev pub hint_of : List String → ActionHint
hint_of [] = no_actions
hint_of (name ∷ rest) = one_of_the_actions

abbrev pub or_unknown : Strategy → String → Actions → Option Text → Result McpError Text
or_unknown s name acts (some source) = ok source
or_unknown s name acts none =
    err (unknown_action s.id name (names_of acts) (hint_of (names_of acts)))

abbrev pub named_source : Strategy → Actions → String → Result McpError Text
named_source s acts name =
    if name == ""
    then err (unknown_action s.id "" (names_of acts) non_empty_name)
    else if contains reserved_action_keys name
    then err (unknown_action s.id name (names_of acts) reserved_name)
    else or_unknown s name acts (get acts name)

-- STEP 2b: the source to run, for the trimmed name of an action.
unfoldable pub resolved_source :
    (Text → Option Actions) → Strategy → Option String → Result McpError Text
resolved_source parse s none = ok s.source
resolved_source parse s (some name) = named_source s (actions_of parse s.actions_json) name

-- STEP 2: the strategy, which is there and not deleted.
abbrev pub if_active : Strategy → Option String → Result McpError Strategy
if_active s none = ok s
if_active s (some at) = err (strategy_deleted s.id)

abbrev pub or_not_found : String → Option Strategy → Result McpError Strategy
or_not_found id none = err (state (not_found (strategy id)))
or_not_found id (some s) = if_active s s.deleted_at

unfoldable pub load_strategy : String → Strategies → Result McpError Strategy
load_strategy id t = or_not_found id (get_by_id id t)

abbrev pub trimmed : Option String → Option String
trimmed none = none
trimmed (some s) = some (trim s)

-- `SELECT lineage_id FROM strategies WHERE id = ?1`, with `none` for no row, where the foreign key of
-- the insert fails.
abbrev pub lineage_of : Option Strategy → Option (Option String)
lineage_of none = none
lineage_of (some s) = some (some s.lineage_id)

-- errors.rs
unfoldable pub map_runtime_error : RuntimeError → McpError
map_runtime_error timeout = runtime "timeout"
map_runtime_error oom = runtime "oom"
map_runtime_error stack_overflow = runtime "stack_overflow"
map_runtime_error (exception msg) = runtime "exception"
map_runtime_error (engine_init msg) = runtime "exception"
map_runtime_error (invalid_output detail) = strategy_invalid_output (reported detail)
map_runtime_error (RuntimeError.evm e) = evm e

-- What stands around a run: the sandbox, the reader of the map of actions, and the table of strategies
-- when the strategy is looked up and when the row is inserted.
pub record World : Type 0 where
  pub sandbox : Text → Option Json → Result RuntimeError Json
  pub parse_actions : Text → Option Actions
  pub strategies : Strategies
  pub strategies_at_insert : Strategies

module _ (env : Env) (run_id : String) where
  unfoldable pub record_validation_error : OutputFault → Json → M (Unit {0})
  record_validation_error fault raw =
      record_gate_action_outcome env run_id validation_error (validation_error_payload fault raw)

  -- The two ends of STEP 6 that end the run.
  unfoldable pub reject_output : {A : Type 0} → OutputFault → Json → M A
  reject_output fault raw = do
    record_validation_error fault raw
    transition env run_id running failed
    throw (strategy_invalid_output fault)

  unfoldable pub fail_script : {A : Type 0} → RuntimeError → M A
  fail_script e = do
    record_runtime_error env run_id (script_error e)
    transition env run_id running failed
    throw (map_runtime_error e)

  abbrev pub or_rejected : Json → Result OutputFault StrategyOutcome → M StrategyOutcome
  or_rejected raw (ok outcome) = pure outcome
  or_rejected raw (err fault) = reject_output fault raw

  module _ (alloy : Alloy) (enc : Text → Text → List Json → Result EvmError (List ℕ)) where
    -- STEP 6
    unfoldable pub accept_output : Result RuntimeError Json → M StrategyOutcome
    accept_output (ok raw) = or_rejected raw (validate_strategy_output enc raw)
    accept_output (err (invalid_output detail)) = reject_output (reported detail) null
    accept_output (err timeout) = fail_script timeout
    accept_output (err oom) = fail_script oom
    accept_output (err stack_overflow) = fail_script stack_overflow
    accept_output (err (exception msg)) = fail_script (exception msg)
    accept_output (err (engine_init msg)) = fail_script (engine_init msg)
    accept_output (err (RuntimeError.evm e)) = fail_script (RuntimeError.evm e)

    -- From the provider of STEP 5 on, with what the sandbox answers.
    abbrev pub run_script : Option LoadedPolicy → Result RuntimeError Json → M StrategyOutcome
    run_script policy answer = do
      or_throw evm env.provider
      outcome ← accept_output answer
      finish_run env run_id alloy enc policy outcome

    -- STEP 3 and what follows, for a strategy and a source.
    unfoldable pub start_run :
        World
        → Option LoadedPolicy
        → Option Json
        → Option String
        → Strategy
        → Text
        → M StrategyOutcome
    start_run w policy event action s source = do
      on_runs (
          insert_run_with_action (lineage_of (get_by_id s.id w.strategies_at_insert)) run_id env.now
            s.id queued action)
      transition env run_id queued running
      run_script policy (w.sandbox source event)

    abbrev pub with_source :
        World
        → Option LoadedPolicy
        → Option Json
        → Option String
        → Strategy
        → Result McpError Text
        → M StrategyOutcome
    with_source w policy event action s (err e) = throw e
    with_source w policy event action s (ok source) = start_run w policy event action s source

    abbrev pub with_strategy :
        World
        → Option LoadedPolicy
        → Option Json
        → Option String
        → Result McpError Strategy
        → M StrategyOutcome
    with_strategy w policy event action (err e) = throw e
    with_strategy w policy event action (ok s) =
        with_source w policy event action s (resolved_source w.parse_actions s action)

    unfoldable pub run_strategy_with_event :
        World → Option LoadedPolicy → String → Option Json → Option String → M StrategyOutcome
    run_strategy_with_event w policy strategy_id event action =
        with_strategy w policy event (trimmed action) (load_strategy strategy_id w.strategies)
