-- ===== src/State/Error.antt =====
-- crates/executor-state/src/error.rs: `StateError`. A message is the name of its format string with
-- the values that are put into it.
use onchain_strategy_mcp.Prelude.{String, ℕ}
use onchain_strategy_mcp.Prelude.Result.{Result}

-- RunStatus, of crates/executor-core/src/schema/execution.rs.
pub data RunStatus : Type 0 where
  queued running succeeded failed canceled simulation_denied policy_denied : RunStatus

pub data StorageCause : Type 0 where
  unknown_run_status : String → StorageCause
  unknown_trigger_kind : String → StorageCause
  primary_key : StorageCause
  unique_index : StorageCause
  foreign_key : StorageCause

pub data Entity : Type 0 where
  run : String → Entity
  strategy : String → Entity
  trigger : String → Entity
  execution_action : String → ℕ → Entity

pub data Complaint : Type 0 where
  reserved_status : RunStatus → Complaint
  reserved_transition : RunStatus → RunStatus → Complaint
  terminal_state : String → RunStatus → RunStatus → Complaint
  not_in_expected_state : String → RunStatus → Complaint
  unknown_receipt_status : String → Complaint

pub data StateError : Type 0 where
  storage : StorageCause → StateError
  not_found : Entity → StateError
  invalid_input : Complaint → StateError

-- A call on a table returns its result and the table after it.
abbrev pub Call : Type 0 → Type 0 → Type 0
Call S A = S → Result StateError A × S
