-- ===== src/State/Executions.antt =====
-- crates/executor-state/src/executions.rs: one row for each action of a run that was signed or that
-- failed. The identifier and the time that a call mints are arguments; the run itself is known to
-- exist when these functions are called.
pub mod Rows
use onchain_strategy_mcp.Prelude.{
  ℕ, String, Bool, ◌&&◌, Option, none, some, List, [], ◌∷◌, ◌++◌, ◌==◌, string_eq, nat_eq,
  if◌then◌else◌,
}
use onchain_strategy_mcp.Prelude.Result.{ok, err}
use onchain_strategy_mcp.State.Table.{find, count, update}
use onchain_strategy_mcp.State.Error.{
  not_found, invalid_input, execution_action, unknown_receipt_status, Call,
}

pub record ExecutionActionEntry : Type 0 where
  pub id : String
  pub run_id : String
  pub action_index : ℕ
  pub signer_address : Option String
  pub tx_hash : Option String
  pub status : String
  pub receipt_status : Option String
  pub gas_used : Option String
  pub error_kind : Option String
  pub error_detail : Option String
  pub recorded_at : String
  pub updated_at : String

abbrev pub Executions : Type 0
Executions = List ExecutionActionEntry

-- `WHERE run_id = ? AND action_index = ?`
abbrev pub is_action : String → ℕ → ExecutionActionEntry → Bool
is_action run_id action_index e = e.run_id == run_id && e.action_index == action_index

abbrev pub has_id : String → ExecutionActionEntry → Bool
has_id id e = e.id == id

abbrev pub set_broadcast : String → String → String → ExecutionActionEntry → ExecutionActionEntry
set_broadcast now signer hash e = record e {
  signer_address = some signer;
  tx_hash = some hash;
  status = "broadcasted";
  receipt_status = none;
  gas_used = none;
  error_kind = none;
  error_detail = none;
  updated_at = now;
}

abbrev pub new_broadcast : String → String → String → ℕ → String → String → ExecutionActionEntry
new_broadcast new_id now run_id action_index signer hash = record {
  id = new_id;
  run_id = run_id;
  action_index = action_index;
  signer_address = some signer;
  tx_hash = some hash;
  status = "broadcasted";
  receipt_status = none;
  gas_used = none;
  error_kind = none;
  error_detail = none;
  recorded_at = now;
  updated_at = now;
}

-- The UPDATE of the row that is there, or the INSERT.
abbrev pub broadcast_row :
    Option ExecutionActionEntry
    → String
    → String
    → String
    → ℕ
    → String
    → String
    → Call Executions String
broadcast_row (some e) new_id now run_id action_index signer hash t =
    (ok e.id, update (has_id e.id) (set_broadcast now signer hash) t)
broadcast_row none new_id now run_id action_index signer hash t =
    (ok new_id, t ++ new_broadcast new_id now run_id action_index signer hash ∷ [])

unfoldable pub record_broadcast :
    String → String → String → ℕ → String → String → Call Executions String
record_broadcast new_id now run_id action_index signer hash t =
    broadcast_row (find (is_action run_id action_index) t) new_id now run_id action_index signer
      hash t

-- The status that a receipt gives an action.
abbrev pub receipt_outcome : String → Option String
receipt_outcome receipt_status =
    if receipt_status == "success"
    then some "confirmed"
    else if receipt_status == "reverted"
    then some "failed"
    else none

abbrev pub set_receipt :
    String → String → String → String → ExecutionActionEntry → ExecutionActionEntry
set_receipt now status receipt_status gas e = record e {
  status = status;
  receipt_status = some receipt_status;
  gas_used = some gas;
  error_kind = none;
  error_detail = none;
  updated_at = now;
}

unfoldable pub record_receipt_success :
    String → String → ℕ → String → String → Call Executions (Unit {0})
record_receipt_success now run_id action_index receipt_status gas t =
    elim (receipt_outcome receipt_status) [
      | none ↦ (err (invalid_input (unknown_receipt_status receipt_status)), t)
      | some status ↦ (
        if count (is_action run_id action_index) t == 0
            then err (not_found (execution_action run_id action_index))
            else ok tt,
        update (is_action run_id action_index) (set_receipt now status receipt_status gas) t,
      )
    ]

abbrev pub set_error : String → String → Option String → ExecutionActionEntry → ExecutionActionEntry
set_error now kind detail e = record e {
  status = "failed";
  error_kind = some kind;
  error_detail = detail;
  updated_at = now;
}

unfoldable pub record_execution_error :
    String
    → String
    → String
    → ℕ
    → Option String
    → String
    → Option String
    → Call Executions (Unit {0})
record_execution_error new_id now run_id action_index signer kind detail t =
    let t' = update (is_action run_id action_index) (set_error now kind detail) t in
    (
      ok tt,
      if count (is_action run_id action_index) t == 0
          then t'
            ++ record {
              id = new_id;
              run_id = run_id;
              action_index = action_index;
              signer_address = signer;
              tx_hash = none;
              status = "failed";
              receipt_status = none;
              gas_used = none;
              error_kind = some kind;
              error_detail = detail;
              recorded_at = now;
              updated_at = now;
            }
              ∷ []
          else t',
    )
