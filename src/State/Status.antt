-- ===== src/State/Status.antt =====
-- The run status and its wire form: crates/executor-state/src/runs.rs and
-- crates/executor-core/src/schema/execution.rs.
use onchain_strategy_mcp.Prelude.{
  String, Bool, true, false, ◌≡◌, refl, sym, ap, ◌∙◌, ◌↔◌, ◌==◌, string_eq, if◌then◌else◌, arith,
}
use text.Mathlib.TextEquality.{eq_iff}
use onchain_strategy_mcp.Prelude.Result.{Result, ok, err}
use onchain_strategy_mcp.State.Error.{
  RunStatus, queued, running, succeeded, failed, canceled, simulation_denied, policy_denied,
  StateError, storage, unknown_run_status,
}

abbrev pub phase5_emittable : RunStatus → Bool
phase5_emittable queued = true
phase5_emittable running = true
phase5_emittable succeeded = true
phase5_emittable failed = true
phase5_emittable simulation_denied = true
phase5_emittable policy_denied = true
phase5_emittable canceled = false

abbrev pub is_terminal_status : RunStatus → Bool
is_terminal_status succeeded = true
is_terminal_status failed = true
is_terminal_status simulation_denied = true
is_terminal_status policy_denied = true
is_terminal_status queued = false
is_terminal_status running = false
is_terminal_status canceled = false

unfoldable pub status_to_wire : RunStatus → String
status_to_wire queued = "queued"
status_to_wire running = "running"
status_to_wire succeeded = "succeeded"
status_to_wire failed = "failed"
status_to_wire canceled = "canceled"
status_to_wire simulation_denied = "simulation_denied"
status_to_wire policy_denied = "policy_denied"

unfoldable pub status_from_wire : String → Result StateError RunStatus
status_from_wire s =
    if s == "queued"
    then ok queued
    else if s == "running"
    then ok running
    else if s == "succeeded"
    then ok succeeded
    else if s == "failed"
    then ok failed
    else if s == "canceled"
    then ok canceled
    else if s == "simulation_denied"
    then ok simulation_denied
    else if s == "policy_denied"
    then ok policy_denied
    else err (storage (unknown_run_status s))

pub status_from_wire-status_to_wire : (s : RunStatus) → status_from_wire (status_to_wire s) ≡ ok s
unfolding status_from_wire status_to_wire
status_from_wire-status_to_wire queued = refl
status_from_wire-status_to_wire _ = refl

status_from_wire_sound :
    (w : String) (s : RunStatus) → status_from_wire w ≡ ok s → w ≡ status_to_wire s
unfolding status_from_wire status_to_wire
status_from_wire_sound w queued h = ground (
  arith,
  eq_iff w "queued",
  eq_iff w "running",
  eq_iff w "succeeded",
  eq_iff w "failed",
  eq_iff w "canceled",
  eq_iff w "simulation_denied",
  eq_iff w "policy_denied",
)
status_from_wire_sound w _ h = ground (
  arith,
  eq_iff w "queued",
  eq_iff w "running",
  eq_iff w "succeeded",
  eq_iff w "failed",
  eq_iff w "canceled",
  eq_iff w "simulation_denied",
  eq_iff w "policy_denied",
)

-- A text is read as a status exactly when it is the wire form of that status.
pub status_from_wire_iff :
    (w : String) (s : RunStatus) → (status_from_wire w ≡ ok s) ↔ (w ≡ status_to_wire s)
status_from_wire_iff w s =
    (status_from_wire_sound w s, λ e. rw e (status_from_wire-status_to_wire s))

pub status_to_wire-injective : (a b : RunStatus) → status_to_wire a ≡ status_to_wire b → a ≡ b
status_to_wire-injective a b e = same (
    sym (status_from_wire-status_to_wire a)
    ∙ ap status_from_wire e
    ∙ status_from_wire-status_to_wire b)
  where
    same : ◌≡◌ {A = Result StateError RunStatus} (ok a) (ok b) → a ≡ b
    same h = cc
