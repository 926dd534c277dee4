-- ===== src/RunScenarios.antt =====
-- A small table of runs and of executions, and what the theorems say of them.
use onchain_strategy_mcp.Prelude.{none, some, List, [], ◌∷◌, ◌≡◌, refl, sym, string_eq, nat_eq}
use onchain_strategy_mcp.Prelude.Text.{text_eq}
use onchain_strategy_mcp.Policy.Model.{chain_contract_eq}
use onchain_strategy_mcp.State.Error.{queued, running, succeeded, failed}
use onchain_strategy_mcp.State.Runs.{Runs, RunRow, has_id, new_row}
use onchain_strategy_mcp.State.Table.{find}
use onchain_strategy_mcp.State.Status.{status_to_wire}
use onchain_strategy_mcp.State.Runs.Life.{
  RunCall, insert, transition, IsSound, perform_all, perform_all-IsSound, perform_all-terminal,
}
use mathlib.Core.Bool.{false≢true}

-- The table of runs: one run that is over, and one that is not.
abbrev finished_row : RunRow
finished_row = record (new_row "a" "t0" "s" failed none) { finished_at = some "t1" }

abbrev two_runs : Runs
two_runs = finished_row ∷ new_row "b" "t2" "s" running none ∷ []

two_runs-IsSound : IsSound two_runs
unfolding status_to_wire
two_runs-IsSound = (
  (refl, (refl, tt)),
  ((failed, refl, refl, λ e. absurd (false≢true (sym e))), ((running, refl, refl, λ e. refl), tt)),
)

abbrev calls : List RunCall
calls =
    transition "t3" "a" running succeeded
    ∷ transition "t4" "b" running succeeded
    ∷ insert (some none) "c" "t5" "s" queued none
    ∷ []

perform_all-IsSound_example : IsSound (perform_all calls two_runs)
perform_all-IsSound_example = perform_all-IsSound calls two_runs two_runs-IsSound

perform_all-terminal_example : find (has_id "a") (perform_all calls two_runs) ≡ some finished_row
perform_all-terminal_example =
    perform_all-terminal calls two_runs "a" finished_row failed refl refl refl
