-- ===== src/State/Runs/Transitions.antt =====
-- What a guarded status change does, on every branch.
use onchain_strategy_mcp.Prelude.{
  String, Bool, true, false, not, ◌&&◌, ◌||◌, Option, none, some, [], ◌∷◌, ◌≡◌, refl, ◌==◌,
  string_eq, nat_eq, if◌then◌else◌, any, is_some, arith,
}
use text.Mathlib.TextEquality.{eq_iff}
use onchain_strategy_mcp.Prelude.Result.{Result, ok, err}
use onchain_strategy_mcp.State.Table.{find, count, update, find-update, set_if}
use onchain_strategy_mcp.State.Error.{
  RunStatus, StateError, invalid_input, not_found, run, reserved_transition, terminal_state,
  not_in_expected_state,
}
use onchain_strategy_mcp.State.Status.{phase5_emittable, is_terminal_status, status_to_wire}
use onchain_strategy_mcp.State.Runs.{
  RunRow, Runs, has_id, has_id_status, set_status, update_run_status_with_transition,
}

-- Every identifier stands in one row at most: the primary key.
abbrev pub UniqueIds : Runs → Type 0
UniqueIds [] = Unit
UniqueIds (r ∷ t) = (any (has_id r.id) t ≡ false) × UniqueIds t

count-none :
    (id : String) (s : RunStatus) (t : Runs)
    → any (has_id id) t ≡ false
    → count (has_id_status id s) t ≡ 0
count-none id s [] h = refl
count-none id s (r ∷ t) h = ground (arith, count-none id s t)

-- With unique identifiers, a status change hits a row exactly when the run is in the state `s`.
count-find :
    (id : String) (s : RunStatus) (t : Runs)
    → UniqueIds t
    → (count (has_id_status id s) t == 0)
      ≡ (elim (find (has_id id) t) [ none ↦ true | some r ↦ not (r.status == status_to_wire s) ])
count-find id s [] u = refl
count-find id s (r ∷ t) u = ground (arith, count-find id s t u.1, count-none id s t, eq_iff r.id id)

-- A status change keeps the identifiers, so it commutes with the search for a run.
find-set_status :
    (j : String) (p : RunRow → Bool) (s : RunStatus) (now : String) (t : Runs)
    → find (has_id j) (update p (set_status s now) t)
      ≡ set_if p (set_status s now) (find (has_id j) t)
find-set_status j p s now t = find-update (has_id j) p (set_status s now) t (λ r. refl)

is_some-set_if :
    (p : RunRow → Bool) (f : RunRow → RunRow) (o : Option RunRow)
    → is_some (set_if p f o) ≡ is_some o
is_some-set_if p f none = refl
is_some-set_if p f (some r) = refl

-- The answer to a status change of a run, from the row that the run has.
abbrev pub transition_answer :
    String → RunStatus → RunStatus → Option RunRow → Result StateError (Unit {0})
transition_answer run_id from to o =
    if not (phase5_emittable from) || not (phase5_emittable to)
    then err (invalid_input (reserved_transition from to))
    else if is_terminal_status from
    then err (invalid_input (terminal_state run_id from to))
    else elim o [
      | none ↦ err (not_found (run run_id))
      | some r ↦
          if r.status == status_to_wire from
          then ok tt
          else err (invalid_input (not_in_expected_state run_id from))
    ]

-- With unique identifiers, the answer is decided by the statuses that are named and by the row of
-- the run alone.
pub transition-answer :
    (now run_id : String) (from to : RunStatus) (t : Runs)
    → UniqueIds t
    → (update_run_status_with_transition now run_id from to t).0
      ≡ transition_answer run_id from to (find (has_id run_id) t)
unfolding update_run_status_with_transition
transition-answer now run_id from to t u =
    rw (find-set_status run_id (has_id_status run_id from) to now t) (
      ground (
        arith,
        count-find run_id from t u,
        is_some-set_if (has_id_status run_id from) (set_status to now) (find (has_id run_id) t),
      ))

pub find-has_id : (id : String) (t : Runs) (r : RunRow) → find (has_id id) t ≡ some r → r.id ≡ id
find-has_id id [] r h = cc
find-has_id id (x ∷ t) r h = ground (arith, find-has_id id t r, eq_iff x.id id)

-- A transition that the state machine knows at all.
abbrev pub is_guarded : RunStatus → RunStatus → Bool
is_guarded from to = phase5_emittable from && phase5_emittable to && not (is_terminal_status from)

transition-set_if :
    (now run_id j : String) (from to : RunStatus) (t : Runs)
    → find (has_id j) (update_run_status_with_transition now run_id from to t).1 ≡ (
        if is_guarded from to
        then set_if (has_id_status run_id from) (set_status to now) (find (has_id j) t)
        else find (has_id j) t)
unfolding update_run_status_with_transition
transition-set_if now run_id j from to t =
    ground (arith, find-set_status j (has_id_status run_id from) to now t)

-- The row of any run after the call: only the named run changes, only if it was in the state that
-- the caller expects, and then it has the new status, with a finishing time if that is terminal.
pub transition-find :
    (now run_id j : String) (from to : RunStatus) (t : Runs) (r : RunRow)
    → find (has_id j) t ≡ some r
    → find (has_id j) (update_run_status_with_transition now run_id from to t).1
      ≡ some (
          if is_guarded from to && run_id == j && r.status == status_to_wire from
          then set_status to now r
          else r)
transition-find now run_id j from to t r found =
    rw (transition-set_if now run_id j from to t)
      (rw found (ground (arith, find-has_id j t r found, eq_iff r.id run_id, eq_iff run_id j)))

-- No row comes or goes.
pub transition-find-none :
    (now run_id j : String) (from to : RunStatus) (t : Runs)
    → find (has_id j) t ≡ none
    → find (has_id j) (update_run_status_with_transition now run_id from to t).1 ≡ none
transition-find-none now run_id j from to t missing =
    rw (transition-set_if now run_id j from to t) (rw missing (ground arith))
