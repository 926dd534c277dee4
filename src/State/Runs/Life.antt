-- ===== src/State/Runs/Life.antt =====
-- The life of runs under every sequence of inserts and guarded status changes, which is all that
-- the code outside the tests makes.
use onchain_strategy_mcp.Prelude.{
  String, Bool, true, false, not, ◌&&◌, ◌||◌, Option, none, some, List, [], ◌∷◌, ◌++◌, ◌≡◌, refl,
  sym, ◌∙◌, inl, inr, ◌==◌, string_eq, any, arith, Bool-cases, All, All-append,
}
use mathlib.Core.List.{append-nil}
use text.Mathlib.TextEquality.{eq_iff}
use onchain_strategy_mcp.Prelude.Result.{Result, ok, err}
use onchain_strategy_mcp.State.Table.{find, update, find-append, All-update}
use onchain_strategy_mcp.State.Error.{RunStatus, StateError, storage, foreign_key}
use onchain_strategy_mcp.State.Status.{
  phase5_emittable, is_terminal_status, status_to_wire, status_to_wire-injective,
  status_from_wire-status_to_wire,
}
use onchain_strategy_mcp.State.Runs.{
  RunRow, Run, Runs, has_id, has_id_status, set_status, insert_run_with_action,
  update_run_status_with_transition, get_run, map_run, typed_row, optional_run, new_row,
}
use onchain_strategy_mcp.State.Runs.Transitions.{UniqueIds, transition-find}

-- A call that the code makes on the table, with the identifiers and times that it is given.
pub data RunCall : Type 0 where
  insert : Option (Option String) → String → String → String → RunStatus → Option String → RunCall
  transition : String → String → RunStatus → RunStatus → RunCall

abbrev pub perform : RunCall → Runs → Runs
perform (insert lineage id now sid status action) t =
    (insert_run_with_action lineage id now sid status action t).1
perform (transition now id from to) t = (update_run_status_with_transition now id from to t).1

unfoldable pub perform_all : List RunCall → Runs → Runs
perform_all [] t = t
perform_all (c ∷ cs) t = perform_all cs (perform c t)

-- A stored status is one that this version writes, and a run with a finishing time is over.
abbrev pub IsSoundRow : RunRow → Type 0
IsSoundRow r =
    (s : RunStatus) × (r.status ≡ status_to_wire s)
    × (phase5_emittable s ≡ true)
    × (is_terminal_status s ≡ false → r.finished_at ≡ none)

abbrev pub IsSound : Runs → Type 0
IsSound t = UniqueIds t × All IsSoundRow t

any-append :
    (id : String) (t u : Runs) → any (has_id id) (t ++ u) ≡ (any (has_id id) t || any (has_id id) u)
any-append id [] u = refl
any-append id (r ∷ t) u = ground (arith, any-append id t u)

UniqueIds-append :
    (t : Runs) (r : RunRow) → UniqueIds t → any (has_id r.id) t ≡ false → UniqueIds (t ++ r ∷ [])
UniqueIds-append [] r u h = (refl, tt)
UniqueIds-append (x ∷ t) r u h = (
  rw (any-append x.id t (r ∷ [])) (ground (arith, eq_iff x.id r.id, eq_iff r.id x.id)),
  UniqueIds-append t r u.1 (ground arith),
)

any-set_status :
    (id : String) (p : RunRow → Bool) (s : RunStatus) (now : String) (t : Runs)
    → any (has_id id) (update p (set_status s now) t) ≡ any (has_id id) t
any-set_status id p s now [] = refl
any-set_status id p s now (r ∷ t) = ground (arith, any-set_status id p s now t)

UniqueIds-set_status :
    (p : RunRow → Bool) (s : RunStatus) (now : String) (t : Runs)
    → UniqueIds t
    → UniqueIds (update p (set_status s now) t)
UniqueIds-set_status p s now [] u = tt
UniqueIds-set_status p s now (r ∷ t) u = elim (Bool-cases (p r)) [
  | inl hit ↦ rw hit (rw (any-set_status r.id p s now t) u.0, UniqueIds-set_status p s now t u.1)
  | inr miss ↦ rw miss (rw (any-set_status r.id p s now t) u.0, UniqueIds-set_status p s now t u.1)
]

insert-IsSound :
    (lineage : Option (Option String)) (id now sid : String) (s : RunStatus)
    (action : Option String) (t : Runs)
    → IsSound t
    → IsSound (insert_run_with_action lineage id now sid s action t).1
unfolding insert_run_with_action
insert-IsSound lineage id now sid s action t h = elim (Bool-cases (phase5_emittable s)) [
  | inr reserved ↦ rw reserved h
  | inl emittable ↦ elim (Bool-cases (any (has_id id) t)) [
    | inl taken ↦ rw (emittable, taken) h
    | inr fresh ↦ rw (emittable, fresh) (inserted lineage emittable fresh)
  ]
]
  where
    fresh_row : Option String → RunRow
    fresh_row l = record (new_row id now sid s action) { strategy_lineage_id = l }

    inserted :
        (l : Option (Option String))
        → phase5_emittable s ≡ true
        → any (has_id id) t ≡ false
        → IsSound
            (elim l as (λ _. Result StateError String × Runs) [
              | none ↦ (err (storage foreign_key), t)
              | some x ↦ (ok id, t ++ fresh_row x ∷ [])
            ]).1
    inserted none emittable fresh = h
    inserted (some x) emittable fresh = (
      UniqueIds-append t (fresh_row x) h.0 fresh,
      All-append IsSoundRow t (fresh_row x ∷ []) h.1 ((s, refl, emittable, λ _. refl), tt),
    )

set_status-IsSoundRow :
    (now id : String) (from to : RunStatus) (r : RunRow)
    → phase5_emittable to ≡ true
    → is_terminal_status from ≡ false
    → IsSoundRow r
    → has_id_status id from r ≡ true
    → IsSoundRow (set_status to now r)
set_status-IsSoundRow now id from to r emittable unfinished (s, stored, _, clear) hit =
    let same : s ≡ from =
      status_to_wire-injective s from
        (sym stored ∙ (eq_iff r.status (status_to_wire from)).0 (ground arith)) in
    let open_run : r.finished_at ≡ none = clear (rw same unfinished) in
    (to, refl, emittable, λ lasting. rw (lasting, open_run) refl)

transition-IsSound :
    (now id : String) (from to : RunStatus) (t : Runs)
    → IsSound t
    → IsSound (update_run_status_with_transition now id from to t).1
unfolding update_run_status_with_transition
transition-IsSound now id from to t h =
    elim (Bool-cases (not (phase5_emittable from) || not (phase5_emittable to))) [
      | inl reserved ↦ rw reserved h
      | inr known ↦ elim (Bool-cases (is_terminal_status from)) [
        | inl over ↦ rw (known, over) h
        | inr going ↦
            rw (known, going)
              (
                UniqueIds-set_status (has_id_status id from) to now t h.0,
                All-update IsSoundRow (has_id_status id from) (set_status to now) t
                    (λ r ok_r hit.
                      set_status-IsSoundRow now id from to r (ground arith) going ok_r hit)
                    h.1,
              )
      ]
    ]

perform-IsSound : (c : RunCall) (t : Runs) → IsSound t → IsSound (perform c t)
perform-IsSound (insert lineage id now sid s action) t h =
    insert-IsSound lineage id now sid s action t h
perform-IsSound (transition now id from to) t h = transition-IsSound now id from to t h

-- Whatever calls are made, no identifier is given twice, every stored status is one that this
-- version writes, and a run that is not over has no finishing time.
pub perform_all-IsSound : (cs : List RunCall) (t : Runs) → IsSound t → IsSound (perform_all cs t)
unfolding perform_all
perform_all-IsSound [] t h = h
perform_all-IsSound (c ∷ cs) t h = perform_all-IsSound cs (perform c t) (perform-IsSound c t h)

find-IsSoundRow :
    (id : String) (t : Runs) (r : RunRow)
    → All IsSoundRow t
    → find (has_id id) t ≡ some r
    → IsSoundRow r
find-IsSoundRow id [] r h e = cc
find-IsSoundRow id (x ∷ t) r h e = elim (Bool-cases (has_id id x)) [
  | inl hit ↦ rw (← same_row (rw hit at e)) h.0
  | inr miss ↦ find-IsSoundRow id t r h.1 (rw miss at e)
]
  where
    same_row : {a b : RunRow} → some a ≡ some b → a ≡ b
    same_row q = cc

map_run-stored :
    (r : RunRow) (s : RunStatus) → r.status ≡ status_to_wire s → map_run r ≡ ok (typed_row r s)
unfolding map_run
map_run-stored r s stored = ground (arith, status_from_wire-status_to_wire s)

-- A run that is found with a stored status is read with that status.
pub get_run-find :
    (id : String) (t : Runs) (r : RunRow) (s : RunStatus)
    → find (has_id id) t ≡ some r
    → r.status ≡ status_to_wire s
    → get_run id t ≡ ok (some (typed_row r s))
unfolding get_run
get_run-find id t r s found stored = rw found (rw (map_run-stored r s stored, optional_run) refl)

-- Reading a run never fails on its status, whatever inserts and guarded status changes were made
-- before on a sound table.
pub get_run-perform_all :
    (cs : List RunCall) (t : Runs) (id : String)
    → IsSound t
    → (o : Option Run) × (get_run id (perform_all cs t) ≡ ok o)
unfolding get_run
get_run-perform_all cs t id h = read (find (has_id id) (perform_all cs t)) refl
  where
    t' : Runs
    t' = perform_all cs t

    read :
        (found : Option RunRow)
        → find (has_id id) t' ≡ found
        → (o : Option Run) × (optional_run found ≡ ok o)
    read none e = (none, refl)
    read (some r) e =
        let (s, stored, _, _) = find-IsSoundRow id t' r (perform_all-IsSound cs t h).1 e in
        (some (typed_row r s), rw (map_run-stored r s stored, optional_run))

insert-extends :
    (lineage : Option (Option String)) (id now sid : String) (s : RunStatus)
    (action : Option String) (t : Runs)
    → (u : Runs) × ((insert_run_with_action lineage id now sid s action t).1 ≡ t ++ u)
unfolding insert_run_with_action
insert-extends none id now sid s action t = ([], rw append-nil (ground arith))
insert-extends (some l) id now sid s action t =
    elim (Bool-cases (phase5_emittable s && not (any (has_id id) t))) [
      | inr refused ↦ ([], rw append-nil (ground arith))
      | inl taken ↦
          (record (new_row id now sid s action) { strategy_lineage_id = l } ∷ [], ground arith)
    ]

find-extended :
    (id : String) (t u : Runs) (r : RunRow)
    → find (has_id id) t ≡ some r
    → find (has_id id) (t ++ u) ≡ some r
find-extended id t u r found = ground (arith, find-append (has_id id) t u)

-- A run that is over stays exactly as it is.
perform-terminal :
    (c : RunCall) (t : Runs) (id : String) (r : RunRow) (s : RunStatus)
    → find (has_id id) t ≡ some r
    → r.status ≡ status_to_wire s
    → is_terminal_status s ≡ true
    → find (has_id id) (perform c t) ≡ some r
perform-terminal (insert lineage jd now sid s' action) t id r s found stored over =
    let (u, extended) = insert-extends lineage jd now sid s' action t in
    rw extended (find-extended id t u r found)
perform-terminal (transition now jd from to) t id r s found stored over =
    rw (transition-find now jd id from to t r found)
      (elim (Bool-cases (r.status == status_to_wire from)) [
        | inr other ↦ ground arith
        | inl same ↦
            let e : s ≡ from =
              status_to_wire-injective s from
                (sym stored ∙ (eq_iff r.status (status_to_wire from)).0 same) in
            let ended : is_terminal_status from ≡ true = rw (← e) over in ground arith
      ])

-- A run that is over stays exactly as it is, whatever inserts and guarded status changes follow.
pub perform_all-terminal :
    (cs : List RunCall) (t : Runs) (id : String) (r : RunRow) (s : RunStatus)
    → find (has_id id) t ≡ some r
    → r.status ≡ status_to_wire s
    → is_terminal_status s ≡ true
    → find (has_id id) (perform_all cs t) ≡ some r
unfolding perform_all
perform_all-terminal [] t id r s found stored over = found
perform_all-terminal (c ∷ cs) t id r s found stored over =
    perform_all-terminal cs (perform c t) id r s (perform-terminal c t id r s found stored over)
      stored over
