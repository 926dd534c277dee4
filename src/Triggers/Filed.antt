-- ===== src/Triggers/Filed.antt =====
-- What one round of the dispatcher leaves in the history, when nobody else takes the lock meanwhile.
use onchain_strategy_mcp.Prelude.{
  ℕ, String, Bool, true, false, Option, none, some, List, [], ◌∷◌, ◌++◌, ◌≡◌, refl, sym, ◌∙◌, ap,
  subst, ◌⊎◌, inl, inr, any, is_some, ◌==◌, string_eq,
}
use onchain_strategy_mcp.Prelude.Text.{Text}
use onchain_strategy_mcp.Prelude.Result.{Result, ok, err}
use onchain_strategy_mcp.State.Table.{any-find}
use onchain_strategy_mcp.State.Error.{StateError}
use onchain_strategy_mcp.State.Triggers.{
  TriggerKind, TriggerRow, Trigger, Tables, has_id, get_by_id, optional_trigger, with_kind,
  from_wire, typed, transposed, check_dedup, event_row, insert_event, from_bits, touch,
}
use onchain_strategy_mcp.State.Triggers
use onchain_strategy_mcp.State.Triggers.Recent.{get_by_id-some, insert_event-row}
use onchain_strategy_mcp.Triggers.{
  TriggerEvent, RunRequest, System, Moment, before_load, before_skip, before_dedup,
  before_dedup_row, before_lineage, before_result, Answers, lock, file, payload_json, request_of,
  after_run, send, run_target, run_if_alive, run_unless_seen, run_if_enabled, positive, checked,
  dedup_gate, to_dedup_gate, after_predicate, predicate_gate, after_load, handle,
}

-- Nobody else changes the tables of triggers.
abbrev pub IsAlone : Answers → Type 0
IsAlone a = (m : Moment) (db : Tables) → a.other_tables m db ≡ db

abbrev pub row_of :
    Answers → TriggerEvent → Trigger → Option String → Option String → Triggers.TriggerEvent
row_of a e t run_id reason =
    event_row a.new_id a.fired_at t.id (payload_json a e.payload) run_id e.dedup_key reason

-- Why a row has the run and the reason that it has.
pub data Explains (a : Answers) (before after : List RunRequest)
    : Option String → Option String → Type 0 where
  skipped : (reason : String) → after ≡ before → Explains a before after none (some reason)
  ran :
      (request : RunRequest) (run_id : String)
      → after ≡ before ++ request ∷ []
      → a.run_strategy request ≡ ok run_id
      → Explains a before after (some run_id) none
  failed :
      (request : RunRequest) (error : String)
      → after ≡ before ++ request ∷ []
      → a.run_strategy request ≡ err error
      → Explains a before after none (some "run_error")

module _ (a : Answers) (e : TriggerEvent) (alone : IsAlone a) where
  -- Nothing happened, or a row was inserted for the trigger that was loaded.
  abbrev pub Effect : Trigger → Tables → List RunRequest → System → Type 0
  Effect t db rs after =
      ((after.tables ≡ db) × (after.requests ≡ rs))
      ⊎ ((run_id : Option String) × (reason : Option String) × (after.tables
            ≡ (insert_event (row_of a e t run_id reason) db).1)
          × Explains a rs after.requests run_id reason)

  file-tables :
      (m : Moment) (t : Trigger) (run_id reason : Option String) (s : System)
      → (file a m e t run_id reason s).1.tables
        ≡ (insert_event (row_of a e t run_id reason) s.tables).1
  file-tables m t run_id reason s =
      ap (λ db. (insert_event (row_of a e t run_id reason) db).1) (alone m s.tables)

  skip-Effect :
      (m : Moment) (t : Trigger) (reason : String) (s : System)
      → Effect t s.tables s.requests (file a m e t none (some reason) s).1
  skip-Effect m t reason s =
      inr (none, some reason, file-tables m t none (some reason) s, skipped reason refl)

  after_run-Effect :
      (request : RunRequest) (r : Result String String) (t : Trigger) (s : System)
      → a.run_strategy request ≡ r
      → Effect t s.tables s.requests (after_run r a e t (send request s)).1
  after_run-Effect request (ok run_id) t s h = inr (
    some run_id,
    none,
    file-tables before_result t (some run_id) none s,
    ran request run_id refl h,
  )
  after_run-Effect request (err error) t s h = inr (
    none,
    some "run_error",
    file-tables before_result t none (some "run_error") s,
    failed request error refl h,
  )

  run_if_alive-Effect :
      (alive : Bool) (t : Trigger) (s : System)
      → Effect t s.tables s.requests (run_if_alive alive a e t s).1
  run_if_alive-Effect false t s = inl (refl, refl)
  run_if_alive-Effect true t s =
      let request = request_of a e t s.strategies in
      after_run-Effect request (a.run_strategy request) t s refl

  -- The lock changes nothing.
  locked :
      (m : Moment) (t : Trigger) (s after : System)
      → Effect t (lock a m s).tables s.requests after
      → Effect t s.tables s.requests after
  locked m t s after h = subst (λ db. Effect t db s.requests after) (alone m s.tables) h

  run_target-Effect :
      (t : Trigger) (s : System) → Effect t s.tables s.requests (run_target a e t s).1
  run_target-Effect t s =
      locked before_lineage t s (run_target a e t s).1
        (run_if_alive-Effect a.server_alive t (lock a before_lineage s))

  run_unless_seen-Effect :
      (seen : Result StateError Bool) (t : Trigger) (s : System)
      → Effect t s.tables s.requests (run_unless_seen seen a e t s).1
  run_unless_seen-Effect (ok true) t s = skip-Effect before_dedup_row t "dedup" s
  run_unless_seen-Effect (ok false) t s = run_target-Effect t s
  run_unless_seen-Effect (err error) t s = run_target-Effect t s

  dedup_gate-Effect :
      (key : Option String) (window : Option ℕ) (t : Trigger) (s : System)
      → Effect t s.tables s.requests (dedup_gate key window a e t s).1
  dedup_gate-Effect none window t s = run_target-Effect t s
  dedup_gate-Effect (some key) none t s = run_target-Effect t s
  dedup_gate-Effect (some key) (some window) t s0 =
      let s = lock a before_dedup s0 in
      let seen = checked a.dedup_error (check_dedup a.now_ms t.id key window s.tables) in
      locked before_dedup t s0 (run_unless_seen seen a e t s).1 (run_unless_seen-Effect seen t s)

  to_dedup_gate-Effect :
      (t : Trigger) (s : System) → Effect t s.tables s.requests (to_dedup_gate a e t s).1
  to_dedup_gate-Effect t s = dedup_gate-Effect e.dedup_key (positive t.dedup_window_ms) t s

  predicate_gate-Effect :
      (p : Option Text) (t : Trigger) (s : System)
      → Effect t s.tables s.requests (predicate_gate p a e t s).1
  predicate_gate-Effect none t s = to_dedup_gate-Effect t s
  predicate_gate-Effect (some src) t s = go (a.evaluate_predicate src e.payload)
    where
      go : (r : Result String Bool) → Effect t s.tables s.requests (after_predicate r a e t s).1
      go (ok true) = to_dedup_gate-Effect t s
      go (ok false) = skip-Effect before_skip t "predicate_false" s
      go (err error) = skip-Effect before_skip t "predicate_error" s

  run_if_enabled-Effect :
      (on : Bool) (t : Trigger) (s : System)
      → Effect t s.tables s.requests (run_if_enabled on a e t s).1
  run_if_enabled-Effect false t s = inl (refl, refl)
  run_if_enabled-Effect true t s = predicate_gate-Effect t.predicate t s

  after_load-Effect :
      (r : Result StateError (Option Trigger)) (s : System)
      → ((after_load r a e s).1 ≡ s)
        ⊎ ((t : Trigger) × (r ≡ ok (some t)) × Effect t s.tables s.requests (after_load r a e s).1)
  after_load-Effect (err error) s = inl refl
  after_load-Effect (ok none) s = inl refl
  after_load-Effect (ok (some t)) s = inr (t, refl, run_if_enabled-Effect t.enabled t s)

  -- A round changes nothing, or it loads a trigger and has an effect for it.
  pub handle-Effect :
      (s : System)
      → (((handle a e s).1.tables ≡ s.tables) × ((handle a e s).1.requests ≡ s.requests))
        ⊎ ((t : Trigger) × (get_by_id e.trigger_id s.tables ≡ ok (some t))
            × Effect t s.tables s.requests (handle a e s).1)
  unfolding handle
  handle-Effect s0 =
      let s = lock a before_load s0 in
      let same = alone before_load s0.tables in
      elim (after_load-Effect (get_by_id e.trigger_id s.tables) s) [
        | inl h ↦ inl (ap (λ x. x.tables) h ∙ same, ap (λ x. x.requests) h)
        | inr (t, got, effect) ↦ inr (
          t,
          ap (get_by_id e.trigger_id) (sym same) ∙ got,
          locked before_load t s0 (after_load (get_by_id e.trigger_id s.tables) a e s).1 effect,
        )
      ]

-- When nobody else takes the lock and the identifier is fresh, a round leaves the history and the
-- runs as they were, or it adds one row for the trigger of the event, with the key of the event; the
-- row names the run that was started, or says that the run failed, or it gives a reason and no run
-- was started. So every run that is started is in the history, once.
pub handle-history :
    (a : Answers) (e : TriggerEvent) (s : System)
    → IsAlone a
    → any (λ f. f.id == a.new_id) s.tables.events ≡ false
    → let after = (handle a e s).1 in
      ((after.tables ≡ s.tables) × (after.requests ≡ s.requests))
      ⊎ ((t : Trigger) × (run_id : Option String) × (reason : Option String) × (t.id ≡ e.trigger_id)
          × (after.tables.events ≡ s.tables.events ++ row_of a e t run_id reason ∷ [])
          × Explains a s.requests after.requests run_id reason)
handle-history a e s alone fresh = elim (handle-Effect a e alone s) [
  | inl same ↦ inl same
  | inr (t, got, effect) ↦ elim effect [
    | inl same ↦ inl same
    | inr (run_id, reason, inserted, why) ↦
        (let (named, (r, found, _)) = get_by_id-some e.trigger_id s.tables t got in
          let there : any (has_id t.id) s.tables.triggers ≡ true =
            rw named (sym (any-find (has_id e.trigger_id) s.tables.triggers) ∙ ap is_some found) in
          inr (
            t,
            run_id,
            reason,
            named,
            ap (λ db. db.events)
                (inserted ∙ insert_event-row (row_of a e t run_id reason) s.tables fresh there),
            why,
          ))
  ]
]
