-- ===== src/Triggers/Once.antt =====
-- Within its window, a key starts at most one run.
use onchain_strategy_mcp.Prelude.{
  ℕ, suc, ◌≤◌, ◌<◌, String, true, false, Option, none, some, List, [], ◌∷◌, ◌++◌, ◌≡◌, refl, sym,
  ◌∙◌, ap, subst, ◌⊎◌, inl, inr, if◌then◌else◌, lt→ltb, length, length-append, All, any, arith,
  Bool-cases, ◌==◌, string_eq, ==_refl, is_some,
}
use text.Mathlib.TextEquality.{eq_iff}
use mathlib.Core.Bool.{true≢false}
use onchain_strategy_mcp.Prelude.Result.{ok}
use onchain_strategy_mcp.State.Table.{find, find-update, set_if, any-find}
use onchain_strategy_mcp.State.Keys.{any-append, UniqueKeys, has_key}
use onchain_strategy_mcp.State.Triggers.{
  TriggerRow, Trigger, Tables, has_id, get_by_id, from_bits, touch, put_last_fired, is_recent,
  cutoff, check_dedup, insert_event,
}
use onchain_strategy_mcp.State.Triggers
use onchain_strategy_mcp.State.Triggers.Recent.{get_by_id-some, insert_event-row, check_dedup-seen}
use onchain_strategy_mcp.Triggers.{
  System, before_load, before_dedup, Flow, proceed, stop, positive, checked, handle, Arrival, run,
}
use onchain_strategy_mcp.Triggers.Gate.{MayRun, IsFresh, LetsThrough, request_for, handle-requests}
use onchain_strategy_mcp.Triggers.Filed.{IsAlone, row_of, handle-Effect}

-- The trigger is in the table, and has the window.
abbrev pub HasWindow : String → ℕ → Tables → Type 0
HasWindow id window db =
    (r : TriggerRow) × (find (has_id id) db.triggers ≡ some r)
    × (from_bits r.dedup_window_bits ≡ some window)

HasWindow-touch :
    (id : String) (window : ℕ) (reason : Option String) (now : ℕ) (j : String)
    (ts : List TriggerRow) (es es' : List Triggers.TriggerEvent)
    → HasWindow id window (record { triggers = ts; events = es })
    → HasWindow id window (record { triggers = touch reason now j ts; events = es' })
HasWindow-touch id window (some reason) now j ts es es' h = h
HasWindow-touch id window none now j ts es es' (r, found, wide) = (
  (if has_id j r then put_last_fired now r else r),
  find-update (has_id id) (has_id j) (put_last_fired now) ts (λ t. refl)
      ∙ ap (set_if (has_id j) (put_last_fired now)) found,
  elim (Bool-cases (has_id j r)) [ inl hit ↦ rw hit wide | inr miss ↦ rw miss wide ],
)

-- A trigger that is read has the window that its row has.
window_read :
    (id : String) (window : ℕ) (db : Tables) (t : Trigger)
    → HasWindow id window db
    → get_by_id id db ≡ ok (some t)
    → (t.id ≡ id) × (t.dedup_window_ms ≡ some window)
window_read id window db t (r, found, wide) got =
    let (named, (r', found', same)) = get_by_id-some id db t got in
    let equal : r ≡ r' = cc (found, found') in (named, same ∙ rw equal at wide)

module _ (id key : String) (window since : ℕ) (positive_window : 0 < window) where
  -- An event of the trigger with the key: its check reaches back to `since`, and it is filed later.
  abbrev pub IsRepeat : Arrival → Type 0
  IsRepeat x =
      IsAlone x.answers
      × (x.event.trigger_id ≡ id)
      × (x.event.dedup_key ≡ some key)
      × (cutoff x.answers.now_ms window ≤ since)
      × (since ≤ x.answers.fired_at)
      × (x.answers.dedup_error ≡ none)

  abbrev Seen : Tables → Type 0
  Seen db = any (is_recent id key since) db.events ≡ true

  module _ (x : Arrival) (repeat : IsRepeat x) (s : System)
      (wide : HasWindow id window s.tables) where
    -- A key that was seen starts no run.
    Seen-silent : Seen s.tables → (handle x.answers x.event s).1.requests ≡ s.requests
    Seen-silent seen = elim (handle-requests x.answers x.event s) [
      | inl same ↦ same
      | inr (t, may, grown) ↦ absurd (refused t may)
    ]
      where
        not_fresh :
            (t : Trigger)
            → t.id ≡ id
            → ¬ (check_dedup x.answers.now_ms t.id key window s.tables ≡ false)
        not_fresh t named fresh =
            let found =
              check_dedup-seen x.answers.now_ms since window id key s.tables positive_window
                repeat.3 seen in
            absurd (true≢false (sym found ∙ rw named at fresh))

        refused : (t : Trigger) → ¬ (MayRun x.answers x.event t s)
        refused t may =
            let a = x.answers in
            let loaded = a.other_tables before_load s.tables in
            let same : a.other_tables before_dedup loaded ≡ s.tables =
              repeat.0 before_dedup loaded ∙ repeat.0 before_load s.tables in
            let got : get_by_id id s.tables ≡ ok (some t) =
              ap (λ i. get_by_id i s.tables) (sym repeat.1)
              ∙ ap (get_by_id x.event.trigger_id) (sym (repeat.0 before_load s.tables))
              ∙ may.0 in
            let (named, w) = window_read id window s.tables t wide got in
            let still : positive t.dedup_window_ms ≡ some window =
              ap positive w ∙ rw (lt→ltb 0 window positive_window) refl in
            let with_key =
              subst
                (λ k.
                  IsFresh a t k (positive t.dedup_window_ms) (a.other_tables before_dedup loaded))
                repeat.2 may.3 in
            let with_window =
              subst (λ o. IsFresh a t (some key) o (a.other_tables before_dedup loaded)) still
                with_key in
            let answered : LetsThrough
                (checked none (check_dedup a.now_ms t.id key window s.tables)) =
              subst
                (λ failed.
                  LetsThrough (checked failed (check_dedup a.now_ms t.id key window s.tables)))
                repeat.5
                (subst
                  (λ db.
                    LetsThrough (checked a.dedup_error (check_dedup a.now_ms t.id key window db)))
                  same with_window) in
            not_fresh t named answered

    abbrev IsUntouched : System → Type 0
    IsUntouched after = (after.tables ≡ s.tables) × (after.requests ≡ s.requests)

    -- A row of this round was added, with the key.
    abbrev IsFiled : System → Type 0
    IsFiled after =
        Seen after.tables
        × HasWindow id window after.tables
        × ((row : Triggers.TriggerEvent) × (row.id ≡ x.answers.new_id)
            × (after.tables.events ≡ s.tables.events ++ row ∷ []))

    filed :
        (t : Trigger) (run_id reason : Option String)
        → t.id ≡ id
        → any (λ f. f.id == x.answers.new_id) s.tables.events ≡ false
        → (after : System)
        → after.tables ≡ (insert_event (row_of x.answers x.event t run_id reason) s.tables).1
        → IsFiled after
    filed t run_id reason named fresh after inserted =
        let a = x.answers in
        let row = row_of a x.event t run_id reason in
        let there : any (has_id t.id) s.tables.triggers ≡ true =
          rw named (sym (any-find (has_id id) s.tables.triggers) ∙ ap is_some wide.1) in
        let recent : is_recent id key since row ≡ true =
          rw (named, repeat.2, ==_refl id, ==_refl key) (ground (arith, repeat.4)) in
        let exact = inserted ∙ insert_event-row row s.tables fresh there in
        (
          rw exact (
              any-append (is_recent id key since) s.tables.events (row ∷ [])
              ∙ ground (arith, recent)),
          rw exact (
              HasWindow-touch id window reason a.fired_at t.id s.tables.triggers s.tables.events
                (s.tables.events ++ row ∷ []) wide),
          (row, refl, ap (λ db. db.events) exact),
        )

    after_round :
        any (λ f. f.id == x.answers.new_id) s.tables.events ≡ false
        → IsUntouched (handle x.answers x.event s).1 ⊎ IsFiled (handle x.answers x.event s).1
    after_round fresh = elim (handle-Effect x.answers x.event repeat.0 s) [
      | inl same ↦ inl same
      | inr (t, got, effect) ↦ elim effect [
        | inl same ↦ inl same
        | inr (run_id, reason, inserted, why) ↦ inr (
            filed t run_id reason ((get_by_id-some x.event.trigger_id s.tables t got).0 ∙ repeat.1)
              fresh (handle x.answers x.event s).1 inserted)
      ]
    ]

  -- One run more than `n` at most, and if there is one, the key is in the history.
  abbrev AtMost : ℕ → System → Type 0
  AtMost n t =
      HasWindow id window t.tables
      × ((length t.requests ≡ n) ⊎ ((length t.requests ≡ suc n) × Seen t.tables))

  grown_length :
      (n : ℕ) (x : Arrival) (s : System)
      → length s.requests ≡ n
      → (length (handle x.answers x.event s).1.requests ≡ n)
        ⊎ (length (handle x.answers x.event s).1.requests ≡ suc n)
  grown_length n x s exact = elim (handle-requests x.answers x.event s) [
    | inl same ↦ inl (ap length same ∙ exact)
    | inr (t, may, grown) ↦ inr (
        ap length grown
        ∙ omega (arith, length-append s.requests (request_for x.answers x.event t s ∷ []), exact))
  ]

  -- A round keeps the bound.
  round :
      (n : ℕ) (x : Arrival) (s : System)
      → IsRepeat x
      → any (λ f. f.id == x.answers.new_id) s.tables.events ≡ false
      → AtMost n s
      → AtMost n (handle x.answers x.event s).1
  round n x s repeat fresh (wide, bound) = elim (after_round x repeat s wide fresh) [
    | inl (tables, requests) ↦ (
      subst (HasWindow id window) (sym tables) wide,
      elim bound [
        | inl exact ↦ inl (ap length requests ∙ exact)
        | inr (one, seen) ↦ inr (ap length requests ∙ one, subst Seen (sym tables) seen)
      ],
    )
    | inr (seen, still_wide, _) ↦ (
      still_wide,
      elim bound [
        | inl exact ↦ elim (grown_length n x s exact) [
          | inl same ↦ inl same
          | inr one ↦ inr (one, seen)
        ]
        | inr (one, before) ↦ inr (ap length (Seen-silent x repeat s wide before) ∙ one, seen)
      ],
    )
  ]

  -- The rows of these events get identifiers of their own.
  abbrev HaveFreshIds : List Arrival → List Triggers.TriggerEvent → Type 0
  HaveFreshIds xs es =
      UniqueKeys (λ x. x.answers.new_id) xs
      × All (λ x. any (λ f. f.id == x.answers.new_id) es ≡ false) xs

  fresh_after :
      (x : Arrival) (xs : List Arrival) (es : List Triggers.TriggerEvent)
      (row : Triggers.TriggerEvent)
      → row.id ≡ x.answers.new_id
      → any (has_key (λ y. y.answers.new_id) x.answers.new_id) xs ≡ false
      → All (λ y. any (λ f. f.id == y.answers.new_id) es ≡ false) xs
      → All (λ y. any (λ f. f.id == y.answers.new_id) (es ++ row ∷ []) ≡ false) xs
  fresh_after x [] es row named apart h = tt
  fresh_after x (y ∷ ys) es row named apart h = (
    any-append (λ f. f.id == y.answers.new_id) es (row ∷ [])
        ∙ rw (named, h.0)
            (ground (
              arith,
              apart,
              eq_iff x.answers.new_id y.answers.new_id,
              eq_iff y.answers.new_id x.answers.new_id,
            )),
    fresh_after x ys es row named (ground (arith, apart)) h.1,
  )

  round-HaveFreshIds :
      (x : Arrival) (xs : List Arrival) (s : System)
      → IsRepeat x
      → HasWindow id window s.tables
      → HaveFreshIds (x ∷ xs) s.tables.events
      → HaveFreshIds xs (handle x.answers x.event s).1.tables.events
  round-HaveFreshIds x xs s repeat wide ((apart, unique), (fresh, later)) = (
    unique,
    elim (after_round x repeat s wide fresh) [
      | inl (tables, requests) ↦
          subst (λ db. All (λ y. any (λ f. f.id == y.answers.new_id) db.events ≡ false) xs)
            (sym tables) later
      | inr (seen, still_wide, (row, named, events)) ↦
          subst (λ es. All (λ y. any (λ f. f.id == y.answers.new_id) es ≡ false) xs) (sym events)
            (fresh_after x xs s.tables.events row named apart later)
    ],
  )

  run-AtMost :
      (n : ℕ) (xs : List Arrival) (s : System)
      → All IsRepeat xs
      → HaveFreshIds xs s.tables.events
      → AtMost n s
      → AtMost n (run xs s)
  unfolding run
  run-AtMost n [] s repeats fresh h = h
  run-AtMost n (x ∷ xs) s repeats fresh h =
      go (handle x.answers x.event s) (round n x s repeats.0 fresh.1.0 h) (λ k.
        run-AtMost n xs (handle x.answers x.event s).1 repeats.1
          (round-HaveFreshIds x xs s repeats.0 h.0 fresh) k)
    where
      go :
          (r : Flow × System)
          → AtMost n r.1
          → (AtMost n r.1 → AtMost n (run xs r.1))
          → AtMost n (elim r.0 as (λ _. System) [ proceed ↦ run xs r.1 | stop ↦ r.1 ])
      go (proceed, m) k rest = rest k
      go (stop, m) k rest = k

  -- However many events of one trigger come in with the same key, they start one run at most, when the
  -- trigger has a window, no check for duplicates fails, every check reaches back no further than to
  -- the same moment and no event is filed before it, nobody else takes the lock, and the rows have
  -- identifiers of their own.
  pub run-once :
      (xs : List Arrival) (s : System)
      → HasWindow id window s.tables
      → All IsRepeat xs
      → HaveFreshIds xs s.tables.events
      → length (run xs s).requests ≤ suc (length s.requests)
  run-once xs s wide repeats fresh =
      elim (run-AtMost (length s.requests) xs s repeats fresh (wide, inl refl)).1 [
        | inl exact ↦ omega (arith, exact)
        | inr one ↦ omega (arith, one.0)
      ]
