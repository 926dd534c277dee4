-- ===== src/Triggers/Gate.antt =====
-- Which runs the dispatcher starts.
use onchain_strategy_mcp.Prelude.{
  ℕ, ◌≤◌, String, Bool, true, false, Option, Exists, none, some, List, [], ◌∷◌, ◌++◌, ◌≡◌, refl,
  sym, ◌∙◌, ap, ◌⊎◌, inl, inr, length, length-append, All, All-append, arith,
}
use mathlib.Core.List.{append-nil, append_assoc}
use onchain_strategy_mcp.Prelude.Text.{Text}
use onchain_strategy_mcp.Prelude.Result.{Result, ok, err}
use onchain_strategy_mcp.State.Keys.{All-map}
use onchain_strategy_mcp.State.Error.{StateError}
use onchain_strategy_mcp.State.Triggers.{Trigger, Tables, get_by_id, check_dedup}
use onchain_strategy_mcp.Triggers.{
  TriggerEvent, RunRequest, System, before_load, before_dedup, before_lineage, Answers, Flow,
  proceed, stop, lock, request_of, after_run, send, run_if_alive, run_unless_seen, run_if_enabled,
  positive, checked, dedup_gate, to_dedup_gate, after_predicate, predicate_gate, after_load, handle,
  Arrival, run,
}

-- The predicate, if there is one, says yes.
abbrev pub Passes : Answers → TriggerEvent → Option Text → Type 0
Passes a e none = Unit
Passes a e (some src) = a.evaluate_predicate src e.payload ≡ ok true

-- What lets an event through: the answer that there is no recent row, or no answer.
abbrev pub LetsThrough : Result StateError Bool → Type 0
LetsThrough (ok seen) = seen ≡ false
LetsThrough (err error) = Unit

-- The check finds no recent row with the key, if there are a key and a window, or it fails.
abbrev pub IsFresh : Answers → Trigger → Option String → Option ℕ → Tables → Type 0
IsFresh a t none window db = Unit
IsFresh a t (some key) none db = Unit
IsFresh a t (some key) (some window) db =
    LetsThrough (checked a.dedup_error (check_dedup a.now_ms t.id key window db))

-- The store when the trigger is loaded, and when its recent rows are counted.
abbrev pub at_load : Answers → System → System
at_load a s = lock a before_load s

-- The last lock before the lineage is looked up.
abbrev pub gated : Answers → Option String → Option ℕ → System → System
gated a none window s = s
gated a (some key) none s = s
gated a (some key) (some window) s = lock a before_dedup s

abbrev pub before_run : Answers → TriggerEvent → Trigger → System → System
before_run a e t s =
    lock a before_lineage (gated a e.dedup_key (positive t.dedup_window_ms) (at_load a s))

-- What must hold for an event to start a run of its trigger.
abbrev pub MayRun : Answers → TriggerEvent → Trigger → System → Type 0
MayRun a e t s =
    (get_by_id e.trigger_id (at_load a s).tables ≡ ok (some t))
    × (t.enabled ≡ true)
    × Passes a e t.predicate
    × IsFresh a t e.dedup_key (positive t.dedup_window_ms)
        (lock a before_dedup (at_load a s)).tables
    × (a.server_alive ≡ true)

-- The run that it starts.
abbrev pub request_for : Answers → TriggerEvent → Trigger → System → RunRequest
request_for a e t s = request_of a e t (before_run a e t s).strategies

after_run-requests :
    (r : Result String String) (a : Answers) (e : TriggerEvent) (t : Trigger) (s : System)
    → (after_run r a e t s).1.requests ≡ s.requests
after_run-requests (ok run_id) a e t s = refl
after_run-requests (err error) a e t s = refl

-- The requests of a step are those before it, or one more.
abbrev Grown : System → System → RunRequest → Type 0 → Type 0
Grown s after r Why =
    (after.requests ≡ s.requests) ⊎ (Why × (after.requests ≡ s.requests ++ r ∷ []))

run_if_alive-requests :
    (alive : Bool) (a : Answers) (e : TriggerEvent) (t : Trigger) (s : System)
    → Grown s (run_if_alive alive a e t s).1 (request_of a e t s.strategies) (alive ≡ true)
run_if_alive-requests false a e t s = inl refl
run_if_alive-requests true a e t s =
    let request = request_of a e t s.strategies in
    inr (refl, after_run-requests (a.run_strategy request) a e t (send request s))

-- The reason of a growth is weakened.
because : {A B W W' : Type 0} → (W → W') → A ⊎ (W × B) → A ⊎ (W' × B)
because f (inl same) = inl same
because f (inr (why, grown)) = inr (f why, grown)

run_unless_seen-requests :
    (seen : Result StateError Bool) (a : Answers) (e : TriggerEvent) (t : Trigger) (s : System)
    → Grown s
        (run_unless_seen seen a e t s).1
        (request_of a e t (lock a before_lineage s).strategies)
        (LetsThrough seen × (a.server_alive ≡ true))
run_unless_seen-requests (ok true) a e t s = inl refl
run_unless_seen-requests (ok false) a e t s =
    because (λ alive. (refl, alive))
      (run_if_alive-requests a.server_alive a e t (lock a before_lineage s))
run_unless_seen-requests (err error) a e t s =
    because (λ alive. (tt, alive))
      (run_if_alive-requests a.server_alive a e t (lock a before_lineage s))

dedup_gate-requests :
    (key : Option String) (window : Option ℕ) (a : Answers) (e : TriggerEvent) (t : Trigger)
    (s : System)
    → Grown s
        (dedup_gate key window a e t s).1
        (request_of a e t (lock a before_lineage (gated a key window s)).strategies)
        (IsFresh a t key window (lock a before_dedup s).tables × (a.server_alive ≡ true))
dedup_gate-requests none window a e t s =
    because (λ why. (tt, why.1)) (run_unless_seen-requests (ok false) a e t s)
dedup_gate-requests (some key) none a e t s =
    because (λ why. (tt, why.1)) (run_unless_seen-requests (ok false) a e t s)
dedup_gate-requests (some key) (some window) a e t s =
    run_unless_seen-requests
      (checked a.dedup_error (check_dedup a.now_ms t.id key window (lock a before_dedup s).tables))
      a e t (lock a before_dedup s)

after_predicate-requests :
    (r : Result String Bool) (a : Answers) (e : TriggerEvent) (t : Trigger) (s : System)
    → Grown s
        (after_predicate r a e t s).1
        (request_of a e t
          (lock a before_lineage (gated a e.dedup_key (positive t.dedup_window_ms) s)).strategies)
        ((r ≡ ok true)
          × IsFresh a t e.dedup_key (positive t.dedup_window_ms) (lock a before_dedup s).tables
          × (a.server_alive ≡ true))
after_predicate-requests (ok true) a e t s =
    because (λ why. (refl, why.0, why.1))
      (dedup_gate-requests e.dedup_key (positive t.dedup_window_ms) a e t s)
after_predicate-requests (ok false) a e t s = inl refl
after_predicate-requests (err error) a e t s = inl refl

predicate_gate-requests :
    (p : Option Text) (a : Answers) (e : TriggerEvent) (t : Trigger) (s : System)
    → Grown s
        (predicate_gate p a e t s).1
        (request_of a e t
          (lock a before_lineage (gated a e.dedup_key (positive t.dedup_window_ms) s)).strategies)
        (Passes a e p
          × IsFresh a t e.dedup_key (positive t.dedup_window_ms) (lock a before_dedup s).tables
          × (a.server_alive ≡ true))
predicate_gate-requests none a e t s =
    because (λ why. (tt, why.0, why.1))
      (dedup_gate-requests e.dedup_key (positive t.dedup_window_ms) a e t s)
predicate_gate-requests (some src) a e t s =
    after_predicate-requests (a.evaluate_predicate src e.payload) a e t s

-- Handling an event starts no run, or one run, of a trigger that was loaded for the event, is
-- enabled, whose predicate says yes, and for which the check finds no recent row of the key, or
-- fails, if there are a key and a window; the run is of the active version of the trigger's lineage,
-- or of the version that the trigger was registered with when the lineage has none or its lookup
-- fails, with the event's payload and with no action named.
pub handle-requests :
    (a : Answers) (e : TriggerEvent) (s : System)
    → ((handle a e s).1.requests ≡ s.requests)
      ⊎ ((t : Trigger) × MayRun a e t s
          × ((handle a e s).1.requests ≡ s.requests ++ request_for a e t s ∷ []))
unfolding handle
handle-requests a e s = loaded (get_by_id e.trigger_id (at_load a s).tables) refl
  where
    enabled :
        (t : Trigger) (b : Bool)
        → t.enabled ≡ b
        → get_by_id e.trigger_id (at_load a s).tables ≡ ok (some t)
        → ((run_if_enabled b a e t (at_load a s)).1.requests ≡ s.requests)
          ⊎ ((u : Trigger) × MayRun a e u s
              × ((run_if_enabled b a e t (at_load a s)).1.requests
                  ≡ s.requests ++ request_for a e u s ∷ []))
    enabled t false on got = inl refl
    enabled t true on got = elim (predicate_gate-requests t.predicate a e t (at_load a s)) [
      | inl same ↦ inl same
      | inr (why, grown) ↦ inr (t, (got, on, why.0, why.1, why.2), grown)
    ]

    loaded :
        (r : Result StateError (Option Trigger))
        → get_by_id e.trigger_id (at_load a s).tables ≡ r
        → ((after_load r a e (at_load a s)).1.requests ≡ s.requests)
          ⊎ ((t : Trigger) × MayRun a e t s
              × ((after_load r a e (at_load a s)).1.requests
                  ≡ s.requests ++ request_for a e t s ∷ []))
    loaded (err x) got = inl refl
    loaded (ok none) got = inl refl
    loaded (ok (some t)) got = enabled t t.enabled refl got

run_target-starts :
    (a : Answers) (e : TriggerEvent) (t : Trigger) (s : System) (alive : Bool)
    → alive ≡ true
    → (run_if_alive alive a e t s).1.requests ≡ s.requests ++ request_of a e t s.strategies ∷ []
run_target-starts a e t s true h =
    let request = request_of a e t s.strategies in
    after_run-requests (a.run_strategy request) a e t (send request s)
run_target-starts a e t s false h = cc h

run_unless_seen-starts :
    (seen : Result StateError Bool) (a : Answers) (e : TriggerEvent) (t : Trigger) (s : System)
    → LetsThrough seen
    → a.server_alive ≡ true
    → (run_unless_seen seen a e t s).1.requests
      ≡ s.requests ++ request_of a e t (lock a before_lineage s).strategies ∷ []
run_unless_seen-starts (ok false) a e t s fresh alive =
    run_target-starts a e t (lock a before_lineage s) a.server_alive alive
run_unless_seen-starts (ok true) a e t s fresh alive = cc fresh
run_unless_seen-starts (err error) a e t s fresh alive =
    run_target-starts a e t (lock a before_lineage s) a.server_alive alive

dedup_gate-starts :
    (key : Option String) (window : Option ℕ) (a : Answers) (e : TriggerEvent) (t : Trigger)
    (s : System)
    → IsFresh a t key window (lock a before_dedup s).tables
    → a.server_alive ≡ true
    → (dedup_gate key window a e t s).1.requests
      ≡ s.requests
        ++ request_of a e t (lock a before_lineage (gated a key window s)).strategies ∷ []
dedup_gate-starts none window a e t s fresh alive =
    run_target-starts a e t (lock a before_lineage s) a.server_alive alive
dedup_gate-starts (some key) none a e t s fresh alive =
    run_target-starts a e t (lock a before_lineage s) a.server_alive alive
dedup_gate-starts (some key) (some window) a e t s fresh alive =
    run_unless_seen-starts
      (checked a.dedup_error (check_dedup a.now_ms t.id key window (lock a before_dedup s).tables))
      a e t (lock a before_dedup s) fresh alive

predicate_gate-starts :
    (p : Option Text) (a : Answers) (e : TriggerEvent) (t : Trigger) (s : System)
    → Passes a e p
    → (predicate_gate p a e t s) ≡ to_dedup_gate a e t s
predicate_gate-starts none a e t s passes = refl
predicate_gate-starts (some src) a e t s passes = rw passes refl

run_if_enabled-on :
    (on : Bool) (a : Answers) (e : TriggerEvent) (t : Trigger) (s : System)
    → on ≡ true
    → run_if_enabled on a e t s ≡ predicate_gate t.predicate a e t s
run_if_enabled-on true a e t s h = refl
run_if_enabled-on false a e t s h = cc h

-- An event that may start a run starts it: the trigger is loaded and enabled, its predicate says yes,
-- the check finds no recent row of its key, or fails, if it has a window, and the server is there.
pub handle-starts :
    (a : Answers) (e : TriggerEvent) (t : Trigger) (s : System)
    → MayRun a e t s
    → (handle a e s).1.requests ≡ s.requests ++ request_for a e t s ∷ []
unfolding handle
handle-starts a e t s (got, on, passes, fresh, alive) =
    let to_gate =
      run_if_enabled-on t.enabled a e t (at_load a s) on
      ∙ predicate_gate-starts t.predicate a e t (at_load a s) passes in
    rw got (
      ap (λ r. r.1.requests) to_gate
      ∙ dedup_gate-starts e.dedup_key (positive t.dedup_window_ms) a e t (at_load a s) fresh alive)

-- A run that the dispatcher starts names no action, and carries the payload of an event.
abbrev pub IsExecute : List Arrival → RunRequest → Type 0
IsExecute xs r = (r.action ≡ none) × Exists (λ x. r.event ≡ some x.event.payload) xs

abbrev Adds : List Arrival → System → System → Type 0
Adds xs s after =
    (rs : List RunRequest) × (after.requests ≡ s.requests ++ rs)
    × All (IsExecute xs) rs
    × (length rs ≤ length xs)

handle-Adds : (x : Arrival) (s : System) → Adds (x ∷ []) s (handle x.answers x.event s).1
handle-Adds x s = elim (handle-requests x.answers x.event s) [
  | inl same ↦ ([], same ∙ sym (append-nil s.requests), tt, omega arith)
  | inr (t, may, grown) ↦
      (request_for x.answers x.event t s ∷ [], grown, ((refl, inl refl), tt), omega arith)
]

Exists-first :
    {A : Type 0} (P : A → Type 0) (x : A) (xs : List A) → Exists P (x ∷ []) → Exists P (x ∷ xs)
Exists-first P x xs (inl h) = inl h
Exists-first P x xs (inr h) = absurd h

IsExecute-later :
    (x : Arrival) (xs : List Arrival) (rs : List RunRequest)
    → All (IsExecute (x ∷ [])) rs
    → All (IsExecute (x ∷ xs)) rs
IsExecute-later x xs rs h =
    All-map (IsExecute (x ∷ [])) (IsExecute (x ∷ xs)) rs
      (λ r i. (i.0, Exists-first (λ y. r.event ≡ some y.event.payload) x xs i.1)) h

Adds-both :
    (x : Arrival) (xs : List Arrival) (s middle after : System)
    → Adds (x ∷ []) s middle
    → Adds xs middle after
    → Adds (x ∷ xs) s after
Adds-both x xs s middle after (rs, grown, execute, short) (qs, grown', execute', short') = (
  rs ++ qs,
  grown' ∙ ap (λ l. l ++ qs) grown ∙ append_assoc s.requests rs qs,
  All-append (IsExecute (x ∷ xs)) rs qs (IsExecute-later x xs rs execute)
      (All-map (IsExecute xs) (IsExecute (x ∷ xs)) qs (λ r h. (h.0, inr h.1)) execute'),
  omega (arith, short, short', length-append rs qs),
)

-- Draining a list of events adds runs of the default action only, each with the payload of an event
-- of the list, and at most one run for each event.
pub run-requests : (xs : List Arrival) (s : System) → Adds xs s (run xs s)
unfolding run
run-requests [] s = ([], sym (append-nil s.requests), tt, omega arith)
run-requests (x ∷ xs) s = go (handle x.answers x.event s) (handle-Adds x s) (run-requests xs)
  where
    go :
        (r : Flow × System)
        → Adds (x ∷ []) s r.1
        → ((m : System) → Adds xs m (run xs m))
        → Adds (x ∷ xs) s (elim r.0 as (λ _. System) [ proceed ↦ run xs r.1 | stop ↦ r.1 ])
    go (proceed, middle) one rest = Adds-both x xs s middle (run xs middle) one (rest middle)
    go (stop, middle) (rs, grown, execute, short) rest =
        (rs, grown, IsExecute-later x xs rs execute, omega (arith, short))
