-- ===== src/State/Triggers/Sound.antt =====
-- The tables of triggers keep their keys through every sequence of operations.
use onchain_strategy_mcp.Prelude.{
  ℕ, String, Bool, true, false, not, Option, none, some, List, [], ◌∷◌, ◌++◌, ◌≡◌, refl, sym, ◌∙◌,
  inl, inr, ◌==◌, string_eq, any, All, All-append, arith, Bool-cases, is_some,
}
use text.Mathlib.TextEquality.{eq_iff}
use onchain_strategy_mcp.Prelude.Text.{Text}
use onchain_strategy_mcp.Prelude.Json.{Json}
use onchain_strategy_mcp.Prelude.Result.{Result, ok, err}
use onchain_strategy_mcp.State.Table.{find, find-All, Holds, update, delete, any-find, All-update}
use onchain_strategy_mcp.State.Keys.{
  any-append, any-update, any-delete-kept, All-filter, All-filter-with, All-map, UniqueKeys,
  UniqueKeys-append, UniqueKeys-update, UniqueKeys-filter,
}
use onchain_strategy_mcp.State.Strategies
use onchain_strategy_mcp.State.Strategies.{Strategies, Strategy}
use onchain_strategy_mcp.State.Error.{StateError}
use onchain_strategy_mcp.State.Triggers.{
  TriggerKind, TriggerRow, TriggerEvent, Tables, Trigger, RegisterTriggerInput, as_wire, from_wire,
  has_id, is_of, get_by_id, register, delete_trigger, set_enabled, put_enabled, put_last_fired,
  touch, insert_event, insert_unless, new_row, with_kind, transposed, optional_trigger, frame_of,
  canonical_config, typed, register_for,
}

pub from_wire-as_wire : (k : TriggerKind) → from_wire (as_wire k) ≡ some k
unfolding from_wire
from_wire-as_wire TriggerKind.manual = refl
from_wire-as_wire TriggerKind.interval = refl
from_wire-as_wire TriggerKind.block = refl
from_wire-as_wire TriggerKind.log = refl
from_wire-as_wire TriggerKind.mempool = refl
from_wire-as_wire TriggerKind.webhook = refl

abbrev pub HasKind : TriggerRow → Type 0
HasKind r = (k : TriggerKind) × (r.kind ≡ as_wire k)

-- The event's trigger is in the table: the foreign key.
abbrev pub HasTrigger : List TriggerRow → TriggerEvent → Type 0
HasTrigger ts e = any (has_id e.trigger_id) ts ≡ true

-- The two primary keys, the foreign key, and kinds that can be read back.
abbrev pub IsSound : Tables → Type 0
IsSound db =
    UniqueKeys (λ t. t.id) db.triggers
    × UniqueKeys (λ e. e.id) db.events
    × All (HasTrigger db.triggers) db.events
    × All HasKind db.triggers

not_transposed :
    (r : TriggerRow) (k : Option TriggerKind) → ¬ (transposed (with_kind r k) ≡ ok none)
not_transposed r none q = cc q
not_transposed r (some k) q = cc q

-- A search that answers none found no row.
pub get_by_id-none :
    (id : String) (db : Tables) → get_by_id id db ≡ ok none → any (has_id id) db.triggers ≡ false
unfolding get_by_id
get_by_id-none id db h =
    sym (any-find (has_id id) db.triggers) ∙ absent (find (has_id id) db.triggers) h
  where
    absent : (o : Option TriggerRow) → optional_trigger o ≡ ok none → is_some o ≡ false
    absent none q = refl
    absent (some r) q = absurd (not_transposed r (from_wire r.kind) q)

HasTrigger-append :
    (ts : List TriggerRow) (r : TriggerRow) (es : List TriggerEvent)
    → All (HasTrigger ts) es
    → All (HasTrigger (ts ++ r ∷ [])) es
HasTrigger-append ts r es h =
    All-map (HasTrigger ts) (HasTrigger (ts ++ r ∷ [])) es
      (λ e there. rw (any-append (has_id e.trigger_id) ts (r ∷ []), there) refl) h

-- An update that keeps identifiers keeps the foreign key.
HasTrigger-update :
    (p : TriggerRow → Bool) (f : TriggerRow → TriggerRow) (ts : List TriggerRow)
    (es : List TriggerEvent)
    → ((t : TriggerRow) → (f t).id ≡ t.id)
    → All (HasTrigger ts) es
    → All (HasTrigger (update p f ts)) es
HasTrigger-update p f ts es keeps h =
    All-map (HasTrigger ts) (HasTrigger (update p f ts)) es
      (λ e there. any-update (has_id e.trigger_id) p f ts (λ t. rw (keeps t) refl) ∙ there) h

insert_unless-IsSound :
    (found : Result StateError (Option Trigger)) (input : RegisterTriggerInput) (id : String)
    (config_json : Text) (lineage : Option String) (now : ℕ) (db : Tables)
    → IsSound db
    → (found ≡ ok none → any (has_id id) db.triggers ≡ false)
    → IsSound (insert_unless found input id config_json lineage now db).1
insert_unless-IsSound (err e) input id config_json lineage now db s free = s
insert_unless-IsSound (ok (some t)) input id config_json lineage now db s free = s
insert_unless-IsSound (ok none) input id config_json lineage now db s free =
    let row = new_row input id config_json lineage now in
    (
      UniqueKeys-append (λ t. t.id) db.triggers row s.0 (free refl),
      s.1,
      HasTrigger-append db.triggers row db.events s.2,
      All-append HasKind db.triggers (row ∷ []) s.3 ((input.kind, refl), tt),
    )

register-IsSound :
    (hash : Text → String) (to_string : Json → Text) (strategies : Strategies)
    (input : RegisterTriggerInput) (now : ℕ) (db : Tables)
    → IsSound db
    → IsSound (register hash to_string strategies input now db).1
unfolding register
register-IsSound hash to_string strategies input now db s =
    go (find (Strategies.has_id input.strategy_id) strategies)
  where
    id : String
    id = hash (frame_of input (canonical_config to_string input.config))

    go :
        (o : Option Strategy)
        → IsSound (register_for o hash (canonical_config to_string input.config) input now db).1
    go none = s
    go (some st) =
        insert_unless-IsSound (get_by_id id db) input id (canonical_config to_string input.config)
          (some st.lineage_id) now db s (get_by_id-none id db)

delete_trigger-IsSound : (id : String) (db : Tables) → IsSound db → IsSound (delete_trigger id db).1
unfolding delete_trigger
delete_trigger-IsSound id db s = (
  UniqueKeys-filter (λ t. t.id) (λ t. not (has_id id t)) db.triggers s.0,
  UniqueKeys-filter (λ e. e.id) (λ e. not (is_of id e)) db.events s.1,
  All-filter-with (HasTrigger db.triggers) (HasTrigger (delete (has_id id) db.triggers))
      (λ e. not (is_of id e)) db.events
      (λ e kept there.
        any-delete-kept (has_id e.trigger_id) (has_id id) db.triggers (λ t hit.
          ground
            (arith, hit, kept, eq_iff t.id id, eq_iff t.id e.trigger_id, eq_iff e.trigger_id id))
        ∙ there)
      s.2,
  All-filter HasKind (λ t. not (has_id id t)) db.triggers s.3,
)

set_enabled-IsSound :
    (id : String) (enabled : Bool) (db : Tables)
    → IsSound db
    → IsSound (set_enabled id enabled db).1
unfolding set_enabled
set_enabled-IsSound id enabled db s = (
  UniqueKeys-update (λ t. t.id) (has_id id) (put_enabled enabled) db.triggers (λ t. refl) s.0,
  s.1,
  HasTrigger-update (has_id id) (put_enabled enabled) db.triggers db.events (λ t. refl) s.2,
  All-update HasKind (has_id id) (put_enabled enabled) db.triggers (λ t k hit. k) s.3,
)

touch-IsSound :
    (reason : Option String) (now : ℕ) (id : String) (db : Tables)
    → IsSound db
    → IsSound (record db { triggers = touch reason now id db.triggers })
touch-IsSound (some reason) now id db s = s
touch-IsSound none now id db s = (
  UniqueKeys-update (λ t. t.id) (has_id id) (put_last_fired now) db.triggers (λ t. refl) s.0,
  s.1,
  HasTrigger-update (has_id id) (put_last_fired now) db.triggers db.events (λ t. refl) s.2,
  All-update HasKind (has_id id) (put_last_fired now) db.triggers (λ t k hit. k) s.3,
)

any-touch :
    (reason : Option String) (now : ℕ) (id j : String) (ts : List TriggerRow)
    → any (has_id j) (touch reason now id ts) ≡ any (has_id j) ts
any-touch (some reason) now id j ts = refl
any-touch none now id j ts = any-update (has_id j) (has_id id) (put_last_fired now) ts (λ t. refl)

pub insert_event-IsSound :
    (e : TriggerEvent) (db : Tables) → IsSound db → IsSound (insert_event e db).1
unfolding insert_event
insert_event-IsSound e db s = elim (Bool-cases (any (λ f. f.id == e.id) db.events)) [
  | inl taken ↦ rw taken s
  | inr fresh ↦ elim (Bool-cases (any (has_id e.trigger_id) db.triggers)) [
    | inr orphan ↦ rw (fresh, orphan) s
    | inl there ↦
        rw (fresh, there)
          (let t = touch-IsSound e.skipped_reason e.fired_at e.trigger_id db s in
            (
              t.0,
              UniqueKeys-append (λ f. f.id) db.events e s.1 fresh,
              All-append (HasTrigger (touch e.skipped_reason e.fired_at e.trigger_id db.triggers))
                  db.events (e ∷ []) t.2
                  (
                    any-touch e.skipped_reason e.fired_at e.trigger_id e.trigger_id db.triggers
                        ∙ there,
                    tt,
                  ),
              t.3,
            ))
  ]
]

-- One call on the tables, with the identifiers and times that it is given.
pub data Step : Tables → Tables → Type 0 where
  registers :
      (hash : Text → String) (to_string : Json → Text) (strategies : Strategies)
      (input : RegisterTriggerInput) (now : ℕ) (db : Tables)
      → Step db (register hash to_string strategies input now db).1
  deletes : (id : String) (db : Tables) → Step db (delete_trigger id db).1
  enables : (id : String) (enabled : Bool) (db : Tables) → Step db (set_enabled id enabled db).1
  records : (e : TriggerEvent) (db : Tables) → Step db (insert_event e db).1

pub data Reach (s : Tables) : Tables → Type 0 where
  here : Reach s s
  next : {t u : Tables} → Reach s t → Step t u → Reach s u

Step-IsSound : {t u : Tables} → Step t u → IsSound t → IsSound u
Step-IsSound (registers hash to_string strategies input now db) s =
    register-IsSound hash to_string strategies input now db s
Step-IsSound (deletes id db) s = delete_trigger-IsSound id db s
Step-IsSound (enables id enabled db) s = set_enabled-IsSound id enabled db s
Step-IsSound (records e db) s = insert_event-IsSound e db s

-- Whatever calls are made on sound tables of triggers, no identifier of a trigger or of an event is
-- given twice, every event belongs to a trigger that is there, and every kind can be read back.
pub Reach-IsSound : {s t : Tables} → Reach s t → IsSound s → IsSound t
Reach-IsSound here h = h
Reach-IsSound (next r st) h = Step-IsSound st (Reach-IsSound r h)

-- After any calls, reading a trigger never fails on its kind.
pub get_by_id-readable :
    {s t : Tables} (id : String)
    → Reach s t
    → IsSound s
    → (o : Option Trigger) × (get_by_id id t ≡ ok o)
unfolding get_by_id
get_by_id-readable {s} {t} id r h =
    go (find (has_id id) t.triggers) (find-All HasKind (has_id id) t.triggers (Reach-IsSound r h).3)
  where
    go :
        (o : Option TriggerRow)
        → Holds HasKind o
        → (x : Option Trigger) × (optional_trigger o ≡ ok x)
    go none k = (none, refl)
    go (some row) (k, same) = (some (typed row k), rw (same, from_wire-as_wire k) refl)
