-- ===== src/State/Triggers/Rows.antt =====
-- What a registration and a deletion of a trigger leave in the tables.
use onchain_strategy_mcp.Prelude.{
  ℕ, String, Bool, true, false, not, Option, none, some, List, [], ◌∷◌, ◌++◌, ◌≡◌, refl, sym,
  nat_eq, ◌∙◌, ap, ◌==◌, string_eq, any, arith, ==_refl, if◌then◌else◌,
}
use text.Mathlib.TextEquality.{eq_iff}
use onchain_strategy_mcp.Prelude.Text.{Text}
use onchain_strategy_mcp.Prelude.Json.{Json}
use onchain_strategy_mcp.Prelude.Canonical.{canonicalize_same, SameJson}
use onchain_strategy_mcp.Prelude.Result.{Result, ok, err}
use onchain_strategy_mcp.State.Table.{find, count, any-count, filter, delete, find-append, any-find}
use onchain_strategy_mcp.State.Error.{StateError}
use onchain_strategy_mcp.State.Strategies
use onchain_strategy_mcp.State.Strategies.{Strategies, Strategy}
use onchain_strategy_mcp.State.Triggers.{
  TriggerRow, TriggerEvent, Tables, Trigger, RegisterTriggerInput, created, already_exists, has_id,
  is_of, get_by_id, optional_trigger, register, register_for, insert_unless, new_row, new_trigger,
  frame_of, canonical_config, delete_trigger, from_bits, map_bits,
}
use onchain_strategy_mcp.State.Triggers.Sound.{get_by_id-none, from_wire-as_wire}

find_new :
    (input : RegisterTriggerInput) (id : String) (config_json : Text) (lineage : Option String)
    (now : ℕ) (ts : List TriggerRow)
    → any (has_id id) ts ≡ false
    → find (has_id id) (ts ++ new_row input id config_json lineage now ∷ [])
      ≡ some (new_row input id config_json lineage now)
find_new input id config_json lineage now ts free =
    rw
      (
        find-append (has_id id) ts (new_row input id config_json lineage now ∷ []),
        any-find (has_id id) ts,
        free,
      )
      (rw (==_refl id) refl)

-- What is read of a trigger that a registration created.
abbrev pub stored : Trigger → Trigger
stored t = record t { dedup_window_ms = from_bits (map_bits t.dedup_window_ms) }

insert_unless-created :
    (found : Result StateError (Option Trigger)) (input : RegisterTriggerInput) (id : String)
    (config_json : Text) (lineage : Option String) (now : ℕ) (db : Tables) (t : Trigger)
    → (found ≡ ok none → any (has_id id) db.triggers ≡ false)
    → (insert_unless found input id config_json lineage now db).0 ≡ ok (created t)
    → get_by_id id (insert_unless found input id config_json lineage now db).1
      ≡ ok (some (stored t))
unfolding get_by_id
insert_unless-created (err e) input id config_json lineage now db t free h = cc h
insert_unless-created (ok (some x)) input id config_json lineage now db t free h = cc h
insert_unless-created (ok none) input id config_json lineage now db t free h =
    rw
      (
        find_new input id config_json lineage now db.triggers (free refl),
        from_wire-as_wire input.kind,
        sym same,
      )
      refl
  where
    same : new_trigger input id config_json lineage now ≡ t
    same = cc h

-- An input that names the same trigger: the note, the window and the order of the configuration's
-- fields may differ.
abbrev pub SameTrigger : RegisterTriggerInput → RegisterTriggerInput → Type 0
SameTrigger a b =
    (a.strategy_id ≡ b.strategy_id)
    × (a.kind ≡ b.kind)
    × SameJson a.config b.config
    × (a.predicate ≡ b.predicate)

created-id :
    (found : Result StateError (Option Trigger)) (input : RegisterTriggerInput) (id : String)
    (config_json : Text) (lineage : Option String) (now : ℕ) (db : Tables) (t : Trigger)
    → (insert_unless found input id config_json lineage now db).0 ≡ ok (created t)
    → t.id ≡ id
created-id (err e) input id config_json lineage now db t h = cc h
created-id (ok (some x)) input id config_json lineage now db t h = cc h
created-id (ok none) input id config_json lineage now db t h = sym (ap (λ x. x.id) same)
  where
    same : new_trigger input id config_json lineage now ≡ t
    same = cc h

-- A trigger that a registration reports as created is read back as it was reported, up to its window,
-- and the same registration again, whatever its note, its window and the order of the fields in its
-- configuration, answers with that trigger and changes nothing.
pub register-again :
    (hash : Text → String) (to_string : Json → Text) (strategies : Strategies)
    (input again : RegisterTriggerInput) (now later : ℕ) (db : Tables) (t : Trigger)
    → (register hash to_string strategies input now db).0 ≡ ok (created t)
    → SameTrigger input again
    → let after = (register hash to_string strategies input now db).1 in
      (get_by_id t.id after ≡ ok (some (stored t)))
      × (register hash to_string strategies again later after
          ≡ (ok (already_exists (stored t)), after))
unfolding register
register-again hash to_string strategies input again now later db t h same =
    go (find (Strategies.has_id input.strategy_id) strategies)
      (find (Strategies.has_id again.strategy_id) strategies)
      (ap (λ i. find (Strategies.has_id i) strategies) (sym same.0)) h
  where
    go :
        (o o' : Option Strategy)
        → o' ≡ o
        → (register_for o hash (canonical_config to_string input.config) input now db).0
          ≡ ok (created t)
        → let after =
            (register_for o hash (canonical_config to_string input.config) input now db).1 in
          (get_by_id t.id after ≡ ok (some (stored t)))
          × (register_for o' hash (canonical_config to_string again.config) again later after
              ≡ (ok (already_exists (stored t)), after))
    go none o' e q = cc q
    go (some s) o' e q =
        let id = hash (frame_of input (canonical_config to_string input.config)) in
        let after =
          (register_for (some s) hash (canonical_config to_string input.config) input now db).1 in
        let read =
          insert_unless-created (get_by_id id db) input id (canonical_config to_string input.config)
            (some s.lineage_id) now db t (get_by_id-none id db) q in
        let named =
          created-id (get_by_id id db) input id (canonical_config to_string input.config)
            (some s.lineage_id) now db t q in
        (
          ap (λ i. get_by_id i after) named ∙ read,
          rw
              (
                e,
                sym same.0,
                sym same.1,
                sym (ap to_string (canonicalize_same same.2)),
                sym same.3,
                read,
              )
              refl,
        )

find-delete :
    (id j : String) (ts : List TriggerRow)
    → find (has_id j) (delete (has_id id) ts) ≡ (if j == id then none else find (has_id j) ts)
find-delete id j [] = ground arith
find-delete id j (t ∷ ts) =
    ground (arith, find-delete id j ts, eq_iff t.id id, eq_iff t.id j, eq_iff j id)

filter-filter-other :
    (id j : String) (es : List TriggerEvent)
    → filter (is_of j) (delete (is_of id) es) ≡ (if j == id then [] else filter (is_of j) es)
filter-filter-other id j [] = ground arith
filter-filter-other id j (e ∷ es) =
    ground (
      arith,
      filter-filter-other id j es,
      eq_iff e.trigger_id id,
      eq_iff e.trigger_id j,
      eq_iff j id,
    )

-- A deletion removes the trigger and its events, and neither another trigger nor another's events; it
-- answers whether the trigger was there.
pub delete_trigger-only :
    (id j : String) (db : Tables)
    → let after = (delete_trigger id db).1 in
      ((delete_trigger id db).0 ≡ ok (any (has_id id) db.triggers))
      × (get_by_id j after ≡ (if j == id then ok none else get_by_id j db))
      × (filter (is_of j) after.events ≡ (if j == id then [] else filter (is_of j) db.events))
unfolding delete_trigger get_by_id
delete_trigger-only id j db =
    (ap ok (found db.triggers), at_find (j == id) refl, filter-filter-other id j db.events)
  where
    found : (ts : List TriggerRow) → not (count (has_id id) ts == 0) ≡ any (has_id id) ts
    found ts = ground (arith, any-count (has_id id) ts)

    at_find :
        (b : Bool)
        → b ≡ (j == id)
        → optional_trigger (find (has_id j) (delete (has_id id) db.triggers))
          ≡ (if b then ok none else optional_trigger (find (has_id j) db.triggers))
    at_find true e = rw (find-delete id j db.triggers, sym e) refl
    at_find false e = rw (find-delete id j db.triggers, sym e) refl
