-- ===== src/State/Triggers/Recent.antt =====
-- Reading a trigger, and the rows of its history that the deduplication counts.
use onchain_strategy_mcp.Prelude.{
  ℕ, ◌≤◌, ◌<◌, String, true, false, Option, none, some, List, [], ◌∷◌, ◌++◌, ◌≡◌, refl, sym, ◌∙◌,
  ap, any, arith, ◌==◌, string_eq, nat_eq,
}
use text.Mathlib.TextEquality.{eq_iff}
use onchain_strategy_mcp.Prelude.Result.{ok}
use onchain_strategy_mcp.State.Table.{find, any-count}
use onchain_strategy_mcp.State.Triggers.{
  TriggerKind, TriggerRow, TriggerEvent, Trigger, Tables, has_id, get_by_id, optional_trigger,
  with_kind, from_wire, typed, transposed, from_bits, touch, insert_event, is_recent, cutoff,
  check_dedup,
}

find_hit :
    (id : String) (ts : List TriggerRow) (r : TriggerRow) → find (has_id id) ts ≡ some r → r.id ≡ id
find_hit id [] r h = cc h
find_hit id (x ∷ xs) r h = ground (arith, find_hit id xs r, eq_iff x.id id, h)

-- A trigger that is read has a row, which says what its identifier and its window are.
pub get_by_id-some :
    (id : String) (db : Tables) (t : Trigger)
    → get_by_id id db ≡ ok (some t)
    → (t.id ≡ id)
      × ((r : TriggerRow) × (find (has_id id) db.triggers ≡ some r)
          × (t.dedup_window_ms ≡ from_bits r.dedup_window_bits))
unfolding get_by_id
get_by_id-some id db t h = go (find (has_id id) db.triggers) refl h
  where
    read :
        (r : TriggerRow) (k : Option TriggerKind)
        → transposed (with_kind r k) ≡ ok (some t)
        → (t.id ≡ r.id) × (t.dedup_window_ms ≡ from_bits r.dedup_window_bits)
    read r none q = absurd (cc q)
    read r (some k) q =
        let same : typed r k ≡ t = cc q in
        (sym (ap (λ x. x.id) same), sym (ap (λ x. x.dedup_window_ms) same))

    go :
        (o : Option TriggerRow)
        → find (has_id id) db.triggers ≡ o
        → optional_trigger o ≡ ok (some t)
        → (t.id ≡ id)
          × ((r : TriggerRow) × (find (has_id id) db.triggers ≡ some r)
              × (t.dedup_window_ms ≡ from_bits r.dedup_window_bits))
    go none found q = absurd (cc q)
    go (some r) found q =
        let (named, window) = read r (from_wire r.kind) q in
        (named ∙ find_hit id db.triggers r found, (r, found, window))

pub insert_event-row :
    (row : TriggerEvent) (db : Tables)
    → any (λ f. f.id == row.id) db.events ≡ false
    → any (has_id row.trigger_id) db.triggers ≡ true
    → (insert_event row db).1 ≡ record {
      triggers = touch row.skipped_reason row.fired_at row.trigger_id db.triggers;
      events = db.events ++ row ∷ [];
    }
unfolding insert_event
insert_event-row row db fresh there = rw (fresh, there) refl

is_recent_mono :
    (id key : String) (c d : ℕ) (es : List TriggerEvent)
    → c ≤ d
    → any (is_recent id key d) es ≡ true
    → any (is_recent id key c) es ≡ true
is_recent_mono id key c d [] le h = h
is_recent_mono id key c d (e ∷ es) le h = ground (arith, is_recent_mono id key c d es, le, h)

-- A row with the key from `since` on is found by every check whose window goes back that far.
pub check_dedup-seen :
    (now_ms since window : ℕ) (id key : String) (db : Tables)
    → 0 < window
    → cutoff now_ms window ≤ since
    → any (is_recent id key since) db.events ≡ true
    → check_dedup now_ms id key window db ≡ true
unfolding check_dedup
check_dedup-seen now_ms since window id key db positive_window back seen =
    let found = is_recent_mono id key (cutoff now_ms window) since db.events back seen in
    ground
      (arith, positive_window, found, any-count (is_recent id key (cutoff now_ms window)) db.events)
