-- ===== src/Triggers/Pool/Boot.antt =====
-- Which workers run once the server has started.
use onchain_strategy_mcp.Prelude.{
  String, Bool, true, false, ◌&&◌, ◌||◌, Option, none, some, List, [], ◌∷◌, ◌≡◌, refl, ◌∙◌, ap, ltb,
  any, All, arith, ◌==◌, string_eq, Bool-cases, ==_refl, inl, inr,
}
use text.Mathlib.TextEquality.{eq_iff}
use onchain_strategy_mcp.Prelude.Result.{Result, ok, err, collect, collect_cons, ◌>>=◌}
use onchain_strategy_mcp.State.Table.{find, filter}
use onchain_strategy_mcp.State.Keys.{any-append, All-filter, UniqueKeys}
use onchain_strategy_mcp.State.Error.{StateError}
use onchain_strategy_mcp.State.Triggers.{
  TriggerKind, interval, manual, mempool, log, block, webhook, TriggerRow, Trigger, Tables, has_id,
  get_by_id, optional_trigger, transposed, typed, map_trigger_row, as_wire, from_wire, with_kind,
  is_listed, insert_newest, newest_first, list_triggers,
}
use onchain_strategy_mcp.State.Triggers.Sound.{IsSound, HasKind, from_wire-as_wire}
use onchain_strategy_mcp.State.Triggers.Recent.{get_by_id-some}
use onchain_strategy_mcp.Triggers.Pool.{
  Parsers, PoolError, Worker, interval_worker, mempool_worker, log_worker, interval_of,
  parse_mempool_config, parse_log_config, worker_of, started, spawn, boot_one, boot_all,
  boot_filter, boot_listed, boot,
}

abbrev pub worker_id : Worker → String
worker_id (interval_worker id ms) = id
worker_id (mempool_worker id url to from) = id
worker_id (log_worker id url address topics) = id

abbrev pub is_worker_of : String → Worker → Bool
is_worker_of id w = worker_id w == id

-- A worker is made.
abbrev pub makes : Result PoolError (Option Worker) → Bool
makes (err e) = false
makes (ok none) = false
makes (ok (some w)) = true

module _ (parsers : Parsers) (url : Option String) where
  -- A trigger that is read is enabled, and its worker is made.
  abbrev pub starts : Result StateError (Option Trigger) → Bool
  starts (err e) = false
  starts (ok none) = false
  starts (ok (some t)) = t.enabled && makes (worker_of parsers t.kind t url)

  started-from :
      {C : Type 0} (m : Result PoolError C) (f : C → Worker) (tid id : String) (pool : List Worker)
      → ((c : C) → worker_id (f c) ≡ tid)
      → any (is_worker_of id) (started parsers (m >>= λ c. ok (some (f c))) pool).1
        ≡ (any (is_worker_of id) pool || makes (m >>= λ c. ok (some (f c))) && (tid == id))
  started-from (err e) f tid id pool h = ground arith
  started-from (ok c) f tid id pool h =
      any-append (is_worker_of id) pool (f c ∷ []) ∙ rw (h c) (ground arith)

  started-none :
      (id : String) (pool : List Worker) (b : Bool)
      → any (is_worker_of id) pool ≡ (any (is_worker_of id) pool || false && b)
  started-none id pool b = ground arith

  -- A worker is of its own trigger.
  spawn-any :
      (k : TriggerKind) (t : Trigger) (id : String) (u : Option String) (pool : List Worker)
      → any (is_worker_of id) (started parsers (worker_of parsers k t u) pool).1
        ≡ (any (is_worker_of id) pool || makes (worker_of parsers k t u) && (t.id == id))
  spawn-any interval t id u pool =
      started-from (interval_of parsers t.config_json) (interval_worker t.id) t.id id pool
        (λ c. refl)
  spawn-any manual t id u pool = started-none id pool (t.id == id)
  spawn-any mempool t id none pool = started-none id pool (t.id == id)
  spawn-any mempool t id (some w) pool =
      started-from (parse_mempool_config parsers t.config_json) (λ c. mempool_worker t.id w c.0 c.1)
        t.id id pool (λ c. refl)
  spawn-any log t id none pool = started-none id pool (t.id == id)
  spawn-any log t id (some w) pool =
      started-from (parse_log_config parsers t.config_json) (λ c. log_worker t.id w c.0 c.1) t.id id
        pool (λ c. refl)
  spawn-any block t id u pool = started-none id pool (t.id == id)
  spawn-any webhook t id u pool = started-none id pool (t.id == id)

  -- As `starts`, whether or not the trigger is enabled.
  abbrev made_for : Result StateError (Option Trigger) → Bool
  made_for (err e) = false
  made_for (ok none) = false
  made_for (ok (some t)) = makes (worker_of parsers t.kind t url)

  boot_one-any :
      (r : Result StateError (Option Trigger)) (sid id : String) (pool : List Worker)
      → ((t : Trigger) → r ≡ ok (some t) → t.id ≡ sid)
      → any (is_worker_of id) (boot_one parsers url r pool)
        ≡ (any (is_worker_of id) pool || made_for r && (sid == id))
  unfolding spawn
  boot_one-any (err e) sid id pool h = ground arith
  boot_one-any (ok none) sid id pool h = ground arith
  boot_one-any (ok (some t)) sid id pool h = spawn-any t.kind t id url pool ∙ rw (h t refl) refl

  boot_all-any :
      (db : Tables) (id : String) (l : List Trigger) (pool : List Worker)
      → any (is_worker_of id) (boot_all parsers url db l pool)
        ≡ (any (is_worker_of id) pool || made_for (get_by_id id db) && any (λ s. s.id == id) l)
  unfolding boot_all
  boot_all-any db id [] pool = ground arith
  boot_all-any db id (s ∷ l) pool =
      boot_all-any db id l (boot_one parsers url (get_by_id s.id db) pool)
      ∙ rw
          (boot_one-any (get_by_id s.id db) s.id id pool
            (λ t got. (get_by_id-some s.id db t got).0))
          (elim (Bool-cases (s.id == id)) [
            | inl hit ↦ rw ((eq_iff s.id id).0 hit) (ground (arith, ==_refl id))
            | inr miss ↦ rw miss (ground arith)
          ])

insert_newest-any :
    (p : TriggerRow → Bool) (r : TriggerRow) (l : List TriggerRow)
    → any p (insert_newest r l) ≡ (p r || any p l)
insert_newest-any p r [] = refl
insert_newest-any p r (x ∷ xs) = ground (arith, insert_newest-any p r xs)

newest_first-any : (p : TriggerRow → Bool) (l : List TriggerRow) → any p (newest_first l) ≡ any p l
unfolding newest_first
newest_first-any p [] = refl
newest_first-any p (r ∷ rs) =
    insert_newest-any p r (newest_first rs) ∙ rw (newest_first-any p rs) refl

insert_newest-All :
    (P : TriggerRow → Type 0) (r : TriggerRow) (l : List TriggerRow)
    → P r
    → All P l
    → All P (insert_newest r l)
insert_newest-All P r [] p h = (p, tt)
insert_newest-All P r (x ∷ xs) p h = elim (Bool-cases (ltb r.created_at x.created_at)) [
  | inl older ↦ rw older (h.0, insert_newest-All P r xs p h.1)
  | inr newer ↦ rw newer (p, h)
]

newest_first-All :
    (P : TriggerRow → Type 0) (l : List TriggerRow) → All P l → All P (newest_first l)
unfolding newest_first
newest_first-All P [] h = tt
newest_first-All P (r ∷ rs) h =
    insert_newest-All P r (newest_first rs) h.0 (newest_first-All P rs h.1)

row_read :
    (r : TriggerRow) (k : TriggerKind) → r.kind ≡ as_wire k → map_trigger_row r ≡ ok (typed r k)
row_read r k same = ap (with_kind r) (ap from_wire same ∙ from_wire-as_wire k)

-- Rows of known kinds are all read.
collected :
    (id : String) (l : List TriggerRow)
    → All HasKind l
    → (ts : List Trigger) × (collect map_trigger_row l ≡ ok ts)
      × (any (λ t. t.id == id) ts ≡ any (has_id id) l)
collected id [] h = ([], refl, refl)
collected id (r ∷ rs) ((k, same), h) =
    let (ts, read, found) = collected id rs h in
    (
      typed r k ∷ ts,
      collect_cons map_trigger_row r rs (typed r k) ts (row_read r k same) read,
      rw found refl,
    )

not_listed :
    (j id : String) (ts : List TriggerRow)
    → any (has_id j) ts ≡ false
    → j ≡ id
    → any (has_id id) (filter (is_listed boot_filter) ts) ≡ false
not_listed j id [] h e = refl
not_listed j id (r ∷ ts) h e =
    ground (arith, not_listed j id ts, h, e, eq_iff r.id id, eq_iff r.id j)

-- The row of a trigger is enabled.
abbrev row_enabled : Option TriggerRow → Bool
row_enabled none = false
row_enabled (some r) = r.enabled

-- With unique identifiers, the list at boot has a trigger exactly when its row is enabled.
boot_filter-any :
    (id : String) (ts : List TriggerRow)
    → UniqueKeys (λ t. t.id) ts
    → any (has_id id) (filter (is_listed boot_filter) ts) ≡ row_enabled (find (has_id id) ts)
boot_filter-any id [] u = refl
boot_filter-any id (r ∷ ts) u =
    ground (arith, boot_filter-any id ts u.1, eq_iff r.id id, not_listed r.id id ts u.0)

starts-made :
    (parsers : Parsers) (url : Option String) (o : Option TriggerRow)
    → (made_for parsers url (optional_trigger o) && row_enabled o)
      ≡ starts parsers url (optional_trigger o)
starts-made parsers url none = refl
starts-made parsers url (some r) = go (from_wire r.kind)
  where
    go :
        (k : Option TriggerKind)
        → (made_for parsers url (transposed (with_kind r k)) && r.enabled)
          ≡ starts parsers url (transposed (with_kind r k))
    go none = refl
    go (some k) = ground arith

-- After the server has started with sound tables, a trigger has a running worker exactly when it is
-- in the table, is enabled, and its worker can be made of its kind, its configuration and the socket.
pub boot-running :
    (parsers : Parsers) (url : Option String) (db : Tables) (id : String)
    → IsSound db
    → any (is_worker_of id) (boot parsers url db) ≡ starts parsers url (get_by_id id db)
unfolding boot list_triggers get_by_id
boot-running parsers url db id s =
    let listed = newest_first (filter (is_listed boot_filter) db.triggers) in
    let known =
      newest_first-All HasKind (filter (is_listed boot_filter) db.triggers)
        (All-filter HasKind (is_listed boot_filter) db.triggers s.3) in
    let (ts, read, found) = collected id listed known in
    let in_list : any (λ t. t.id == id) ts ≡ row_enabled (find (has_id id) db.triggers) =
      found
      ∙ newest_first-any (has_id id) (filter (is_listed boot_filter) db.triggers)
      ∙ boot_filter-any id db.triggers s.0 in
    ap (λ l. any (is_worker_of id) (boot_listed parsers url db l)) read
    ∙ boot_all-any parsers url db id ts []
    ∙ rw in_list (starts-made parsers url (find (has_id id) db.triggers))
