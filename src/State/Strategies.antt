-- ===== src/State/Strategies.antt =====
-- crates/executor-state/src/strategies.rs: content-addressed strategies with their lineage. A table
-- that was migrated is modelled: every row has a lineage. The hash function (`Sha256` and hex) is a
-- parameter, the bytes that it is given are written out; the lineage and the time that a call mints
-- are arguments. Tags are kept as the list that their JSON text spells.
pub mod Register
pub mod Framing
use onchain_strategy_mcp.Prelude.{
  ℕ, ◌+◌, ◌/◌, ◌%◌, ◌^◌, String, Bool, true, false, not, ◌&&◌, Option, none, some, List, [], ◌∷◌,
  ◌++◌, length, ◌==◌, string_eq, if◌then◌else◌, any, is_some, unwrap_or,
}
use onchain_strategy_mcp.Prelude.Text.{Text, codes, text_eq}
use onchain_strategy_mcp.Prelude.Result.{Result, ok, err}
use onchain_strategy_mcp.State.Table.{find, count, update}
use onchain_strategy_mcp.State.Error.{
  StateError, storage, not_found, primary_key, unique_index, strategy, Call,
}

pub record Strategy : Type 0 where
  pub id : String
  pub name : String
  pub source : Text
  pub description : Option String
  pub tags : Option (List String)
  pub created_at : String
  pub deleted_at : Option String
  pub records_json : Option Text
  pub view_source : Option Text
  pub contracts_touched_json : Option Text
  pub lineage_id : String
  pub actions_json : Option Text

abbrev pub Strategies : Type 0
Strategies = List Strategy

-- What a registration is given.
pub record Bundle : Type 0 where
  pub name : String
  pub source : Text
  pub description : Option String
  pub tags : Option (List String)
  pub records_json : Option Text
  pub view_source : Option Text
  pub contracts_touched_json : Option Text
  pub actions_json : Option Text

pub data RegisterOutcome : Type 0 where
  created : Strategy → RegisterOutcome
  already_exists : Strategy → RegisterOutcome
  -- The new row, the row before it, the two version numbers, and which parts changed.
  replaced_version :
      Strategy
      → Strategy
      → ℕ
      → ℕ
      → (execute_changed records_changed view_changed actions_changed : Bool) → RegisterOutcome

-- `(body.len() as u64).to_be_bytes()`
abbrev pub be_bytes : ℕ → Text → Text
be_bytes n rest =
    (n / 2 ^ 56) % 256
    ∷ (n / 2 ^ 48) % 256
    ∷ (n / 2 ^ 40) % 256
    ∷ (n / 2 ^ 32) % 256
    ∷ (n / 2 ^ 24) % 256
    ∷ (n / 2 ^ 16) % 256
    ∷ (n / 2 ^ 8) % 256
    ∷ n % 256
    ∷ rest

-- What is hashed after a section is what follows it: `rest`.
unfoldable pub write_section : String → Text → Text → Text
write_section tag body rest = codes tag ++ 58 ∷ be_bytes (length body) (10 ∷ (body ++ 10 ∷ rest))

abbrev pub or_empty : Option Text → Text
or_empty o = unwrap_or o []

abbrev pub bundle_sections : Text → Option Text → Option Text → Text → Text
bundle_sections source records view rest =
    write_section "execute" source
      (write_section "records" (or_empty records) (write_section "view" (or_empty view) rest))

abbrev pub actions_section : Option Text → Text
actions_section none = []
actions_section (some a) = write_section "actions" a []

abbrev pub frame_tag : Option Text → Text
frame_tag none = codes "osmcp-bundle-v1.8\n"
frame_tag (some a) = codes "osmcp-bundle-v1.10\n"

-- The bytes that `hash_bundle_with_lineage` hashes, for a lineage.
unfoldable pub lineage_frame : Text → Text → Option Text → Option Text → Option Text → Text
lineage_frame lineage source records view actions =
    frame_tag actions
    ++ write_section "lineage" lineage
        (bundle_sections source records view (actions_section actions))

-- The bytes that `hash_bundle` hashes.
unfoldable pub bundle_frame : Text → Option Text → Option Text → Text
bundle_frame source none none = source
bundle_frame source (some r) view =
    codes "osmcp-bundle-v1\n" ++ bundle_sections source (some r) view []
bundle_frame source none (some v) =
    codes "osmcp-bundle-v1\n" ++ bundle_sections source none (some v) []

abbrev pub has_id : String → Strategy → Bool
has_id id s = s.id == id

abbrev pub is_active : Strategy → Bool
is_active s = not (is_some s.deleted_at)

-- `WHERE name = ? AND deleted_at IS NULL`
abbrev pub is_active_name : String → Strategy → Bool
is_active_name name s = s.name == name && is_active s

abbrev pub is_active_lineage : String → Strategy → Bool
is_active_lineage lineage s = s.lineage_id == lineage && is_active s

abbrev pub get_by_id : String → Strategies → Option Strategy
get_by_id id t = find (has_id id) t

abbrev pub get_by_name : String → Strategies → Option Strategy
get_by_name name t = find (is_active_name name) t

abbrev pub get_active_for_lineage : String → Strategies → Option Strategy
get_active_for_lineage lineage t = find (is_active_lineage lineage) t

-- Version numbers are kept below 2 ^ 32 in the source; the count of a lineage's rows is.
abbrev pub lineage_version_count : String → Strategies → ℕ
lineage_version_count lineage t = count (λ s. s.lineage_id == lineage) t

abbrev pub set_deleted : String → Strategy → Strategy
set_deleted now s = record s { deleted_at = some now }

-- The INSERT, with the primary key and the two unique indexes on active rows.
unfoldable pub insert_strategy : Strategy → Call Strategies (Unit {0})
insert_strategy s t =
    if any (has_id s.id) t
    then (err (storage primary_key), t)
    else if any (is_active_name s.name) t
    then (err (storage unique_index), t)
    else if any (is_active_lineage s.lineage_id) t
    then (err (storage unique_index), t)
    else (ok tt, t ++ s ∷ [])

abbrev pub new_strategy : Bundle → String → String → String → Strategy
new_strategy b id lineage now = record {
  id = id;
  name = b.name;
  source = b.source;
  description = b.description;
  tags = b.tags;
  created_at = now;
  deleted_at = none;
  records_json = b.records_json;
  view_source = b.view_source;
  contracts_touched_json = b.contracts_touched_json;
  lineage_id = lineage;
  actions_json = b.actions_json;
}

abbrev pub option_text_beq : Option Text → Option Text → Bool
option_text_beq none none = true
option_text_beq none (some y) = false
option_text_beq (some x) none = false
option_text_beq (some x) (some y) = x == y

module _ (digest : Text → String) (bytes : String → Text) where
  -- `hash_bundle_with_lineage(Some(lineage), ..)`
  abbrev pub lineage_hash : Bundle → String → String
  lineage_hash b lineage =
      digest (lineage_frame (bytes lineage) b.source b.records_json b.view_source b.actions_json)

  abbrev pub bundle_hash : Bundle → String
  bundle_hash b = digest (bundle_frame b.source b.records_json b.view_source)

  -- Steps 1 and 2: the lineage, and the identifier that the content gets in it.
  abbrev pub effective_lineage : String → Option Strategy → String
  effective_lineage fresh none = fresh
  effective_lineage fresh (some active) = active.lineage_id

  abbrev pub content_id : Bundle → String → Option Strategy → String
  content_id b fresh none = lineage_hash b fresh
  content_id b fresh (some active) =
      if active.lineage_id == active.id && not (is_some b.actions_json)
      then bundle_hash b
      else lineage_hash b active.lineage_id

  -- Step 4 with no active row of the name.
  unfoldable pub register_fresh :
      Bundle → String → String → String → Call Strategies RegisterOutcome
  register_fresh b id lineage now t =
      let (r, t') = insert_strategy (new_strategy b id lineage now) t in
      elim r [ err e ↦ (err e, t') | ok _ ↦ (ok (created (new_strategy b id lineage now)), t') ]

  abbrev pub replaced : Bundle → Strategy → Strategy → Strategies → Strategies → RegisterOutcome
  replaced b previous s before after =
      replaced_version s (unwrap_or (get_by_id previous.id after) previous)
        (lineage_version_count s.lineage_id before + 1) (lineage_version_count s.lineage_id before)
        (not (previous.source == b.source))
        (not (option_text_beq previous.records_json b.records_json))
        (not (option_text_beq previous.view_source b.view_source))
        (not (option_text_beq previous.actions_json b.actions_json))

  -- Step 4 with an active row: it is deleted softly, then the new version is inserted.
  unfoldable pub register_version :
      Bundle → String → String → Strategy → Call Strategies RegisterOutcome
  register_version b id now previous t =
      let deleted = update (λ s. s.id == previous.id && is_active s) (set_deleted now) t in
      let s = new_strategy b id previous.lineage_id now in
      let (r, t') = insert_strategy s deleted in
      elim r [ err e ↦ (err e, t') | ok _ ↦ (ok (replaced b previous s t t'), t') ]

  abbrev pub register_new :
      Bundle → String → String → String → Option Strategy → Call Strategies RegisterOutcome
  register_new b fresh id now none = register_fresh b id fresh now
  register_new b fresh id now (some previous) = register_version b id now previous

  -- Step 3: a row with the identifier answers the call, whatever its name and whether it is deleted.
  abbrev pub register_unless :
      Option Strategy
      → Bundle
      → String
      → String
      → String
      → Option Strategy
      → Call Strategies RegisterOutcome
  register_unless (some existing) b fresh id now active t = (ok (already_exists existing), t)
  register_unless none b fresh id now active t = register_new b fresh id now active t

  unfoldable pub register : Bundle → String → String → Call Strategies RegisterOutcome
  register b fresh now t =
      let active = get_by_name b.name t in
      let id = content_id b fresh active in register_unless (get_by_id id t) b fresh id now active t

-- `soft_delete`: the time of the deletion, the old one if there is one.
abbrev pub deletion :
    Option Strategy → String → String → Strategies → Result StateError String × Strategies
deletion none id now t = (err (not_found (strategy id)), t)
deletion (some s) id now t = elim s.deleted_at [
  | some at_time ↦ (ok at_time, t)
  | none ↦ (ok now, update (has_id id) (set_deleted now) t)
]

unfoldable pub soft_delete : String → String → Call Strategies String
soft_delete id now t = deletion (get_by_id id t) id now t
