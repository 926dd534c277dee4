-- ===== src/StrategyScenarios.antt =====
-- A small table of strategies, and what the theorems say of it.
use onchain_strategy_mcp.Prelude.{
  String, Bool, false, Option, none, some, [], ◌∷◌, ◌≡◌, refl, arith, ◌==◌, string_eq, length,
  if◌then◌else◌, ltb,
}
use onchain_strategy_mcp.Prelude.Text.{Text, codes}
use onchain_strategy_mcp.Prelude.Result.{ok}
use onchain_strategy_mcp.State.Strategies.{
  Strategy, Strategies, Bundle, RegisterOutcome, replaced_version, already_exists, new_strategy,
  set_deleted, get_by_id, get_by_name, content_id, effective_lineage, register, register_version,
  insert_strategy, soft_delete, lineage_frame, write_section,
}
use onchain_strategy_mcp.State.Strategies.Register.{IsSound}
use onchain_strategy_mcp.State.Strategies.Register.Replaced.{register-replaces}
use onchain_strategy_mcp.State.Strategies.Register.Installed.{new_version_of, register-installed}
use onchain_strategy_mcp.State.Strategies.Framing.{lineage_frame-injective}

-- A stand-in for the hash: it tells a short content from a long one.
abbrev digest : Text → String
digest t = if ltb (length t) 100 then "short" else "long"

abbrev bundle : Text → Bundle
bundle source = record {
  name = "rebalance";
  source = source;
  description = none;
  tags = none;
  records_json = none;
  view_source = none;
  contracts_touched_json = none;
  actions_json = none;
}

abbrev first_version : Strategy
first_version = new_strategy (bundle (codes "a")) "short" "lineage" "t0"

abbrev table : Strategies
table = first_version ∷ []

table-IsSound : IsSound table
table-IsSound = ((λ id. ground arith), (λ n. ground arith), λ l. ground arith)

abbrev longer : Bundle
longer = bundle (codes "return allocate();")

abbrev second_version : Strategy
second_version = new_strategy longer "long" "lineage" "t1"

abbrev replacement : RegisterOutcome
replacement =
    replaced_version second_version (set_deleted "t1" first_version) 2 1 Bool.true Bool.false
      Bool.false Bool.false

replaces : (register digest codes longer "fresh" "t1" table).0 ≡ ok replacement
unfolding register register_version insert_strategy lineage_frame write_section
replaces = refl

register-installed_example :
    (get_by_name "rebalance" (register digest codes longer "fresh" "t1" table).1
      ≡ some second_version)
    × ("lineage" ≡ effective_lineage digest codes "fresh" (get_by_name "rebalance" table))
register-installed_example =
    register-installed digest codes longer "fresh" "t1" table replacement second_version replaces
      refl

new_content :
    get_by_id (content_id digest codes longer "fresh" (get_by_name "rebalance" table)) table ≡ none
unfolding lineage_frame write_section
new_content = refl

register-replaces_example :
    (let id = content_id digest codes longer "fresh" (get_by_name "rebalance" table) in
      let s = new_strategy longer id "lineage" "t1" in
      let r = register digest codes longer "fresh" "t1" table in
      ((o : RegisterOutcome) × (r.0 ≡ ok o) × (new_version_of o ≡ some s))
      × (get_by_name "rebalance" r.1 ≡ some s)
      × (get_by_id "short" r.1 ≡ some (set_deleted "t1" first_version))
      × ((j : String)
          → (j == "short") ≡ false
          → (id == j) ≡ false
          → get_by_id j r.1 ≡ get_by_id j table))
register-replaces_example =
    register-replaces digest codes longer "fresh" "t1" table first_version table-IsSound refl
      new_content

-- The first content registered again: the answer is the version that was replaced and deleted, and
-- the second version stays active.
reverted :
    register digest codes
      (bundle (codes "a"))
      "fresh"
      "t2"
      (register digest codes longer "fresh" "t1" table).1
    ≡ (
      ok (already_exists (set_deleted "t1" first_version)),
      set_deleted "t1" first_version ∷ second_version ∷ [],
    )
unfolding register register_version insert_strategy lineage_frame write_section
reverted = refl

deleted_once : (soft_delete "short" "t3" table).0 ≡ ok "t3"
unfolding soft_delete
deleted_once = refl

same_frames :
    lineage_frame (codes "l") (codes "a") none (some (codes "v")) none
    ≡ lineage_frame (codes "l") (codes "a") (some []) (some (codes "v")) none
unfolding lineage_frame
same_frames = refl

lineage_frame-injective_example :
    (codes "l" ≡ codes "l")
    × (codes "a" ≡ codes "a")
    × (◌≡◌ {A = Text} [] [])
    × (codes "v" ≡ codes "v")
    × (◌≡◌ {A = Option Text} none none)
lineage_frame-injective_example =
    lineage_frame-injective (codes "l") (codes "l") (codes "a") (codes "a") none (some [])
      (some (codes "v")) (some (codes "v")) none none
      (omega arith, omega arith, omega arith, omega arith, omega arith)
      (omega arith, omega arith, omega arith, omega arith, omega arith) same_frames
