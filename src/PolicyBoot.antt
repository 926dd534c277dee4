-- ===== src/PolicyBoot.antt =====
-- crates/executor-mcp/src/policy_boot.rs, and `policy_set` of crates/executor-mcp/src/tools.rs up to
-- its answer: where the policy that gates the runs comes from. The readers and printers of JSON and
-- TOML are parameters; the identifier and the time of a revision are arguments.
pub mod Agreement
use onchain_strategy_mcp.Prelude.{
  String, Bool, true, false, not, Option, none, some, List, if◌then◌else◌,
}
use onchain_strategy_mcp.Prelude.Text.{Text}
use onchain_strategy_mcp.Prelude.Json.{Json}
use onchain_strategy_mcp.Prelude.Result.{Result, ok, err}
use onchain_strategy_mcp.Alloy.{Alloy}
use onchain_strategy_mcp.Policy.Model.{LoadedPolicy}
use onchain_strategy_mcp.Policy.Config.{PolicyConfig, PolicyError}
use onchain_strategy_mcp.Policy.Load.{resolve}
use onchain_strategy_mcp.State.Error.{StateError}
use onchain_strategy_mcp.State.Revisions.{Policies, PolicyRevision, get_active, set_active}

-- serde_json and toml, as the code calls them.
pub record Serde : Type 0 where
  pub from_str : Text → Option PolicyConfig
  pub from_value : Json → Option PolicyConfig
  pub value_from_str : Text → Option Json
  pub to_string : PolicyConfig → Option Text
  pub from_toml : Text → Option PolicyConfig

-- The file at the configured path.
pub record TomlFile : Type 0 where
  pub exists : Bool
  pub contents : Option Text

pub data PolicySetError : Type 0 where
  bad_json_shape canonicalize_failed : PolicySetError
  policy : PolicyError → PolicySetError
  state : StateError → PolicySetError

-- The table of revisions, and the policy in memory that the runs are gated by.
pub record Server : Type 0 where
  pub policies : Policies
  pub policy : Option LoadedPolicy

abbrev pub import_reason : Option String
import_reason = some "initial import from .local/policy.toml"

module _ (alloy : Alloy) (serde : Serde) where
  abbrev pub loaded_or_none : Result PolicyError LoadedPolicy → Option LoadedPolicy
  loaded_or_none (ok l) = some l
  loaded_or_none (err e) = none

  -- A configuration that was read, or none: a failure leaves the server without a policy.
  abbrev pub policy_of : Option PolicyConfig → Option LoadedPolicy
  policy_of none = none
  policy_of (some cfg) = loaded_or_none (resolve alloy cfg)

  abbrev pub imported :
      LoadedPolicy → Result StateError PolicyRevision × Policies → Option LoadedPolicy × Policies
  imported l (ok revision, t) = (some l, t)
  imported l (err e, t) = (none, t)

  abbrev pub import_body :
      Option Text → LoadedPolicy → String → String → Policies → Option LoadedPolicy × Policies
  import_body none l new_id now t = (none, t)
  import_body (some body) l new_id now t = imported l (set_active new_id now body import_reason t)

  abbrev pub import_resolved :
      PolicyConfig
      → Result PolicyError LoadedPolicy
      → String
      → String
      → Policies
      → Option LoadedPolicy × Policies
  import_resolved cfg (err e) new_id now t = (none, t)
  import_resolved cfg (ok l) new_id now t = import_body (serde.to_string cfg) l new_id now t

  abbrev pub import_config :
      Option PolicyConfig → String → String → Policies → Option LoadedPolicy × Policies
  import_config none new_id now t = (none, t)
  import_config (some cfg) new_id now t = import_resolved cfg (resolve alloy cfg) new_id now t

  abbrev pub import_contents :
      Option Text → String → String → Policies → Option LoadedPolicy × Policies
  import_contents none new_id now t = (none, t)
  import_contents (some raw) new_id now t = import_config (serde.from_toml raw) new_id now t

  abbrev pub import_file :
      Option TomlFile → String → String → Policies → Option LoadedPolicy × Policies
  import_file none new_id now t = (none, t)
  import_file (some file) new_id now t =
      if not file.exists then (none, t) else import_contents file.contents new_id now t

  abbrev pub boot_from :
      Option PolicyRevision
      → Option TomlFile
      → String
      → String
      → Policies
      → Option LoadedPolicy × Policies
  boot_from (some revision) file new_id now t = (policy_of (serde.from_str revision.body_json), t)
  boot_from none file new_id now t = import_file file new_id now t

  -- The active revision, or else the file, which becomes the first revision.
  unfoldable pub resolve_boot_policy :
      Option TomlFile → String → String → Policies → Option LoadedPolicy × Policies
  resolve_boot_policy file new_id now t = boot_from (get_active t) file new_id now t

  -- A body that came as a JSON string is read once more.
  abbrev pub unwrap_string : Json → Option Json
  unwrap_string (Json.string s) = serde.value_from_str s
  unwrap_string Json.null = some Json.null
  unwrap_string (Json.bool b) = some (Json.bool b)
  unwrap_string (Json.number n) = some (Json.number n)
  unwrap_string (Json.array l) = some (Json.array l)
  unwrap_string (Json.object o) = some (Json.object o)

  abbrev pub canonical :
      PolicyConfig → Result PolicyError LoadedPolicy → Result PolicySetError (LoadedPolicy × Text)
  canonical cfg (err e) = err (policy e)
  canonical cfg (ok l) = elim (serde.to_string cfg) [
    | none ↦ err canonicalize_failed
    | some body ↦ ok (l, body)
  ]

  abbrev pub parse_config : Option PolicyConfig → Result PolicySetError (LoadedPolicy × Text)
  parse_config none = err bad_json_shape
  parse_config (some cfg) = canonical cfg (resolve alloy cfg)

  abbrev pub parse_value : Option Json → Result PolicySetError (LoadedPolicy × Text)
  parse_value none = err bad_json_shape
  parse_value (some j) = parse_config (serde.from_value j)

  unfoldable pub parse_policy_json : Json → Result PolicySetError (LoadedPolicy × Text)
  parse_policy_json body = parse_value (unwrap_string body)

  -- Step 4: the policy in memory is replaced, under its own lock, when the revision was written.
  abbrev pub swap_policy :
      LoadedPolicy
      → Result StateError PolicyRevision
      → Server
      → Result PolicySetError PolicyRevision × Server
  swap_policy l (err e) s = (err (state e), s)
  swap_policy l (ok revision) s = (ok revision, record s { policy = some l })

  -- Step 3: the new revision is written.
  abbrev pub write_revision :
      String → String → Text → Option String → Server → Result StateError PolicyRevision × Server
  write_revision new_id now body rationale s =
      let (r, t) = set_active new_id now body rationale s.policies in (r, record s { policies = t })

  abbrev pub set_parsed :
      Result PolicySetError (LoadedPolicy × Text)
      → Option String
      → String
      → String
      → Server
      → Result PolicySetError PolicyRevision × Server
  set_parsed (err e) rationale new_id now s = (err e, s)
  set_parsed (ok (l, body)) rationale new_id now s =
      let (r, s') = write_revision new_id now body rationale s in swap_policy l r s'

  unfoldable pub policy_set :
      Json
      → Option String
      → String
      → String
      → Server
      → Result PolicySetError PolicyRevision × Server
  policy_set body rationale new_id now s =
      set_parsed (parse_policy_json body) rationale new_id now s
