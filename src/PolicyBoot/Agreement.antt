-- ===== src/PolicyBoot/Agreement.antt =====
-- The policy in memory and the active revision say the same. The sections of a configuration are
-- hash maps in the source: what is printed and read again has its entries in any order.
use onchain_strategy_mcp.Prelude.{
  String, Bool, true, false, not, Option, none, some, ◌≡◌, refl, sym, ◌∙◌, ap, subst, if◌then◌else◌,
}
use mathlib.Core.List.{Perm}
use mathlib.Core.List.Permᴰ
use onchain_strategy_mcp.Prelude.Text.{Text}
use onchain_strategy_mcp.Prelude.Json.{Json}
use onchain_strategy_mcp.Prelude.Result.{Result, ok, err}
use onchain_strategy_mcp.Alloy.{Alloy}
use onchain_strategy_mcp.Policy.Model.{LoadedPolicy}
use onchain_strategy_mcp.Policy.Config.{PolicyConfig, PolicyError}
use onchain_strategy_mcp.Policy.Load.{resolve}
use onchain_strategy_mcp.State.Error.{StateError}
use onchain_strategy_mcp.State.Revisions.{
  Policies, PolicyRevision, get_active, set_active, active_after, get_active-set_active,
  set_active-body,
}
use onchain_strategy_mcp.PolicyBoot.{
  Serde, TomlFile, PolicySetError, import_reason, canonicalize_failed, Server, policy_of, imported,
  import_resolved, import_config, import_contents, import_file, boot_from, resolve_boot_policy,
  canonical, parse_config, parse_value, unwrap_string, parse_policy_json, swap_policy, set_parsed,
  policy_set,
}

-- The same configuration, up to the order of the entries of its sections.
pub record IsReordered (c d : PolicyConfig) : Type 0 where
  pub chains_allow : c.chains_allow ≡ d.chains_allow
  pub contracts : Perm c.contracts d.contracts
  pub selectors : Perm c.selectors d.selectors
  pub native_value : Perm c.native_value d.native_value
  pub erc20_spend : Perm c.erc20_spend d.erc20_spend
  pub raw_call : c.raw_call ≡ d.raw_call

pub IsReordered-refl : (c : PolicyConfig) → IsReordered c c
IsReordered-refl c = record {
  chains_allow = refl;
  contracts = ∣ Permᴰ.refl c.contracts ∣₁;
  selectors = ∣ Permᴰ.refl c.selectors ∣₁;
  native_value = ∣ Permᴰ.refl c.native_value ∣₁;
  erc20_spend = ∣ Permᴰ.refl c.erc20_spend ∣₁;
  raw_call = refl;
}

-- A configuration that is printed is read back as itself, up to the order of its sections.
abbrev pub KeepsConfig : Serde → Type 0
KeepsConfig serde =
    (cfg : PolicyConfig) (body : Text)
    → serde.to_string cfg ≡ some body
    → (c : PolicyConfig) × (serde.from_str body ≡ some c) × IsReordered c cfg

module _ (alloy : Alloy) (serde : Serde) where
  -- The policy that a configuration gives in some order of its sections, or none for a body that is
  -- not a configuration.
  abbrev pub Gives : Option PolicyConfig → Option LoadedPolicy → Type 0
  Gives none p = p ≡ none
  Gives (some cfg) p = (c : PolicyConfig) × IsReordered cfg c × (p ≡ policy_of alloy serde (some c))

  abbrev pub GivenBy : Option LoadedPolicy → Option PolicyRevision → Type 0
  GivenBy p none = p ≡ none
  GivenBy p (some r) = Gives (serde.from_str r.body_json) p

  -- The policy in memory is one that the body of the active revision gives; there is none if no
  -- revision is active.
  abbrev pub Agrees : Server → Type 0
  Agrees s = GivenBy s.policy (get_active s.policies)

  Gives-policy_of : (o : Option PolicyConfig) → Gives o (policy_of alloy serde o)
  Gives-policy_of none = refl
  Gives-policy_of (some c) = (c, IsReordered-refl c, refl)

  -- The server after a start.
  abbrev pub booted : Option LoadedPolicy × Policies → Server
  booted (p, t) = record { policies = t; policy = p }

  -- One start on the table that is there, or one call of the tool.
  pub data Step : Server → Server → Type 0 where
    starts :
        (file : Option TomlFile) (new_id now : String) (s : Server)
        → Step s (booted (resolve_boot_policy alloy serde file new_id now s.policies))
    sets :
        (body : Json) (rationale : Option String) (new_id now : String) (s : Server)
        → Step s (policy_set alloy serde body rationale new_id now s).1

  pub data Reach (s : Server) : Server → Type 0 where
    here : Reach s s
    next : {t u : Server} → Reach s t → Step t u → Reach s u

  module _ (keeps : KeepsConfig serde) where
    -- A revision that was just written is active, and its body gives the policy that was resolved.
    written :
        (cfg : PolicyConfig) (l : LoadedPolicy) (body : Text) (rationale : Option String)
        (new_id now : String) (t : Policies) (r : PolicyRevision)
        → resolve alloy cfg ≡ ok l
        → serde.to_string cfg ≡ some body
        → (set_active new_id now body rationale t).0 ≡ ok r
        → GivenBy (some l) (get_active (set_active new_id now body rationale t).1)
    written cfg l body rationale new_id now t r resolved printed done =
        let active =
          get_active-set_active new_id now body rationale t ∙ ap (λ x. active_after x t) done in
        let same = set_active-body new_id now body rationale t r done in
        let (c, read, reordered) = keeps cfg body printed in
        rw (active, same, read) (cfg, reordered, rw resolved refl)

    failed :
        (body : Text) (rationale : Option String) (new_id now : String) (t : Policies)
        (e : StateError)
        → (set_active new_id now body rationale t).0 ≡ err e
        → get_active (set_active new_id now body rationale t).1 ≡ get_active t
    failed body rationale new_id now t e h =
        get_active-set_active new_id now body rationale t ∙ ap (λ x. active_after x t) h

    import_resolved-Agrees :
        (cfg : PolicyConfig) (new_id now : String) (t : Policies)
        → get_active t ≡ none
        → (r : Result PolicyError LoadedPolicy) → resolve alloy cfg ≡ r
        → (o : Option Text) → serde.to_string cfg ≡ o
        → Agrees (booted (import_resolved alloy serde cfg r new_id now t))
    import_resolved-Agrees cfg new_id now t empty (err e) resolved o printed = rw empty refl
    import_resolved-Agrees cfg new_id now t empty (ok l) resolved none printed =
        rw (printed, empty) refl
    import_resolved-Agrees cfg new_id now t empty (ok l) resolved (some body) printed =
        rw printed (answered (set_active new_id now body import_reason t).0 refl)
      where
        answered :
            (r : Result StateError PolicyRevision)
            → (set_active new_id now body import_reason t).0 ≡ r
            → Agrees (
                booted (imported alloy serde l (r, (set_active new_id now body import_reason t).1)))
        answered (ok r) done = written cfg l body import_reason new_id now t r resolved printed done
        answered (err e) done = rw (failed body import_reason new_id now t e done, empty) refl

    import_file-Agrees :
        (file : Option TomlFile) (new_id now : String) (t : Policies)
        → get_active t ≡ none
        → Agrees (booted (import_file alloy serde file new_id now t))
    import_file-Agrees none new_id now t empty = rw empty refl
    import_file-Agrees (some file) new_id now t empty = there file.exists
      where
        read :
            (o : Option PolicyConfig) → Agrees (booted (import_config alloy serde o new_id now t))
        read none = rw empty refl
        read (some cfg) =
            import_resolved-Agrees cfg new_id now t empty (resolve alloy cfg) refl
              (serde.to_string cfg) refl

        contents : (o : Option Text) → Agrees (booted (import_contents alloy serde o new_id now t))
        contents none = rw empty refl
        contents (some raw) = read (serde.from_toml raw)

        there :
            (b : Bool)
            → Agrees (
                booted (
                  if not b
                  then (none, t)
                  else import_contents alloy serde file.contents new_id now t))
        there false = rw empty refl
        there true = contents file.contents

    resolve_boot_policy-Agrees :
        (file : Option TomlFile) (new_id now : String) (t : Policies)
        → Agrees (booted (resolve_boot_policy alloy serde file new_id now t))
    unfolding resolve_boot_policy
    resolve_boot_policy-Agrees file new_id now t = go (get_active t) refl
      where
        go :
            (o : Option PolicyRevision)
            → get_active t ≡ o
            → Agrees (booted (boot_from alloy serde o file new_id now t))
        go none empty = import_file-Agrees file new_id now t empty
        go (some r) active = rw active (Gives-policy_of (serde.from_str r.body_json))

    set_parsed-Agrees :
        (p : Result PolicySetError (LoadedPolicy × Text)) (rationale : Option String)
        (new_id now : String) (s : Server)
        → ((l : LoadedPolicy) (body : Text)
            → p ≡ ok (l, body)
            → (cfg : PolicyConfig) × (resolve alloy cfg ≡ ok l) × (serde.to_string cfg ≡ some body))
        → Agrees s
        → Agrees (set_parsed alloy serde p rationale new_id now s).1
    set_parsed-Agrees (err e) rationale new_id now s from_config h = h
    set_parsed-Agrees (ok (l, body)) rationale new_id now s from_config h =
        let (cfg, resolved, printed) = from_config l body refl in
        swapped cfg resolved printed (set_active new_id now body rationale s.policies).0 refl
      where
        swapped :
            (cfg : PolicyConfig)
            → resolve alloy cfg ≡ ok l
            → serde.to_string cfg ≡ some body
            → (r : Result StateError PolicyRevision)
            → (set_active new_id now body rationale s.policies).0 ≡ r
            → Agrees
                (swap_policy alloy serde l r
                  (record s { policies = (set_active new_id now body rationale s.policies).1 })).1
        swapped cfg resolved printed (ok r) done =
            written cfg l body rationale new_id now s.policies r resolved printed done
        swapped cfg resolved printed (err e) done =
            subst (GivenBy s.policy) (sym (failed body rationale new_id now s.policies e done)) h

    -- A parsed body comes from a configuration that resolves to the policy and prints to the body.
    parse_policy_json-ok :
        (body : Json) (l : LoadedPolicy) (text : Text)
        → parse_policy_json alloy serde body ≡ ok (l, text)
        → (cfg : PolicyConfig) × (resolve alloy cfg ≡ ok l) × (serde.to_string cfg ≡ some text)
    unfolding parse_policy_json
    parse_policy_json-ok body l text h = value (unwrap_string alloy serde body) h
      where
        printed :
            (cfg : PolicyConfig) (m : LoadedPolicy) (o : Option Text)
            → (elim o as (λ _. Result PolicySetError (LoadedPolicy × Text)) [
              | none ↦ err canonicalize_failed
              | some t ↦ ok (m, t)
            ])
              ≡ ok (l, text)
            → (m ≡ l) × (o ≡ some text)
        printed cfg m none q = absurd (cc q)
        printed cfg m (some t) q = (cc q, cc q)

        resolved :
            (cfg : PolicyConfig) (r : Result PolicyError LoadedPolicy)
            → resolve alloy cfg ≡ r
            → canonical alloy serde cfg r ≡ ok (l, text)
            → (c : PolicyConfig) × (resolve alloy c ≡ ok l) × (serde.to_string c ≡ some text)
        resolved cfg (err e) e0 q = absurd (cc q)
        resolved cfg (ok m) e0 q =
            let (same, text_is) = printed cfg m (serde.to_string cfg) q in
            (cfg, e0 ∙ ap ok same, text_is)

        config :
            (o : Option PolicyConfig)
            → parse_config alloy serde o ≡ ok (l, text)
            → (c : PolicyConfig) × (resolve alloy c ≡ ok l) × (serde.to_string c ≡ some text)
        config none q = absurd (cc q)
        config (some cfg) q = resolved cfg (resolve alloy cfg) refl q

        value :
            (o : Option Json)
            → parse_value alloy serde o ≡ ok (l, text)
            → (c : PolicyConfig) × (resolve alloy c ≡ ok l) × (serde.to_string c ≡ some text)
        value none q = absurd (cc q)
        value (some j) q = config (serde.from_value j) q

    Step-Agrees : {s t : Server} → Step s t → Agrees s → Agrees t
    unfolding policy_set
    Step-Agrees (starts file new_id now s) h = resolve_boot_policy-Agrees file new_id now s.policies
    Step-Agrees (sets body rationale new_id now s) h =
        set_parsed-Agrees (parse_policy_json alloy serde body) rationale new_id now s
          (λ l text. parse_policy_json-ok body l text) h

    -- When a configuration that is printed is read back as itself up to the order of its sections,
    -- then after any starts of the server and any policies that are set one after the other, whether
    -- they are accepted or refused, the policy in memory is what the configuration of the active
    -- revision resolves to in some order of its sections, and there is none if that has no
    -- configuration, does not resolve, or no revision is active.
    pub Reach-Agrees : {s t : Server} → Reach s t → Agrees s → Agrees t
    Reach-Agrees here h = h
    Reach-Agrees (next r st) h = Step-Agrees st (Reach-Agrees r h)
