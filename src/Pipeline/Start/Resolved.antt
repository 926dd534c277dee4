-- ===== src/Pipeline/Start/Resolved.antt =====
-- What a run needs before it has a row: the strategy, not deleted, and the source of the action.
use onchain_strategy_mcp.Prelude.{
  String, false, Option, none, some, ◌≡◌, ◌≢◌, ◌↔◌, ap, arith, ◌==◌, string_eq, contains,
  Bool-cases, Option-cases, inl, inr,
}
use onchain_strategy_mcp.Prelude.Text.{Text}
use onchain_strategy_mcp.Prelude.Map.{get}
use onchain_strategy_mcp.Prelude.Result.{ok}
use onchain_strategy_mcp.State.Strategies.{Strategy, Strategies, get_by_id}
use onchain_strategy_mcp.Pipeline.Start.{
  Actions, actions_of, reserved_action_keys, or_unknown, resolved_source, load_strategy, trimmed,
  World,
}

-- Without a name it is the script of the strategy itself; a name that is neither empty nor reserved
-- stands for the source that the strategy keeps under it.
abbrev pub Resolves : (Text → Option Actions) → Strategy → Option String → Text → Type 0
Resolves parse s none source = s.source ≡ source
Resolves parse s (some name) source =
    (name ≢ "")
    × (contains reserved_action_keys name ≡ false)
    × (get (actions_of parse s.actions_json) name ≡ some source)

or_unknown_iff :
    (s : Strategy) (name : String) (acts : Actions) (o : Option Text) (source : Text)
    → (or_unknown s name acts o ≡ ok source) ↔ (o ≡ some source)
or_unknown_iff s name acts none source = (λ h. cc h, λ h. cc h)
or_unknown_iff s name acts (some t) source = (λ h. cc h, λ h. cc h)

pub resolved_source_iff :
    (parse : Text → Option Actions) (s : Strategy) (action : Option String) (source : Text)
    → (resolved_source parse s action ≡ ok source) ↔ Resolves parse s action source
unfolding resolved_source
resolved_source_iff parse s none source = (λ h. cc h, λ h. ap (λ t. ok t) h)
resolved_source_iff parse s (some name) source =
    let acts = actions_of parse s.actions_json in
    elim (Bool-cases (name == "")) [
      | inl e ↦ (λ h. absurd (cc (rw e at h)), λ h. absurd (h.0 ((string_eq.decides name "").0 e)))
      | inr e ↦ elim (Bool-cases (contains reserved_action_keys name)) [
        | inl r ↦ (λ h. absurd (cc (rw (e, r) at h)), λ h. absurd (cc (r, h.1)))
        | inr r ↦ (
          λ h. (
            λ q. cc (e, (string_eq.decides name "").1 q),
            r,
            (or_unknown_iff s name acts (get acts name) source).0 (rw (e, r) at h),
          ),
          λ h. rw (e, r) ((or_unknown_iff s name acts (get acts name) source).1 h.2),
        )
      ]
    ]

abbrev pub Loads : String → Strategies → Strategy → Type 0
Loads id t s = (get_by_id id t ≡ some s) × (s.deleted_at ≡ none)

pub load_strategy_iff :
    (id : String) (t : Strategies) (s : Strategy) → (load_strategy id t ≡ ok s) ↔ Loads id t s
unfolding load_strategy
load_strategy_iff id t s = elim (Option-cases (get_by_id id t)) [
  | inl e ↦ (λ h. absurd (cc (rw e at h)), λ h. absurd (cc (e, h.0)))
  | inr (u, e) ↦ elim (Option-cases u.deleted_at) [
    | inl d ↦ (λ h. ground arith, λ h. ground arith)
    | inr (at, d) ↦ (λ h. absurd (cc (rw (e, d) at h)), λ h. ground arith)
  ]
]

-- A run may start for a strategy and a source.
abbrev pub Ready : World → String → Option String → Strategy → Text → Type 0
Ready w id action s source =
    Loads id w.strategies s × Resolves w.parse_actions s (trimmed action) source
