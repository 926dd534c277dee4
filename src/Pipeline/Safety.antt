-- ===== src/Pipeline/Safety.antt =====
-- What each gate of a run establishes for the actions it lets through.
pub mod Cleared
pub mod Run
pub mod Spend
use onchain_strategy_mcp.Prelude.{
  ℕ, zero, suc, String, Bool, true, false, not, Option, none, some, List, [], ◌∷◌, ◌++◌, map, take,
  ◌≡◌, refl, sym, ap, ◌∙◌, arith, if◌then◌else◌, Bool-cases, is_some, leb, ◌⊎◌, inl, inr, ◌&&◌, all,
}
use onchain_strategy_mcp.Prelude.Text.{Text}
use onchain_strategy_mcp.Prelude.Json.{Json}
use onchain_strategy_mcp.Prelude.Result.{Result, ok, err}
use onchain_strategy_mcp.Alloy.{Alloy, Address, Saturates}
use onchain_strategy_mcp.Policy.Model.{
  LoadedPolicy, Decision, Rule, Detail, DecisionVerdict, allow, deny,
}
use onchain_strategy_mcp.Policy.Eval.{Tally, evaluate}
use onchain_strategy_mcp.Policy.Spec.{Holds}
use onchain_strategy_mcp.Policy.Correct.{evaluate_allow_iff}
use onchain_strategy_mcp.Evm.Validate.{EvmError}
use onchain_strategy_mcp.Evm.Normalize.{
  Action, NormalizedAction, TransactionRequest, normalize_action,
}
use onchain_strategy_mcp.State.Error.{RunStatus, running, succeeded}
use onchain_strategy_mcp.Pipeline.Types.{
  SimulationOutcome, pass, fail, SimulationFailReason, ActionDecision, StrategyOutcome, Sent,
  single, batch, Store, Env, McpError, evm, M, pure, throw, ◌>>=◌, ◌>>◌, or_throw,
}
use onchain_strategy_mcp.Pipeline.Journal.{transition, record_action, record_decision_row}
use onchain_strategy_mcp.Pipeline.Gates.{
  or_missing_to, decision_from_normalized, policy_denial, judge, policy_gate, simulation_denial,
  simulate_one, simulation_gate, batch_active, refuse_without_policy, run_gates, simulate_decided,
  gates_on_chain, gate_policy, reject_action, push_normalized, normalize_all, gate_normalized,
  gate_actions, is_noop,
}
use onchain_strategy_mcp.Pipeline.Execute.{transactions, execute_if_any, finish_run}
use onchain_strategy_mcp.Pipeline.Silent.{
  Keeps, gate_actions-Keeps, transition-Keeps, record_action-Keeps,
}
use onchain_strategy_mcp.Pipeline.Sends.{Fails, throw-Fails, bind-Fails}

-- A value out of a chain came out of its last step, run on what the first step left.
bind_ok :
    {A B : Type 0} (m : M A) (f : A → M B) (s : Store) {b : B}
    → ((m >>= f) s).0 ≡ ok b
    → (a : A) × ((m s).0 ≡ ok a) × ((f a (m s).1).0 ≡ ok b)
bind_ok {A} {B} m f s {b} = go (m s)
  where
    go :
        (r : Result McpError A × Store)
        → (elim r.0 as (λ _. Result McpError B × Store) [ ok a ↦ f a r.1 | err e ↦ (err e, r.1) ]).0
          ≡ ok b
        → (a : A) × (r.0 ≡ ok a) × ((f a r.1).0 ≡ ok b)
    go (ok a, s') h = (a, refl, h)
    go (err e, s') h = ground (arith, h)

-- The simulations of the executable actions all passed.
abbrev pub AllSimulated : Env → ℕ → List (Option NormalizedAction) → Type 0
AllSimulated env idx [] = Unit
AllSimulated env idx (none ∷ ns) = AllSimulated env (suc idx) ns
AllSimulated env idx (some na ∷ ns) =
    ((b : List ℕ) × (g : Option ℕ) × (env.simulate idx na.tx ≡ pass b g))
    × AllSimulated env (suc idx) ns

-- Each action is the normalization of the strategy's action at its place.
abbrev pub AllNormalized :
    Alloy
    → (Text → Text → List Json → Result EvmError (List ℕ))
    → List Action
    → List (Option NormalizedAction)
    → Type 0
AllNormalized alloy enc [] [] = Unit
AllNormalized alloy enc [] (n ∷ ns) = ⊥
AllNormalized alloy enc (a ∷ acts) [] = ⊥
AllNormalized alloy enc (a ∷ acts) (n ∷ ns) =
    (normalize_action alloy enc a ≡ ok n) × AllNormalized alloy enc acts ns

module _ (alloy : Alloy) where
  -- Every executable action satisfies every dimension of the policy, with the running totals of
  -- the actions before it.
  abbrev pub AllAllowed : LoadedPolicy → ℕ → ℕ → Tally → List (Option NormalizedAction) → Type 0
  AllAllowed p chain idx tally [] = Unit
  AllAllowed p chain idx tally (none ∷ ns) = AllAllowed p chain (suc idx) tally ns
  AllAllowed p chain idx tally (some na ∷ ns) =
      (d : Decision) × (decision_from_normalized chain idx na ≡ some d)
      × ((r : Rule) → Holds p tally d r)
      × AllAllowed p chain (suc idx) (evaluate alloy p d tally).1 ns

  module _ (saturates : Saturates alloy) (env : Env) (run_id : String) where
    policy_denial-Fails :
        {A : Type 0} (idx : ℕ) (d : Decision) (r : Rule) (m : Detail)
        → Fails (policy_denial alloy env run_id {A = A} idx d r m)
    unfolding policy_denial
    policy_denial-Fails idx d r m = search (bind-Fails, throw-Fails)

    simulation_denial-Fails :
        {A : Type 0} (idx : ℕ) (r : SimulationFailReason)
        → Fails (simulation_denial alloy env run_id {A = A} idx r)
    unfolding simulation_denial
    simulation_denial-Fails idx r = search (bind-Fails, throw-Fails)

    or_missing_to-ok :
        (o : Option Decision) (s : Store) {d : Decision} → (or_missing_to o s).0 ≡ ok d → o ≡ some d
    or_missing_to-ok none s h = ground (arith, h)
    or_missing_to-ok (some d) s h = ground (arith, h)

    judge-ok :
        (next : Tally → List ActionDecision → M (List ActionDecision)) (idx : ℕ)
        (ds : List ActionDecision) (d : Decision) (v : DecisionVerdict × Tally) (s : Store)
        {out : List ActionDecision}
        → (judge alloy env run_id next idx ds d v s).0 ≡ ok out
        → (v.0 ≡ allow)
          × (ds' : List ActionDecision) × (s' : Store) × ((next v.1 ds' s').0 ≡ ok out)
    unfolding judge record_decision_row
    judge-ok next idx ds d (allow, t) s h = (refl, _, _, h)
    judge-ok next idx ds d (deny rule detail, t) s h =
        ground (arith, h, (policy_denial-Fails {A = List ActionDecision} idx d rule detail s).1)

    pub policy_gate-AllAllowed :
        (p : LoadedPolicy) (chain idx : ℕ) (ns : List (Option NormalizedAction)) (tally : Tally)
        (ds : List ActionDecision) (s : Store) {out : List ActionDecision}
        → (policy_gate alloy env run_id p chain idx ns tally ds s).0 ≡ ok out
        → AllAllowed p chain idx tally ns
    unfolding policy_gate
    policy_gate-AllAllowed p chain idx [] tally ds s h = tt
    policy_gate-AllAllowed p chain idx (none ∷ ns) tally ds s h =
        policy_gate-AllAllowed p chain (suc idx) ns tally ds s h
    policy_gate-AllAllowed p chain idx (some na ∷ ns) tally ds s h =
        let (d, found, judged) =
          bind_ok (or_missing_to (decision_from_normalized chain idx na))
            (λ d.
              judge alloy env run_id (policy_gate alloy env run_id p chain (suc idx) ns) idx ds d
                (evaluate alloy p d tally))
            s h in
        let (allowed, ds', s', rest) =
          judge-ok (policy_gate alloy env run_id p chain (suc idx) ns) idx ds d
            (evaluate alloy p d tally) _ judged in
        (
          d,
          or_missing_to-ok _ s found,
          (evaluate_allow_iff alloy saturates p d tally).0 allowed,
          policy_gate-AllAllowed p chain (suc idx) ns _ ds' s' rest,
        )

    simulate_one-ok :
        (next : List ActionDecision → M (List ActionDecision)) (idx pos : ℕ)
        (ds : List ActionDecision) (o : SimulationOutcome) (s : Store) {out : List ActionDecision}
        → (simulate_one alloy env run_id next idx pos ds o s).0 ≡ ok out
        → ((b : List ℕ) × (g : Option ℕ) × (o ≡ pass b g))
          × (ds' : List ActionDecision) × (s' : Store) × ((next ds' s').0 ≡ ok out)
    unfolding simulate_one record_decision_row
    simulate_one-ok next idx pos ds (pass b g) s h = ((b, g, refl), _, _, h)
    simulate_one-ok next idx pos ds (fail r) s h =
        ground (arith, h, (simulation_denial-Fails {A = List ActionDecision} idx r s).1)

    simulation_gate-AllSimulated :
        (idx : ℕ) (ns : List (Option NormalizedAction)) (pos : ℕ) (ds : List ActionDecision)
        (s : Store) {out : List ActionDecision}
        → (simulation_gate alloy env run_id false idx ns pos ds s).0 ≡ ok out
        → AllSimulated env idx ns
    unfolding simulation_gate
    simulation_gate-AllSimulated idx [] pos ds s h = tt
    simulation_gate-AllSimulated idx (none ∷ ns) pos ds s h =
        simulation_gate-AllSimulated (suc idx) ns pos ds s h
    simulation_gate-AllSimulated idx (some na ∷ ns) pos ds s h =
        let (passed, ds', s', rest) =
          simulate_one-ok (simulation_gate alloy env run_id false (suc idx) ns (suc pos)) idx pos ds
            (env.simulate idx na.tx) s h in
        (passed, simulation_gate-AllSimulated (suc idx) ns (suc pos) ds' s' rest)
