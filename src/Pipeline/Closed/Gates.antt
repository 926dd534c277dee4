-- ===== src/Pipeline/Closed/Gates.antt =====
-- The gates, for a closed predicate.
use onchain_strategy_mcp.Prelude.{
  ℕ, suc, String, Bool, true, false, not, Option, none, some, List, [], ◌∷◌, Bool-cases, all,
  is_some, inl, inr, ◌&&◌,
}
use onchain_strategy_mcp.Prelude.Text.{Text}
use onchain_strategy_mcp.Prelude.Json.{Json}
use onchain_strategy_mcp.Prelude.Result.{Result, ok, err}
use onchain_strategy_mcp.Alloy.{Alloy}
use onchain_strategy_mcp.Policy.Model.{
  LoadedPolicy, Decision, Rule, Detail, DecisionVerdict, allow, deny,
}
use onchain_strategy_mcp.Policy.Eval.{Tally, evaluate}
use onchain_strategy_mcp.Evm.Validate.{EvmError}
use onchain_strategy_mcp.Evm.Normalize.{Action, NormalizedAction}
use onchain_strategy_mcp.Pipeline.Types.{
  SimulationOutcome, pass, fail, SimulationFailReason, ActionDecision, StrategyOutcome, Env,
  missing_to, M,
}
use onchain_strategy_mcp.Pipeline.Closed.{Closed, or_throw-Closed, record_runtime_error-Closed}
use onchain_strategy_mcp.Pipeline.Gates.{
  or_missing_to, decision_from_normalized, policy_denial, policy_gate, judge, simulate_one,
  skip_one, push_normalized, reject_action, simulation_denial, simulation_gate,
  refuse_without_policy, run_gates, normalize_all, gate_policy, gate_normalized, gate_actions,
  is_noop,
}

module _ (alloy : Alloy) {env : Env} {run_id : String} {P : (A : Type 0) → M A → Type 0}
    (c : Closed env run_id P) where
  refuse_without_policy-Closed : (A : Type 0) → P _ (refuse_without_policy alloy env run_id {A = A})
  unfolding refuse_without_policy
  refuse_without_policy-Closed A =
      search (c.bind, c.throw_step, c.transition_step, record_runtime_error-Closed c)

  policy_denial-Closed :
      (A : Type 0) (idx : ℕ) (d : Decision) (r : Rule) (m : Detail)
      → P _ (policy_denial alloy env run_id {A = A} idx d r m)
  unfolding policy_denial
  policy_denial-Closed A idx d r m =
      search (c.bind, c.throw_step, c.transition_step, c.decision_step, c.outcome_step)

  simulation_denial-Closed :
      (A : Type 0) (idx : ℕ) (r : SimulationFailReason)
      → P _ (simulation_denial alloy env run_id {A = A} idx r)
  unfolding simulation_denial
  simulation_denial-Closed A idx r =
      search (c.bind, c.throw_step, c.transition_step, c.decision_step, c.outcome_step)

  or_missing_to-Closed : (o : Option Decision) → P _ (or_missing_to o)
  or_missing_to-Closed none = c.throw_step Decision missing_to
  or_missing_to-Closed (some d) = c.pure_step d

  judge-Closed :
      (next : Tally → List ActionDecision → M (List ActionDecision)) (idx : ℕ)
      (ds : List ActionDecision) (d : Decision) (v : DecisionVerdict × Tally)
      → ((t : Tally) (ds' : List ActionDecision) → P _ (next t ds'))
      → P _ (judge alloy env run_id next idx ds d v)
  unfolding judge
  judge-Closed next idx ds d (allow, t) rest = search (c.bind, c.decision_step, rest)
  judge-Closed next idx ds d (deny rule detail, t) rest =
      policy_denial-Closed (List ActionDecision) idx d rule detail

  policy_gate-Closed :
      (p : LoadedPolicy) (chain idx : ℕ) (ns : List (Option NormalizedAction)) (tally : Tally)
      (ds : List ActionDecision)
      → P _ (policy_gate alloy env run_id p chain idx ns tally ds)
  unfolding policy_gate
  policy_gate-Closed p chain idx [] tally ds = c.pure_step ds
  policy_gate-Closed p chain idx (none ∷ ns) tally ds =
      policy_gate-Closed p chain (suc idx) ns tally ds
  policy_gate-Closed p chain idx (some na ∷ ns) tally ds =
      c.bind (or_missing_to (decision_from_normalized chain idx na))
        (λ d.
          judge alloy env run_id (policy_gate alloy env run_id p chain (suc idx) ns) idx ds d
            (evaluate alloy p d tally))
        (or_missing_to-Closed _)
        (λ d.
          judge-Closed _ idx ds d (evaluate alloy p d tally)
            (policy_gate-Closed p chain (suc idx) ns))

  simulate_one-Closed :
      (next : List ActionDecision → M (List ActionDecision)) (idx pos : ℕ)
      (ds : List ActionDecision) (o : SimulationOutcome)
      → ((ds' : List ActionDecision) → P _ (next ds'))
      → P _ (simulate_one alloy env run_id next idx pos ds o)
  unfolding simulate_one
  simulate_one-Closed next idx pos ds (pass b g) rest = search (c.bind, c.decision_step, rest)
  simulate_one-Closed next idx pos ds (fail r) rest =
      simulation_denial-Closed (List ActionDecision) idx r

  skip_one-Closed :
      (next : List ActionDecision → M (List ActionDecision)) (idx pos : ℕ)
      (ds : List ActionDecision)
      → ((ds' : List ActionDecision) → P _ (next ds'))
      → P _ (skip_one alloy env run_id next idx pos ds)
  unfolding skip_one
  skip_one-Closed next idx pos ds rest = search (c.bind, c.decision_step, rest)

  simulation_gate-Closed :
      (batch : Bool) (idx : ℕ) (ns : List (Option NormalizedAction)) (pos : ℕ)
      (ds : List ActionDecision)
      → P _ (simulation_gate alloy env run_id batch idx ns pos ds)
  unfolding simulation_gate
  simulation_gate-Closed batch idx [] pos ds = c.pure_step ds
  simulation_gate-Closed batch idx (none ∷ ns) pos ds =
      simulation_gate-Closed batch (suc idx) ns pos ds
  simulation_gate-Closed true idx (some na ∷ ns) pos ds =
      skip_one-Closed _ idx pos ds (simulation_gate-Closed true (suc idx) ns (suc pos))
  simulation_gate-Closed false idx (some na ∷ ns) pos ds =
      simulate_one-Closed _ idx pos ds (env.simulate idx na.tx)
        (simulation_gate-Closed false (suc idx) ns (suc pos))

  gate_policy-Closed :
      (policy : Option LoadedPolicy) (acts : List Action) (ns : List (Option NormalizedAction))
      → P _ (gate_policy alloy env run_id policy acts ns)
  unfolding run_gates
  gate_policy-Closed none acts ns = refuse_without_policy-Closed StrategyOutcome
  gate_policy-Closed (some p) acts ns =
      search (c.bind, c.pure_step, or_throw-Closed c, policy_gate-Closed, simulation_gate-Closed)
        depth 12

  module _ (encode_call_input : Text → Text → List Json → Result EvmError (List ℕ)) where
    reject_action-Closed :
        (A : Type 0) (e : EvmError)
        → P _ (reject_action alloy env run_id encode_call_input {A = A} e)
    unfolding reject_action
    reject_action-Closed A e =
        search (c.bind, c.throw_step, c.transition_step, record_runtime_error-Closed c)

    push_normalized-Closed :
        (rest : M (List (Option NormalizedAction))) (r : Result EvmError (Option NormalizedAction))
        → P _ rest
        → P _ (push_normalized alloy env run_id encode_call_input rest r)
    unfolding push_normalized
    push_normalized-Closed rest (err e) k = reject_action-Closed (List (Option NormalizedAction)) e
    push_normalized-Closed rest (ok n) k = search (c.bind, c.pure_step)

    normalize_all-Closed :
        (acts : List Action) → P _ (normalize_all alloy env run_id encode_call_input acts)
    unfolding normalize_all
    normalize_all-Closed [] = c.pure_step []
    normalize_all-Closed (a ∷ acts) = push_normalized-Closed _ _ (normalize_all-Closed acts)

    gate_normalized-Closed :
        (policy : Option LoadedPolicy) (acts : List Action) (ns : List (Option NormalizedAction))
        → P _ (gate_normalized alloy env run_id encode_call_input policy acts ns)
    gate_normalized-Closed policy acts ns = elim (Bool-cases (all (λ n. not (is_some n)) ns)) [
      | inl h ↦ rw h (c.pure_step _)
      | inr h ↦ rw h (search (c.bind, c.pure_step, gate_policy-Closed))
    ]

    -- The gates as a whole.
    pub gate_actions-Closed :
        (policy : Option LoadedPolicy) (o : StrategyOutcome)
        → P _ (gate_actions alloy env run_id encode_call_input policy o)
    unfolding gate_actions
    gate_actions-Closed policy StrategyOutcome.noop = c.pure_step _
    gate_actions-Closed policy (StrategyOutcome.actions acts ds) =
        elim (Bool-cases (not (is_some policy) && not (all is_noop acts))) [
          | inl h ↦ rw h (refuse_without_policy-Closed _)
          | inr h ↦ rw h (search (c.bind, normalize_all-Closed, gate_normalized-Closed))
        ]
