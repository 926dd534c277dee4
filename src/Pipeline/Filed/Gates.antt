-- ===== src/Pipeline/Filed/Gates.antt =====
-- The gates of a run answer an error only with its status in the table.
use onchain_strategy_mcp.Prelude.{
  ℕ, suc, String, Bool, true, false, not, ◌&&◌, Option, none, some, List, [], ◌∷◌, Bool-cases,
  is_some, all, string_eq, inl, inr,
}
use onchain_strategy_mcp.Prelude.Text.{Text}
use onchain_strategy_mcp.Prelude.Json.{Json}
use onchain_strategy_mcp.Prelude.Result.{Result, ok, err}
use onchain_strategy_mcp.Alloy.{Alloy}
use onchain_strategy_mcp.Policy.Model.{
  LoadedPolicy, Decision, Rule, Detail, DecisionVerdict, allow, deny,
}
use onchain_strategy_mcp.Policy.Eval.{Tally, evaluate}
use onchain_strategy_mcp.Evm.Validate.{EvmError}
use onchain_strategy_mcp.Evm.Normalize.{Action, NormalizedAction}
use onchain_strategy_mcp.Pipeline.Types.{
  SimulationOutcome, pass, fail, SimulationFailReason, ActionDecision, StrategyOutcome, Env, M,
}
use onchain_strategy_mcp.Pipeline.Gates.{
  or_missing_to, decision_from_normalized, policy_denial, policy_gate, judge, simulate_one,
  skip_one, push_normalized, reject_action, simulation_denial, simulation_gate,
  refuse_without_policy, run_gates, normalize_all, gate_policy, gate_normalized, gate_actions,
  is_noop,
}
use onchain_strategy_mcp.Pipeline.Filed.{Files, bind-Files, pure-Files, filing}

module _ (alloy : Alloy) (env : Env) (run_id : String) where
  refuse_without_policy-Files :
      (A : Type 0) → Files run_id (refuse_without_policy alloy env run_id {A = A})
  unfolding refuse_without_policy
  refuse_without_policy-Files A = search (filing, inl) depth 10

  policy_denial-Files :
      (A : Type 0) (idx : ℕ) (d : Decision) (r : Rule) (m : Detail)
      → Files run_id (policy_denial alloy env run_id {A = A} idx d r m)
  unfolding policy_denial
  policy_denial-Files A idx d r m = search (filing, inl) depth 12

  simulation_denial-Files :
      (A : Type 0) (idx : ℕ) (r : SimulationFailReason)
      → Files run_id (simulation_denial alloy env run_id {A = A} idx r)
  unfolding simulation_denial
  simulation_denial-Files A idx r = search (filing, inl) depth 12

  or_missing_to-Files : (o : Option Decision) → Files run_id (or_missing_to o)
  or_missing_to-Files none s = tt
  or_missing_to-Files (some d) s = tt

  judge-Files :
      (next : Tally → List ActionDecision → M (List ActionDecision)) (idx : ℕ)
      (ds : List ActionDecision) (d : Decision) (v : DecisionVerdict × Tally)
      → ((t : Tally) (ds' : List ActionDecision) → Files run_id (next t ds'))
      → Files run_id (judge alloy env run_id next idx ds d v)
  unfolding judge
  judge-Files next idx ds d (allow, t) rest = search (filing, rest)
  judge-Files next idx ds d (deny rule detail, t) rest =
      policy_denial-Files (List ActionDecision) idx d rule detail

  policy_gate-Files :
      (p : LoadedPolicy) (chain idx : ℕ) (ns : List (Option NormalizedAction)) (tally : Tally)
      (ds : List ActionDecision)
      → Files run_id (policy_gate alloy env run_id p chain idx ns tally ds)
  unfolding policy_gate
  policy_gate-Files p chain idx [] tally ds s = tt
  policy_gate-Files p chain idx (none ∷ ns) tally ds s =
      policy_gate-Files p chain (suc idx) ns tally ds s
  policy_gate-Files p chain idx (some na ∷ ns) tally ds s =
      bind-Files run_id (or_missing_to (decision_from_normalized chain idx na))
        (λ d.
          judge alloy env run_id (policy_gate alloy env run_id p chain (suc idx) ns) idx ds d
            (evaluate alloy p d tally))
        (or_missing_to-Files _)
        (λ d.
          judge-Files _ idx ds d (evaluate alloy p d tally)
            (policy_gate-Files p chain (suc idx) ns))
        s

  simulate_one-Files :
      (next : List ActionDecision → M (List ActionDecision)) (idx pos : ℕ)
      (ds : List ActionDecision) (o : SimulationOutcome)
      → ((ds' : List ActionDecision) → Files run_id (next ds'))
      → Files run_id (simulate_one alloy env run_id next idx pos ds o)
  unfolding simulate_one
  simulate_one-Files next idx pos ds (pass b g) rest = search (filing, rest)
  simulate_one-Files next idx pos ds (fail r) rest =
      simulation_denial-Files (List ActionDecision) idx r

  skip_one-Files :
      (next : List ActionDecision → M (List ActionDecision)) (idx pos : ℕ)
      (ds : List ActionDecision)
      → ((ds' : List ActionDecision) → Files run_id (next ds'))
      → Files run_id (skip_one alloy env run_id next idx pos ds)
  unfolding skip_one
  skip_one-Files next idx pos ds rest = search (filing, rest)

  simulation_gate-Files :
      (batch : Bool) (idx : ℕ) (ns : List (Option NormalizedAction)) (pos : ℕ)
      (ds : List ActionDecision)
      → Files run_id (simulation_gate alloy env run_id batch idx ns pos ds)
  unfolding simulation_gate
  simulation_gate-Files batch idx [] pos ds s = tt
  simulation_gate-Files batch idx (none ∷ ns) pos ds s =
      simulation_gate-Files batch (suc idx) ns pos ds s
  simulation_gate-Files true idx (some na ∷ ns) pos ds s =
      skip_one-Files _ idx pos ds (simulation_gate-Files true (suc idx) ns (suc pos)) s
  simulation_gate-Files false idx (some na ∷ ns) pos ds s =
      simulate_one-Files _ idx pos ds (env.simulate idx na.tx)
        (simulation_gate-Files false (suc idx) ns (suc pos)) s

  gate_policy-Files :
      (policy : Option LoadedPolicy) (acts : List Action) (ns : List (Option NormalizedAction))
      → Files run_id (gate_policy alloy env run_id policy acts ns)
  unfolding run_gates
  gate_policy-Files none acts ns = refuse_without_policy-Files StrategyOutcome
  gate_policy-Files (some p) acts ns =
      search (filing, pure-Files, policy_gate-Files, simulation_gate-Files) depth 12

  module _ (encode_call_input : Text → Text → List Json → Result EvmError (List ℕ)) where
    reject_action-Files :
        (A : Type 0) (e : EvmError)
        → Files run_id (reject_action alloy env run_id encode_call_input {A = A} e)
    unfolding reject_action
    reject_action-Files A e = search (filing, inr) depth 12

    push_normalized-Files :
        (rest : M (List (Option NormalizedAction))) (r : Result EvmError (Option NormalizedAction))
        → Files run_id rest
        → Files run_id (push_normalized alloy env run_id encode_call_input rest r)
    unfolding push_normalized
    push_normalized-Files rest (err e) k = reject_action-Files (List (Option NormalizedAction)) e
    push_normalized-Files rest (ok n) k = search (filing, pure-Files)

    normalize_all-Files :
        (acts : List Action) → Files run_id (normalize_all alloy env run_id encode_call_input acts)
    unfolding normalize_all
    normalize_all-Files [] s = tt
    normalize_all-Files (a ∷ acts) s = push_normalized-Files _ _ (normalize_all-Files acts) s

    gate_normalized-Files :
        (policy : Option LoadedPolicy) (acts : List Action) (ns : List (Option NormalizedAction))
        → Files run_id (gate_normalized alloy env run_id encode_call_input policy acts ns)
    gate_normalized-Files policy acts ns = elim (Bool-cases (all (λ n. not (is_some n)) ns)) [
      | inl h ↦ rw h (λ s. tt)
      | inr h ↦ rw h (search (filing, pure-Files, gate_policy-Files))
    ]

    -- The gates as a whole.
    pub gate_actions-Files :
        (policy : Option LoadedPolicy) (o : StrategyOutcome)
        → Files run_id (gate_actions alloy env run_id encode_call_input policy o)
    unfolding gate_actions
    gate_actions-Files policy StrategyOutcome.noop = λ s. tt
    gate_actions-Files policy (StrategyOutcome.actions acts ds) =
        elim (Bool-cases (not (is_some policy) && not (all is_noop acts))) [
          | inl h ↦ rw h (refuse_without_policy-Files _)
          | inr h ↦ rw h (search (filing, normalize_all-Files, gate_normalized-Files))
        ]
