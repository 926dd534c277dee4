-- ===== src/Pipeline/Safety/Cleared.antt =====
-- What the gates of a run establish for the actions that they let through.
use onchain_strategy_mcp.Prelude.{
  ℕ, String, true, not, Option, none, some, List, [], ◌∷◌, ◌≡◌, refl, arith, Bool-cases, is_some,
  ◌⊎◌, inl, inr, ◌&&◌, all,
}
use onchain_strategy_mcp.Prelude.Text.{Text}
use onchain_strategy_mcp.Prelude.Json.{Json}
use onchain_strategy_mcp.Prelude.Result.{Result, ok, err}
use onchain_strategy_mcp.Alloy.{Alloy, Saturates}
use onchain_strategy_mcp.Policy.Model.{LoadedPolicy}
use onchain_strategy_mcp.Evm.Validate.{EvmError}
use onchain_strategy_mcp.Evm.Normalize.{Action, NormalizedAction}
use onchain_strategy_mcp.Pipeline.Types.{
  StrategyOutcome, Store, Env, McpError, evm, M, pure, ◌>>=◌, or_throw,
}
use onchain_strategy_mcp.Pipeline.Gates.{
  policy_gate, simulation_gate, batch_active, refuse_without_policy, run_gates, simulate_decided,
  gates_on_chain, gate_policy, reject_action, push_normalized, normalize_all, gate_normalized,
  gate_actions, is_noop,
}
use onchain_strategy_mcp.Pipeline.Sends.{Fails, throw-Fails, bind-Fails}
use onchain_strategy_mcp.Pipeline.Safety.{
  bind_ok, AllSimulated, AllNormalized, AllAllowed, policy_gate-AllAllowed,
  simulation_gate-AllSimulated,
}

module _ (alloy : Alloy) (saturates : Saturates alloy) (env : Env) (run_id : String) where
  -- What the gates establish before an action may be executed: there is a policy, the chain is
  -- known, the actions are the normalized ones of the strategy, the policy allows each, and each
  -- simulation passed unless the actions go out as one batch.
  abbrev pub Cleared : Option LoadedPolicy → List Action → List (Option NormalizedAction) → Type 0
  Cleared policy acts ns =
      (p : LoadedPolicy) × (chain : ℕ) × (policy ≡ some p)
      × (env.chain_id ≡ ok chain)
      × AllAllowed alloy p chain 0 [] ns
      × ((batch_active alloy env run_id ns ≡ true) ⊎ AllSimulated env 0 ns)

  abbrev pub ClearedFor :
      (Text → Text → List Json → Result EvmError (List ℕ))
      → Option LoadedPolicy
      → StrategyOutcome
      → List (Option NormalizedAction)
      → Type 0
  ClearedFor enc policy StrategyOutcome.noop ns = ⊥
  ClearedFor enc policy (StrategyOutcome.actions acts ds) ns =
      AllNormalized alloy enc acts ns × Cleared policy acts ns

  or_throw-ok :
      {E A : Type 0} (f : E → McpError) (r : Result E A) (s : Store) {a : A}
      → (or_throw f r s).0 ≡ ok a
      → r ≡ ok a
  or_throw-ok f (ok a) s h = ground (arith, h)
  or_throw-ok f (err e) s h = ground (arith, h)

  run_gates-Cleared :
      (p : LoadedPolicy) (acts : List Action) (ns : List (Option NormalizedAction)) (s : Store)
      {o : StrategyOutcome}
      → (run_gates alloy env run_id p acts ns s).0 ≡ ok o
      → Cleared (some p) acts ns
  unfolding run_gates
  run_gates-Cleared p acts ns s h =
      let (u, provider, h1) =
        bind_ok (or_throw evm env.provider)
          (λ _. or_throw evm env.chain_id >>= gates_on_chain alloy env run_id p acts ns) s h in
      let (chain, known, h2) =
        bind_ok (or_throw evm env.chain_id) (gates_on_chain alloy env run_id p acts ns) _ h1 in
      let (ds, judged, h3) =
        bind_ok (policy_gate alloy env run_id p chain 0 ns [] [])
          (simulate_decided alloy env run_id acts ns) _ h2 in
      let (ds', simulated, h4) =
        bind_ok (simulation_gate alloy env run_id (batch_active alloy env run_id ns) 0 ns 0 ds)
          (λ ds'. pure (StrategyOutcome.actions acts ds')) _ h3 in
      (
        p,
        chain,
        refl,
        or_throw-ok evm env.chain_id _ known,
        policy_gate-AllAllowed alloy saturates env run_id p chain 0 ns [] [] _ judged,
        elim (Bool-cases (batch_active alloy env run_id ns)) [
          | inl yes_batch ↦ inl yes_batch
          | inr no_batch ↦ inr (
              simulation_gate-AllSimulated alloy saturates env run_id 0 ns 0 ds _
                (rw no_batch at simulated))
        ],
      )

  refuse_without_policy-Fails :
      {A : Type 0} → Fails (refuse_without_policy alloy env run_id {A = A})
  unfolding refuse_without_policy
  refuse_without_policy-Fails = search (bind-Fails, throw-Fails)

  gate_policy-Cleared :
      (policy : Option LoadedPolicy) (acts : List Action) (ns : List (Option NormalizedAction))
      (s : Store) {o : StrategyOutcome}
      → (gate_policy alloy env run_id policy acts ns s).0 ≡ ok o
      → Cleared policy acts ns
  gate_policy-Cleared none acts ns s h =
      ground (arith, h, (refuse_without_policy-Fails {A = StrategyOutcome} s).1)
  gate_policy-Cleared (some p) acts ns s h = run_gates-Cleared p acts ns s h

  module _ (enc : Text → Text → List Json → Result EvmError (List ℕ)) where
    reject_action-Fails :
        {A : Type 0} (e : EvmError) → Fails (reject_action alloy env run_id enc {A = A} e)
    unfolding reject_action
    reject_action-Fails e = search (bind-Fails, throw-Fails)

    push_normalized-ok :
        (rest : M (List (Option NormalizedAction))) (r : Result EvmError (Option NormalizedAction))
        (s : Store) {out : List (Option NormalizedAction)}
        → (push_normalized alloy env run_id enc rest r s).0 ≡ ok out
        → (n : Option NormalizedAction) × (ns : List (Option NormalizedAction)) × (r ≡ ok n)
          × ((rest s).0 ≡ ok ns)
          × (out ≡ n ∷ ns)
    unfolding push_normalized
    push_normalized-ok rest (err e) s h =
        ground (arith, h, (reject_action-Fails {A = List (Option NormalizedAction)} e s).1)
    push_normalized-ok rest (ok n) s h =
        let (ns, normalized, pushed) = bind_ok rest (λ ns. pure (n ∷ ns)) s h in
        (n, ns, refl, normalized, ground (arith, pushed))

    normalize_all-AllNormalized :
        (acts : List Action) (s : Store) (ns : List (Option NormalizedAction))
        → (normalize_all alloy env run_id enc acts s).0 ≡ ok ns
        → AllNormalized alloy enc acts ns
    unfolding normalize_all
    normalize_all-AllNormalized [] s [] h = tt
    normalize_all-AllNormalized [] s (n ∷ ns) h = ground (arith, h)
    normalize_all-AllNormalized (a ∷ acts) s [] h =
        let (n, ns, first, rest, e) =
          push_normalized-ok (normalize_all alloy env run_id enc acts) _ s h in
        ground (arith, e)
    normalize_all-AllNormalized (a ∷ acts) s (m ∷ ms) h =
        let (n, ns, first, rest, e) =
          push_normalized-ok (normalize_all alloy env run_id enc acts) _ s h in
        (cc (first, e), normalize_all-AllNormalized acts s ms (cc (rest, e)))

    gate_normalized-ok :
        (policy : Option LoadedPolicy) (acts : List Action)
        (ns approved : List (Option NormalizedAction)) (s : Store) {o : StrategyOutcome}
        → (gate_normalized alloy env run_id enc policy acts ns s).0 ≡ ok (o, approved)
        → (approved ≡ []) ⊎ ((approved ≡ ns) × Cleared policy acts ns)
    gate_normalized-ok policy acts ns approved s h =
        elim (Bool-cases (all (λ n. not (is_some n)) ns)) [
          | inl nothing ↦ inl (ground (arith, rw nothing at h))
          | inr something ↦
              let (o', gated, paired) =
                bind_ok (gate_policy alloy env run_id policy acts ns)
                  (λ outcome. pure (outcome, ns)) s (rw something at h) in
              inr (ground (arith, paired), gate_policy-Cleared policy acts ns s gated)
        ]

    pub gate_actions-ok :
        (policy : Option LoadedPolicy) (given o : StrategyOutcome)
        (approved : List (Option NormalizedAction)) (s : Store)
        → (gate_actions alloy env run_id enc policy given s).0 ≡ ok (o, approved)
        → (approved ≡ []) ⊎ ClearedFor enc policy given approved
    unfolding gate_actions
    gate_actions-ok policy StrategyOutcome.noop o approved s h = inl (ground (arith, h))
    gate_actions-ok policy (StrategyOutcome.actions acts ds) o approved s h =
        elim (Bool-cases (not (is_some policy) && not (all is_noop acts))) [
          | inl refused ↦ ground (
            arith,
            rw refused at h,
            (refuse_without_policy-Fails {A = StrategyOutcome × List (Option NormalizedAction)}
                s).1,
          )
          | inr going ↦
              let (ns, normalized, gated) =
                bind_ok (normalize_all alloy env run_id enc acts)
                  (gate_normalized alloy env run_id enc policy acts) s (rw going at h) in
              elim (gate_normalized-ok policy acts ns approved _ gated) [
                | inl nothing ↦ inl nothing
                | inr (same, cleared) ↦
                    inr (rw same (normalize_all-AllNormalized acts s ns normalized, cleared))
              ]
        ]
