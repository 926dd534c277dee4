-- ===== src/Pipeline/Safety/Run.antt =====
-- What stands behind everything that a run hands to the signer, from the gates to the receipts.
use onchain_strategy_mcp.Prelude.{
  ℕ, String, Option, List, [], ◌++◌, take, ◌≡◌, refl, ap, ◌∙◌, ◌⊎◌, inl, inr,
}
use mathlib.Core.Bool.{false≢true}
use onchain_strategy_mcp.Prelude.Text.{Text}
use onchain_strategy_mcp.Prelude.Json.{Json}
use onchain_strategy_mcp.Prelude.Result.{Result, ok, err}
use onchain_strategy_mcp.Alloy.{Alloy, Saturates}
use onchain_strategy_mcp.Policy.Model.{LoadedPolicy}
use onchain_strategy_mcp.Evm.Validate.{EvmError}
use onchain_strategy_mcp.Evm.Normalize.{NormalizedAction}
use onchain_strategy_mcp.Pipeline.Types.{StrategyOutcome, Sent, Store, Env, McpError}
use onchain_strategy_mcp.Pipeline.Gates.{gate_actions}
use onchain_strategy_mcp.Pipeline.Execute.{
  complete, execute_and_complete, execute_if_any, finish_run,
}
use onchain_strategy_mcp.Pipeline.Silent.{
  Keeps, bind-Keeps, pure-Keeps, gate_actions-Keeps, transition-Keeps, record_action-Keeps,
}
use onchain_strategy_mcp.Pipeline.Sends.{Sends-quiet, append_nil}
use onchain_strategy_mcp.Pipeline.Sends.Execution.{
  Payload, one_by_one, as_batch, execute_if_any-Hands,
}
use onchain_strategy_mcp.Pipeline.Safety.Cleared.{ClearedFor, gate_actions-ok}

module _ (alloy : Alloy) (saturates : Saturates alloy) (env : Env) (run_id : String)
    (enc : Text → Text → List Json → Result EvmError (List ℕ)) where
  -- The whole list that a run may hand over is empty, or a payload of actions that the gates cleared.
  abbrev pub Backed : Option LoadedPolicy → StrategyOutcome → List Sent → Type 0
  Backed policy outcome xs =
      (xs ≡ [])
      ⊎ ((ns : List (Option NormalizedAction)) × ClearedFor alloy saturates env run_id enc policy
            outcome ns
          × Payload env run_id ns xs)

  complete-Keeps : (o : StrategyOutcome) → Keeps (complete env run_id alloy enc o)
  complete-Keeps o = search (bind-Keeps, pure-Keeps, transition-Keeps, record_action-Keeps)

  approved-Backed :
      (policy : Option LoadedPolicy) (given : StrategyOutcome) (ns : List (Option NormalizedAction))
      (xs : List Sent)
      → (ns ≡ []) ⊎ ClearedFor alloy saturates env run_id enc policy given ns
      → Payload env run_id ns xs
      → Backed policy given xs
  approved-Backed policy given ns xs (inr cleared) payload = inr (ns, cleared, payload)
  approved-Backed policy given ns _ (inl e) Payload.nothing = inl refl
  approved-Backed policy given ns _ (inl e) (one_by_one single_run) = inl (rw e refl)
  approved-Backed policy given ns _ (inl e) (as_batch delegate found many) =
      absurd (false≢true (rw e at many))

  -- A run hands over a first part of a list that is empty or a payload of cleared actions, whatever
  -- becomes of the run, and the whole of that list when it does not fail.
  pub finish_run-sent :
      (policy : Option LoadedPolicy) (given : StrategyOutcome) (s : Store)
      → (xs : List Sent) × Backed policy given xs
        × (k : ℕ) × ((finish_run env run_id alloy enc policy given s).1.sent ≡ s.sent ++ take k xs)
        × ((o : StrategyOutcome)
            → (finish_run env run_id alloy enc policy given s).0 ≡ ok o
            → take k xs ≡ xs)
  unfolding finish_run
  finish_run-sent policy given s =
      go (gate_actions alloy env run_id enc policy given s)
        (gate_actions-Keeps env run_id alloy enc policy given s)
        (λ o ns. gate_actions-ok alloy saturates env run_id enc policy given o ns s)
    where
      go :
          (r : Result McpError (StrategyOutcome × List (Option NormalizedAction)) × Store)
          → r.1.sent ≡ s.sent
          → ((o : StrategyOutcome) (ns : List (Option NormalizedAction))
              → r.0 ≡ ok (o, ns)
              → (ns ≡ []) ⊎ ClearedFor alloy saturates env run_id enc policy given ns)
          → (let out = elim r.0 as (λ _. Result McpError StrategyOutcome × Store) [
            | ok a ↦ execute_and_complete env run_id alloy enc a r.1
            | err e ↦ (err e, r.1)
          ] in
              (xs : List Sent) × Backed policy given xs
              × (k : ℕ) × (out.1.sent ≡ s.sent ++ take k xs)
              × ((o : StrategyOutcome) → out.0 ≡ ok o → take k xs ≡ xs))
      go (err e, s') kept cleared = ([], inl refl, 0, kept ∙ append_nil _, λ o h. refl)
      go (ok (o, ns), s') kept cleared =
          let (xs, payload, sends) = execute_if_any-Hands env run_id ns in
          let (k, sent, all) =
            Sends-quiet xs (execute_if_any env run_id ns) (λ _. complete env run_id alloy enc o)
              sends (λ _. complete-Keeps o) s' in
          (
            xs,
            approved-Backed policy given ns xs (cleared o ns refl) payload,
            k,
            sent ∙ ap (λ t. t ++ take k xs) kept,
            all,
          )
