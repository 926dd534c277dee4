-- ===== src/Pipeline/Safety/Spend.antt =====
-- How much of a token the transfers and approvals of a run may name in total. Calls of the token's
-- contract by other kinds of actions are not read by the policy, and count nothing.
use onchain_strategy_mcp.Prelude.{
  ℕ, String, suc, ◌+◌, ◌≤◌, ◌<◌, min, Option, none, some, List, [], ◌∷◌, ◌≡◌, ap, arith, inl, inr,
  ◌==◌, Bool-cases, if◌then◌else◌, unwrap_or,
}
use onchain_strategy_mcp.Prelude.Result.{ok}
use onchain_strategy_mcp.Pipeline.Types.{Store, Env, ActionDecision}
use onchain_strategy_mcp.Prelude.Map.{get}
use onchain_strategy_mcp.Alloy.{Alloy, Saturates, U256, u256_max}
use onchain_strategy_mcp.Policy.Model.{
  ChainContract, chain_contract, chain_contract_eq, LoadedPolicy, Decision, erc20_spend_exceeds,
}
use onchain_strategy_mcp.Policy.Eval.{Tally, is_erc20, evaluate}
use onchain_strategy_mcp.Policy.Spec.{Holds, SpendHolds, WithinCap}
use onchain_strategy_mcp.Policy.Correct.{
  charged, total_after, evaluate_allow_total, evaluate_allow_iff,
}
use onchain_strategy_mcp.Evm.Normalize.{NormalizedAction}
use onchain_strategy_mcp.Pipeline.Gates.{decision_from_normalized, policy_gate}
use onchain_strategy_mcp.Pipeline.Safety.{AllAllowed, policy_gate-AllAllowed}

-- The amount of one token on one chain that a decision is charged with: that of a transfer or of an
-- approval (`charged`).
abbrev pub charged_to : ChainContract → Decision → Option U256 → ℕ
charged_to k d none = 0
charged_to k d (some amount) = if chain_contract d.chain_id d.to == k then amount else 0

abbrev pub named_by : ChainContract → Option Decision → ℕ
named_by k none = 0
named_by k (some d) = charged_to k d (charged d)

-- What the executable transfers and approvals of the token name as amounts, together.
abbrev pub named_amounts : ℕ → ℕ → ChainContract → List (Option NormalizedAction) → ℕ
named_amounts chain idx k [] = 0
named_amounts chain idx k (none ∷ ns) = named_amounts chain (suc idx) k ns
named_amounts chain idx k (some na ∷ ns) =
    named_by k (decision_from_normalized chain idx na) + named_amounts chain (suc idx) k ns

module _ (p : LoadedPolicy) (k : ChainContract) (cap : U256)
    (capped : get p.erc20_spend_by_chain_token k ≡ some cap) (small : cap < u256_max) where
  within_cap : (n : ℕ) → WithinCap (some cap) (min n u256_max) → (n ≤ cap) × (min n u256_max ≡ n)
  within_cap n h = (omega (arith, h, small), omega (arith, h, small))

  total_step :
      (d : Decision) (tally : Tally) (o : Option U256)
      → SpendHolds p d tally o
      → unwrap_or (get tally k) 0 ≤ cap
      → (unwrap_or (total_after d tally k o) 0 ≡ unwrap_or (get tally k) 0 + charged_to k d o)
        × (unwrap_or (get tally k) 0 + charged_to k d o ≤ cap)
  total_step d tally none h low = (omega arith, omega (arith, low))
  total_step d tally (some amount) h low = elim (Bool-cases (chain_contract d.chain_id d.to == k)) [
    | inl same ↦
        let key_is = (chain_contract_eq.decides (chain_contract d.chain_id d.to) k).0 same in
        let (fits, exact) =
          within_cap (unwrap_or (get tally k) 0 + amount) (rw capped at (rw key_is at h)) in
        (rw same (rw key_is exact), rw same fits)
    | inr other ↦ (rw other (omega arith), rw other (omega (arith, low)))
  ]

  Holds-SpendHolds :
      (d : Decision) (tally : Tally)
      → Holds p tally d erc20_spend_exceeds
      → SpendHolds p d tally (charged d)
  Holds-SpendHolds d tally h = elim (Bool-cases (is_erc20 d.action_kind)) [
    | inl token ↦ rw token (rw token at h)
    | inr plain ↦ rw plain tt
  ]

  module _ (alloy : Alloy) (saturates : Saturates alloy) where
    named_amounts_within :
        (chain idx : ℕ) (tally : Tally) (ns : List (Option NormalizedAction))
        → AllAllowed alloy p chain idx tally ns
        → unwrap_or (get tally k) 0 ≤ cap
        → unwrap_or (get tally k) 0 + named_amounts chain idx k ns ≤ cap
    named_amounts_within chain idx tally [] h low = omega (arith, low)
    named_amounts_within chain idx tally (none ∷ ns) h low =
        named_amounts_within chain (suc idx) tally ns h low
    named_amounts_within chain idx tally (some na ∷ ns) (d, found, holds, rest) low =
        let (total, fits) =
          total_step d tally (charged d) (Holds-SpendHolds d tally (holds erc20_spend_exceeds))
            low in
        let after =
          evaluate_allow_total alloy saturates p d tally k
            ((evaluate_allow_iff alloy saturates p d tally).1 holds) in
        let later =
          named_amounts_within chain (suc idx) (evaluate alloy p d tally).1 ns rest
            (rw after (rw total fits)) in
        rw found (omega (arith, later, ap (λ o. unwrap_or o 0) after, total))

    -- When the policy gate lets a run through, the amounts that its executable `erc20_transfer` and
    -- `erc20_approve` actions name for a token are together no more than the policy's cap for it, for a
    -- cap below the largest 256-bit number. Other kinds of actions count nothing.
    pub policy_gate-spent :
        (env : Env) (run_id : String) (chain : ℕ) (ns : List (Option NormalizedAction)) (s : Store)
        (decisions : List ActionDecision)
        → (policy_gate alloy env run_id p chain 0 ns [] [] s).0 ≡ ok decisions
        → named_amounts chain 0 k ns ≤ cap
    policy_gate-spent env run_id chain ns s decisions h = omega (
      arith,
      named_amounts_within chain 0 [] ns
          (policy_gate-AllAllowed alloy saturates env run_id p chain 0 ns [] [] s h) (omega arith),
    )
