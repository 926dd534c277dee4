-- ===== src/Policy/Correct.antt =====
-- `evaluate` against the specification: what is allowed, which rule a denial names, and what
-- becomes of the running totals.
use onchain_strategy_mcp.Prelude.{
  ◌+◌, ◌<◌, min, true, false, Option, none, some, ◌≡◌, refl, ◌↔◌, arith, if◌then◌else◌, unwrap_or,
  ◌==◌,
}
use onchain_strategy_mcp.Prelude.Map.{get, insert, get-insert}
use onchain_strategy_mcp.Alloy.{U256, u256_max, Alloy, Saturates}
use onchain_strategy_mcp.Policy.Model.{
  ChainContract, chain_contract, chain_contract_eq, LoadedPolicy, Decision, allow, deny, Detail,
  Rule, chain_not_allowed, contract_not_allowed, raw_call_denied, selector_not_allowed,
  native_value_exceeds, erc20_spend_exceeds,
}
use onchain_strategy_mcp.Policy.Eval.{Tally, is_erc20, next_total, evaluate}
use onchain_strategy_mcp.Policy.Spec.{Holds, rank}
use onchain_strategy_mcp.Policy.Dimensions.{passes, passes_iff}

-- The amount that an action adds to the running total of its token, if it adds one.
abbrev pub charged : Decision → Option U256
charged d = if is_erc20 d.action_kind then d.erc20_amount else none

-- What a token's total is after an action was allowed.
abbrev pub total_after : Decision → Tally → ChainContract → Option U256 → Option U256
total_after d tally k none = get tally k
total_after d tally k (some amount) =
    let key = chain_contract d.chain_id d.to in
    if key == k then some (min (unwrap_or (get tally key) 0 + amount) u256_max) else get tally k

module _ (alloy : Alloy) where
  -- The dimensions one after another.
  evaluate-passes :
      (p : LoadedPolicy) (d : Decision) (tally : Tally) (r : Rule)
      → (evaluate alloy p d tally).0 ≡ allow
      → passes alloy p tally d r ≡ true
  unfolding evaluate
  evaluate-passes p d tally chain_not_allowed h = ground arith
  evaluate-passes p d tally _ h = ground arith

  passes-evaluate :
      (p : LoadedPolicy) (d : Decision) (tally : Tally)
      → ((r : Rule) → passes alloy p tally d r ≡ true)
      → (evaluate alloy p d tally).0 ≡ allow
  unfolding evaluate
  passes-evaluate p d tally h = ground (
    arith,
    h chain_not_allowed,
    h contract_not_allowed,
    h raw_call_denied,
    h selector_not_allowed,
    h native_value_exceeds,
    h erc20_spend_exceeds,
  )

  evaluate-deny_passes :
      (p : LoadedPolicy) (d : Decision) (tally : Tally) (r q : Rule) {m : Detail}
      → (evaluate alloy p d tally).0 ≡ deny r m
      → (passes alloy p tally d r ≡ false) × (rank q < rank r → passes alloy p tally d q ≡ true)
  unfolding evaluate
  evaluate-deny_passes p d tally chain_not_allowed q h = (ground arith, ground arith)
  evaluate-deny_passes p d tally _ q h = (ground arith, ground arith)

  charge : Decision → Tally → Option U256 → Tally
  charge d tally none = tally
  charge d tally (some amount) =
      let key = chain_contract d.chain_id d.to in
      insert tally key (next_total alloy tally key amount)

  evaluate-charge :
      (p : LoadedPolicy) (d : Decision) (tally : Tally)
      → (evaluate alloy p d tally).0 ≡ allow
      → (evaluate alloy p d tally).1 ≡ charge d tally (charged d)
  unfolding evaluate charge
  evaluate-charge p d tally h = ground arith

  evaluate-deny_tally :
      (p : LoadedPolicy) (d : Decision) (tally : Tally) (r : Rule) {m : Detail}
      → (evaluate alloy p d tally).0 ≡ deny r m
      → (evaluate alloy p d tally).1 ≡ tally
  unfolding evaluate
  evaluate-deny_tally p d tally r h = ground arith

  module _ (saturates : Saturates alloy) where
    -- An action is allowed exactly when every dimension is satisfied.
    pub evaluate_allow_iff :
        (p : LoadedPolicy) (d : Decision) (tally : Tally)
        → ((evaluate alloy p d tally).0 ≡ allow) ↔ ((r : Rule) → Holds p tally d r)
    evaluate_allow_iff p d tally = (
      (λ h r. (passes_iff alloy saturates p tally d r).0 (evaluate-passes p d tally r h)),
      λ h. passes-evaluate p d tally (λ r. (passes_iff alloy saturates p tally d r).1 (h r)),
    )

    -- A denial names a dimension that is not satisfied, every dimension before it in the order is
    -- satisfied, and the running totals are left alone.
    pub evaluate_deny :
        (p : LoadedPolicy) (d : Decision) (tally : Tally) (r : Rule) (m : Detail)
        → (evaluate alloy p d tally).0 ≡ deny r m
        → (¬ Holds p tally d r)
          × ((q : Rule) → rank q < rank r → Holds p tally d q)
          × ((evaluate alloy p d tally).1 ≡ tally)
    evaluate_deny p d tally r m h = (
      (λ holds. cc (
        (evaluate-deny_passes p d tally r r h).0,
        (passes_iff alloy saturates p tally d r).1 holds,
      )),
      (λ q before.
          (passes_iff alloy saturates p tally d q).0
            ((evaluate-deny_passes p d tally r q h).1 before)),
      evaluate-deny_tally p d tally r h,
    )

    get-charge :
        (d : Decision) (tally : Tally) (k : ChainContract) (o : Option U256)
        → get (charge d tally o) k ≡ total_after d tally k o
    unfolding charge
    get-charge d tally k none = refl
    get-charge d tally k (some amount) =
        let key = chain_contract d.chain_id d.to in
        rw (get-insert tally key k (next_total alloy tally key amount))
          (rw (saturates (unwrap_or (get tally key) 0) amount))

    -- An allowed action adds its amount to the running total of its own token, if it is a transfer
    -- or an approval of tokens with an amount, and leaves every other total as it was.
    pub evaluate_allow_total :
        (p : LoadedPolicy) (d : Decision) (tally : Tally) (k : ChainContract)
        → (evaluate alloy p d tally).0 ≡ allow
        → get (evaluate alloy p d tally).1 k ≡ total_after d tally k (charged d)
    evaluate_allow_total p d tally k h =
        rw (evaluate-charge p d tally h) (get-charge d tally k (charged d))
