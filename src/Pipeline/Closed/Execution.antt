-- ===== src/Pipeline/Closed/Execution.antt =====
-- The execution and the end of a run, for a closed predicate that also holds of the hand-over.
use onchain_strategy_mcp.Prelude.{
  ℕ, suc, String, Option, none, some, List, [], ◌∷◌, Bool-cases, leb, ◌==◌, string_eq, inl, inr,
}
use onchain_strategy_mcp.Prelude.Text.{Text}
use onchain_strategy_mcp.Prelude.Json.{Json}
use onchain_strategy_mcp.Prelude.Result.{Result, ok, err}
use onchain_strategy_mcp.Alloy.{Alloy, Address}
use onchain_strategy_mcp.Policy.Model.{LoadedPolicy}
use onchain_strategy_mcp.Evm.Validate.{EvmError}
use onchain_strategy_mcp.Evm.Normalize.{NormalizedAction}
use onchain_strategy_mcp.State.Error.{running, succeeded}
use onchain_strategy_mcp.Pipeline.Types.{
  StrategyOutcome, Sent, single, batch, Env, Receipt, SignerConfig, invalid, absent, configured,
  deployed, not_deployed, unknown, evm, M, pure, ◌>>◌, or_throw,
}
use onchain_strategy_mcp.Pipeline.Journal.{
  transition, record_action, record_execution_broadcast, record_execution_receipt_success,
}
use onchain_strategy_mcp.Pipeline.Gates.{gate_actions, executable_count}
use onchain_strategy_mcp.Pipeline.Closed.{
  Closed, or_throw-Closed, record_runtime_error-Closed, record_action-Closed,
}
use onchain_strategy_mcp.Pipeline.Closed.Gates.{gate_actions-Closed}
use onchain_strategy_mcp.Pipeline.Execute.{
  send, transactions, first_index, fail_execution, for_each_action, check_reverted,
  after_batch_receipt, after_batch_sent, send_batch, check_delegate, execute_batch, after_receipt,
  after_broadcast, execute_sequential, execute_signed, with_signer, with_configuration,
  execute_from, execute_approved_actions, check_chain_id, check_configuration, check_any,
  execute_if_any, complete, execute_and_complete, finish_run,
}

module _ {env : Env} {run_id : String} {P : (A : Type 0) → M A → Type 0} (c : Closed env run_id P)
    (send_step : (x : Sent) → P _ (send env run_id x)) where
  fail_execution-Closed :
      (idx : ℕ) (signer : Option String) (kind : String) (detail : Option String)
      → P _ (fail_execution env run_id idx signer kind detail)
  unfolding fail_execution
  fail_execution-Closed idx signer kind detail =
      search (c.bind, c.throw_step, c.transition_step, c.error_step, record_runtime_error-Closed c)
        depth 10

  check_reverted-Closed :
      (idx : ℕ) (signer : String) (r : Receipt) → P _ (check_reverted env run_id idx signer r)
  check_reverted-Closed idx signer r = elim (Bool-cases (r.receipt_status == "reverted")) [
    | inl h ↦ rw h (fail_execution-Closed idx (some signer) "receipt_failed" (some "reverted"))
    | inr h ↦ rw h (c.pure_step tt)
  ]

  for_each_action-Closed :
      (f : ℕ → M (Unit {0})) (idx : ℕ) (ns : List (Option NormalizedAction))
      → ((i : ℕ) → P _ (f i))
      → P _ (for_each_action env run_id f idx ns)
  for_each_action-Closed f idx [] k = c.pure_step tt
  for_each_action-Closed f idx (none ∷ ns) k = for_each_action-Closed f (suc idx) ns k
  for_each_action-Closed f idx (some na ∷ ns) k =
      c.bind (f idx) (λ _. for_each_action env run_id f (suc idx) ns) (k idx)
        (λ _. for_each_action-Closed f (suc idx) ns k)

  after_batch_receipt-Closed :
      (first : ℕ) (signer : String) (ns : List (Option NormalizedAction))
      (r : Result String Receipt)
      → P _ (after_batch_receipt env run_id first signer ns r)
  after_batch_receipt-Closed first signer ns (err kind) =
      fail_execution-Closed first (some signer) kind (some kind)
  after_batch_receipt-Closed first signer ns (ok r) =
      c.bind
        (for_each_action env run_id
          (λ idx. record_execution_receipt_success env run_id idx r.receipt_status r.gas_used) 0 ns)
        (λ _. check_reverted env run_id first signer r)
        (for_each_action-Closed _ 0 ns (λ i. c.receipt_step i r.receipt_status r.gas_used))
        (λ _. check_reverted-Closed first signer r)

  after_batch_sent-Closed :
      (first : ℕ) (signer : String) (ns : List (Option NormalizedAction)) (r : Result String String)
      → P _ (after_batch_sent env run_id first signer ns r)
  after_batch_sent-Closed first signer ns (err kind) =
      fail_execution-Closed first (some signer) kind (some kind)
  after_batch_sent-Closed first signer ns (ok hash) =
      c.bind
        (for_each_action env run_id (λ idx. record_execution_broadcast env run_id idx signer hash) 0
          ns)
        (λ _. after_batch_receipt env run_id first signer ns env.batch_receipt)
        (for_each_action-Closed _ 0 ns (λ i. c.broadcast_step i signer hash))
        (λ _. after_batch_receipt-Closed first signer ns env.batch_receipt)

  send_batch-Closed :
      (first : ℕ) (signer : String) (delegate : Address) (ns : List (Option NormalizedAction))
      → P _ (send_batch env run_id first signer delegate ns)
  send_batch-Closed first signer delegate ns =
      c.bind (send env run_id (batch delegate (transactions ns)))
        (λ _. after_batch_sent env run_id first signer ns env.send_7702_batch) (send_step _)
        (λ _. after_batch_sent-Closed first signer ns env.send_7702_batch)

  execute_batch-Closed :
      (first : ℕ) (signer : String) (delegate : Address) (ns : List (Option NormalizedAction))
      → P _ (execute_batch env run_id first signer delegate ns)
  unfolding execute_batch
  execute_batch-Closed first signer delegate ns =
      elim env.delegate_code
        as (λ code. P _ (check_delegate env run_id first signer delegate ns code)) [
          | not_deployed ↦
              fail_execution-Closed first (some signer) "delegate_not_deployed"
                (some "delegate_not_deployed")
          | deployed ↦ send_batch-Closed first signer delegate ns
          | unknown ↦ send_batch-Closed first signer delegate ns
        ]

  after_receipt-Closed :
      (next : M (Unit {0})) (idx : ℕ) (signer : String) (r : Result String Receipt)
      → P _ next
      → P _ (after_receipt env run_id next idx signer r)
  after_receipt-Closed next idx signer (err kind) h =
      fail_execution-Closed idx (some signer) kind (some kind)
  after_receipt-Closed next idx signer (ok r) h =
      c.bind (record_execution_receipt_success env run_id idx r.receipt_status r.gas_used)
        (λ _. check_reverted env run_id idx signer r >> next)
        (c.receipt_step idx r.receipt_status r.gas_used)
        (λ _.
          c.bind (check_reverted env run_id idx signer r) (λ _. next)
            (check_reverted-Closed idx signer r) (λ _. h))

  after_broadcast-Closed :
      (next : M (Unit {0})) (idx : ℕ) (signer : String) (r : Result String String)
      → P _ next
      → P _ (after_broadcast env run_id next idx signer r)
  after_broadcast-Closed next idx signer (err kind) h =
      fail_execution-Closed idx (some signer) kind (some kind)
  after_broadcast-Closed next idx signer (ok hash) h =
      c.bind (record_execution_broadcast env run_id idx signer hash)
        (λ _. after_receipt env run_id next idx signer (env.receipt idx))
        (c.broadcast_step idx signer hash)
        (λ _. after_receipt-Closed next idx signer (env.receipt idx) h)

  execute_sequential-Closed :
      (signer : String) (idx : ℕ) (ns : List (Option NormalizedAction))
      → P _ (execute_sequential env run_id signer idx ns)
  unfolding execute_sequential
  execute_sequential-Closed signer idx [] = c.pure_step tt
  execute_sequential-Closed signer idx (none ∷ ns) = execute_sequential-Closed signer (suc idx) ns
  execute_sequential-Closed signer idx (some na ∷ ns) =
      let next = execute_sequential env run_id signer (suc idx) ns in
      c.bind (send env run_id (single na.tx))
        (λ _. after_broadcast env run_id next idx signer (env.broadcast idx na.tx)) (send_step _)
        (λ _.
          after_broadcast-Closed next idx signer (env.broadcast idx na.tx)
            (execute_sequential-Closed signer (suc idx) ns))

  execute_signed-Closed :
      (first : ℕ) (ns : List (Option NormalizedAction)) (signer : String) (o : Option Address)
      → P _ (execute_signed env run_id first ns signer o)
  execute_signed-Closed first ns signer none = execute_sequential-Closed signer 0 ns
  execute_signed-Closed first ns signer (some delegate) =
      elim (Bool-cases (leb 2 (executable_count ns))) [
        | inl many ↦ rw many (execute_batch-Closed first signer delegate ns)
        | inr few ↦ rw few (execute_sequential-Closed signer 0 ns)
      ]

  with_signer-Closed :
      (first : ℕ) (ns : List (Option NormalizedAction)) (r : Result String String)
      → P _ (with_signer env run_id first ns r)
  with_signer-Closed first ns (err kind) = fail_execution-Closed first none kind (some kind)
  with_signer-Closed first ns (ok signer) = execute_signed-Closed first ns signer env.aa_delegate

  with_configuration-Closed :
      (first : ℕ) (ns : List (Option NormalizedAction)) (g : SignerConfig)
      → P _ (with_configuration env run_id first ns g)
  with_configuration-Closed first ns configured = with_signer-Closed first ns env.resolve_signer
  with_configuration-Closed first ns invalid = fail_execution-Closed first none _ _
  with_configuration-Closed first ns absent = fail_execution-Closed first none _ _

  execute_from-Closed :
      (ns : List (Option NormalizedAction)) (o : Option ℕ) → P _ (execute_from env run_id ns o)
  execute_from-Closed ns none = c.pure_step tt
  execute_from-Closed ns (some first) = with_configuration-Closed first ns env.signer_config

  check_chain_id-Closed : (ns : List (Option NormalizedAction)) → P _ (check_chain_id env run_id ns)
  unfolding execute_approved_actions
  check_chain_id-Closed ns =
      c.bind (or_throw evm env.execution_chain_id) (λ _. execute_approved_actions env run_id ns)
        (or_throw-Closed c evm env.execution_chain_id)
        (λ _. execute_from-Closed ns (first_index 0 ns))

  check_configuration-Closed :
      (first : ℕ) (ns : List (Option NormalizedAction)) (g : SignerConfig)
      → P _ (check_configuration env run_id first ns g)
  check_configuration-Closed first ns invalid = fail_execution-Closed first none _ _
  check_configuration-Closed first ns absent = check_chain_id-Closed ns
  check_configuration-Closed first ns configured = check_chain_id-Closed ns

  pub execute_if_any-Closed :
      (ns : List (Option NormalizedAction)) → P _ (execute_if_any env run_id ns)
  unfolding execute_if_any
  execute_if_any-Closed ns = elim (first_index 0 ns) as (λ o. P _ (check_any env run_id ns o)) [
    | none ↦ c.pure_step tt
    | some first ↦ check_configuration-Closed first ns env.signer_config
  ]

  module _ (alloy : Alloy) (enc : Text → Text → List Json → Result EvmError (List ℕ)) where
    -- From the gates to the end of the run.
    pub finish_run-Closed :
        (policy : Option LoadedPolicy) (given : StrategyOutcome)
        → P _ (finish_run env run_id alloy enc policy given)
    unfolding finish_run
    finish_run-Closed policy given =
        c.bind (gate_actions alloy env run_id enc policy given)
          (execute_and_complete env run_id alloy enc) (gate_actions-Closed alloy c enc policy given)
          (λ gated.
            c.bind (execute_if_any env run_id gated.1) (λ _. complete env run_id alloy enc gated.0)
              (execute_if_any-Closed gated.1)
              (λ _.
                c.bind (record_action env run_id gated.0)
                  (λ _. transition env run_id running succeeded >> pure gated.0)
                  (record_action-Closed c gated.0)
                  (λ _.
                    c.bind (transition env run_id running succeeded) (λ _. pure gated.0)
                      (c.transition_step running succeeded) (λ _. c.pure_step gated.0))))
