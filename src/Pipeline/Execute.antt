-- ===== src/Pipeline/Execute.antt =====
-- `execute_approved_actions` and the end of `run_strategy_with_event`: signing, sending, receipts, and
-- the status of the run.
use onchain_strategy_mcp.Prelude.{
  ℕ, suc, String, Option, none, some, List, [], ◌∷◌, ◌++◌, leb, if◌then◌else◌, ◌==◌, string_eq,
}
use onchain_strategy_mcp.Prelude.Text.{Text}
use onchain_strategy_mcp.Prelude.Json.{Json}
use onchain_strategy_mcp.Prelude.Result.{Result, ok, err}
use onchain_strategy_mcp.Alloy.{Alloy, Address}
use onchain_strategy_mcp.Policy.Model.{LoadedPolicy}
use onchain_strategy_mcp.Evm.Validate.{EvmError}
use onchain_strategy_mcp.Evm.Normalize.{TransactionRequest, NormalizedAction}
use onchain_strategy_mcp.State.Error.{running, failed, succeeded}
use onchain_strategy_mcp.Pipeline.Types.{
  StrategyOutcome, execution_kind, Sent, single, batch, Receipt, SignerConfig, invalid, absent,
  configured, DelegateCode, deployed, not_deployed, unknown, Env, evm, runtime, M, pure, throw,
  modify, ◌>>=◌, ◌>>◌, or_throw,
}
use onchain_strategy_mcp.Pipeline.Journal.{
  transition, record_runtime_error, record_action, record_execution_broadcast,
  record_execution_receipt_success, record_error,
}
use onchain_strategy_mcp.Pipeline.Gates.{gate_actions, executable_count}

-- `normalized.iter().position(Option::is_some)`
abbrev pub first_index : ℕ → List (Option NormalizedAction) → Option ℕ
first_index n [] = none
first_index n (some na ∷ ns) = some n
first_index n (none ∷ ns) = first_index (suc n) ns

-- The transactions of the approved actions, in order.
abbrev pub transactions : List (Option NormalizedAction) → List TransactionRequest
transactions [] = []
transactions (none ∷ ns) = transactions ns
transactions (some na ∷ ns) = na.tx ∷ transactions ns

module _ (env : Env) (run_id : String) where
  abbrev pub send : Sent → M (Unit {0})
  send x = modify (λ s. record s { sent = s.sent ++ x ∷ [] })

  -- The four calls that end a run early while it is executed.
  unfoldable pub fail_execution : ℕ → Option String → String → Option String → M (Unit {0})
  fail_execution idx signer kind detail = do
    record_error env run_id idx signer kind detail
    record_runtime_error env run_id (execution_kind kind)
    transition env run_id running failed
    throw (runtime kind)

  -- The rows of a batch: every executable action gets the hash, or the receipt.
  abbrev pub for_each_action :
      (ℕ → M (Unit {0})) → ℕ → List (Option NormalizedAction) → M (Unit {0})
  for_each_action f idx [] = pure tt
  for_each_action f idx (none ∷ ns) = for_each_action f (suc idx) ns
  for_each_action f idx (some na ∷ ns) = do f idx; for_each_action f (suc idx) ns

  -- The end of the batch path and of one sequential action: a reverted receipt fails the run.
  abbrev pub check_reverted : ℕ → String → Receipt → M (Unit {0})
  check_reverted idx signer r =
      if r.receipt_status == "reverted"
      then fail_execution idx (some signer) "receipt_failed" (some "reverted")
      else pure tt

  abbrev pub after_batch_receipt :
      ℕ → String → List (Option NormalizedAction) → Result String Receipt → M (Unit {0})
  after_batch_receipt first signer normalized (err kind) =
      fail_execution first (some signer) kind (some kind)
  after_batch_receipt first signer normalized (ok r) = do
    for_each_action
        (λ idx. record_execution_receipt_success env run_id idx r.receipt_status r.gas_used) 0
        normalized
    check_reverted first signer r

  abbrev pub after_batch_sent :
      ℕ → String → List (Option NormalizedAction) → Result String String → M (Unit {0})
  after_batch_sent first signer normalized (err kind) =
      fail_execution first (some signer) kind (some kind)
  after_batch_sent first signer normalized (ok hash) = do
    for_each_action (λ idx. record_execution_broadcast env run_id idx signer hash) 0 normalized
    after_batch_receipt first signer normalized env.batch_receipt

  -- The EIP-7702 path. Only a definite answer that there is no code stops it before sending.
  abbrev pub send_batch : ℕ → String → Address → List (Option NormalizedAction) → M (Unit {0})
  send_batch first signer delegate normalized = do
    send (batch delegate (transactions normalized))
    after_batch_sent first signer normalized env.send_7702_batch

  abbrev pub check_delegate :
      ℕ → String → Address → List (Option NormalizedAction) → DelegateCode → M (Unit {0})
  check_delegate first signer delegate normalized not_deployed =
      fail_execution first (some signer) "delegate_not_deployed" (some "delegate_not_deployed")
  check_delegate first signer delegate normalized deployed =
      send_batch first signer delegate normalized
  check_delegate first signer delegate normalized unknown =
      send_batch first signer delegate normalized

  unfoldable pub execute_batch :
      ℕ → String → Address → List (Option NormalizedAction) → M (Unit {0})
  execute_batch first signer delegate normalized =
      check_delegate first signer delegate normalized env.delegate_code

  -- One action of the sequential path, once the receipt, or the hash, is there; `next` is the rest
  -- of the loop.
  abbrev pub after_receipt : M (Unit {0}) → ℕ → String → Result String Receipt → M (Unit {0})
  after_receipt next idx signer (err kind) = fail_execution idx (some signer) kind (some kind)
  after_receipt next idx signer (ok r) = do
    record_execution_receipt_success env run_id idx r.receipt_status r.gas_used
    check_reverted idx signer r
    next

  abbrev pub after_broadcast : M (Unit {0}) → ℕ → String → Result String String → M (Unit {0})
  after_broadcast next idx signer (err kind) = fail_execution idx (some signer) kind (some kind)
  after_broadcast next idx signer (ok hash) = do
    record_execution_broadcast env run_id idx signer hash
    after_receipt next idx signer (env.receipt idx)

  -- The sequential path: each action is sent and confirmed before the next.
  unfoldable pub execute_sequential : String → ℕ → List (Option NormalizedAction) → M (Unit {0})
  execute_sequential signer idx [] = pure tt
  execute_sequential signer idx (none ∷ ns) = execute_sequential signer (suc idx) ns
  execute_sequential signer idx (some na ∷ ns) = do
    send (single na.tx)
    after_broadcast (execute_sequential signer (suc idx) ns) idx signer (env.broadcast idx na.tx)

  -- The choice of path, once the signer is known.
  abbrev pub execute_signed :
      ℕ → List (Option NormalizedAction) → String → Option Address → M (Unit {0})
  execute_signed first normalized signer none = execute_sequential signer 0 normalized
  execute_signed first normalized signer (some delegate) =
      if leb 2 (executable_count normalized)
      then execute_batch first signer delegate normalized
      else execute_sequential signer 0 normalized

  abbrev pub with_signer : ℕ → List (Option NormalizedAction) → Result String String → M (Unit {0})
  with_signer first normalized (err kind) = fail_execution first none kind (some kind)
  with_signer first normalized (ok signer) = execute_signed first normalized signer env.aa_delegate

  abbrev pub signer_not_configured : ℕ → Option String → M (Unit {0})
  signer_not_configured first detail = fail_execution first none "signer_not_configured" detail

  abbrev pub with_configuration : ℕ → List (Option NormalizedAction) → SignerConfig → M (Unit {0})
  with_configuration first normalized configured = with_signer first normalized env.resolve_signer
  with_configuration first normalized invalid =
      signer_not_configured first (some "set [signer].private_key_env")
  with_configuration first normalized absent =
      signer_not_configured first (some "set [signer].private_key_env")

  abbrev pub execute_from : List (Option NormalizedAction) → Option ℕ → M (Unit {0})
  execute_from normalized none = pure tt
  execute_from normalized (some first) = with_configuration first normalized env.signer_config

  unfoldable pub execute_approved_actions : List (Option NormalizedAction) → M (Unit {0})
  execute_approved_actions normalized = execute_from normalized (first_index 0 normalized)

  -- The tail of the run: the signer's configuration and the chain, then the execution.
  abbrev pub check_chain_id : List (Option NormalizedAction) → M (Unit {0})
  check_chain_id approved = do
    or_throw evm env.execution_chain_id
    execute_approved_actions approved

  abbrev pub check_configuration : ℕ → List (Option NormalizedAction) → SignerConfig → M (Unit {0})
  check_configuration first approved invalid =
      signer_not_configured first (some "invalid signer configuration")
  check_configuration first approved absent = check_chain_id approved
  check_configuration first approved configured = check_chain_id approved

  abbrev pub check_any : List (Option NormalizedAction) → Option ℕ → M (Unit {0})
  check_any approved none = pure tt
  check_any approved (some first) = check_configuration first approved env.signer_config

  unfoldable pub execute_if_any : List (Option NormalizedAction) → M (Unit {0})
  execute_if_any approved = check_any approved (first_index 0 approved)

  -- STEP 7 and STEP 8 for an outcome that the sandbox returned and the validator accepted.
  module _ (alloy : Alloy)
      (encode_call_input : Text → Text → List Json → Result EvmError (List ℕ)) where
    abbrev pub complete : StrategyOutcome → M StrategyOutcome
    complete outcome = do
      record_action env run_id outcome
      transition env run_id running succeeded
      pure outcome

    abbrev pub execute_and_complete :
        StrategyOutcome × List (Option NormalizedAction) → M StrategyOutcome
    execute_and_complete (outcome, approved) = execute_if_any approved >> complete outcome

    unfoldable pub finish_run : Option LoadedPolicy → StrategyOutcome → M StrategyOutcome
    finish_run policy outcome =
        gate_actions alloy env run_id encode_call_input policy outcome >>= execute_and_complete
