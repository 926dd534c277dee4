-- ===== src/Pipeline/Filed/Execution.antt =====
-- The execution and the end of a run answer an error only with its status in the table.
use onchain_strategy_mcp.Prelude.{
  ℕ, suc, String, Option, none, some, List, [], ◌∷◌, ◌≡◌, refl, Bool-cases, leb, ◌==◌, string_eq,
  inl, inr,
}
use onchain_strategy_mcp.Prelude.Text.{Text}
use onchain_strategy_mcp.Prelude.Json.{Json}
use onchain_strategy_mcp.Prelude.Result.{Result, ok, err}
use onchain_strategy_mcp.Alloy.{Alloy, Address}
use onchain_strategy_mcp.Policy.Model.{LoadedPolicy}
use onchain_strategy_mcp.Evm.Validate.{EvmError}
use onchain_strategy_mcp.Evm.Normalize.{NormalizedAction}
use onchain_strategy_mcp.State.Error.{running, succeeded}
use onchain_strategy_mcp.Pipeline.Types.{
  StrategyOutcome, Store, Env, Receipt, SignerConfig, invalid, absent, configured, deployed,
  not_deployed, unknown, McpError, evm, M, pure, ◌>>=◌, ◌>>◌, or_throw,
}
use onchain_strategy_mcp.Pipeline.Journal.{
  transition, record_action, record_execution_broadcast, record_execution_receipt_success,
}
use onchain_strategy_mcp.Pipeline.Gates.{gate_actions, executable_count}
use onchain_strategy_mcp.Pipeline.Execute.{
  first_index, fail_execution, for_each_action, check_reverted, after_batch_receipt,
  after_batch_sent, send_batch, check_delegate, execute_batch, after_receipt, after_broadcast,
  execute_sequential, execute_signed, with_signer, with_configuration, execute_from,
  execute_approved_actions, check_chain_id, check_configuration, check_any, execute_if_any,
  complete, execute_and_complete, finish_run,
}
use onchain_strategy_mcp.Pipeline.Filed.{
  Files, Filed, HasStatus, status_of, bind-Files, evm-Files, filing, transition-Files,
  transition-HasStatus, record_action-Files, record_execution_broadcast-Files,
  record_execution_receipt_success-Files,
}
use onchain_strategy_mcp.Pipeline.Filed.Gates.{gate_actions-Files}

module _ (env : Env) (run_id : String) where
  fail_execution-Files :
      (idx : ℕ) (signer : Option String) (kind : String) (detail : Option String)
      → Files run_id (fail_execution env run_id idx signer kind detail)
  unfolding fail_execution
  fail_execution-Files idx signer kind detail = search (filing, inl) depth 12

  check_reverted-Files :
      (idx : ℕ) (signer : String) (r : Receipt)
      → Files run_id (check_reverted env run_id idx signer r)
  check_reverted-Files idx signer r = elim (Bool-cases (r.receipt_status == "reverted")) [
    | inl h ↦ rw h (fail_execution-Files idx (some signer) "receipt_failed" (some "reverted"))
    | inr h ↦ rw h (λ s. tt)
  ]

  for_each_action-Files :
      (f : ℕ → M (Unit {0})) (idx : ℕ) (ns : List (Option NormalizedAction))
      → ((i : ℕ) → Files run_id (f i))
      → Files run_id (for_each_action env run_id f idx ns)
  for_each_action-Files f idx [] k = λ s. tt
  for_each_action-Files f idx (none ∷ ns) k = for_each_action-Files f (suc idx) ns k
  for_each_action-Files f idx (some na ∷ ns) k =
      bind-Files run_id (f idx) (λ _. for_each_action env run_id f (suc idx) ns) (k idx)
        (λ _. for_each_action-Files f (suc idx) ns k)

  after_batch_receipt-Files :
      (first : ℕ) (signer : String) (ns : List (Option NormalizedAction))
      (r : Result String Receipt)
      → Files run_id (after_batch_receipt env run_id first signer ns r)
  after_batch_receipt-Files first signer ns (err kind) =
      fail_execution-Files first (some signer) kind (some kind)
  after_batch_receipt-Files first signer ns (ok r) =
      bind-Files run_id
        (for_each_action env run_id
          (λ idx. record_execution_receipt_success env run_id idx r.receipt_status r.gas_used) 0 ns)
        (λ _. check_reverted env run_id first signer r)
        (for_each_action-Files _ 0 ns
          (λ i. record_execution_receipt_success-Files run_id env i r.receipt_status r.gas_used))
        (λ _. check_reverted-Files first signer r)

  after_batch_sent-Files :
      (first : ℕ) (signer : String) (ns : List (Option NormalizedAction)) (r : Result String String)
      → Files run_id (after_batch_sent env run_id first signer ns r)
  after_batch_sent-Files first signer ns (err kind) =
      fail_execution-Files first (some signer) kind (some kind)
  after_batch_sent-Files first signer ns (ok hash) =
      bind-Files run_id
        (for_each_action env run_id (λ idx. record_execution_broadcast env run_id idx signer hash) 0
          ns)
        (λ _. after_batch_receipt env run_id first signer ns env.batch_receipt)
        (for_each_action-Files _ 0 ns
          (λ i. record_execution_broadcast-Files run_id env i signer hash))
        (λ _. after_batch_receipt-Files first signer ns env.batch_receipt)

  send_batch-Files :
      (first : ℕ) (signer : String) (delegate : Address) (ns : List (Option NormalizedAction))
      → Files run_id (send_batch env run_id first signer delegate ns)
  send_batch-Files first signer delegate ns s =
      after_batch_sent-Files first signer ns env.send_7702_batch _

  execute_batch-Files :
      (first : ℕ) (signer : String) (delegate : Address) (ns : List (Option NormalizedAction))
      → Files run_id (execute_batch env run_id first signer delegate ns)
  unfolding execute_batch
  execute_batch-Files first signer delegate ns =
      elim env.delegate_code
        as (λ c. Files run_id (check_delegate env run_id first signer delegate ns c)) [
          | not_deployed ↦
              fail_execution-Files first (some signer) "delegate_not_deployed"
                (some "delegate_not_deployed")
          | deployed ↦ send_batch-Files first signer delegate ns
          | unknown ↦ send_batch-Files first signer delegate ns
        ]

  after_receipt-Files :
      (next : M (Unit {0})) (idx : ℕ) (signer : String) (r : Result String Receipt)
      → Files run_id next
      → Files run_id (after_receipt env run_id next idx signer r)
  after_receipt-Files next idx signer (err kind) h =
      fail_execution-Files idx (some signer) kind (some kind)
  after_receipt-Files next idx signer (ok r) h =
      bind-Files run_id
        (record_execution_receipt_success env run_id idx r.receipt_status r.gas_used)
        (λ _. check_reverted env run_id idx signer r >> next)
        (record_execution_receipt_success-Files run_id env idx r.receipt_status r.gas_used)
        (λ _.
          bind-Files run_id (check_reverted env run_id idx signer r) (λ _. next)
            (check_reverted-Files idx signer r) (λ _. h))

  after_broadcast-Files :
      (next : M (Unit {0})) (idx : ℕ) (signer : String) (r : Result String String)
      → Files run_id next
      → Files run_id (after_broadcast env run_id next idx signer r)
  after_broadcast-Files next idx signer (err kind) h =
      fail_execution-Files idx (some signer) kind (some kind)
  after_broadcast-Files next idx signer (ok hash) h =
      bind-Files run_id (record_execution_broadcast env run_id idx signer hash)
        (λ _. after_receipt env run_id next idx signer (env.receipt idx))
        (record_execution_broadcast-Files run_id env idx signer hash)
        (λ _. after_receipt-Files next idx signer (env.receipt idx) h)

  execute_sequential-Files :
      (signer : String) (idx : ℕ) (ns : List (Option NormalizedAction))
      → Files run_id (execute_sequential env run_id signer idx ns)
  unfolding execute_sequential
  execute_sequential-Files signer idx [] = λ s. tt
  execute_sequential-Files signer idx (none ∷ ns) = execute_sequential-Files signer (suc idx) ns
  execute_sequential-Files signer idx (some na ∷ ns) = λ s.
      after_broadcast-Files (execute_sequential env run_id signer (suc idx) ns) idx signer
        (env.broadcast idx na.tx) (execute_sequential-Files signer (suc idx) ns) _

  execute_signed-Files :
      (first : ℕ) (ns : List (Option NormalizedAction)) (signer : String) (o : Option Address)
      → Files run_id (execute_signed env run_id first ns signer o)
  execute_signed-Files first ns signer none = execute_sequential-Files signer 0 ns
  execute_signed-Files first ns signer (some delegate) =
      elim (Bool-cases (leb 2 (executable_count ns))) [
        | inl many ↦ rw many (execute_batch-Files first signer delegate ns)
        | inr few ↦ rw few (execute_sequential-Files signer 0 ns)
      ]

  with_signer-Files :
      (first : ℕ) (ns : List (Option NormalizedAction)) (r : Result String String)
      → Files run_id (with_signer env run_id first ns r)
  with_signer-Files first ns (err kind) = fail_execution-Files first none kind (some kind)
  with_signer-Files first ns (ok signer) = execute_signed-Files first ns signer env.aa_delegate

  with_configuration-Files :
      (first : ℕ) (ns : List (Option NormalizedAction)) (c : SignerConfig)
      → Files run_id (with_configuration env run_id first ns c)
  with_configuration-Files first ns configured = with_signer-Files first ns env.resolve_signer
  with_configuration-Files first ns invalid = fail_execution-Files first none _ _
  with_configuration-Files first ns absent = fail_execution-Files first none _ _

  execute_from-Files :
      (ns : List (Option NormalizedAction)) (o : Option ℕ)
      → Files run_id (execute_from env run_id ns o)
  execute_from-Files ns none = λ s. tt
  execute_from-Files ns (some first) = with_configuration-Files first ns env.signer_config

  check_chain_id-Files :
      (ns : List (Option NormalizedAction)) → Files run_id (check_chain_id env run_id ns)
  unfolding execute_approved_actions
  check_chain_id-Files ns =
      bind-Files run_id (or_throw evm env.execution_chain_id)
        (λ _. execute_approved_actions env run_id ns) (evm-Files run_id env.execution_chain_id)
        (λ _. execute_from-Files ns (first_index 0 ns))

  check_configuration-Files :
      (first : ℕ) (ns : List (Option NormalizedAction)) (c : SignerConfig)
      → Files run_id (check_configuration env run_id first ns c)
  check_configuration-Files first ns invalid = fail_execution-Files first none _ _
  check_configuration-Files first ns absent = check_chain_id-Files ns
  check_configuration-Files first ns configured = check_chain_id-Files ns

  execute_if_any-Files :
      (ns : List (Option NormalizedAction)) → Files run_id (execute_if_any env run_id ns)
  unfolding execute_if_any
  execute_if_any-Files ns =
      elim (first_index 0 ns) as (λ o. Files run_id (check_any env run_id ns o)) [
        | none ↦ λ s. tt
        | some first ↦ check_configuration-Files first ns env.signer_config
      ]

  -- The answer of a run agrees with the table: `succeeded` for a value, the status of the error else.
  abbrev pub Answered : {A : Type 0} → Result McpError A × Store → Type 0
  Answered (ok a, s) = HasStatus run_id (some succeeded) s.runs
  Answered (err e, s) = HasStatus run_id (status_of e) s.runs

  pub bind-Answered :
      {A B : Type 0} (m : M A) (f : A → M B)
      → Files run_id m
      → ((a : A) (s : Store) → Answered (f a s))
      → (s : Store) → Answered ((m >>= f) s)
  bind-Answered {A} {B} m f km kf s = go (m s) (km s)
    where
      go :
          (r : Result McpError A × Store)
          → Filed run_id r
          → Answered (elim r.0 as (λ _. Result McpError B × Store) [
            | ok a ↦ f a r.1
            | err e ↦ (err e, r.1)
          ])
      go (ok a, s') h = kf a s'
      go (err e, s') h = h

  succeed-Answered :
      (o : StrategyOutcome) (s : Store)
      → Answered ((transition env run_id running succeeded >> pure o) s)
  succeed-Answered o s =
      go (transition env run_id running succeeded s)
        (transition-HasStatus run_id env running succeeded s)
        (transition-Files run_id env running succeeded s)
    where
      go :
          (r : Result McpError (Unit {0}) × Store)
          → (r.0 ≡ ok tt → HasStatus run_id (some succeeded) r.1.runs)
          → Filed run_id r
          → Answered (elim r.0 as (λ _. Result McpError StrategyOutcome × Store) [
            | ok a ↦ (ok o, r.1)
            | err e ↦ (err e, r.1)
          ])
      go (ok a, s') k f = k refl
      go (err e, s') k f = f

  module _ (alloy : Alloy) (enc : Text → Text → List Json → Result EvmError (List ℕ)) where
    complete-Answered :
        (o : StrategyOutcome) (s : Store) → Answered (complete env run_id alloy enc o s)
    complete-Answered o =
        bind-Answered (record_action env run_id o)
          (λ _. transition env run_id running succeeded >> pure o)
          (record_action-Files run_id env o) (λ _. succeed-Answered o)

    -- When a run answers with a value, the table has the run as succeeded; when it answers that the
    -- policy is missing or denied it, as denied by the policy; that a simulation failed, as denied by
    -- the simulation; that signing, sending or a receipt failed, as failed.
    pub finish_run-Answered :
        (policy : Option LoadedPolicy) (given : StrategyOutcome) (s : Store)
        → Answered (finish_run env run_id alloy enc policy given s)
    unfolding finish_run
    finish_run-Answered policy given =
        bind-Answered (gate_actions alloy env run_id enc policy given)
          (execute_and_complete env run_id alloy enc)
          (gate_actions-Files alloy env run_id enc policy given)
          (λ gated.
            bind-Answered (execute_if_any env run_id gated.1)
              (λ _. complete env run_id alloy enc gated.0) (execute_if_any-Files gated.1)
              (λ _. complete-Answered gated.0))
