-- ===== src/Pipeline/Sends/Execution.antt =====
-- What `execute_approved_actions` hands over, on every path.
use onchain_strategy_mcp.Prelude.{
  ℕ, suc, String, true, false, Option, none, some, List, [], ◌∷◌, map, ◌≡◌, refl, Bool-cases,
  is_some, leb, inl, inr, ◌&&◌, ◌==◌, string_eq,
}
use onchain_strategy_mcp.Prelude.Result.{Result, ok, err}
use onchain_strategy_mcp.Alloy.{Address}
use onchain_strategy_mcp.Evm.Normalize.{NormalizedAction}
use onchain_strategy_mcp.Pipeline.Types.{
  Sent, single, batch, Env, Receipt, SignerConfig, invalid, absent, configured, deployed,
  not_deployed, unknown, evm, M, pure, ◌>>◌, or_throw,
}
use onchain_strategy_mcp.Pipeline.Journal.{
  record_execution_broadcast, record_execution_receipt_success,
}
use onchain_strategy_mcp.Pipeline.Gates.{executable_count}
use onchain_strategy_mcp.Pipeline.Execute.{
  transactions, first_index, fail_execution, for_each_action, check_reverted, after_batch_receipt,
  after_batch_sent, send_batch, check_delegate, execute_batch, after_receipt, after_broadcast,
  execute_sequential, execute_signed, with_signer, with_configuration, execute_from,
  execute_approved_actions, check_chain_id, check_configuration, check_any, execute_if_any,
}
use onchain_strategy_mcp.Pipeline.Silent.{
  Keeps, bind-Keeps, record_execution_broadcast-Keeps, record_execution_receipt_success-Keeps,
  or_throw-Keeps,
}
use onchain_strategy_mcp.Pipeline.Sends.{
  Sends, quiet-Sends, append_nil, send-Sends, fail_execution-Keeps, fail_execution-Sends,
}

module _ (env : Env) (run_id : String) where
  check_reverted-Sends :
      (idx : ℕ) (signer : String) (r : Receipt) → Sends [] (check_reverted env run_id idx signer r)
  check_reverted-Sends idx signer r = elim (Bool-cases (r.receipt_status == "reverted")) [
    | inl h ↦
        rw h
          (fail_execution-Sends env run_id [] idx (some signer) "receipt_failed" (some "reverted"))
    | inr h ↦ rw h (λ s. (0, append_nil _, λ a q. refl))
  ]

  check_reverted-Keeps :
      (idx : ℕ) (signer : String) (r : Receipt) → Keeps (check_reverted env run_id idx signer r)
  check_reverted-Keeps idx signer r = elim (Bool-cases (r.receipt_status == "reverted")) [
    | inl h ↦
        rw h (fail_execution-Keeps env run_id idx (some signer) "receipt_failed" (some "reverted"))
    | inr h ↦ rw h (λ s. refl)
  ]

  for_each_action-Keeps :
      (f : ℕ → M (Unit {0})) (idx : ℕ) (ns : List (Option NormalizedAction))
      → ((i : ℕ) → Keeps (f i))
      → Keeps (for_each_action env run_id f idx ns)
  for_each_action-Keeps f idx [] k = λ s. refl
  for_each_action-Keeps f idx (none ∷ ns) k = for_each_action-Keeps f (suc idx) ns k
  for_each_action-Keeps f idx (some na ∷ ns) k =
      bind-Keeps (f idx) (λ _. for_each_action env run_id f (suc idx) ns) (k idx)
        (λ _. for_each_action-Keeps f (suc idx) ns k)

  -- The steps after the one transaction of a batch left the process.
  after_batch_receipt-Sends :
      (first : ℕ) (signer : String) (ns : List (Option NormalizedAction))
      (r : Result String Receipt)
      → Sends [] (after_batch_receipt env run_id first signer ns r)
  after_batch_receipt-Sends first signer ns (err kind) =
      fail_execution-Sends env run_id [] first (some signer) kind (some kind)
  after_batch_receipt-Sends first signer ns (ok r) =
      quiet-Sends []
        (for_each_action env run_id
          (λ idx. record_execution_receipt_success env run_id idx r.receipt_status r.gas_used) 0 ns)
        (λ _. check_reverted env run_id first signer r)
        (for_each_action-Keeps _ 0 ns
          (λ i. record_execution_receipt_success-Keeps env run_id i r.receipt_status r.gas_used))
        (λ _. check_reverted-Sends first signer r)

  after_batch_sent-Sends :
      (first : ℕ) (signer : String) (ns : List (Option NormalizedAction)) (r : Result String String)
      → Sends [] (after_batch_sent env run_id first signer ns r)
  after_batch_sent-Sends first signer ns (err kind) =
      fail_execution-Sends env run_id [] first (some signer) kind (some kind)
  after_batch_sent-Sends first signer ns (ok hash) =
      quiet-Sends []
        (for_each_action env run_id (λ idx. record_execution_broadcast env run_id idx signer hash) 0
          ns)
        (λ _. after_batch_receipt env run_id first signer ns env.batch_receipt)
        (for_each_action-Keeps _ 0 ns
          (λ i. record_execution_broadcast-Keeps env run_id i signer hash))
        (λ _. after_batch_receipt-Sends first signer ns env.batch_receipt)

  send_batch-Sends :
      (first : ℕ) (signer : String) (delegate : Address) (ns : List (Option NormalizedAction))
      → Sends
          (batch delegate (transactions ns) ∷ [])
          (send_batch env run_id first signer delegate ns)
  send_batch-Sends first signer delegate ns =
      send-Sends env run_id (batch delegate (transactions ns)) []
        (after_batch_sent env run_id first signer ns env.send_7702_batch)
        (after_batch_sent-Sends first signer ns env.send_7702_batch)

  execute_batch-Sends :
      (first : ℕ) (signer : String) (delegate : Address) (ns : List (Option NormalizedAction))
      → Sends
          (batch delegate (transactions ns) ∷ [])
          (execute_batch env run_id first signer delegate ns)
  unfolding execute_batch
  execute_batch-Sends first signer delegate ns =
      elim env.delegate_code
        as (λ c.
          Sends (batch delegate (transactions ns) ∷ [])
            (check_delegate env run_id first signer delegate ns c)) [
              | not_deployed ↦
                  fail_execution-Sends env run_id _ first (some signer) "delegate_not_deployed"
                    (some "delegate_not_deployed")
              | deployed ↦ send_batch-Sends first signer delegate ns
              | unknown ↦ send_batch-Sends first signer delegate ns
            ]

  after_receipt-Sends :
      (xs : List Sent) (next : M (Unit {0})) (idx : ℕ) (signer : String) (r : Result String Receipt)
      → Sends xs next
      → Sends xs (after_receipt env run_id next idx signer r)
  after_receipt-Sends xs next idx signer (err kind) h =
      fail_execution-Sends env run_id xs idx (some signer) kind (some kind)
  after_receipt-Sends xs next idx signer (ok r) h =
      quiet-Sends xs (record_execution_receipt_success env run_id idx r.receipt_status r.gas_used)
        (λ _. check_reverted env run_id idx signer r >> next)
        (record_execution_receipt_success-Keeps env run_id idx r.receipt_status r.gas_used)
        (λ _.
          quiet-Sends xs (check_reverted env run_id idx signer r) (λ _. next)
            (check_reverted-Keeps idx signer r) (λ _. h))

  after_broadcast-Sends :
      (xs : List Sent) (next : M (Unit {0})) (idx : ℕ) (signer : String) (r : Result String String)
      → Sends xs next
      → Sends xs (after_broadcast env run_id next idx signer r)
  after_broadcast-Sends xs next idx signer (err kind) h =
      fail_execution-Sends env run_id xs idx (some signer) kind (some kind)
  after_broadcast-Sends xs next idx signer (ok hash) h =
      quiet-Sends xs (record_execution_broadcast env run_id idx signer hash)
        (λ _. after_receipt env run_id next idx signer (env.receipt idx))
        (record_execution_broadcast-Keeps env run_id idx signer hash)
        (λ _. after_receipt-Sends xs next idx signer (env.receipt idx) h)

  execute_sequential-Sends :
      (signer : String) (idx : ℕ) (ns : List (Option NormalizedAction))
      → Sends (map single (transactions ns)) (execute_sequential env run_id signer idx ns)
  unfolding execute_sequential
  execute_sequential-Sends signer idx [] = λ s. (0, append_nil _, λ a h. refl)
  execute_sequential-Sends signer idx (none ∷ ns) = execute_sequential-Sends signer (suc idx) ns
  execute_sequential-Sends signer idx (some na ∷ ns) =
      send-Sends env run_id (single na.tx) (map single (transactions ns))
        (after_broadcast env run_id (execute_sequential env run_id signer (suc idx) ns) idx signer
          (env.broadcast idx na.tx))
        (after_broadcast-Sends _ (execute_sequential env run_id signer (suc idx) ns) idx signer
          (env.broadcast idx na.tx) (execute_sequential-Sends signer (suc idx) ns))

  -- What a run may hand over, for the actions that were approved.
  pub data Payload : List (Option NormalizedAction) → List Sent → Type 0 where
    nothing : {ns : List (Option NormalizedAction)} → Payload ns []
    one_by_one :
        {ns : List (Option NormalizedAction)}
        → (is_some env.aa_delegate && leb 2 (executable_count ns)) ≡ false
        → Payload ns (map single (transactions ns))
    as_batch :
        {ns : List (Option NormalizedAction)} (delegate : Address)
        → env.aa_delegate ≡ some delegate
        → leb 2 (executable_count ns) ≡ true
        → Payload ns (batch delegate (transactions ns) ∷ [])

  abbrev pub Hands : List (Option NormalizedAction) → M (Unit {0}) → Type 0
  Hands ns m = (xs : List Sent) × Payload ns xs × Sends xs m

  fail_execution-Hands :
      (ns : List (Option NormalizedAction)) (idx : ℕ) (signer : Option String) (kind : String)
      (detail : Option String)
      → Hands ns (fail_execution env run_id idx signer kind detail)
  fail_execution-Hands ns idx signer kind detail =
      ([], nothing, fail_execution-Sends env run_id [] idx signer kind detail)

  nothing-Hands : (ns : List (Option NormalizedAction)) → Hands ns (pure tt)
  nothing-Hands ns = ([], nothing, λ s. (0, append_nil _, λ a q. refl))

  execute_signed-Sends :
      (first : ℕ) (ns : List (Option NormalizedAction)) (signer : String) (o : Option Address)
      → env.aa_delegate ≡ o
      → Hands ns (execute_signed env run_id first ns signer o)
  execute_signed-Sends first ns signer none e =
      (_, one_by_one (rw e refl), execute_sequential-Sends signer 0 ns)
  execute_signed-Sends first ns signer (some delegate) e =
      elim (Bool-cases (leb 2 (executable_count ns))) [
        | inl many ↦
            (_, as_batch delegate e many, rw many (execute_batch-Sends first signer delegate ns))
        | inr few ↦ (_, one_by_one (rw e few), rw few (execute_sequential-Sends signer 0 ns))
      ]

  with_signer-Hands :
      (first : ℕ) (ns : List (Option NormalizedAction)) (r : Result String String)
      → Hands ns (with_signer env run_id first ns r)
  with_signer-Hands first ns (err kind) = fail_execution-Hands ns first none kind (some kind)
  with_signer-Hands first ns (ok signer) = execute_signed-Sends first ns signer env.aa_delegate refl

  with_configuration-Hands :
      (first : ℕ) (ns : List (Option NormalizedAction)) (c : SignerConfig)
      → Hands ns (with_configuration env run_id first ns c)
  with_configuration-Hands first ns configured = with_signer-Hands first ns env.resolve_signer
  with_configuration-Hands first ns invalid =
      fail_execution-Hands ns first none "signer_not_configured"
        (some "set [signer].private_key_env")
  with_configuration-Hands first ns absent =
      fail_execution-Hands ns first none "signer_not_configured"
        (some "set [signer].private_key_env")

  execute_from-Hands :
      (ns : List (Option NormalizedAction)) (o : Option ℕ) → Hands ns (execute_from env run_id ns o)
  execute_from-Hands ns none = nothing-Hands ns
  execute_from-Hands ns (some first) = with_configuration-Hands first ns env.signer_config

  check_chain_id-Hands :
      (ns : List (Option NormalizedAction)) → Hands ns (check_chain_id env run_id ns)
  unfolding execute_approved_actions
  check_chain_id-Hands ns =
      let (xs, payload, sends) = execute_from-Hands ns (first_index 0 ns) in
      (
        xs,
        payload,
        quiet-Sends xs (or_throw evm env.execution_chain_id)
            (λ _. execute_approved_actions env run_id ns)
            (or_throw-Keeps evm env.execution_chain_id) (λ _. sends),
      )

  check_configuration-Hands :
      (first : ℕ) (ns : List (Option NormalizedAction)) (c : SignerConfig)
      → Hands ns (check_configuration env run_id first ns c)
  check_configuration-Hands first ns invalid =
      fail_execution-Hands ns first none "signer_not_configured"
        (some "invalid signer configuration")
  check_configuration-Hands first ns absent = check_chain_id-Hands ns
  check_configuration-Hands first ns configured = check_chain_id-Hands ns

  -- The execution hands over a first part of a payload made of exactly the approved actions, and
  -- all of it when it does not fail.
  pub execute_if_any-Hands :
      (ns : List (Option NormalizedAction)) → Hands ns (execute_if_any env run_id ns)
  unfolding execute_if_any
  execute_if_any-Hands ns = elim (first_index 0 ns) as (λ o. Hands ns (check_any env run_id ns o)) [
    | none ↦ nothing-Hands ns
    | some first ↦ check_configuration-Hands first ns env.signer_config
  ]
