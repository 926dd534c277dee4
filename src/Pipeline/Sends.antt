-- ===== src/Pipeline/Sends.antt =====
-- What the execution of the approved actions hands to the signer.
pub mod Execution
use onchain_strategy_mcp.Prelude.{
  append_assoc, ℕ, suc, String, true, false, Option, none, some, List, [], ◌∷◌, ◌++◌, map, take,
  ◌≡◌, refl, ap, ◌∙◌, arith, Bool-cases, is_some, leb, inl, inr, ◌&&◌, ◌==◌, string_eq,
}
use onchain_strategy_mcp.Prelude.Result.{Result, ok, err}
use onchain_strategy_mcp.Alloy.{Address}
use onchain_strategy_mcp.Evm.Normalize.{NormalizedAction}
use onchain_strategy_mcp.Pipeline.Types.{
  Sent, single, batch, Store, Env, Receipt, SignerConfig, invalid, absent, configured, deployed,
  not_deployed, unknown, McpError, evm, M, pure, throw, ◌>>=◌, ◌>>◌, or_throw,
}
use onchain_strategy_mcp.Pipeline.Journal.{
  record_execution_broadcast, record_execution_receipt_success,
}
use onchain_strategy_mcp.Pipeline.Gates.{executable_count}
use onchain_strategy_mcp.Pipeline.Execute.{
  transactions, first_index, send, fail_execution, for_each_action, check_reverted,
  after_batch_receipt, after_batch_sent, send_batch, check_delegate, execute_batch, after_receipt,
  after_broadcast, execute_sequential, execute_signed, with_signer, with_configuration,
  execute_from, execute_approved_actions, check_chain_id, check_configuration, check_any,
  execute_if_any,
}
use onchain_strategy_mcp.Pipeline.Silent.{
  Keeps, bind-Keeps, quiet, throw-Keeps, record_execution_broadcast-Keeps,
  record_execution_receipt_success-Keeps, record_error-Keeps, or_throw-Keeps,
}

-- A step that never gives a value.
abbrev pub Fails : {A : Type 0} → M A → Type 0
Fails m = (s : Store) → (e : McpError) × ((m s).0 ≡ err e)

-- A step that hands over a first part of the list, and all of it when it does not fail.
abbrev pub Sends : {A : Type 0} → List Sent → M A → Type 0
Sends {A} xs m =
    (s : Store)
    → (k : ℕ) × ((m s).1.sent ≡ s.sent ++ take k xs) × ((a : A) → (m s).0 ≡ ok a → take k xs ≡ xs)

pub bind-Fails : {A B : Type 0} (m : M A) (f : A → M B) → ((a : A) → Fails (f a)) → Fails (m >>= f)
bind-Fails {A} {B} m f h s = go (m s)
  where
    go :
        (r : Result McpError A × Store)
        → (e : McpError) × ((elim r.0 as (λ _. Result McpError B × Store) [
          | ok a ↦ f a r.1
          | err e ↦ (err e, r.1)
        ]).0
            ≡ err e)
    go (ok a, s') = h a s'
    go (err e, s') = (e, refl)

pub throw-Fails : (A : Type 0) (e : McpError) → Fails (throw {A = A} e)
throw-Fails A e s = (e, refl)

pub append_nil : {A : Type 0} (xs : List A) → xs ≡ xs ++ []
append_nil [] = refl
append_nil (x ∷ xs) = ap (λ t. x ∷ t) (append_nil xs)

fail-Sends : {A : Type 0} (xs : List Sent) (m : M A) → Keeps m → Fails m → Sends xs m
fail-Sends xs m k f s = (0, k s ∙ append_nil _, λ a h. ground (arith, (f s).1, h))

done-Sends : {A : Type 0} (m : M A) → Keeps m → Sends [] m
done-Sends m k s = (0, k s ∙ append_nil _, λ a h. refl)

quiet-Sends :
    {A B : Type 0} (xs : List Sent) (m : M A) (f : A → M B)
    → Keeps m
    → ((a : A) → Sends xs (f a))
    → Sends xs (m >>= f)
quiet-Sends {A} {B} xs m f km h s = go (m s) (km s)
  where
    go :
        (r : Result McpError A × Store)
        → r.1.sent ≡ s.sent
        → (let out = elim r.0 as (λ _. Result McpError B × Store) [
          | ok a ↦ f a r.1
          | err e ↦ (err e, r.1)
        ] in
            (k : ℕ) × (out.1.sent ≡ s.sent ++ take k xs)
            × ((b : B) → out.0 ≡ ok b → take k xs ≡ xs))
    go (ok a, s') e = let (k, sent, all) = h a s' in (k, sent ∙ ap (λ t. t ++ take k xs) e, all)
    go (err e, s') q = (0, q ∙ append_nil _, λ b h. ground (arith, h))

-- What comes after, when it sends nothing, changes neither.
pub Sends-quiet :
    {A B : Type 0} (xs : List Sent) (m : M A) (f : A → M B)
    → Sends xs m
    → ((a : A) → Keeps (f a))
    → Sends xs (m >>= f)
Sends-quiet {A} {B} xs m f h kf s = go (m s) (h s)
  where
    go :
        (r : Result McpError A × Store)
        → (k : ℕ) × (r.1.sent ≡ s.sent ++ take k xs) × ((a : A) → r.0 ≡ ok a → take k xs ≡ xs)
        → (let out = elim r.0 as (λ _. Result McpError B × Store) [
          | ok a ↦ f a r.1
          | err e ↦ (err e, r.1)
        ] in
            (k : ℕ) × (out.1.sent ≡ s.sent ++ take k xs)
            × ((b : B) → out.0 ≡ ok b → take k xs ≡ xs))
    go (ok a, s') (k, e, all) = (k, kf a s' ∙ e, λ b q. all a refl)
    go (err e, s') (k, q, all) = (k, q, λ b h. ground (arith, h))

module _ (env : Env) (run_id : String) where
  send-Sends :
      {A : Type 0} (x : Sent) (xs : List Sent) (m : M A)
      → Sends xs m
      → Sends (x ∷ xs) (send env run_id x >> m)
  send-Sends x xs m h s =
      let (k, sent, all) = h (record s { sent = s.sent ++ x ∷ [] }) in
      (suc k, sent ∙ append_assoc s.sent (x ∷ []) (take k xs), λ a q. ap (λ t. x ∷ t) (all a q))

  fail_execution-Fails :
      (idx : ℕ) (signer : Option String) (kind : String) (detail : Option String)
      → Fails (fail_execution env run_id idx signer kind detail)
  unfolding fail_execution
  fail_execution-Fails idx signer kind detail = search (bind-Fails, throw-Fails)

  fail_execution-Keeps :
      (idx : ℕ) (signer : Option String) (kind : String) (detail : Option String)
      → Keeps (fail_execution env run_id idx signer kind detail)
  unfolding fail_execution
  fail_execution-Keeps idx signer kind detail = search (quiet, throw-Keeps, record_error-Keeps)

  fail_execution-Sends :
      (xs : List Sent) (idx : ℕ) (signer : Option String) (kind : String) (detail : Option String)
      → Sends xs (fail_execution env run_id idx signer kind detail)
  fail_execution-Sends xs idx signer kind detail =
      fail-Sends xs (fail_execution env run_id idx signer kind detail)
        (fail_execution-Keeps idx signer kind detail) (fail_execution-Fails idx signer kind detail)
