-- ===== src/Pipeline/Start/Sent.antt =====
-- What stands behind everything that a run hands to the signer, from the strategy on.
use onchain_strategy_mcp.Prelude.{
  ℕ, String, Option, List, [], ◌++◌, take, ◌≡◌, refl, ap, ◌∙◌, ◌⊎◌, inl, inr,
}
use onchain_strategy_mcp.Prelude.Text.{Text}
use onchain_strategy_mcp.Prelude.Json.{Json}
use onchain_strategy_mcp.Prelude.Result.{Result, ok, err}
use onchain_strategy_mcp.Alloy.{Alloy, Saturates}
use onchain_strategy_mcp.Policy.Model.{LoadedPolicy}
use onchain_strategy_mcp.Evm.Validate.{EvmError}
use onchain_strategy_mcp.State.Error.{queued, running}
use onchain_strategy_mcp.State.Runs.{insert_run_with_action}
use onchain_strategy_mcp.State.Strategies.{Strategy, get_by_id}
use onchain_strategy_mcp.Pipeline.Types.{
  StrategyOutcome, Sent, Env, Store, McpError, evm, M, ◌>>=◌, ◌>>◌, or_throw,
}
use onchain_strategy_mcp.Pipeline.Journal.{on_runs, transition}
use onchain_strategy_mcp.Pipeline.Output.{validate_strategy_output}
use onchain_strategy_mcp.Pipeline.Output.Accepted.{IsOutcome, validate_strategy_output_iff}
use onchain_strategy_mcp.Pipeline.Execute.{finish_run}
use onchain_strategy_mcp.Pipeline.Silent.{Keeps, or_throw-Keeps, transition-Keeps}
use onchain_strategy_mcp.Pipeline.Sends.{append_nil}
use onchain_strategy_mcp.Pipeline.Safety.Run.{Backed, finish_run-sent}
use onchain_strategy_mcp.Pipeline.Start.{
  World, lineage_of, trimmed, accept_output, run_script, start_run, run_strategy_with_event,
}
use onchain_strategy_mcp.Pipeline.Start.Resolved.{Ready}
use onchain_strategy_mcp.Pipeline.Start.Quiet.{
  on_runs-Keeps, accept_output-Keeps, accept_output_ok, run-cases,
}

-- A step hands over a first part of a list with a property, and all of it when it does not fail.
abbrev pub HandsOver : {A : Type 0} → (List Sent → Type 0) → M A → Type 0
HandsOver {A} P m =
    (s : Store)
    → (xs : List Sent) × P xs
      × (k : ℕ) × ((m s).1.sent ≡ s.sent ++ take k xs)
      × ((a : A) → (m s).0 ≡ ok a → take k xs ≡ xs)

bind-HandsOver :
    {A B : Type 0} (P : List Sent → Type 0) (m : M A) (f : A → M B)
    → Keeps m
    → P []
    → ((a : A) (s : Store) → (m s).0 ≡ ok a → HandsOver P (f a))
    → HandsOver P (m >>= f)
bind-HandsOver {A} {B} P m f kept none_sent rest s = go (m s) (kept s) (λ a. rest a s)
  where
    go :
        (r : Result McpError A × Store)
        → r.1.sent ≡ s.sent
        → ((a : A) → r.0 ≡ ok a → HandsOver P (f a))
        → (let out = elim r.0 as (λ _. Result McpError B × Store) [
          | ok a ↦ f a r.1
          | err e ↦ (err e, r.1)
        ] in
            (xs : List Sent) × P xs
            × (k : ℕ) × (out.1.sent ≡ s.sent ++ take k xs)
            × ((b : B) → out.0 ≡ ok b → take k xs ≡ xs))
    go (ok a, s') e hands =
        let (xs, p, k, sent, all) = hands a refl s' in
        (xs, p, k, sent ∙ ap (λ t. t ++ take k xs) e, all)
    go (err e, s') q hands = ([], none_sent, 0, q ∙ append_nil _, λ b h. refl)

module _ (alloy : Alloy) (saturates : Saturates alloy) (env : Env) (run_id : String)
    (enc : Text → Text → List Json → Result EvmError (List ℕ)) (w : World)
    (policy : Option LoadedPolicy) (id : String) (event : Option Json)
    (action : Option String) where
  -- Nothing was to be sent; or the strategy was ready to run, the sandbox gave a value for its source
  -- and the event, the value stands for an outcome, and the gates cleared what was to be sent.
  abbrev pub Warranted : List Sent → Type 0
  Warranted xs =
      (xs ≡ [])
      ⊎ ((s : Strategy) × (source : Text) × (raw : Json) × (outcome : StrategyOutcome) × Ready w id
            action s source
          × (w.sandbox source event ≡ ok raw)
          × IsOutcome enc raw outcome
          × Backed alloy saturates env run_id enc policy outcome xs)

  finish_run-HandsOver :
      (s : Strategy) (source : Text) (raw : Json) (o : StrategyOutcome)
      → Ready w id action s source
      → w.sandbox source event ≡ ok raw
      → validate_strategy_output enc raw ≡ ok o
      → HandsOver Warranted (finish_run env run_id alloy enc policy o)
  finish_run-HandsOver s source raw o ready answered accepted st =
      let (xs, backed, k, sent, all) = finish_run-sent alloy saturates env run_id enc policy o st in
      (
        xs,
        inr (
          s,
          source,
          raw,
          o,
          ready,
          answered,
          (validate_strategy_output_iff enc raw o).0 accepted,
          backed,
        ),
        k,
        sent,
        all,
      )

  run_script-HandsOver :
      (s : Strategy) (source : Text)
      → Ready w id action s source
      → HandsOver Warranted (run_script env run_id alloy enc policy (w.sandbox source event))
  run_script-HandsOver s source ready =
      bind-HandsOver Warranted (or_throw evm env.provider)
        (λ _.
          accept_output env run_id alloy enc (w.sandbox source event)
          >>= finish_run env run_id alloy enc policy)
        (or_throw-Keeps evm env.provider) (inl refl)
        (λ _ _ _.
          bind-HandsOver Warranted (accept_output env run_id alloy enc (w.sandbox source event))
            (finish_run env run_id alloy enc policy)
            (accept_output-Keeps env run_id alloy enc (w.sandbox source event)) (inl refl)
            (λ o st h.
              let (raw, answered, accepted) =
                accept_output_ok env run_id alloy enc (w.sandbox source event) st o h in
              finish_run-HandsOver s source raw o ready answered accepted))

  start_run-HandsOver :
      (s : Strategy) (source : Text)
      → Ready w id action s source
      → HandsOver Warranted
          (start_run env run_id alloy enc w policy event (trimmed action) s source)
  unfolding start_run
  start_run-HandsOver s source ready =
      bind-HandsOver Warranted
        (on_runs (
          insert_run_with_action (lineage_of (get_by_id s.id w.strategies_at_insert)) run_id env.now
            s.id queued (trimmed action)))
        (λ _.
          transition env run_id queued running
          >> run_script env run_id alloy enc policy (w.sandbox source event))
        (on_runs-Keeps _) (inl refl)
        (λ _ _ _.
          bind-HandsOver Warranted (transition env run_id queued running)
            (λ _. run_script env run_id alloy enc policy (w.sandbox source event))
            (transition-Keeps env run_id queued running) (inl refl)
            (λ _ _ _. run_script-HandsOver s source ready))

  -- Whatever becomes of a run, what it hands to the signer is a first part of a list, and the whole of
  -- the list when the run does not fail. Either the list is empty; or the strategy was there and not
  -- deleted, its script, or the one of the action with the trimmed name, was run on the event, its value
  -- stands for an outcome, and the list is a payload of the actions of that outcome, normalized, each
  -- allowed by the policy and passed by the simulation or skipped in a batch.
  pub run_strategy_with_event-sent :
      (st : Store)
      → let out = run_strategy_with_event env run_id alloy enc w policy id event action st in
        (xs : List Sent) × Warranted xs
        × (k : ℕ) × (out.1.sent ≡ st.sent ++ take k xs)
        × ((o : StrategyOutcome) → out.0 ≡ ok o → take k xs ≡ xs)
  run_strategy_with_event-sent st =
      elim (run-cases env run_id alloy enc w policy id event action st) [
        | inl (s, source, ready, same) ↦ rw same (start_run-HandsOver s source ready st)
        | inr (e, same) ↦ rw same ([], inl refl, 0, append_nil _, λ o h. refl)
      ]
