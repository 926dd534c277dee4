-- ===== src/StartScenarios.antt =====
-- A strategy with a named action, and what the theorems say of its runs.
use onchain_strategy_mcp.Prelude.{
  inl, ℕ, String, true, none, some, List, [], ◌∷◌, ◌++◌, take, ◌≡◌, ◌≢◌, refl, ◌↔◌, nat_beq,
  if◌then◌else◌,
}
use onchain_strategy_mcp.Prelude.Text.{Text, codes}
use onchain_strategy_mcp.Prelude.Json.{string, array, object, nil, cons}
use onchain_strategy_mcp.Prelude.Result.{ok, err}
use onchain_strategy_mcp.Evm.Normalize.{
  Action, native_transfer, normalize_action, normalize_native_transfer,
}
use onchain_strategy_mcp.Evm.Validate.{validate_address, validate_decimal_amount}
use onchain_strategy_mcp.Evm.Wire.{
  kind, parse_action, parse_variant, parse_native_transfer, action_to_fields,
}
use onchain_strategy_mcp.Evm.Wire.RoundTrip.{parse_action-action_to_fields}
use onchain_strategy_mcp.Policy.Model.{
  allows_chain, allows_contract, allows_selector, native_value_cap, erc20_spend_cap,
}
use onchain_strategy_mcp.Policy.Eval.{evaluate}
use onchain_strategy_mcp.State.Error.{succeeded}
use onchain_strategy_mcp.State.Table.{find}
use onchain_strategy_mcp.State.Executions.{record_broadcast, record_receipt_success}
use onchain_strategy_mcp.State.Strategies.{Strategy}
use onchain_strategy_mcp.State.Status.{status_to_wire}
use onchain_strategy_mcp.State.Runs.{
  has_id, insert_run_with_action, update_run_status_with_transition,
}
use onchain_strategy_mcp.State.Runs.Life.{IsSound}
use onchain_strategy_mcp.Pipeline.Types.{
  StrategyOutcome, GateVerdict, Sent, RuntimeError, Store, McpError,
}
use onchain_strategy_mcp.Pipeline.Journal.{
  transition, record_decision_row, record_gate_action_outcome, record_action,
  record_execution_broadcast, record_execution_receipt_success,
}
use onchain_strategy_mcp.Pipeline.Gates.{
  decision_from_normalized, policy_gate, judge, simulate_one, push_normalized, simulation_gate,
  run_gates, normalize_all, gate_actions,
}
use onchain_strategy_mcp.Pipeline.Execute.{
  execute_sequential, execute_approved_actions, execute_if_any, finish_run,
}
use onchain_strategy_mcp.Pipeline.Filed.Execution.{Answered}
use onchain_strategy_mcp.Pipeline.Output.{
  validate_action_kind_allowlisted, check_kinds, read_actions, check_encodings, validate_items,
  validate_strategy_output,
}
use onchain_strategy_mcp.Pipeline.Output.Accepted.{IsOutcome, validate_strategy_output_iff}
use onchain_strategy_mcp.Pipeline.Start.Names.{trim, trim_start, trim_end}
use onchain_strategy_mcp.Pipeline.Start.{
  trimmed, World, resolved_source, load_strategy, accept_output, start_run, run_strategy_with_event,
}
use onchain_strategy_mcp.Pipeline.Start.Resolved.{Ready}
use onchain_strategy_mcp.Pipeline.Start.Succeeds.{IsIn, run_strategy_with_event-noop}
use onchain_strategy_mcp.Pipeline.Start.Quiet.{run_strategy_with_event-refused}
use onchain_strategy_mcp.Pipeline.Start.Sent.{Warranted, run_strategy_with_event-sent}
use onchain_strategy_mcp.Pipeline.Start.Answered.{run_strategy_with_event-Answered}
use onchain_strategy_mcp.Pipeline.Start.Calls.{
  Performed, run_strategy_with_event-Performs, run_strategy_with_event-runs,
}
use onchain_strategy_mcp.Pipeline.Start.Journaled.{Journaled, run_strategy_with_event-Journaled}
use onchain_strategy_mcp.Pipeline.Start.Tool.{
  StrategyRunResponse, validate_strategy_id_format, strategy_run, strategy_run-answers,
}
use onchain_strategy_mcp.Pipeline.Start.Registered.{
  canonical_actions, is_blank_after, reserved, duplicate_name, canonical_actions-resolved_source,
}
use onchain_strategy_mcp.Scenarios.{the_alloy, the_alloy-Saturates, encode, the_policy, the_env}

abbrev the_id : String
the_id = "0123456789abcdef0123456789abcdef0123456789abcdef0123456789abcdef"

abbrev the_strategy : Strategy
the_strategy = record {
  id = the_id;
  name = "payer";
  source = codes "execute";
  description = none;
  tags = none;
  created_at = "t0";
  deleted_at = none;
  records_json = none;
  view_source = none;
  contracts_touched_json = none;
  lineage_id = "l";
  actions_json = some (codes "{..}");
}

abbrev the_transfer : Action
the_transfer =
    native_transfer
      record { to = codes "0x000000000000000000000000000000000000002a"; value = codes "5" }

-- The script of the strategy does nothing; its action `pay` makes a transfer.
abbrev the_world : World
the_world = record {
  sandbox = λ source event. elim source [
    | [] ↦ err RuntimeError.timeout
    | c ∷ rest ↦ ok (
        if nat_beq c 112
        then array (cons (object (action_to_fields the_transfer)) nil)
        else string (codes "noop"))
  ];
  parse_actions = λ t. some (("pay", codes "pay()") ∷ []);
  strategies = the_strategy ∷ [];
  strategies_at_insert = the_strategy ∷ [];
}

abbrev empty_store : Store
empty_store = record { runs = []; decisions = []; outcomes = []; executions = []; sent = [] }

abbrev paid : StrategyOutcome
paid =
    StrategyOutcome.actions (the_transfer ∷ [])
      (record { action_index = 0; policy = GateVerdict.pass; simulation = GateVerdict.pass } ∷ [])

-- The name of the action comes with spaces around it.
the_run_pays :
    (run_strategy_with_event the_env "r" the_alloy encode the_world
      (some the_policy)
      the_id
      none
      (some " pay ")
      empty_store).0
    ≡ ok paid
unfolding run_strategy_with_event load_strategy trim trim_start trim_end resolved_source start_run
    accept_output validate_strategy_output validate_items check_kinds read_actions check_encodings
    validate_action_kind_allowlisted parse_action parse_variant parse_native_transfer
    action_to_fields kind insert_run_with_action finish_run gate_actions normalize_all
    push_normalized normalize_action normalize_native_transfer validate_address
    validate_decimal_amount run_gates policy_gate judge evaluate decision_from_normalized
    simulation_gate simulate_one record_decision_row execute_if_any execute_approved_actions
    execute_sequential record_execution_broadcast record_execution_receipt_success record_action
    record_gate_action_outcome transition allows_chain allows_contract allows_selector
    native_value_cap erc20_spend_cap record_broadcast record_receipt_success
    update_run_status_with_transition status_to_wire
the_run_pays = refl

run_strategy_with_event-sent_example :
    (let out =
        run_strategy_with_event the_env "r" the_alloy encode the_world
          (some the_policy)
          the_id
          none
          (some " pay ")
          empty_store in
      (xs : List Sent) × Warranted the_alloy the_alloy-Saturates the_env "r" encode the_world
        (some the_policy)
        the_id
        none
        (some " pay ")
        xs
      × (k : ℕ) × (out.1.sent ≡ [] ++ take k xs)
      × ((o : StrategyOutcome) → out.0 ≡ ok o → take k xs ≡ xs))
run_strategy_with_event-sent_example =
    run_strategy_with_event-sent the_alloy the_alloy-Saturates the_env "r" encode the_world
      (some the_policy) the_id none (some " pay ") empty_store

run_strategy_with_event-Answered_example : Answered the_env "r" (
    run_strategy_with_event the_env "r" the_alloy encode the_world
      (some the_policy)
      the_id
      none
      (some " pay ")
      empty_store)
run_strategy_with_event-Answered_example =
    run_strategy_with_event-Answered the_env "r" the_alloy encode the_world (some the_policy) the_id
      none (some " pay ") empty_store

-- The name of an action must not be reserved.
no_view : (s : Strategy) (source : Text) → Ready the_world the_id (some " view ") s source → ⊥
unfolding trim trim_start trim_end
no_view s source ready = cc (ready.1.1)

run_strategy_with_event-refused_example :
    (e : McpError) × (run_strategy_with_event the_env "r" the_alloy encode the_world
        (some the_policy)
        the_id
        none
        (some " view ")
        empty_store
      ≡ (err e, empty_store))
run_strategy_with_event-refused_example =
    run_strategy_with_event-refused the_env "r" the_alloy encode the_world (some the_policy) the_id
      none (some " view ") empty_store no_view

run_strategy_with_event-Performs_example :
    Performed "r" []
      (run_strategy_with_event the_env "r" the_alloy encode the_world
        (some the_policy)
        the_id
        none
        (some " pay ")
        empty_store).1.runs
run_strategy_with_event-Performs_example =
    run_strategy_with_event-Performs the_env "r" the_alloy encode the_world (some the_policy) the_id
      none (some " pay ") empty_store

run_strategy_with_event-runs_example :
    (let t =
        (run_strategy_with_event the_env "r" the_alloy encode the_world
          (some the_policy)
          the_id
          none
          (some " pay ")
          empty_store).1.runs in
      IsSound t × ((j : String) → "r" ≢ j → find (has_id j) t ≡ none))
run_strategy_with_event-runs_example =
    run_strategy_with_event-runs the_env "r" the_alloy encode the_world (some the_policy) the_id
      none (some " pay ") empty_store (tt, tt)

run_strategy_with_event-Journaled_example :
    Journaled "r" empty_store
      (run_strategy_with_event the_env "r" the_alloy encode the_world
        (some the_policy)
        the_id
        none
        (some " pay ")
        empty_store).1
run_strategy_with_event-Journaled_example =
    run_strategy_with_event-Journaled the_env "r" the_alloy encode the_world (some the_policy)
      the_id none (some " pay ") empty_store

the_id_valid : validate_strategy_id_format the_id ≡ true
unfolding validate_strategy_id_format
the_id_valid = refl

strategy_run-answers_example :
    (r : StrategyRunResponse) × ((strategy_run the_env "r" the_alloy encode the_world
        (some the_policy)
        the_id
        (some " pay ")
        empty_store).0
      ≡ ok r)
    × (r.run_id ≡ "r")
    × (r.status ≡ succeeded)
    × (r.outcome ≡ paid)
strategy_run-answers_example =
    strategy_run-answers the_env "r" the_alloy encode the_world (some the_policy) the_id
      (some " pay ") empty_store paid (tt, tt) the_id_valid the_run_pays

validate_strategy_output_iff_example :
    (validate_strategy_output encode (string (codes "noop")) ≡ ok StrategyOutcome.noop)
    ↔ IsOutcome encode (string (codes "noop")) StrategyOutcome.noop
validate_strategy_output_iff_example =
    validate_strategy_output_iff encode (string (codes "noop")) StrategyOutcome.noop

parse_action-action_to_fields_example :
    parse_action (action_to_fields the_transfer) ≡ some the_transfer
parse_action-action_to_fields_example = parse_action-action_to_fields the_transfer

-- The registration of the action, whose name comes with spaces around it.
the_actions :
    canonical_actions [] ((" pay ", codes "pay()") ∷ []) ≡ ok (("pay", codes "pay()") ∷ [])
unfolding canonical_actions is_blank_after trim trim_start trim_end
the_actions = refl

canonical_actions-resolved_source_example :
    resolved_source the_world.parse_actions the_strategy (trimmed (some " pay "))
    ≡ ok (codes "pay()")
canonical_actions-resolved_source_example =
    canonical_actions-resolved_source the_world.parse_actions ((" pay ", codes "pay()") ∷ [])
      (("pay", codes "pay()") ∷ []) (("pay", codes "pay()") ∷ []) (codes "{..}") the_strategy
      " pay " (codes "pay()") the_actions refl refl (λ k. refl) (inl refl)

-- A name that is reserved, and two names that are the same without their white space.
reserved_refused : canonical_actions [] (("view ", codes "v") ∷ []) ≡ err (reserved "view")
unfolding canonical_actions is_blank_after trim trim_start trim_end
reserved_refused = refl

twice_refused :
    canonical_actions [] (("a", codes "x") ∷ (" a", codes "y") ∷ []) ≡ err (duplicate_name "a")
unfolding canonical_actions is_blank_after trim trim_start trim_end
twice_refused = refl

loads : load_strategy the_id the_world.strategies ≡ ok the_strategy
unfolding load_strategy
loads = refl

source_of_none :
    resolved_source the_world.parse_actions the_strategy (trimmed none) ≡ ok (codes "execute")
unfolding resolved_source
source_of_none = refl

run_strategy_with_event-noop_example :
    (s' : Store) × (run_strategy_with_event the_env "r" the_alloy encode the_world
        (some the_policy)
        the_id
        none
        none
        empty_store
      ≡ (ok StrategyOutcome.noop, s'))
    × (s'.sent ≡ [])
    × IsIn the_env "r" succeeded s'
run_strategy_with_event-noop_example =
    run_strategy_with_event-noop the_env "r" the_alloy encode the_world (some the_policy) the_id
      none none the_strategy (codes "execute") the_strategy empty_store loads source_of_none refl
      refl refl (tt, tt) refl
