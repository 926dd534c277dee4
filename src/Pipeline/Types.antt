-- ===== src/Pipeline/Types.antt =====
-- The store as the pipeline of a run uses it, the answers of the network and of the signer, and the
-- errors of the tool.
use onchain_strategy_mcp.Prelude.{ℕ, String, Option, List}
use onchain_strategy_mcp.Prelude.Text.{Text}
use onchain_strategy_mcp.Prelude.Json.{Json}
use onchain_strategy_mcp.Prelude.Result.{Result, ok, err}
use onchain_strategy_mcp.Alloy.{Address}
use onchain_strategy_mcp.Policy.Model.{Rule, Detail, Decision}
use onchain_strategy_mcp.Evm.Validate.{EvmError}
use onchain_strategy_mcp.Evm.Normalize.{Action, TransactionRequest}
use onchain_strategy_mcp.State.Error.{StateError}
use onchain_strategy_mcp.State.Runs.{Runs}
use onchain_strategy_mcp.State.Executions.{Executions}

-- journal.rs
pub data DecisionGate : Type 0 where
  policy simulation : DecisionGate

pub data JournalVerdict : Type 0 where
  pass fail skipped : JournalVerdict

-- simulate.rs
pub data SimulationFailReason : Type 0 where
  revert : Option Text → SimulationFailReason
  transport timeout : SimulationFailReason

pub data SimulationOutcome : Type 0 where
  pass : List ℕ → Option ℕ → SimulationOutcome
  fail : SimulationFailReason → SimulationOutcome

-- The `rule`, `detail` and `payload` columns of a decision row.
pub data GateRule : Type 0 where
  policy_rule : Rule → GateRule
  simulation_rule : SimulationFailReason → GateRule

pub data GateDetail : Type 0 where
  policy_detail : Detail → GateDetail
  simulation_detail : SimulationFailReason → GateDetail
  skipped_policy_denied skipped_batch : GateDetail

pub data GatePayload : Type 0 where
  policy_payload : Decision → GatePayload
  simulation_skipped_payload : Decision → Rule → GatePayload
  simulation_pass_payload : List ℕ → Option ℕ → GatePayload
  simulation_fail_payload : SimulationFailReason → GatePayload

pub record DecisionEntry : Type 0 where
  pub run_id : String
  pub action_index : ℕ
  pub gate : DecisionGate
  pub verdict : JournalVerdict
  pub rule : Option GateRule
  pub detail : Option GateDetail
  pub payload : Option GatePayload
  pub seq : ℕ

-- execution.rs: `GateVerdict`, `ActionDecision`
pub data GateVerdict : Type 0 where
  pass skipped : GateVerdict

pub record ActionDecision : Type 0 where
  pub action_index : ℕ
  pub policy : GateVerdict
  pub simulation : GateVerdict

pub data StrategyOutcome : Type 0 where
  noop : StrategyOutcome
  actions : List Action → List ActionDecision → StrategyOutcome

-- crates/strategy-js/src/error.rs
pub data RuntimeError : Type 0 where
  timeout oom stack_overflow : RuntimeError
  exception invalid_output engine_init : String → RuntimeError
  evm : EvmError → RuntimeError

-- The detail of an answer of a script that is no outcome: what `validate_strategy_output` found, with
-- the index of the item, or what the sandbox reports.
pub data OutputFault : Type 0 where
  too_many_actions missing_kind invalid_action : ℕ → OutputFault
  kind_not_allowed : ℕ → Text → OutputFault
  not_encodable : ℕ → EvmError → OutputFault
  wrong_type : String → OutputFault
  reported : String → OutputFault

-- The text that the journal keeps of a run that ended early.
pub data RuntimeDetail : Type 0 where
  policy_file_not_loaded : RuntimeDetail
  evm_detail : EvmError → RuntimeDetail
  execution_kind : String → RuntimeDetail
  script_error : RuntimeError → RuntimeDetail

pub data OutcomePayload : Type 0 where
  runtime_error_payload : RuntimeDetail → OutcomePayload
  validation_error_payload : OutputFault → Json → OutcomePayload
  policy_violation_payload : ℕ → Rule → Detail → OutcomePayload
  simulation_failure_payload : ℕ → SimulationFailReason → OutcomePayload
  outcome_payload : StrategyOutcome → OutcomePayload

-- execution.rs: `JournalActionOutcome`
pub data JournalActionOutcome : Type 0 where
  noop actions validation_error runtime_error simulation_failure policy_denied :
      JournalActionOutcome

pub record ActionEntry : Type 0 where
  pub run_id : String
  pub outcome : JournalActionOutcome
  pub payload : OutcomePayload

-- What was handed to the signer: one transaction, or the calls of a batch.
pub data Sent : Type 0 where
  single : TransactionRequest → Sent
  batch : Address → List TransactionRequest → Sent

-- The tables that a run writes, and the log of what left the process.
pub record Store : Type 0 where
  pub runs : Runs
  pub decisions : List DecisionEntry
  pub outcomes : List ActionEntry
  pub executions : Executions
  pub sent : List Sent

pub record Receipt : Type 0 where
  pub receipt_status : String
  pub gas_used : String

pub data SignerConfig : Type 0 where
  invalid absent configured : SignerConfig

pub data DelegateCode : Type 0 where
  deployed not_deployed unknown : DelegateCode

-- What the network, the signer, the configuration and the clock answer during one run. A failure of
-- the signer is its `execution_error_kind`. No branch of the pipeline reads a time.
pub record Env : Type 0 where
  pub now : String
  pub row_id : ℕ → String
  pub provider : Result EvmError (Unit {0})
  pub chain_id : Result EvmError ℕ
  pub simulate : ℕ → TransactionRequest → SimulationOutcome
  pub aa_delegate : Option Address
  pub signer_config : SignerConfig
  pub execution_chain_id : Result EvmError ℕ
  pub resolve_signer : Result String String
  pub delegate_code : DelegateCode
  pub broadcast : ℕ → TransactionRequest → Result String String
  pub receipt : ℕ → Result String Receipt
  pub send_7702_batch : Result String String
  pub batch_receipt : Result String Receipt

-- The hint of `unknown_action`.
pub data ActionHint : Type 0 where
  non_empty_name reserved_name no_actions one_of_the_actions : ActionHint

-- The error of the tool, by its kind. An unknown action comes with the strategy, the name and the names
-- that the strategy has.
pub data McpError : Type 0 where
  policy_not_loaded missing_to : McpError
  policy_violation : Rule → Detail → ℕ → McpError
  simulation_failed : SimulationFailReason → ℕ → McpError
  evm : EvmError → McpError
  state : StateError → McpError
  runtime : String → McpError
  invalid_strategy_id run_row_vanished : McpError
  strategy_deleted : String → McpError
  unknown_action : String → String → List String → ActionHint → McpError
  strategy_invalid_output : OutputFault → McpError

-- A step of the pipeline. The store comes back after an error too: what was written stays.
abbrev pub M : Type 0 → Type 0
M A = Store → Result McpError A × Store

module _ {A : Type 0} where
  abbrev pub pure : A → M A
  pure a s = (ok a, s)

  abbrev pub throw : McpError → M A
  throw e s = (err e, s)

infixl 5 ◌>>=◌ ◌>>◌
abbrev pub ◌>>=◌ : {A B : Type 0} → M A → (A → M B) → M B
◌>>=◌ m f s = let (r, s') = m s in elim r [ ok a ↦ f a s' | err e ↦ (err e, s') ]

abbrev pub ◌>>◌ : {A B : Type 0} → M A → M B → M B
m >> k = m >>= λ _. k

abbrev pub modify : (Store → Store) → M (Unit {0})
modify f s = (ok tt, f s)

abbrev pub or_throw : {E A : Type 0} → (E → McpError) → Result E A → M A
or_throw f (ok a) s = (ok a, s)
or_throw f (err e) s = (err (f e), s)
