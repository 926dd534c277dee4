-- ===== src/Lib.antt =====
-- onchain-strategy-mcp: a server that runs strategies written in JavaScript, puts the actions they
-- return through a deny-by-default policy and a simulation, and signs and sends what passes.
--
-- The parts that are modelled, and where:
--
-- - Policy/Model, Policy/Eval: crates/executor-policy/src/model.rs, decision.rs and eval.rs, the
--   resolved policy, its lookups and `evaluate`. Policy/Spec says what each of the six dimensions
--   demands without the evaluator, Policy/Dimensions relates each test to its demand, and
--   Policy/Correct relates `evaluate` to the demands and to the running totals.
-- - Policy/Config, Policy/Load, Policy/Loaded: load.rs and selector.rs, from the parsed file to
--   the resolved policy. A `HashMap` that the loader iterates over is a list in the order of the
--   iteration.
-- - Evm/Validate, Evm/Normalize, Evm/Agreement: crates/executor-evm/src/action.rs and
--   normalize.rs, the validators of the fields of an action and its normalization to a
--   transaction.
-- - State/Error, State/Table, State/Status, State/Runs, State/Executions:
--   crates/executor-state/src, the tables `runs` and `execution_actions`. A table is the list of
--   its rows in the order of insertion; keys that the schema declares are checked on insertion.
--   State/Executions/Rows follows the row of one action, State/Runs/Transitions has the effect of
--   one guarded status change, State/Runs/Life that of any sequence of calls.
-- - State/Strategies: strategies.rs of the same crate, registration with lineage, and soft
--   deletion. State/Strategies/Register has what they do to the table (Register/Replaced a new
--   version of a name, Register/Installed the version that is active after a registration),
--   State/Strategies/Framing the bytes that an identifier hashes. StrategyScenarios has the
--   examples.
-- - Pipeline/Types, Pipeline/Journal, Pipeline/Gates, Pipeline/Execute:
--   crates/executor-mcp/src/tools.rs, from STEP 7 of `run_strategy_with_event` (normalization,
--   policy gate, simulation gate) through `execute_approved_actions` to the final status. A step
--   is a function from the store to a result and the store after it, since what was written stays
--   after an error. The store holds the tables and `sent`, the log of what was handed to the
--   signer. Pipeline/Silent has the steps that leave that log alone, Pipeline/Sends and
--   Pipeline/Sends/Execution what the execution adds to it, Pipeline/Filed with its Gates and
--   Execution how answers and stored statuses agree, Pipeline/Safety and Pipeline/Safety/Cleared
--   what the gates establish, Pipeline/Safety/Run both together, and Pipeline/Safety/Spend the
--   amount of a token that a run may move.
-- - Pipeline/Output: `validate_strategy_output`, what a script may return, and Output/Accepted which
--   values it accepts. Evm/Wire: crates/executor-core/src/schema/action.rs, the JSON form of an
--   action, with Evm/Wire/RoundTrip.
-- - Pipeline/Start: `run_strategy_with_event` from the lookup of the strategy on, which ends in
--   `finish_run` of Pipeline/Execute, Start/Tool the call `strategy_run` around it, and
--   Start/Registered the named actions as a registration accepts them. Start/Names is
--   `str::trim`, Start/Resolved what a run needs to start, Start/Quiet that a refused run changes
--   nothing, Start/Sent what stands behind what is sent, Start/Answered how answers and stored
--   statuses agree, Start/Calls what a run does to the table of runs and Start/Journaled to the
--   journal, Start/Succeeds a run without actions to its end. Pipeline/Closed, with its Gates
--   and Execution, carries a predicate from the single writes to a whole run (`Closed`), and
--   Start/Whole to the run from its start. StartScenarios has the examples.
-- - State/Keys, State/Triggers: crates/executor-state/src/triggers.rs, the tables `triggers` and
--   `trigger_events`. State/Triggers/Sound has the keys under any sequence of calls, Rows what a
--   registration and a deletion leave, Recent the rows that the deduplication counts, Framing the
--   bytes that an identifier hashes.
-- - Triggers: crates/executor-mcp/src/triggers, the dispatcher that drains the channel of events.
--   The lock of the store is taken for single calls; what others do to the tables between two of
--   them is an argument of the model (`other_tables`, `other_strategies`). Triggers/Gate has which
--   runs are started, Triggers/Filed the history of one round, Triggers/Once the deduplication over
--   many rounds. Triggers/Pool has the workers that are made of a trigger (pool.rs, workers/log.rs) and their
--   start in server.rs, Triggers/Pool/Boot which of them run after it. TriggerScenarios has the
--   examples.
-- - State/Revisions: policy_revisions.rs, of which one revision is active. PolicyBoot:
--   crates/executor-mcp/src/policy_boot.rs and `policy_set` of tools.rs, where the policy in memory
--   comes from; PolicyBoot/Agreement relates it to the active revision over starts and calls.
--   PolicyDiff: the list of granted capabilities of policy_diff.rs, and PolicyDiff/Granted what is
--   in it; PolicyDiff/Alignment: alignment.rs, Covered when one contract is
--   covered, and Verdict when a policy satisfies a strategy.
--   PolicyDiff/Patch: `diff_json`, whose walk has the depth of the old value as fuel: Patch/Total that
--   this is enough, Patch/Truthful what its operations say, Patch/Pointers that their paths name one
--   place, Patch/Maps and Patch/Empty when there are none; PatchScenarios has the examples.
--   PolicyScenarios has those of the rest, and a run of two calls that overlap.
-- - Evm/Units: crates/executor-evm/src/units.rs, amounts in decimal notation. Evm/Units/Digits has
--   the numbers that digits spell, Value which amounts are read and as what, RoundTrip that a printed
--   amount is read back. UnitScenarios has the examples.
-- - Scenarios, RunScenarios: a small policy, chain and table, and the theorems at concrete inputs.
--
-- Conventions. Numbers are natural numbers; a `U256` is one below 2 ^ 256 where the alloy library
-- made it. Text is the list of its bytes where it is parsed, and a string where it is only
-- compared. Times and identifiers that a call mints are arguments; within one run the time is one
-- value, which no branch reads. A message is a constructor for its format string with the values
-- put into it; text for the operator's log alone is left out. Loops are recursion on the list they
-- go through and need no fuel; the walk of two values alone has fuel (PolicyDiff/Patch).
--
-- Parameters. The alloy library (Alloy), the ABI encoder, TOML, and the answers of the network, the
-- signer and the configuration (`Env`); the sandbox's answer to a script and the reader of the map
-- of actions (`World`); the hash function of the strategies and triggers; the printer of JSON; the
-- verdict of the sandbox on a predicate and the run of a strategy in the dispatcher (`Answers`);
-- the parsers of a trigger's configuration (`Parsers`); the readers and printers of JSON and TOML
-- (`Serde`). Theorems that need it assume that `saturating_add` is the sum cut off at the largest
-- 256-bit number (`Saturates`), that the encoder begins the calldata of token calls with their
-- selectors (`EncodesErc20`), that the library reads and prints the digits of a number
-- (`ReadsDecimal`, `Prints`), or that a printed configuration is read back as itself up to the
-- order of the entries of its sections, which are hash maps (`KeepsConfig`).
--
-- Not modelled. The JavaScript sandbox, RPC and signing, the HTTP and MCP surface, prompts and
-- resources, prices and views (input and output, or calls of other libraries); the loops of the
-- triggers' workers; records; failures of the database other than of its constraints, but for the
-- two that the dispatcher goes on after (the check for duplicates and the lookup of a lineage); the
-- check of foreign keys of journal rows, whose run exists when they are written; the best-effort
-- capture of records after a run.
pub mod Prelude
pub mod Alloy
pub mod Policy
pub mod State
pub mod Evm
pub mod Pipeline
pub mod PatchScenarios
pub mod PolicyBoot
pub mod PolicyDiff
pub mod PolicyScenarios
pub mod RunScenarios
pub mod Scenarios
pub mod StartScenarios
pub mod StrategyScenarios
pub mod TriggerScenarios
pub mod Triggers
pub mod UnitScenarios
