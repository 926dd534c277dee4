-- ===== src/Pipeline/Output.antt =====
-- crates/executor-mcp/src/tools.rs and validation.rs: what a script returned, read as an outcome.
pub mod Accepted
use onchain_strategy_mcp.Prelude.{
  ℕ, suc, String, Option, none, some, List, [], ◌∷◌, ◌==◌, if◌then◌else◌, contains, length, ltb,
}
use onchain_strategy_mcp.Prelude.Text.{Text, codes, text_eq}
use onchain_strategy_mcp.Prelude.Json.{Json, Items, Fields, lookup}
use onchain_strategy_mcp.Prelude.Result.{Result, ok, err, ◌>>=◌, ◌>>◌}
use onchain_strategy_mcp.Evm.Validate.{EvmError}
use onchain_strategy_mcp.Evm.Normalize.{
  Action, noop, contract_call, raw_call, erc20_transfer, erc20_approve, native_transfer,
}
use onchain_strategy_mcp.Evm.Wire.{as_text, items, parse_action}
use onchain_strategy_mcp.Pipeline.Types.{
  StrategyOutcome, OutputFault, too_many_actions, missing_kind, invalid_action, kind_not_allowed,
  not_encodable, wrong_type,
}

abbrev pub max_actions_per_run : ℕ
max_actions_per_run = 32

abbrev pub allowed_kinds : List Text
allowed_kinds =
    codes "noop"
    ∷ codes "contract_call"
    ∷ codes "raw_call"
    ∷ codes "erc20_transfer"
    ∷ codes "erc20_approve"
    ∷ codes "native_transfer"
    ∷ []

-- The error is the kind that its message quotes.
unfoldable pub validate_action_kind_allowlisted : Text → Result Text (Unit {0})
validate_action_kind_allowlisted k = if contains allowed_kinds k then ok tt else err k

abbrev pub json_type_name : Json → String
json_type_name Json.null = "null"
json_type_name (Json.bool b) = "boolean"
json_type_name (Json.number n) = "number"
json_type_name (Json.string s) = "string"
json_type_name (Json.array l) = "array"
json_type_name (Json.object o) = "object"

-- `item.as_object().and_then(|o| o.get("kind")).and_then(|k| k.as_str())`
abbrev pub kind_of : Json → Option Text
kind_of (Json.object o) = as_text (lookup (codes "kind") o)
kind_of _ = none

abbrev pub at_index : ℕ → Result Text (Unit {0}) → Result OutputFault (Unit {0})
at_index i (ok _) = ok tt
at_index i (err k) = err (kind_not_allowed i k)

abbrev pub check_kind : ℕ → Option Text → Result OutputFault (Unit {0})
check_kind i none = err (missing_kind i)
check_kind i (some k) = at_index i (validate_action_kind_allowlisted k)

unfoldable pub check_kinds : ℕ → List Json → Result OutputFault (Unit {0})
check_kinds i [] = ok tt
check_kinds i (v ∷ vs) = check_kind i (kind_of v) >> check_kinds (suc i) vs

-- `serde_json::from_value::<Action>`; the pass before lets objects through alone.
abbrev pub from_value : Json → Option Action
from_value (Json.object o) = parse_action o
from_value _ = none

abbrev pub or_invalid : ℕ → Option Action → Result OutputFault Action
or_invalid i none = err (invalid_action i)
or_invalid i (some a) = ok a

unfoldable pub read_actions : ℕ → List Json → Result OutputFault (List Action)
read_actions i [] = ok []
read_actions i (v ∷ vs) = do
  a ← or_invalid i (from_value v)
  rest ← read_actions (suc i) vs
  ok (a ∷ rest)

module _ (encode_call_input : Text → Text → List Json → Result EvmError (List ℕ)) where
  -- executor-evm/src/action.rs
  abbrev pub dry_run_abi_encode : Text → Text → List Json → Result EvmError (Unit {0})
  dry_run_abi_encode abi function args = encode_call_input abi function args >>= λ _. ok tt

  abbrev pub or_not_encodable : ℕ → Result EvmError (Unit {0}) → Result OutputFault (Unit {0})
  or_not_encodable i (ok _) = ok tt
  or_not_encodable i (err e) = err (not_encodable i e)

  abbrev pub check_encoding : ℕ → Action → Result OutputFault (Unit {0})
  check_encoding i (contract_call c) =
      or_not_encodable i (dry_run_abi_encode c.abi c.function c.args)
  check_encoding i noop = ok tt
  check_encoding i (raw_call c) = ok tt
  check_encoding i (erc20_transfer c) = ok tt
  check_encoding i (erc20_approve c) = ok tt
  check_encoding i (native_transfer c) = ok tt

  unfoldable pub check_encodings : ℕ → List Action → Result OutputFault (Unit {0})
  check_encodings i [] = ok tt
  check_encodings i (a ∷ rest) = check_encoding i a >> check_encodings (suc i) rest

  unfoldable pub validate_items : List Json → Result OutputFault StrategyOutcome
  validate_items vs = do
    check_kinds 0 vs
    acts ← read_actions 0 vs
    check_encodings 0 acts
    ok (StrategyOutcome.actions acts [])

  unfoldable pub validate_strategy_output : Json → Result OutputFault StrategyOutcome
  unfolding validate_items
  validate_strategy_output (Json.string s) =
      if s == codes "noop"
      then ok StrategyOutcome.noop
      else err (wrong_type (json_type_name (Json.string s)))
  validate_strategy_output (Json.array l) =
      if ltb max_actions_per_run (length (items l))
      then err (too_many_actions (length (items l)))
      else validate_items (items l)
  validate_strategy_output Json.null = err (wrong_type (json_type_name Json.null))
  validate_strategy_output (Json.bool b) = err (wrong_type (json_type_name (Json.bool b)))
  validate_strategy_output (Json.number n) = err (wrong_type (json_type_name (Json.number n)))
  validate_strategy_output (Json.object o) = err (wrong_type (json_type_name (Json.object o)))
