-- ===== src/Evm/Normalize.antt =====
-- crates/executor-evm/src/normalize.rs: from an `Action` of a strategy to the transaction that is
-- judged, simulated and signed. The ABI encoder of dyn_abi.rs is the parameter `encode_call_input`,
-- which stands for the calldata that alloy makes of an ABI, a function name and its arguments.
use onchain_strategy_mcp.Prelude.{ℕ, Option, none, some, List, [], ◌∷◌}
use onchain_strategy_mcp.Prelude.Text.{Text, codes}
use onchain_strategy_mcp.Prelude.Json.{Json, string}
use onchain_strategy_mcp.Prelude.Result.{Result, ok, err, ◌>>=◌}
use onchain_strategy_mcp.Alloy.{Address, U256, Alloy}
use onchain_strategy_mcp.Policy.Model.{Selector}
use onchain_strategy_mcp.Evm.Validate.{
  EvmError, bad_address_to, bad_decimal_value, bad_calldata, validate_address,
  validate_decimal_amount, validate_calldata,
}

pub record ContractCallAction : Type 0 where
  pub address : Text
  pub abi : Text
  pub function : Text
  pub args : List Json
  pub value : Text

pub record RawCallAction : Type 0 where
  pub address : Text
  pub calldata : Text
  pub value : Text

pub record Erc20TransferAction : Type 0 where
  pub token : Text
  pub to : Text
  pub amount : Text

pub record Erc20ApproveAction : Type 0 where
  pub token : Text
  pub spender : Text
  pub amount : Text

pub record NativeTransferAction : Type 0 where
  pub to : Text
  pub value : Text

pub data Action : Type 0 where
  noop : Action
  contract_call : ContractCallAction → Action
  raw_call : RawCallAction → Action
  erc20_transfer : Erc20TransferAction → Action
  erc20_approve : Erc20ApproveAction → Action
  native_transfer : NativeTransferAction → Action

-- The part of alloy's `TransactionRequest` that is filled in.
pub record TransactionRequest : Type 0 where
  pub to : Option Address
  pub input : List ℕ
  pub value : U256

pub data NormalizedActionKind : Type 0 where
  contract_call raw_call erc20_transfer erc20_approve native_transfer : NormalizedActionKind

pub record NormalizedAction : Type 0 where
  pub tx : TransactionRequest
  pub source : NormalizedActionKind
  pub selector : Option Selector
  pub native_value : U256
  pub erc20_amount : Option U256

-- `map_err`: the category of the field replaces the one of the validator.
abbrev pub as_category : {A : Type 0} → EvmError → Result EvmError A → Result EvmError A
as_category e (ok a) = ok a
as_category e (err _) = err e

abbrev pub first_four : List ℕ → Option Selector
first_four (a ∷ b ∷ c ∷ d ∷ rest) = some (record { b0 = a; b1 = b; b2 = c; b3 = d })
first_four _ = none

abbrev pub transfer_selector : Selector
transfer_selector = record { b0 = 0xa9; b1 = 0x05; b2 = 0x9c; b3 = 0xbb }

abbrev pub approve_selector : Selector
approve_selector = record { b0 = 0x09; b1 = 0x5e; b2 = 0xa7; b3 = 0xb3 }

-- `TransactionRequest::default().to(..).input(..).value(..)`
abbrev pub request : Address → List ℕ → U256 → TransactionRequest
request to input value = record { to = some to; input = input; value = value }

-- erc20.rs: `ERC20_WRITE_ABI`
unfoldable pub erc20_write_abi : Text
erc20_write_abi =
    codes
      "[\n    {\"type\":\"function\",\"name\":\"transfer\",\"inputs\":[\n        {\"name\":\"to\",\"type\":\"address\"},\n        {\"name\":\"value\",\"type\":\"uint256\"}\n    ],\"outputs\":[{\"name\":\"\",\"type\":\"bool\"}],\"stateMutability\":\"nonpayable\"},\n    {\"type\":\"function\",\"name\":\"approve\",\"inputs\":[\n        {\"name\":\"spender\",\"type\":\"address\"},\n        {\"name\":\"value\",\"type\":\"uint256\"}\n    ],\"outputs\":[{\"name\":\"\",\"type\":\"bool\"}],\"stateMutability\":\"nonpayable\"}\n]"

module _ (alloy : Alloy)
    (encode_call_input : Text → Text → List Json → Result EvmError (List ℕ)) where
  abbrev pub parse_address_field : Text → Result EvmError Address
  parse_address_field s = as_category bad_address_to (validate_address alloy s)

  abbrev pub parse_decimal_field : Text → Result EvmError U256
  parse_decimal_field s = as_category bad_decimal_value (validate_decimal_amount alloy s)

  abbrev pub parse_calldata_field : Text → Result EvmError (List ℕ)
  parse_calldata_field s = as_category bad_calldata (validate_calldata alloy s)

  unfoldable pub normalize_contract_call : ContractCallAction → Result EvmError NormalizedAction
  normalize_contract_call cc = do
    to ← parse_address_field cc.address
    value ← parse_decimal_field cc.value
    calldata ← encode_call_input cc.abi cc.function cc.args
    ok (record {
      tx = request to calldata value;
      source = NormalizedActionKind.contract_call;
      selector = first_four calldata;
      native_value = value;
      erc20_amount = none;
    })

  unfoldable pub normalize_raw_call : RawCallAction → Result EvmError NormalizedAction
  normalize_raw_call rc = do
    to ← parse_address_field rc.address
    value ← parse_decimal_field rc.value
    calldata ← parse_calldata_field rc.calldata
    ok (record {
      tx = request to calldata value;
      source = NormalizedActionKind.raw_call;
      selector = first_four calldata;
      native_value = value;
      erc20_amount = none;
    })

  unfoldable pub normalize_erc20_transfer : Erc20TransferAction → Result EvmError NormalizedAction
  normalize_erc20_transfer et = do
    token ← parse_address_field et.token
    _ ← parse_address_field et.to
    amount ← parse_decimal_field et.amount
    calldata ←
        encode_call_input erc20_write_abi (codes "transfer") (string et.to ∷ string et.amount ∷ [])
    ok (record {
      tx = request token calldata 0;
      source = NormalizedActionKind.erc20_transfer;
      selector = some transfer_selector;
      native_value = 0;
      erc20_amount = some amount;
    })

  unfoldable pub normalize_erc20_approve : Erc20ApproveAction → Result EvmError NormalizedAction
  normalize_erc20_approve ea = do
    token ← parse_address_field ea.token
    _ ← parse_address_field ea.spender
    amount ← parse_decimal_field ea.amount
    calldata ←
        encode_call_input erc20_write_abi (codes "approve")
          (string ea.spender ∷ string ea.amount ∷ [])
    ok (record {
      tx = request token calldata 0;
      source = NormalizedActionKind.erc20_approve;
      selector = some approve_selector;
      native_value = 0;
      erc20_amount = some amount;
    })

  unfoldable pub normalize_native_transfer : NativeTransferAction → Result EvmError NormalizedAction
  normalize_native_transfer nt = do
    to ← parse_address_field nt.to
    value ← parse_decimal_field nt.value
    ok (record {
      tx = request to [] value;
      source = NormalizedActionKind.native_transfer;
      selector = none;
      native_value = value;
      erc20_amount = none;
    })

  abbrev some_ok : Result EvmError NormalizedAction → Result EvmError (Option NormalizedAction)
  some_ok (ok a) = ok (some a)
  some_ok (err e) = err e

  unfoldable pub normalize_action : Action → Result EvmError (Option NormalizedAction)
  unfolding normalize_contract_call normalize_raw_call normalize_erc20_transfer
      normalize_erc20_approve normalize_native_transfer
  normalize_action noop = ok none
  normalize_action (contract_call cc) = some_ok (normalize_contract_call cc)
  normalize_action (raw_call rc) = some_ok (normalize_raw_call rc)
  normalize_action (erc20_transfer et) = some_ok (normalize_erc20_transfer et)
  normalize_action (erc20_approve ea) = some_ok (normalize_erc20_approve ea)
  normalize_action (native_transfer nt) = some_ok (normalize_native_transfer nt)
