-- ===== src/Evm/Wire.antt =====
-- crates/executor-core/src/schema/action.rs: the JSON form of an action, as the derived `Serialize` and
-- `Deserialize` give it: the tag `kind` beside the fields of the variant, whose struct denies fields it
-- does not know. The tag `noop` alone has no struct, so what stands beside it is ignored.
pub mod RoundTrip
use onchain_strategy_mcp.Prelude.{
  String, Bool, true, ◌&&◌, Option, none, some, List, [], ◌∷◌, ◌==◌, if◌then◌else◌, contains,
}
use onchain_strategy_mcp.Prelude.Text.{Text, codes, text_eq}
use onchain_strategy_mcp.Prelude.Json.{
  Json, string, array, object, Items, nil, cons, Fields, end, field, lookup,
}
use onchain_strategy_mcp.Evm.Normalize.{
  Action, noop, contract_call, raw_call, erc20_transfer, erc20_approve, native_transfer,
  ContractCallAction, RawCallAction, Erc20TransferAction, Erc20ApproveAction, NativeTransferAction,
}

-- `Action::kind`
unfoldable pub kind : Action → Text
kind noop = codes "noop"
kind (contract_call _) = codes "contract_call"
kind (raw_call _) = codes "raw_call"
kind (erc20_transfer _) = codes "erc20_transfer"
kind (erc20_approve _) = codes "erc20_approve"
kind (native_transfer _) = codes "native_transfer"

-- `default_zero_value`
abbrev pub default_zero_value : Text
default_zero_value = codes "0"

infixl 5 ◌>>=◌
abbrev ◌>>=◌ : {A B : Type 0} → Option A → (A → Option B) → Option B
none >>= f = none
some a >>= f = f a

abbrev pub as_text : Option Json → Option Text
as_text (some (Json.string s)) = some s
as_text _ = none

abbrev pub items : Items → List Json
items nil = []
items (cons v vs) = v ∷ items vs

abbrev pub as_items : Option Json → Option (List Json)
as_items (some (Json.array l)) = some (items l)
as_items _ = none

-- A field with a default may be absent, but not of another type.
abbrev pub text_or_default : Option Json → Option Text
text_or_default none = some default_zero_value
text_or_default (some v) = as_text (some v)

-- `deny_unknown_fields`, once the tag is taken out.
abbrev pub only : List Text → Fields → Bool
only names end = true
only names (field n v rest) = contains names n && only names rest

abbrev known : List Text → Fields → {A : Type 0} → Option A → Option A
known names fs a = if only (codes "kind" ∷ names) fs then a else none

unfoldable pub parse_contract_call : Fields → Option ContractCallAction
parse_contract_call fs =
    known (codes "address" ∷ codes "abi" ∷ codes "function" ∷ codes "args" ∷ codes "value" ∷ []) fs
      (do
        address ← as_text (lookup (codes "address") fs)
        abi ← as_text (lookup (codes "abi") fs)
        function ← as_text (lookup (codes "function") fs)
        args ← as_items (lookup (codes "args") fs)
        value ← text_or_default (lookup (codes "value") fs)
        some (record {
          address = address;
          abi = abi;
          function = function;
          args = args;
          value = value;
        }))

unfoldable pub parse_raw_call : Fields → Option RawCallAction
parse_raw_call fs = known (codes "address" ∷ codes "data" ∷ codes "value" ∷ []) fs (do
  address ← as_text (lookup (codes "address") fs)
  calldata ← as_text (lookup (codes "data") fs)
  value ← text_or_default (lookup (codes "value") fs)
  some (record { address = address; calldata = calldata; value = value }))

unfoldable pub parse_erc20_transfer : Fields → Option Erc20TransferAction
parse_erc20_transfer fs = known (codes "token" ∷ codes "to" ∷ codes "amount" ∷ []) fs (do
  token ← as_text (lookup (codes "token") fs)
  to ← as_text (lookup (codes "to") fs)
  amount ← as_text (lookup (codes "amount") fs)
  some (record { token = token; to = to; amount = amount }))

unfoldable pub parse_erc20_approve : Fields → Option Erc20ApproveAction
parse_erc20_approve fs = known (codes "token" ∷ codes "spender" ∷ codes "amount" ∷ []) fs (do
  token ← as_text (lookup (codes "token") fs)
  spender ← as_text (lookup (codes "spender") fs)
  amount ← as_text (lookup (codes "amount") fs)
  some (record { token = token; spender = spender; amount = amount }))

unfoldable pub parse_native_transfer : Fields → Option NativeTransferAction
parse_native_transfer fs = known (codes "to" ∷ codes "value" ∷ []) fs (do
  to ← as_text (lookup (codes "to") fs)
  value ← as_text (lookup (codes "value") fs)
  some (record { to = to; value = value }))

abbrev pub as_variant : {A : Type 0} → (A → Action) → Option A → Option Action
as_variant c none = none
as_variant c (some a) = some (c a)

unfoldable pub parse_variant : Text → Fields → Option Action
parse_variant tag fs =
    if tag == codes "noop"
    then some noop
    else if tag == codes "contract_call"
    then as_variant contract_call (parse_contract_call fs)
    else if tag == codes "raw_call"
    then as_variant raw_call (parse_raw_call fs)
    else if tag == codes "erc20_transfer"
    then as_variant erc20_transfer (parse_erc20_transfer fs)
    else if tag == codes "erc20_approve"
    then as_variant erc20_approve (parse_erc20_approve fs)
    else if tag == codes "native_transfer"
    then as_variant native_transfer (parse_native_transfer fs)
    else none

abbrev pub parse_tagged : Fields → Option Text → Option Action
parse_tagged fs none = none
parse_tagged fs (some tag) = parse_variant tag fs

-- `serde_json::from_value::<Action>` of an object.
unfoldable pub parse_action : Fields → Option Action
parse_action fs = parse_tagged fs (as_text (lookup (codes "kind") fs))

abbrev pub items_of : List Json → Items
items_of [] = nil
items_of (v ∷ vs) = cons v (items_of vs)

abbrev pub text_field : String → Text → Fields → Fields
text_field name s rest = field (codes name) (string s) rest

abbrev pub body : Action → Fields
body noop = end
body (contract_call a) = text_field "address" a.address (
    text_field "abi" a.abi (
      text_field "function" a.function
        (field (codes "args") (array (items_of a.args)) (text_field "value" a.value end))))
body (raw_call a) =
    text_field "address" a.address (text_field "data" a.calldata (text_field "value" a.value end))
body (erc20_transfer a) =
    text_field "token" a.token (text_field "to" a.to (text_field "amount" a.amount end))
body (erc20_approve a) =
    text_field "token" a.token (text_field "spender" a.spender (text_field "amount" a.amount end))
body (native_transfer a) = text_field "to" a.to (text_field "value" a.value end)

-- The derived `Serialize`.
unfoldable pub action_to_fields : Action → Fields
action_to_fields a = text_field "kind" (kind a) (body a)
