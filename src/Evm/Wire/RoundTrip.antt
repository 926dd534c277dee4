-- ===== src/Evm/Wire/RoundTrip.antt =====
-- The JSON form of an action, read back, and what reading tells of the tag.
use onchain_strategy_mcp.Prelude.{
  arith, Option, none, some, List, [], ◌∷◌, ◌≡◌, refl, ap, sym, String, true, ◌↔◌,
}
use onchain_strategy_mcp.Prelude.Text.{Text, codes, text_eq, text_beq, text_beq_iff}
use onchain_strategy_mcp.Prelude.Json.{Json, Fields, lookup}
use onchain_strategy_mcp.Evm.Normalize.{
  Action, noop, contract_call, raw_call, erc20_transfer, erc20_approve, native_transfer,
}
use onchain_strategy_mcp.Evm.Wire.{
  kind, as_text, parse_tagged, items, items_of, parse_action, parse_variant, parse_contract_call,
  parse_raw_call, parse_erc20_transfer, parse_erc20_approve, parse_native_transfer,
  action_to_fields,
}

items-items_of : (vs : List Json) → items (items_of vs) ≡ vs
items-items_of [] = refl
items-items_of (v ∷ vs) = ap (λ t. v ∷ t) (items-items_of vs)

-- An action that is written as JSON is read back as itself.
pub parse_action-action_to_fields : (a : Action) → parse_action (action_to_fields a) ≡ some a
unfolding parse_action parse_variant parse_contract_call parse_raw_call parse_erc20_transfer
    parse_erc20_approve parse_native_transfer action_to_fields kind
parse_action-action_to_fields noop = refl
parse_action-action_to_fields (contract_call a) = rw (items-items_of a.args) refl
parse_action-action_to_fields (raw_call a) = refl
parse_action-action_to_fields (erc20_transfer a) = refl
parse_action-action_to_fields (erc20_approve a) = refl
parse_action-action_to_fields (native_transfer a) = refl

parse_variant-kind :
    (tag : Text) (fs : Fields) (a : Action) → parse_variant tag fs ≡ some a → kind a ≡ tag
unfolding parse_variant kind
parse_variant-kind tag fs a h =
    let test : (s : String) → (text_beq tag (codes s) ≡ true) ↔ (tag ≡ codes s) =
      λ s. text_beq_iff tag (codes s) in
    ground (
      arith,
      test "noop",
      test "contract_call",
      test "raw_call",
      test "erc20_transfer",
      test "erc20_approve",
      test "native_transfer",
    )

parse_tagged-kind :
    (fs : Fields) (tag : Option Text) (a : Action)
    → parse_tagged fs tag ≡ some a
    → tag ≡ some (kind a)
parse_tagged-kind fs none a h = cc h
parse_tagged-kind fs (some tag) a h = ap (λ t. some t) (sym (parse_variant-kind tag fs a h))

-- The tag of an object that is read as an action is the kind of the action.
pub parse_action-kind :
    (fs : Fields) (a : Action)
    → parse_action fs ≡ some a
    → as_text (lookup (codes "kind") fs) ≡ some (kind a)
unfolding parse_action
parse_action-kind fs a h = parse_tagged-kind fs (as_text (lookup (codes "kind") fs)) a h
