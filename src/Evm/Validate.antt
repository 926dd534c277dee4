-- ===== src/Evm/Validate.antt =====
-- crates/executor-evm/src/action.rs: the validators of the fields of an action. An error is its
-- stable category; the text that goes to the operator's log alone is left out.
use onchain_strategy_mcp.Prelude.{
  ℕ, Bool, not, ◌||◌, Option, none, some, List, [], ◌∷◌, nat_beq, if◌then◌else◌, all, any, length,
  ◌%◌, unwrap_or,
}
use onchain_strategy_mcp.Prelude.Text.{
  Text, codes, is_ascii_digit, is_ascii_hexdigit, is_ascii_alphabetic, is_ascii_lowercase,
  is_ascii_uppercase, strip_prefix, starts_with,
}
use onchain_strategy_mcp.Prelude.Result.{Result, ok, err}
use onchain_strategy_mcp.Alloy.{Address, U256, Alloy}

-- `EvmError::Encode { category, .. }`, by its category.
pub data EvmError : Type 0 where
  bad_address bad_decimal bad_calldata : EvmError
  bad_address_to bad_decimal_value : EvmError
  abi_error : Text → EvmError
  rpc_error : Text → EvmError

abbrev pub has_0x : Text → Bool
has_0x s = starts_with s (codes "0x") || starts_with s (codes "0X")

abbrev pub or_else : {A : Type 0} → Option A → Option A → Option A
or_else none b = b
or_else (some a) b = some a

-- `s.strip_prefix("0x").or_else(|| s.strip_prefix("0X")).unwrap_or(s)`
abbrev pub hex_body : Text → Text
hex_body s = unwrap_or (or_else (strip_prefix s (codes "0x")) (strip_prefix s (codes "0X"))) s

abbrev pub all_lower : Text → Bool
all_lower s = all (λ c. not (is_ascii_alphabetic c) || is_ascii_lowercase c) s

abbrev pub all_upper : Text → Bool
all_upper s = all (λ c. not (is_ascii_alphabetic c) || is_ascii_uppercase c) s

abbrev pub or_err {ℓ} : {A : Type ℓ} → Option A → EvmError → Result EvmError A
or_err none e = err e
or_err (some a) e = ok a

module _ (alloy : Alloy) where
  unfoldable pub validate_address : Text → Result EvmError Address
  validate_address s =
      let body = hex_body s in
      elim (alloy.parse_checksummed s) [
        | some a ↦ ok a
        | none ↦
            if not (all is_ascii_hexdigit body)
            then err bad_address
            else if not (any is_ascii_alphabetic body) || all_lower body || all_upper body
            then or_err (alloy.from_str s) bad_address
            else err bad_address
      ]

  unfoldable pub validate_decimal_amount : Text → Result EvmError U256
  validate_decimal_amount s =
      if nat_beq (length s) 0
      then err bad_decimal
      else if starts_with s (codes "-")
      then err bad_decimal
      else if starts_with s (codes "+")
      then err bad_decimal
      else if has_0x s
      then err bad_decimal
      else if not (all is_ascii_digit s)
      then err bad_decimal
      else or_err (alloy.from_decimal s) bad_decimal

  -- `&s[2..]`, after the test for the prefix.
  abbrev after_prefix : Text → Text
  after_prefix (x ∷ y ∷ s) = s
  after_prefix s = []

  unfoldable pub validate_calldata : Text → Result EvmError (List ℕ)
  validate_calldata s =
      let body = after_prefix s in
      if not (has_0x s)
      then err bad_calldata
      else if not (nat_beq (length body % 2) 0)
      then err bad_calldata
      else if not (all is_ascii_hexdigit body)
      then err bad_calldata
      else or_err (alloy.bytes_from_str s) bad_calldata
