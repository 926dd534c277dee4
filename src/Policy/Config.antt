-- ===== src/Policy/Config.antt =====
-- crates/executor-policy/src/model.rs (the file's schema), error.rs, selector.rs and the parsers of
-- load.rs: chain numbers, addresses, amounts and selectors.
use onchain_strategy_mcp.Prelude.{
  ℕ, ◌+◌, ◌-◌, ◌*◌, ◌/◌, ◌%◌, ◌^◌, ◌<◌, Bool, true, not, ◌||◌, Option, none, some, List, [], ◌∷◌,
  ◌≡◌, arith, ltb, if◌then◌else◌, all, length, nat_beq,
}
use onchain_strategy_mcp.Prelude.Text.{
  Text, codes, text_eq, is_ascii_digit, is_ascii_hexdigit, is_ascii_alphabetic, is_ascii_lowercase,
  is_ascii_uppercase, eq_ignore_ascii_case, strip_prefix, starts_with,
}
use onchain_strategy_mcp.Prelude.Result.{Result, ok, err}
use onchain_strategy_mcp.Alloy.{Alloy, Address, U256}
use onchain_strategy_mcp.Policy.Model.{Selector, SelectorPattern, specific, any_selector}

pub record RawCallAllowEntry : Type 0 where
  pub chain : ℕ
  pub contract : Text
  pub selector : Text

pub record RawCallGate : Type 0 where
  pub allow_global : Bool
  pub allow : List RawCallAllowEntry

-- `PolicyConfig`; the one-field structs of its sections are their fields.
pub record PolicyConfig : Type 0 where
  pub chains_allow : List ℕ
  pub contracts : List (Text × List Text)
  pub selectors : List (Text × List Text)
  pub native_value : List (Text × Text)
  pub erc20_spend : List (Text × Text)
  pub raw_call : RawCallGate

pub data Category : Type 0 where
  size_exceeds_cap toml_parse bad_chain_id chain_missing_contracts_subtable bad_selector_key
        bad_erc20_spend_key bad_address bad_u256_negative bad_u256 bad_selector_hex :
      Category

pub data PolicyError : Type 0 where
  io file_not_found : PolicyError
  config validation_error : Category → PolicyError

-- The value of decimal digits, `none` when a byte is no digit.
abbrev pub digits_from : ℕ → Text → Option ℕ
digits_from acc [] = some acc
digits_from acc (b ∷ s) =
    let rest = digits_from (acc * 10 + (b - 48)) s in if is_ascii_digit b then rest else none

abbrev pub fitting : ℕ → Option ℕ → Option ℕ
fitting w none = none
fitting w (some n) = if ltb n (2 ^ w) then some n else none

abbrev pub unsigned_digits : Text → Option ℕ
unsigned_digits [] = none
unsigned_digits (b ∷ s) = fitting 64 (digits_from 0 (b ∷ s))

-- `str::parse::<u64>`: an optional `+`, then at least one digit, and no overflow.
unfoldable pub parse_u64 : Text → Option ℕ
parse_u64 [] = none
parse_u64 (b ∷ s) = if nat_beq b 43 then unsigned_digits s else unsigned_digits (b ∷ s)

unfoldable pub parse_chain_id : Text → Result PolicyError ℕ
parse_chain_id s = elim (parse_u64 s) [ none ↦ err (validation_error bad_chain_id) | some n ↦ ok n ]

-- `strip_prefix("0x").or_else(|| strip_prefix("0X")).unwrap_or(s)`
abbrev pub strip_hex_prefix : Text → Text
strip_hex_prefix s = elim (strip_prefix s (codes "0x")) [
  | some t ↦ t
  | none ↦ elim (strip_prefix s (codes "0X")) [ some t ↦ t | none ↦ s ]
]

-- `no_alpha || all_lower || all_upper`
abbrev pub is_uniform_case : Text → Bool
is_uniform_case s =
    all (λ b. not (is_ascii_alphabetic b)) s
    || all (λ b. not (is_ascii_alphabetic b) || is_ascii_lowercase b) s
    || all (λ b. not (is_ascii_alphabetic b) || is_ascii_uppercase b) s

abbrev pub address_or_error : Option Address → Result PolicyError Address
address_or_error none = err (validation_error bad_address)
address_or_error (some a) = ok a

module _ (alloy : Alloy) where
  -- The fallback, for an address whose checksum does not hold.
  abbrev pub parse_uniform : Text → Result PolicyError Address
  parse_uniform s =
      if not (all is_ascii_hexdigit (strip_hex_prefix s))
      then err (validation_error bad_address)
      else if is_uniform_case (strip_hex_prefix s)
      then address_or_error (alloy.from_str s)
      else err (validation_error bad_address)

  unfoldable pub parse_address_lenient : Text → Result PolicyError Address
  parse_address_lenient s = elim (alloy.parse_checksummed s) [
    | some a ↦ ok a
    | none ↦ parse_uniform s
  ]

  abbrev pub amount_or_error : Option U256 → Result PolicyError U256
  amount_or_error none = err (validation_error bad_u256)
  amount_or_error (some v) = ok v

  unfoldable pub parse_u256_decimal : Text → Result PolicyError U256
  parse_u256_decimal s =
      if starts_with s (codes "-")
      then err (validation_error bad_u256_negative)
      else if nat_beq (length s) 0
      then err (validation_error bad_u256)
      else if starts_with s (codes "0x") || starts_with s (codes "0X")
      then err (validation_error bad_u256)
      else if not (all is_ascii_digit s)
      then err (validation_error bad_u256)
      else amount_or_error (alloy.from_decimal s)

-- The value of a hexadecimal digit.
abbrev pub hex_value : ℕ → ℕ
hex_value b = if is_ascii_digit b then b - 48 else if is_ascii_lowercase b then b - 87 else b - 55

abbrev pub hex_byte : ℕ → ℕ → ℕ
hex_byte a b = hex_value a * 16 + hex_value b

-- `u8::from_str_radix` on the four pairs of digits; the length was checked before.
abbrev pub selector_from_hex : Text → Result PolicyError SelectorPattern
selector_from_hex (a ∷ b ∷ c ∷ d ∷ e ∷ f ∷ g ∷ h ∷ []) =
    if all is_ascii_hexdigit (a ∷ b ∷ c ∷ d ∷ e ∷ f ∷ g ∷ h ∷ [])
    then ok (
        specific
          record { b0 = hex_byte a b; b1 = hex_byte c d; b2 = hex_byte e f; b3 = hex_byte g h })
    else err (validation_error bad_selector_hex)
selector_from_hex _ = err (validation_error bad_selector_hex)

unfoldable pub parse_selector_pattern : Text → Result PolicyError SelectorPattern
parse_selector_pattern s =
    if eq_ignore_ascii_case s (codes "any")
    then ok any_selector
    else elim (strip_prefix s (codes "0x")) [
      | none ↦ err (validation_error bad_selector_hex)
      | some t ↦ selector_from_hex t
    ]

-- selector.rs: `{:02x}` of one byte, and `selector_to_hex`.
abbrev pub hex_digit : ℕ → ℕ
hex_digit n = if ltb n 10 then n + 48 else n + 87

abbrev pub byte_to_hex : ℕ → Text → Text
byte_to_hex b s = hex_digit (b / 16) ∷ hex_digit (b % 16) ∷ s

unfoldable pub selector_to_hex : Selector → Text
selector_to_hex s =
    48 ∷ 120 ∷ byte_to_hex s.b0 (byte_to_hex s.b1 (byte_to_hex s.b2 (byte_to_hex s.b3 [])))

-- `extract_selector`
unfoldable pub extract_selector : List ℕ → Option Selector
extract_selector (a ∷ b ∷ c ∷ d ∷ rest) = some record { b0 = a; b1 = b; b2 = c; b3 = d }
extract_selector _ = none

hex_digit-is_ascii_hexdigit : (n : ℕ) → n < 16 → is_ascii_hexdigit (hex_digit n) ≡ true
hex_digit-is_ascii_hexdigit n h = ground arith

hex_value-hex_digit : (n : ℕ) → n < 16 → hex_value (hex_digit n) ≡ n
hex_value-hex_digit n h = ground arith

abbrev pub IsByte : ℕ → Type 0
IsByte b = b < 256

hex_byte-byte_to_hex : (b : ℕ) → IsByte b → hex_byte (hex_digit (b / 16)) (hex_digit (b % 16)) ≡ b
hex_byte-byte_to_hex b h = omega (
  arith,
  hex_value-hex_digit (b / 16) (omega (arith, h)),
  hex_value-hex_digit (b % 16) (omega arith),
)

high_is_hex : (b : ℕ) → IsByte b → is_ascii_hexdigit (hex_digit (b / 16)) ≡ true
high_is_hex b h = hex_digit-is_ascii_hexdigit (b / 16) (omega (arith, h))

low_is_hex : (b : ℕ) → is_ascii_hexdigit (hex_digit (b % 16)) ≡ true
low_is_hex b = hex_digit-is_ascii_hexdigit (b % 16) (omega arith)

-- A selector of four bytes that is printed is read back as itself.
pub parse_selector_pattern-selector_to_hex :
    (s : Selector)
    → IsByte s.b0
    → IsByte s.b1
    → IsByte s.b2
    → IsByte s.b3
    → parse_selector_pattern (selector_to_hex s) ≡ ok (specific s)
unfolding parse_selector_pattern selector_to_hex
parse_selector_pattern-selector_to_hex s h0 h1 h2 h3 =
    rw (high_is_hex s.b0 h0, high_is_hex s.b1 h1, high_is_hex s.b2 h2, high_is_hex s.b3 h3)
      (rw (low_is_hex s.b0, low_is_hex s.b1, low_is_hex s.b2, low_is_hex s.b3)
        (cc (
          hex_byte-byte_to_hex s.b0 h0,
          hex_byte-byte_to_hex s.b1 h1,
          hex_byte-byte_to_hex s.b2 h2,
          hex_byte-byte_to_hex s.b3 h3,
        )))
