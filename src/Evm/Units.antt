-- ===== src/Evm/Units.antt =====
-- crates/executor-evm/src/units.rs: amounts of a token in decimal notation. The reading of a number
-- from its digits and its printing are calls of the alloy library, hence parameters.
pub mod Digits
pub mod Value
pub mod RoundTrip
use onchain_strategy_mcp.Prelude.{
  ℕ, ◌-◌, String, Bool, true, false, not, ◌&&◌, ◌||◌, Option, none, some, List, [], ◌∷◌, ◌++◌,
  if◌then◌else◌, ltb, leb, nat_beq, length, all, any, take, replicate,
}
use onchain_strategy_mcp.Prelude.Text.{Text, codes, is_ascii_digit, starts_with, split_once}
use onchain_strategy_mcp.Prelude.Result.{Result, ok, err}
use onchain_strategy_mcp.Alloy.{U256}

-- The categories of the `EvmError::Encode` that these functions make.
pub data UnitsError : Type 0 where
  decimals_out_of_range amount_empty amount_negative amount_not_decimal amount_overflow_fraction
        amount_overflow_u256 :
      UnitsError

abbrev pub max_decimals : ℕ
max_decimals = 77

abbrev pub is_empty : Text → Bool
is_empty [] = true
is_empty (b ∷ s) = false

abbrev pub or_zero : Text → Text
or_zero [] = 48 ∷ []
or_zero (b ∷ s) = b ∷ s

-- The digits of the integer that the two parts spell, in the smallest unit.
abbrev pub combined : Text → Text → ℕ → Text
combined int_part frac_part decimals =
    or_zero int_part ++ (frac_part ++ replicate (decimals - length frac_part) 48)

abbrev pub or_overflow : Option U256 → Result UnitsError U256
or_overflow none = err amount_overflow_u256
or_overflow (some v) = ok v

-- `(&amount[..i], &amount[i + 1..])`, or the amount and nothing.
abbrev pub parts : Text → Option (Text × Text) → Text × Text
parts amount none = (amount, [])
parts amount (some p) = p

-- `&s[i..]`
abbrev pub drop : ℕ → Text → Text
drop ℕ.zero s = s
drop (ℕ.suc n) [] = []
drop (ℕ.suc n) (b ∷ s) = drop n s

-- `trim_end_matches('0')`
abbrev pub trim_end_zeros : Text → Text
trim_end_zeros [] = []
trim_end_zeros (b ∷ s) =
    let rest = trim_end_zeros s in if nat_beq b 48 && is_empty rest then [] else b ∷ rest

module _ (from_decimal : Text → Option U256) where
  abbrev pub parse_parts : Text → Text → ℕ → Result UnitsError U256
  parse_parts int_part frac_part decimals =
      if ltb decimals (length frac_part)
      then err amount_overflow_fraction
      else if not (is_empty int_part) && not (all is_ascii_digit int_part)
      then err amount_not_decimal
      else if not (is_empty frac_part) && not (all is_ascii_digit frac_part)
      then err amount_not_decimal
      else if is_empty int_part && is_empty frac_part
      then err amount_not_decimal
      else or_overflow (from_decimal (combined int_part frac_part decimals))

  unfoldable pub parse_units : Text → ℕ → Result UnitsError U256
  parse_units amount decimals =
      if ltb max_decimals decimals
      then err decimals_out_of_range
      else if is_empty amount
      then err amount_empty
      else if starts_with amount (codes "-")
      then err amount_negative
      else if starts_with amount (codes "+")
      then err amount_not_decimal
      else if starts_with amount (codes "0x") || starts_with amount (codes "0X")
      then err amount_not_decimal
      else (let p = parts amount (split_once amount 46) in
          if any (λ b. nat_beq b 46) p.1
          then err amount_not_decimal
          else parse_parts p.0 p.1 decimals)

-- The integer digits and the fraction digits of a number that is printed as `s`.
abbrev pub split_digits : Text → ℕ → Text × Text
split_digits s decimals =
    if leb (length s) decimals
    then (48 ∷ [], replicate (decimals - length s) 48 ++ s)
    else (take (length s - decimals) s, drop (length s - decimals) s)

-- `format!("{int_part}.{frac_trimmed}")`, or the integer part alone.
abbrev pub join_parts : Text → Text → Text
join_parts int_part [] = int_part
join_parts int_part (b ∷ frac) = int_part ++ 46 ∷ b ∷ frac

module _ (to_string : U256 → Text) where
  unfoldable pub format_units : U256 → ℕ → Result UnitsError Text
  format_units value decimals =
      if ltb max_decimals decimals
      then err decimals_out_of_range
      else if nat_beq decimals 0
      then ok (to_string value)
      else (let p = split_digits (to_string value) decimals in
          ok (join_parts p.0 (trim_end_zeros p.1)))

  unfoldable pub format_units_from_str : (Text → Option U256) → Text → ℕ → Result UnitsError Text
  format_units_from_str from_decimal value decimals =
      if is_empty value
      then err amount_empty
      else if starts_with value (codes "-")
      then err amount_negative
      else if not (all is_ascii_digit value)
      then err amount_not_decimal
      else elim (from_decimal value) [
        | none ↦ err amount_overflow_u256
        | some u ↦ format_units u decimals
      ]
