-- ===== src/UnitScenarios.antt =====
-- Amounts with six places, and what the theorems say of them.
use onchain_strategy_mcp.Prelude.{Option, ◌≡◌, ◌↔◌, refl, ap, arith}
use onchain_strategy_mcp.Prelude.Text.{Text, codes}
use onchain_strategy_mcp.Prelude.Result.{ok, ◌>>=◌}
use onchain_strategy_mcp.Policy.Config.{digits_from, fitting}
use onchain_strategy_mcp.Alloy.{U256}
use onchain_strategy_mcp.Evm.Units.{parse_units, format_units, format_units_from_str}
use onchain_strategy_mcp.Evm.Units.Digits.{digits_from-value}
use onchain_strategy_mcp.Evm.Units.Value.{ReadsDecimal, IsAmount, parse_units_iff}
use onchain_strategy_mcp.Evm.Units.RoundTrip.{parse_units-format_units}

abbrev from_decimal : Text → Option U256
from_decimal s = fitting 256 (digits_from 0 s)

from_decimal-ReadsDecimal : ReadsDecimal from_decimal
from_decimal-ReadsDecimal s nonempty digits = ap (fitting 256) (digits_from-value 0 s digits)

abbrev to_string : U256 → Text
to_string v = codes "1500000"

parse_units_iff_example :
    (parse_units from_decimal (codes "1.5") 6 ≡ ok 1500000) ↔ IsAmount (codes "1.5") 6 1500000
parse_units_iff_example =
    parse_units_iff from_decimal (codes "1.5") 6 1500000 from_decimal-ReadsDecimal

parse_units-format_units_example :
    (format_units to_string 1500000 6 >>= λ s. parse_units from_decimal s 6) ≡ ok 1500000
parse_units-format_units_example =
    parse_units-format_units from_decimal to_string 1500000 6 from_decimal-ReadsDecimal
      (refl, refl, refl) (omega arith) (omega arith)

prints_short : format_units_from_str to_string from_decimal (codes "1500000") 6 ≡ ok (codes "1.5")
unfolding format_units_from_str format_units
prints_short = refl

reads_short : parse_units from_decimal (codes "1.5") 6 ≡ ok 1500000
unfolding parse_units
reads_short = refl
