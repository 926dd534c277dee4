-- ===== src/Alloy.antt =====
-- The alloy library, which the repository calls and does not contain: 256-bit numbers and
-- addresses. An `Address` and a `U256` are the numbers that their bytes spell.
use onchain_strategy_mcp.Prelude.{ℕ, ◌+◌, ◌-◌, ◌^◌, min, ◌≡◌, Option, List}
use onchain_strategy_mcp.Prelude.Text.{Text}

abbrev pub Address : Type 0
Address = ℕ

abbrev pub U256 : Type 0
U256 = ℕ

abbrev pub u256_max : ℕ
u256_max = 2 ^ 256 - 1

-- The calls that the code makes.
pub record Alloy : Type 0 where
  -- `U256::saturating_add`
  pub saturating_add : U256 → U256 → U256
  -- `U256::from_str_radix(s, 10).ok()`
  pub from_decimal : Text → Option U256
  -- `Address::parse_checksummed(s, None).ok()`
  pub parse_checksummed : Text → Option Address
  -- `Address::from_str(s).ok()`
  pub from_str : Text → Option Address
  -- `Bytes::from_str(s).ok()`
  pub bytes_from_str : Text → Option (List ℕ)

-- The documented behaviour of `saturating_add`: the sum, or the largest value where it overflows.
abbrev pub Saturates : Alloy → Type 0
Saturates a = (x y : U256) → a.saturating_add x y ≡ min (x + y) u256_max
