-- ===== src/Prelude/Json.antt =====
-- `serde_json::Value`. An object lists its fields in the order of iteration; a number is its literal.
use mathlib.Core.Bool.{Bool}
use mathlib.Core.Option.{Option, none, some}
use onchain_strategy_mcp.Prelude.Tests.{◌==◌, if◌then◌else◌}
use onchain_strategy_mcp.Prelude.Text.{Text, text_eq}

mutual
  pub data Json : Type 0 where
    null : Json
    bool : Bool → Json
    number : Text → Json
    string : Text → Json
    array : Items → Json
    object : Fields → Json

  pub data Items : Type 0 where
    nil : Items
    cons : Json → Items → Items

  pub data Fields : Type 0 where
    end : Fields
    field : Text → Json → Fields → Fields

-- `Map::get`: the value of a key, which an object keeps once.
abbrev pub lookup : Text → Fields → Option Json
lookup k end = none
lookup k (field n v rest) = let later = lookup k rest in if n == k then some v else later
