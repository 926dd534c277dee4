-- ===== src/Prelude/Map.antt =====
-- Maps with a key type that has an equality test, as association lists (Rust's `HashMap`).
-- A list that stands for a map which the code iterates over gives the order of the iteration.
use onchain_strategy_mcp.Prelude.Tests.{Eq, ◌==◌, if◌then◌else◌, is_some}
use mathlib.Core.Path.{◌≡◌, refl}
use mathlib.Core.Bool.{Bool}
use mathlib.Core.Option.{Option, none, some}
use mathlib.Core.List.{List, [], ◌∷◌}
use native.Mathlib.Omega.{arith}

module _ {ℓ κ} {K : Type ℓ} {V : Type κ} ⦃e : Eq K⦄ where
  -- `HashMap::get`
  abbrev pub get : List (K × V) → K → Option V
  get [] k = none
  get ((j, v) ∷ m) k = if j == k then some v else get m k

  -- `HashMap::contains_key`
  abbrev pub contains_key : List (K × V) → K → Bool
  contains_key m k = is_some (get m k)

  -- `HashMap::insert`
  abbrev pub insert : List (K × V) → K → V → List (K × V)
  insert [] k v = (k, v) ∷ []
  insert ((j, w) ∷ m) k v = if j == k then (j, v) ∷ m else (j, w) ∷ insert m k v

  pub get-insert :
      (m : List (K × V)) (k j : K) (v : V)
      → get (insert m k v) j ≡ (if k == j then some v else get m j)
  get-insert [] k j v = refl
  get-insert ((i, w) ∷ m) k j v =
      ground (arith, get-insert m k j v, e.decides i k, e.decides i j, e.decides k j)
