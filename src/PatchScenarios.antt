-- ===== src/PatchScenarios.antt =====
-- Two small policies and their patch.
use onchain_strategy_mcp.Prelude.{some, [], ◌∷◌, ◌≡◌, ◌↔◌, refl, All}
use onchain_strategy_mcp.Prelude.Text.{codes}
use onchain_strategy_mcp.Prelude.Json.{Json, string, object, end, field}
use onchain_strategy_mcp.PolicyDiff.Patch.{
  add, remove, replace, json_beq, escape_pointer_token, keys_of_both, walk, diff_json,
}
use onchain_strategy_mcp.PolicyDiff.Patch.Total.{Returns, diff_json-Returns}
use onchain_strategy_mcp.PolicyDiff.Patch.Truthful.{SaysBelow, diff_json_truthful}
use onchain_strategy_mcp.PolicyDiff.Patch.Pointers.{pointer-injective}
use onchain_strategy_mcp.PolicyDiff.Patch.Empty.{diff_json_empty_iff}

abbrev old_policy : Json
old_policy = object (
    field (codes "chains") (object (field (codes "1/a") (string (codes "on")) end))
      (field (codes "raw") (string (codes "off")) end))

abbrev new_policy : Json
new_policy = object (
    field (codes "caps") (string (codes "5"))
      (field (codes "chains") (object (field (codes "1/a") (string (codes "off")) end)) end))

the_patch :
    diff_json old_policy new_policy
    ≡ some (
        add (codes "/caps") (string (codes "5"))
        ∷ replace (codes "/chains/1~1a") (string (codes "off"))
        ∷ remove (codes "/raw")
        ∷ [])
unfolding diff_json walk json_beq keys_of_both escape_pointer_token
the_patch = refl

diff_json-Returns_example : Returns (diff_json old_policy new_policy)
diff_json-Returns_example = diff_json-Returns old_policy new_policy

diff_json_truthful_example : All (SaysBelow [] (some old_policy) (some new_policy)) (
    add (codes "/caps") (string (codes "5"))
    ∷ replace (codes "/chains/1~1a") (string (codes "off"))
    ∷ remove (codes "/raw")
    ∷ [])
diff_json_truthful_example = diff_json_truthful old_policy new_policy _ the_patch

pointer-injective_example : (codes "a" ∷ codes "b" ∷ []) ≡ (codes "a" ∷ codes "b" ∷ [])
pointer-injective_example =
    pointer-injective (codes "a" ∷ codes "b" ∷ []) (codes "a" ∷ codes "b" ∷ []) refl

diff_json_empty_iff_example :
    (diff_json old_policy new_policy ≡ some []) ↔ (old_policy ≡ new_policy)
diff_json_empty_iff_example =
    diff_json_empty_iff old_policy new_policy
      (((refl, tt), (tt, tt)), (((tt, tt), (tt, tt)), (tt, tt)))
      (((refl, tt), (tt, tt)), (tt, (((tt, tt), (tt, tt)), tt)))
