-- ===== src/Prelude/Text.antt =====
-- Text as the list of its bytes, with the ASCII classes and the `str` methods that the parsers use.
use Prim.Native.Nat.{ℕ, ◌+◌}
use Prim.Native.Char.{code}
use Prim.Native.String.{String}
use mathlib.Core.Path.{◌≡◌}
use mathlib.Core.Logic.{◌↔◌}
use mathlib.Core.Bool.{Bool, true, false, ◌&&◌, ◌||◌}
use mathlib.Core.Option.{Option, none, some}
use mathlib.Core.List.{List, [], ◌∷◌}
use native.Mathlib.Omega.{arith}
use onchain_strategy_mcp.Prelude.Tests.{leb, nat_beq, nat_beq_iff, Eq, if◌then◌else◌}

abbrev pub Text : Type 0
Text = List ℕ

abbrev pub codes : String → Text
codes String.[] = []
codes (String.◌∷◌ c s) = code c ∷ codes s

abbrev pub text_beq : Text → Text → Bool
text_beq [] [] = true
text_beq [] (y ∷ ys) = false
text_beq (x ∷ xs) [] = false
text_beq (x ∷ xs) (y ∷ ys) = nat_beq x y && text_beq xs ys

pub text_beq_iff : (s t : Text) → (text_beq s t ≡ true) ↔ (s ≡ t)
text_beq_iff [] [] = ground arith
text_beq_iff [] (y ∷ ys) = ground arith
text_beq_iff (x ∷ xs) [] = ground arith
text_beq_iff (x ∷ xs) (y ∷ ys) = ground (arith, text_beq_iff xs ys, nat_beq_iff x y)

instance abbrev pub text_eq : Eq Text
text_eq = record { beq = text_beq; decides = text_beq_iff }

-- `u8::is_ascii_digit` and its siblings.
abbrev pub is_ascii_digit : ℕ → Bool
is_ascii_digit b = leb 48 b && leb b 57

abbrev pub is_ascii_lowercase : ℕ → Bool
is_ascii_lowercase b = leb 97 b && leb b 122

abbrev pub is_ascii_uppercase : ℕ → Bool
is_ascii_uppercase b = leb 65 b && leb b 90

abbrev pub is_ascii_alphabetic : ℕ → Bool
is_ascii_alphabetic b = is_ascii_lowercase b || is_ascii_uppercase b

abbrev pub is_ascii_hexdigit : ℕ → Bool
is_ascii_hexdigit b = is_ascii_digit b || leb 97 b && leb b 102 || leb 65 b && leb b 70

abbrev pub to_ascii_lowercase : ℕ → ℕ
to_ascii_lowercase b = if is_ascii_uppercase b then b + 32 else b

abbrev pub eq_ignore_ascii_case : Text → Text → Bool
eq_ignore_ascii_case [] [] = true
eq_ignore_ascii_case [] (y ∷ ys) = false
eq_ignore_ascii_case (x ∷ xs) [] = false
eq_ignore_ascii_case (x ∷ xs) (y ∷ ys) =
    nat_beq (to_ascii_lowercase x) (to_ascii_lowercase y) && eq_ignore_ascii_case xs ys

-- `str::strip_prefix`
abbrev pub strip_prefix : Text → Text → Option Text
strip_prefix s [] = some s
strip_prefix [] (p ∷ ps) = none
strip_prefix (x ∷ xs) (p ∷ ps) = if nat_beq x p then strip_prefix xs ps else none

-- `str::starts_with`
abbrev pub starts_with : Text → Text → Bool
starts_with s [] = true
starts_with [] (p ∷ ps) = false
starts_with (x ∷ xs) (p ∷ ps) = nat_beq x p && starts_with xs ps

abbrev pub prepend_fst : ℕ → Option (Text × Text) → Option (Text × Text)
prepend_fst x none = none
prepend_fst x (some (s, t)) = some (x ∷ s, t)

-- `str::split_once`, for a separator of one byte.
abbrev pub split_once : Text → ℕ → Option (Text × Text)
split_once [] c = none
split_once (x ∷ xs) c =
    let rest = split_once xs c in if nat_beq x c then some ([], xs) else prepend_fst x rest
