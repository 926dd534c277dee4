-- ===== src/Evm/Units/Digits.antt =====
-- The numbers that decimal digits spell.
use onchain_strategy_mcp.Prelude.{
  ℕ, zero, suc, ◌+◌, ◌-◌, ◌*◌, ◌^◌, ◌≤◌, Bool, true, false, ◌&&◌, some, [], ◌∷◌, ◌++◌, ◌≡◌, refl,
  sym, ap, ◌∙◌, if◌then◌else◌, nat_beq, nat_beq_iff, all, length, replicate, arith, take,
}
use native.Mathlib.Nat.{add-mul, mul_assoc, pow-succ'}
use onchain_strategy_mcp.Prelude.Text.{Text, is_ascii_digit}
use onchain_strategy_mcp.Policy.Config.{digits_from}
use onchain_strategy_mcp.Evm.Units.{drop, trim_end_zeros, is_empty}

-- The value of digits, read from the left.
abbrev pub value_from : ℕ → Text → ℕ
value_from acc [] = acc
value_from acc (b ∷ s) = value_from (acc * 10 + (b - 48)) s

abbrev pub value : Text → ℕ
value s = value_from 0 s

abbrev pub AreDigits : Text → Type 0
AreDigits s = all is_ascii_digit s ≡ true

pub digits_from-value :
    (acc : ℕ) (s : Text) → AreDigits s → digits_from acc s ≡ some (value_from acc s)
digits_from-value acc [] h = refl
digits_from-value acc (b ∷ s) h = ground (arith, digits_from-value (acc * 10 + (b - 48)) s, h)

pub value-append :
    (acc : ℕ) (s t : Text) → value_from acc (s ++ t) ≡ value_from (value_from acc s) t
value-append acc [] t = refl
value-append acc (b ∷ s) t = value-append (acc * 10 + (b - 48)) s t

pub pow_sum : (m n : ℕ) → 10 ^ (m + n) ≡ 10 ^ m * 10 ^ n
pow_sum zero n = let same : 0 + n ≡ n = omega arith in ap (λ k. 10 ^ k) same ∙ omega arith
pow_sum (suc m) n =
    let same : suc m + n ≡ suc (m + n) = omega arith in
    ap (λ k. 10 ^ k) same
    ∙ pow-succ' 10 (m + n)
    ∙ ap (λ k. 10 * k) (pow_sum m n)
    ∙ sym (mul_assoc 10 (10 ^ m) (10 ^ n))
    ∙ ap (λ k. k * 10 ^ n) (sym (pow-succ' 10 m))

ten_more : (acc n : ℕ) → acc * 10 * 10 ^ n ≡ acc * 10 ^ suc n
ten_more acc n = mul_assoc acc 10 (10 ^ n) ∙ ap (λ p. acc * p) (sym (pow-succ' 10 n))

pub value-zeros : (acc n : ℕ) → value_from acc (replicate n 48) ≡ acc * 10 ^ n
value-zeros acc zero = omega arith
value-zeros acc (suc n) =
    value-zeros (acc * 10 + 0) n ∙ (ap (λ k. k * 10 ^ n) (omega arith) ∙ ten_more acc n)

pub value-shift : (acc : ℕ) (s : Text) → value_from acc s ≡ acc * 10 ^ length s + value s
value-shift acc [] = omega arith
value-shift acc (b ∷ s) =
    let d = b - 48 in
    let plain : (0 * 10 + d) * 10 ^ length s ≡ d * 10 ^ length s =
      ap (λ x. x * 10 ^ length s) (omega arith) in
    value-shift (acc * 10 + (b - 48)) s
    ∙ omega (
      arith,
      add-mul (acc * 10) (b - 48) (10 ^ length s),
      ten_more acc (length s),
      value-shift (0 * 10 + d) s,
      plain,
    )

pub AreDigits-append : (s t : Text) → AreDigits s → AreDigits t → AreDigits (s ++ t)
AreDigits-append [] t h k = k
AreDigits-append (b ∷ s) t h k = ground (arith, AreDigits-append s t, h, k)

pub AreDigits-zeros : (n : ℕ) → AreDigits (replicate n 48)
AreDigits-zeros zero = refl
AreDigits-zeros (suc n) = AreDigits-zeros n

kept_digit :
    (b : ℕ) (s r : Text)
    → r ++ replicate (length s - length r) 48 ≡ s
    → (b ∷ r) ++ replicate (length (b ∷ s) - length (b ∷ r)) 48 ≡ b ∷ s
kept_digit b s r h =
    let same : suc (length s) - suc (length r) ≡ length s - length r = omega arith in
    rw same (ap (λ t. b ∷ t) h)

dropped_zero :
    (s : Text) → replicate (length s - 0) 48 ≡ s → replicate (suc (length s) - 0) 48 ≡ 48 ∷ s
dropped_zero s h =
    let same : suc (length s) - 0 ≡ suc (length s - 0) = omega arith in rw same (ap (λ t. 48 ∷ t) h)

trimmed_step :
    (b : ℕ) (s r : Text)
    → r ++ replicate (length s - length r) 48 ≡ s
    → (c : Bool) → nat_beq b 48 ≡ c
    → let t = (if c && is_empty r then [] else b ∷ r) in
      t ++ replicate (length (b ∷ s) - length t) 48 ≡ b ∷ s
trimmed_step b s [] h true is_zero =
    let same = (nat_beq_iff b 48).0 is_zero in dropped_zero s h ∙ rw same refl
trimmed_step b s [] h false other = kept_digit b s [] h
trimmed_step b s (x ∷ r) h true is_zero = kept_digit b s (x ∷ r) h
trimmed_step b s (x ∷ r) h false other = kept_digit b s (x ∷ r) h

-- Digits that are trimmed come back as zeros.
pub trim_end_zeros-restore :
    (s : Text) → trim_end_zeros s ++ replicate (length s - length (trim_end_zeros s)) 48 ≡ s
trim_end_zeros-restore [] = refl
trim_end_zeros-restore (b ∷ s) =
    trimmed_step b s (trim_end_zeros s) (trim_end_zeros-restore s) (nat_beq b 48) refl

pub length-trim_end_zeros : (s : Text) → length (trim_end_zeros s) ≤ length s
length-trim_end_zeros [] = omega arith
length-trim_end_zeros (b ∷ s) = ground (arith, length-trim_end_zeros s)

pub AreDigits-trim_end_zeros : (s : Text) → AreDigits s → AreDigits (trim_end_zeros s)
AreDigits-trim_end_zeros [] h = refl
AreDigits-trim_end_zeros (b ∷ s) h = ground (arith, AreDigits-trim_end_zeros s, h)

pub take-drop : (n : ℕ) (s : Text) → take n s ++ drop n s ≡ s
take-drop zero s = refl
take-drop (suc n) [] = refl
take-drop (suc n) (b ∷ s) = ap (λ t. b ∷ t) (take-drop n s)

pub AreDigits-take : (n : ℕ) (s : Text) → AreDigits s → AreDigits (take n s)
AreDigits-take zero s h = refl
AreDigits-take (suc n) [] h = refl
AreDigits-take (suc n) (b ∷ s) h = ground (arith, AreDigits-take n s, h)

pub AreDigits-drop : (n : ℕ) (s : Text) → AreDigits s → AreDigits (drop n s)
AreDigits-drop zero s h = h
AreDigits-drop (suc n) [] h = refl
AreDigits-drop (suc n) (b ∷ s) h = AreDigits-drop n s (ground (arith, h))

pub length-drop : (n : ℕ) (s : Text) → n ≤ length s → length (drop n s) ≡ length s - n
length-drop zero s h = omega arith
length-drop (suc n) [] h = omega (arith, h)
length-drop (suc n) (b ∷ s) h = length-drop n s (omega (arith, h)) ∙ omega arith

pub length-replicate : (n : ℕ) (b : ℕ) → length (replicate n b) ≡ n
length-replicate zero b = refl
length-replicate (suc n) b = ap suc (length-replicate n b)
