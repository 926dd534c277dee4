-- ===== src/Evm/Units/Value.antt =====
-- Which amounts are read, and as what.
use onchain_strategy_mcp.Prelude.{
  ℕ, ◌+◌, ◌-◌, ◌*◌, ◌^◌, ◌≤◌, ◌<◌, Bool, true, false, not, ◌&&◌, ◌||◌, Option, none, some, [], ◌∷◌,
  ◌++◌, ◌≡◌, refl, sym, ap, ◌∙◌, ◌⊎◌, ◌↔◌, inl, inr, if◌then◌else◌, ltb, lt→ltb, nat_beq,
  nat_beq_iff, all, any, length, replicate, arith,
}
use native.Mathlib.Nat.{add-mul, mul_assoc}
use onchain_strategy_mcp.Prelude.Text.{
  Text, codes, is_ascii_digit, starts_with, split_once, prepend_fst,
}
use onchain_strategy_mcp.Prelude.Result.{Result, ok, err}
use onchain_strategy_mcp.Policy.Config.{fitting}
use onchain_strategy_mcp.Alloy.{U256}
use onchain_strategy_mcp.Evm.Units.{
  UnitsError, is_empty, or_zero, combined, or_overflow, parts, parse_parts, parse_units,
}
use onchain_strategy_mcp.Evm.Units.Digits.{
  value_from, value, AreDigits, AreDigits-append, AreDigits-zeros, value-append, value-zeros,
  value-shift, pow_sum,
}

-- The documented behaviour of `U256::from_str_radix(s, 10)` on digits.
abbrev pub ReadsDecimal : (Text → Option U256) → Type 0
ReadsDecimal from_decimal =
    (s : Text) → is_empty s ≡ false → AreDigits s → from_decimal s ≡ fitting 256 (some (value s))

-- A text is digits, or digits with one dot among them or at an end.
abbrev pub Spells : Text → Text → Text → Type 0
Spells amount int_part frac_part =
    ((amount ≡ int_part) × (frac_part ≡ [])) ⊎ (amount ≡ int_part ++ 46 ∷ frac_part)

-- What the parts are worth in the smallest unit.
abbrev pub worth : Text → Text → ℕ → ℕ
worth int_part frac_part decimals =
    value int_part * 10 ^ decimals + value frac_part * 10 ^ (decimals - length frac_part)

-- `amount` tokens of `decimals` places are `v` of the smallest unit.
abbrev pub IsAmount : Text → ℕ → ℕ → Type 0
IsAmount amount decimals v =
    (decimals ≤ 77)
    × ((int_part frac_part : Text) × Spells amount int_part frac_part
        × AreDigits int_part
        × AreDigits frac_part
        × ((is_empty int_part && is_empty frac_part) ≡ false)
        × (length frac_part ≤ decimals)
        × (v ≡ worth int_part frac_part decimals))
    × (v < 2 ^ 256)

value-or_zero : (s : Text) → value (or_zero s) ≡ value s
value-or_zero [] = refl
value-or_zero (b ∷ s) = refl

pub AreDigits-or_zero : (s : Text) → AreDigits s → AreDigits (or_zero s)
AreDigits-or_zero [] h = refl
AreDigits-or_zero (b ∷ s) h = h

scaled : (i f : ℕ) (m n d : ℕ) → m + n ≡ d → (i * 10 ^ m + f) * 10 ^ n ≡ i * 10 ^ d + f * 10 ^ n
scaled i f m n d h =
    add-mul (i * 10 ^ m) f (10 ^ n)
    ∙ ap (λ k. k + f * 10 ^ n)
        (mul_assoc i (10 ^ m) (10 ^ n) ∙ ap (λ p. i * p) (sym (pow_sum m n) ∙ ap (λ k. 10 ^ k) h))

pub value-combined : (i f : Text) (d : ℕ) → length f ≤ d → value (combined i f d) ≡ worth i f d
value-combined i f d h =
    value-append 0 (or_zero i) (f ++ replicate (d - length f) 48)
    ∙ value-append (value (or_zero i)) f (replicate (d - length f) 48)
    ∙ value-zeros (value_from (value (or_zero i)) f) (d - length f)
    ∙ ap (λ k. k * 10 ^ (d - length f))
        (value-shift (value (or_zero i)) f
          ∙ ap (λ k. k * 10 ^ length f + value f) (value-or_zero i))
    ∙ scaled (value i) (value f) (length f) (d - length f) d (omega (arith, h))

combined-digits : (i f : Text) (d : ℕ) → AreDigits i → AreDigits f → AreDigits (combined i f d)
combined-digits i f d h k =
    AreDigits-append (or_zero i) (f ++ replicate (d - length f) 48) (AreDigits-or_zero i h)
      (AreDigits-append f (replicate (d - length f) 48) k (AreDigits-zeros (d - length f)))

combined-nonempty : (i f : Text) (d : ℕ) → is_empty (combined i f d) ≡ false
combined-nonempty [] f d = refl
combined-nonempty (b ∷ i) f d = refl

digits_no_dot : (s : Text) → AreDigits s → any (λ b. nat_beq b 46) s ≡ false
digits_no_dot [] h = refl
digits_no_dot (b ∷ s) h = ground (arith, digits_no_dot s, h)

split_once-none : (s : Text) → any (λ b. nat_beq b 46) s ≡ false → split_once s 46 ≡ none
split_once-none [] h = refl
split_once-none (b ∷ s) h = ground (arith, split_once-none s, h)

split_once-dot :
    (i f : Text) → any (λ b. nat_beq b 46) i ≡ false → split_once (i ++ 46 ∷ f) 46 ≡ some (i, f)
split_once-dot [] f h = refl
split_once-dot (b ∷ i) f h = ground (arith, split_once-dot i f, h)

split_once-some : (s i f : Text) → split_once s 46 ≡ some (i, f) → s ≡ i ++ 46 ∷ f
split_once-some [] i f h = absurd (cc h)
split_once-some (b ∷ s) i f h = go (nat_beq b 46) refl (λ j. split_once-some s j f) h
  where
    before :
        (o : Option (Text × Text))
        → ((j : Text) → o ≡ some (j, f) → s ≡ j ++ 46 ∷ f)
        → prepend_fst b o ≡ some (i, f)
        → b ∷ s ≡ i ++ 46 ∷ f
    before none rec q = absurd (cc q)
    before (some (j, g)) rec q =
        let same_first : b ∷ j ≡ i = cc q in
        let same_rest : g ≡ f = cc q in
        ap (λ t. b ∷ t) (rec j (ap (λ t. some (j, t)) same_rest)) ∙ ap (λ t. t ++ 46 ∷ f) same_first

    go :
        (c : Bool)
        → nat_beq b 46 ≡ c
        → ((j : Text) → split_once s 46 ≡ some (j, f) → s ≡ j ++ 46 ∷ f)
        → (if c then some ([], s) else prepend_fst b (split_once s 46)) ≡ some (i, f)
        → b ∷ s ≡ i ++ 46 ∷ f
    go true e rec q =
        let empty : [] ≡ i = cc q in
        let rest : s ≡ f = cc q in
        let dot : b ≡ 46 = (nat_beq_iff b 46).0 e in cc (dot, rest, ap (λ t. t ++ 46 ∷ f) empty)
    go false e rec q = before (split_once s 46) rec q

-- A guard that was passed.
passes :
    (c : Bool) (e : UnitsError) (m : Result UnitsError U256) (v : U256)
    → (if c then err e else m) ≡ ok v
    → (c ≡ false) × (m ≡ ok v)
passes true e m v h = absurd (cc h)
passes false e m v h = (refl, h)

digits_guard : (s : Text) → (not (is_empty s) && not (all is_ascii_digit s)) ≡ false → AreDigits s
digits_guard [] h = refl
digits_guard (b ∷ s) h = ground (arith, h)

digits_pass : (s : Text) → AreDigits s → (not (is_empty s) && not (all is_ascii_digit s)) ≡ false
digits_pass [] h = refl
digits_pass (b ∷ s) h = ground (arith, h)

fits : (n v : ℕ) → or_overflow (fitting 256 (some n)) ≡ ok v → (v ≡ n) × (v < 2 ^ 256)
fits n v h = go (ltb n (2 ^ 256)) refl h
  where
    go :
        (c : Bool)
        → ltb n (2 ^ 256) ≡ c
        → or_overflow (if c then some n else none) ≡ ok v
        → (v ≡ n) × (v < 2 ^ 256)
    go true e q = let same : n ≡ v = cc q in (sym same, ground (arith, e, same))
    go false e q = absurd (cc q)

spelled :
    (a : Text) (o : Option (Text × Text))
    → split_once a 46 ≡ o
    → Spells a (parts a o).0 (parts a o).1
spelled a none e = inl (refl, refl)
spelled a (some (i, f)) e = inr (split_once-some a i f e)

module _ (from_decimal : Text → Option U256) (reads : ReadsDecimal from_decimal) where
  parse_parts-ok :
      (i f : Text) (d v : ℕ)
      → parse_parts from_decimal i f d ≡ ok v
      → AreDigits i
        × AreDigits f
        × ((is_empty i && is_empty f) ≡ false)
        × (length f ≤ d)
        × (v ≡ worth i f d)
        × (v < 2 ^ 256)
  parse_parts-ok i f d v h =
      let (short, h1) = passes (ltb d (length f)) _ _ v h in
      let (int_digits, h2) = passes (not (is_empty i) && not (all is_ascii_digit i)) _ _ v h1 in
      let (frac_digits, h3) = passes (not (is_empty f) && not (all is_ascii_digit f)) _ _ v h2 in
      let (some_digit, h4) = passes (is_empty i && is_empty f) _ _ v h3 in
      let digits_i = digits_guard i int_digits in
      let digits_f = digits_guard f frac_digits in
      let le : length f ≤ d = ground (arith, short) in
      let read =
        reads (combined i f d) (combined-nonempty i f d)
          (combined-digits i f d digits_i digits_f) in
      let (same, small) = fits (value (combined i f d)) v (ap or_overflow (sym read) ∙ h4) in
      (digits_i, digits_f, some_digit, le, same ∙ value-combined i f d le, small)

  parse_parts-reads :
      (i f : Text) (d : ℕ)
      → AreDigits i
      → AreDigits f
      → (is_empty i && is_empty f) ≡ false
      → length f ≤ d
      → worth i f d < 2 ^ 256
      → parse_parts from_decimal i f d ≡ ok (worth i f d)
  parse_parts-reads i f d digits_i digits_f some_digit le small =
      let short : ltb d (length f) ≡ false = ground (arith, le) in
      let read =
        reads (combined i f d) (combined-nonempty i f d)
          (combined-digits i f d digits_i digits_f) in
      rw
        (
          short,
          digits_pass i digits_i,
          digits_pass f digits_f,
          some_digit,
          read,
          value-combined i f d le,
        )
        (rw (lt→ltb (worth i f d) (2 ^ 256) small) refl)

is_plain : ℕ → Bool
is_plain b = is_ascii_digit b || nat_beq b 46

-- Neither a sign nor a prefix begins digits and dots.
plain_start :
    (a : Text)
    → all is_plain a ≡ true
    → (starts_with a (codes "-") ≡ false)
      × (starts_with a (codes "+") ≡ false)
      × ((starts_with a (codes "0x") || starts_with a (codes "0X")) ≡ false)
unfolding is_plain
plain_start [] h = (refl, refl, refl)
plain_start (x ∷ []) h = (ground (arith, h), ground (arith, h), ground (arith, h))
plain_start (x ∷ y ∷ s) h = (ground (arith, h), ground (arith, h), ground (arith, h))

digits_plain : (s t : Text) → AreDigits s → all is_plain t ≡ true → all is_plain (s ++ t) ≡ true
unfolding is_plain
digits_plain [] t h k = k
digits_plain (b ∷ s) t h k = ground (arith, digits_plain s t, h, k)

only_digits : (s : Text) → AreDigits s → all is_plain s ≡ true
unfolding is_plain
only_digits [] h = refl
only_digits (b ∷ s) h = ground (arith, only_digits s, h)

-- What `parse_units` tests before it splits, and how it splits.
Spells-split :
    (a i f : Text)
    → Spells a i f
    → AreDigits i
    → AreDigits f
    → (is_empty i && is_empty f) ≡ false
    → (is_empty a ≡ false) × (all is_plain a ≡ true) × (parts a (split_once a 46) ≡ (i, f))
unfolding is_plain
Spells-split a i f (inl (same, none_left)) digits_i digits_f some_digit =
    let empty_f : is_empty f ≡ true = ap is_empty none_left in
    (
      rw same (ground (arith, some_digit, empty_f)),
      rw same (only_digits i digits_i),
      rw (same, split_once-none i (digits_no_dot i digits_i), none_left) refl,
    )
Spells-split a i f (inr same) digits_i digits_f some_digit = (
  rw same (nonempty_dot i),
  rw same (digits_plain i (46 ∷ f) digits_i (only_digits f digits_f)),
  rw same (ap (parts (i ++ 46 ∷ f)) (split_once-dot i f (digits_no_dot i digits_i))),
)
  where
    nonempty_dot : (s : Text) → is_empty (s ++ 46 ∷ f) ≡ false
    nonempty_dot [] = refl
    nonempty_dot (b ∷ s) = refl

-- An amount is read as `v` exactly when it is digits with at most one dot and no more places than
-- `decimals`, which are 77 at most, and is worth `v` of the smallest unit, a 256-bit number.
pub parse_units_iff :
    (from_decimal : Text → Option U256) (amount : Text) (decimals v : ℕ)
    → ReadsDecimal from_decimal
    → (parse_units from_decimal amount decimals ≡ ok v) ↔ IsAmount amount decimals v
unfolding parse_units
parse_units_iff from_decimal amount decimals v reads = (there, back)
  where
    there : parse_units from_decimal amount decimals ≡ ok v → IsAmount amount decimals v
    there h =
        let (in_range, h1) = passes (ltb 77 decimals) _ _ v h in
        let (_, h2) = passes (is_empty amount) _ _ v h1 in
        let (_, h3) = passes (starts_with amount (codes "-")) _ _ v h2 in
        let (_, h4) = passes (starts_with amount (codes "+")) _ _ v h3 in
        let (_, h5) =
          passes (starts_with amount (codes "0x") || starts_with amount (codes "0X")) _ _ v h4 in
        let p = parts amount (split_once amount 46) in
        let (_, h6) = passes (any (λ b. nat_beq b 46) p.1) _ _ v h5 in
        let (digits_i, digits_f, some_digit, le, same, small) =
          parse_parts-ok from_decimal reads p.0 p.1 decimals v h6 in
        (
          ground (arith, in_range),
          (
            p.0,
            p.1,
            spelled amount (split_once amount 46) refl,
            digits_i,
            digits_f,
            some_digit,
            le,
            same,
          ),
          small,
        )

    back : IsAmount amount decimals v → parse_units from_decimal amount decimals ≡ ok v
    back (in_range, (i, f, shape, digits_i, digits_f, some_digit, le, same), small) =
        let (nonempty, plain, split) = Spells-split amount i f shape digits_i digits_f some_digit in
        let (no_minus, no_plus, no_hex) = plain_start amount plain in
        let below : ltb 77 decimals ≡ false = ground (arith, in_range) in
        let read =
          parse_parts-reads from_decimal reads i f decimals digits_i digits_f some_digit le
            (rw⁻¹ same small) in
        rw (below, nonempty, no_minus, no_plus, no_hex, split, digits_no_dot f digits_f, read, same)
          refl
