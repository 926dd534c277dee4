-- ===== src/Evm/Units/RoundTrip.antt =====
-- An amount that is printed is read back.
use onchain_strategy_mcp.Prelude.{
  ℕ, zero, suc, ◌-◌, ◌^◌, ◌≤◌, ◌<◌, false, Option, [], ◌∷◌, ◌++◌, ◌≡◌, refl, sym, ap, ◌∙◌, inl, inr,
  ltb, leb, nat_beq, nat_beq_iff, leb→le, subst, length, length-append, replicate, take, arith,
  Bool-cases,
}
use onchain_strategy_mcp.Prelude.Text.{Text}
use onchain_strategy_mcp.Prelude.Result.{ok, ◌>>=◌}
use onchain_strategy_mcp.Alloy.{U256}
use onchain_strategy_mcp.Evm.Units.{
  is_empty, or_zero, combined, parse_units, format_units, split_digits, join_parts, trim_end_zeros,
}
use onchain_strategy_mcp.Evm.Units.Digits.{
  value_from, value, AreDigits, AreDigits-append, AreDigits-zeros, value-append, value-zeros,
  trim_end_zeros-restore, length-trim_end_zeros, AreDigits-trim_end_zeros, take-drop,
  AreDigits-take, AreDigits-drop, length-drop, length-replicate,
}
use onchain_strategy_mcp.Evm.Units.Value.{
  ReadsDecimal, Spells, worth, IsAmount, value-combined, parse_units_iff,
}

-- The documented behaviour of `U256::to_string` at one number: its digits.
abbrev pub Prints : (U256 → Text) → U256 → Type 0
Prints to_string v =
    AreDigits (to_string v) × (is_empty (to_string v) ≡ false) × (value (to_string v) ≡ v)

-- The two parts are digits, the second has `decimals` of them, and they are worth the number.
abbrev Splits : Text → Text → ℕ → ℕ → Type 0
Splits i f d v =
    AreDigits i × AreDigits f × (is_empty i ≡ false) × (length f ≡ d) × (value (i ++ f) ≡ v)

take-nonempty : (n : ℕ) (s : Text) → 0 < n → n ≤ length s → is_empty (take n s) ≡ false
take-nonempty zero s h k = absurd (omega (arith, h))
take-nonempty (suc n) [] h k = absurd (omega (arith, k))
take-nonempty (suc n) (b ∷ s) h k = refl

split_digits-Splits :
    (s : Text) (d : ℕ)
    → 0 < d
    → AreDigits s
    → Splits (split_digits s d).0 (split_digits s d).1 d (value s)
split_digits-Splits s d positive digits = elim (Bool-cases (leb (length s) d)) [
  | inl short ↦
      (let n = d - length s in
        rw short (
          refl,
          AreDigits-append (replicate n 48) s (AreDigits-zeros n) digits,
          refl,
          omega (
            arith,
            length-append (replicate n 48) s,
            length-replicate n 48,
            leb→le (length s) d short,
          ),
          value-append 0 (replicate n 48) s
              ∙ ap (λ k. value_from k s) (value-zeros 0 n ∙ omega arith),
        ))
  | inr long ↦
      (let beyond : d < length s = ground (arith, long) in
        let n = length s - d in
        rw long (
          AreDigits-take n s digits,
          AreDigits-drop n s digits,
          take-nonempty n s (omega (arith, beyond)) (omega (arith, beyond)),
          length-drop n s (omega (arith, beyond)) ∙ omega (arith, beyond),
          ap value (take-drop n s),
        ))
]

join_parts-Spells : (i g : Text) → Spells (join_parts i g) i g
join_parts-Spells i [] = inl (refl, refl)
join_parts-Spells i (b ∷ g) = inr refl

or_zero-nonempty : (i : Text) → is_empty i ≡ false → or_zero i ≡ i
or_zero-nonempty [] h = absurd (cc h)
or_zero-nonempty (b ∷ i) h = refl

-- The zeros that were trimmed do not count.
trimmed-worth : (i f : Text) (d v : ℕ) → Splits i f d v → v ≡ worth i (trim_end_zeros f) d
trimmed-worth i f d v (_, _, nonempty, long, total) =
    let g = trim_end_zeros f in
    let le : length g ≤ d = omega (arith, long, length-trim_end_zeros f) in
    let restored : g ++ replicate (d - length g) 48 ≡ f =
      ap (λ k. g ++ replicate (k - length g) 48) (sym long) ∙ trim_end_zeros-restore f in
    let whole : combined i g d ≡ i ++ f = rw (or_zero-nonempty i nonempty, restored) refl in
    sym total ∙ ap value (sym whole) ∙ value-combined i g d le

joined-IsAmount :
    (i f : Text) (d v : ℕ)
    → Splits i f d v
    → d ≤ 77
    → v < 2 ^ 256
    → IsAmount (join_parts i (trim_end_zeros f)) d v
joined-IsAmount i f d v h in_range small =
    let g = trim_end_zeros f in
    (
      in_range,
      (
        i,
        g,
        join_parts-Spells i g,
        h.0,
        AreDigits-trim_end_zeros f h.1,
        rw h.2 refl,
        omega (arith, h.3, length-trim_end_zeros f),
        trimmed-worth i f d v h,
      ),
      small,
    )

plain-IsAmount :
    (s : Text) (v : ℕ)
    → AreDigits s
    → is_empty s ≡ false
    → value s ≡ v
    → v < 2 ^ 256
    → IsAmount s 0 v
plain-IsAmount s v digits nonempty total small = (
  omega arith,
  (s, [], inl (refl, refl), digits, refl, rw nonempty refl, omega arith, sym total ∙ omega arith),
  small,
)

-- An amount of the smallest unit, printed with up to 77 places, is read back as itself.
pub parse_units-format_units :
    (from_decimal : Text → Option U256) (to_string : U256 → Text) (v decimals : ℕ)
    → ReadsDecimal from_decimal
    → Prints to_string v
    → decimals ≤ 77
    → v < 2 ^ 256
    → (format_units to_string v decimals >>= λ s. parse_units from_decimal s decimals) ≡ ok v
unfolding format_units
parse_units-format_units from_decimal to_string v decimals reads prints in_range small =
    let below : ltb 77 decimals ≡ false = ground (arith, in_range) in
    elim (Bool-cases (nat_beq decimals 0)) [
      | inl none_left ↦
          (let same = (nat_beq_iff decimals 0).0 none_left in
            rw (below, none_left)
              ((parse_units_iff from_decimal (to_string v) decimals v reads).1
                (rw same (plain-IsAmount (to_string v) v prints.0 prints.1 prints.2 small))))
      | inr some_left ↦
          (let p = split_digits (to_string v) decimals in
            let split : Splits p.0 p.1 decimals v =
              subst (Splits p.0 p.1 decimals) prints.2
                (split_digits-Splits (to_string v) decimals (ground (arith, some_left)) prints.0) in
            rw (below, some_left)
              ((parse_units_iff from_decimal (join_parts p.0 (trim_end_zeros p.1)) decimals v
                  reads).1
                (joined-IsAmount p.0 p.1 decimals v split in_range small)))
    ]
