-- ===== src/PolicyDiff/Patch/Pointers.antt =====
-- A pointer names one place only.
use onchain_strategy_mcp.Prelude.{
  ℕ, List, [], ◌∷◌, ◌++◌, ◌≡◌, ◌≢◌, refl, sym, ◌∙◌, arith, Bool-cases, inl, inr, All, nat_beq,
  if◌then◌else◌, ◌⊎◌,
}
use onchain_strategy_mcp.Prelude.Text.{Text}
use onchain_strategy_mcp.PolicyDiff.Patch.{escape_pointer_token}
use onchain_strategy_mcp.PolicyDiff.Patch.Truthful.{pointer}

escape-cons :
    (c : ℕ) (t : Text)
    → escape_pointer_token (c ∷ t) ≡ (
        if nat_beq c 126
        then 126 ∷ 48 ∷ escape_pointer_token t
        else if nat_beq c 47
        then 126 ∷ 49 ∷ escape_pointer_token t
        else c ∷ escape_pointer_token t)
unfolding escape_pointer_token
escape-cons c t = elim (Bool-cases (nat_beq c 126)) [
  | inl tilde ↦ rw tilde refl
  | inr other ↦ elim (Bool-cases (nat_beq c 47)) [
    | inl slash ↦ rw (other, slash) refl
    | inr plain ↦ rw (other, plain) refl
  ]
]

abbrev NoSlash : Text → Type 0
NoSlash t = All (λ c. c ≢ 47) t

escape-NoSlash : (t : Text) → NoSlash (escape_pointer_token t)
unfolding escape_pointer_token
escape-NoSlash [] = tt
escape-NoSlash (c ∷ t) =
    let rest = escape-NoSlash t in
    rw (escape-cons c t) (elim (Bool-cases (nat_beq c 126)) [
      | inl tilde ↦ rw tilde (omega arith, (omega arith, rest))
      | inr other ↦ elim (Bool-cases (nat_beq c 47)) [
        | inl slash ↦ rw (other, slash) (omega arith, (omega arith, rest))
        | inr plain ↦ rw (other, plain) (ground arith, rest)
      ]
    ])

escape_nothing : escape_pointer_token [] ≡ []
unfolding escape_pointer_token
escape_nothing = refl

escape-nonempty : (c : ℕ) (t : Text) → escape_pointer_token (c ∷ t) ≢ []
escape-nonempty c t h = ground (arith, h, escape-cons c t)

same_first :
    (c d : ℕ) (t u : Text)
    → (escape_pointer_token t ≡ escape_pointer_token u → t ≡ u)
    → (if nat_beq c 126
        then 126 ∷ 48 ∷ escape_pointer_token t
        else if nat_beq c 47
        then 126 ∷ 49 ∷ escape_pointer_token t
        else c ∷ escape_pointer_token t)
      ≡ (if nat_beq d 126
          then 126 ∷ 48 ∷ escape_pointer_token u
          else if nat_beq d 47
          then 126 ∷ 49 ∷ escape_pointer_token u
          else d ∷ escape_pointer_token u)
    → (c ∷ t) ≡ (d ∷ u)
same_first c d t u rest h = ground arith

escape-injective : (t u : Text) → escape_pointer_token t ≡ escape_pointer_token u → t ≡ u
escape-injective [] [] h = refl
escape-injective [] (d ∷ u) h = absurd (escape-nonempty d u (sym h ∙ escape_nothing))
escape-injective (c ∷ t) [] h = absurd (escape-nonempty c t (h ∙ escape_nothing))
escape-injective (c ∷ t) (d ∷ u) h =
    same_first c d t u (escape-injective t u) (sym (escape-cons c t) ∙ h ∙ escape-cons d u)

-- Either nothing, or a slash first.
abbrev StartsToken : Text → Type 0
StartsToken t = (t ≡ []) ⊎ ((r : Text) × (t ≡ 47 ∷ r))

pointer-StartsToken : (ks : List Text) → StartsToken (pointer ks)
pointer-StartsToken [] = inl refl
pointer-StartsToken (k ∷ ks) = inr (escape_pointer_token k ++ pointer ks, refl)

-- The first token of a pointer ends at the next slash.
token_split :
    (t u p q : Text)
    → NoSlash t
    → NoSlash u
    → StartsToken p
    → StartsToken q
    → t ++ p ≡ u ++ q
    → (t ≡ u) × (p ≡ q)
token_split [] [] p q nt nu sp sq h = (refl, h)
token_split [] (y ∷ u) p q nt nu sp sq h = elim sp [
  | inl e ↦ absurd (cc (h, e))
  | inr (r, e) ↦ absurd (nu.0 (cc (h, e)))
]
token_split (x ∷ t) [] p q nt nu sp sq h = elim sq [
  | inl e ↦ absurd (cc (h, e))
  | inr (r, e) ↦ absurd (nt.0 (cc (h, e)))
]
token_split (x ∷ t) (y ∷ u) p q nt nu sp sq h =
    let (rest, after) = token_split t u p q nt.1 nu.1 sp sq (cc h) in
    let first : x ≡ y = cc h in (cc (first, rest), after)

-- Two places with the same pointer are the same place.
pub pointer-injective : (ks ls : List Text) → pointer ks ≡ pointer ls → ks ≡ ls
pointer-injective [] [] h = refl
pointer-injective [] (l ∷ ls) h = cc h
pointer-injective (k ∷ ks) [] h = cc h
pointer-injective (k ∷ ks) (l ∷ ls) h =
    let (token, rest) =
      token_split (escape_pointer_token k) (escape_pointer_token l) (pointer ks) (pointer ls)
        (escape-NoSlash k) (escape-NoSlash l) (pointer-StartsToken ks) (pointer-StartsToken ls)
        (cc h) in
    let same : ks ≡ ls = pointer-injective ks ls rest in cc (escape-injective k l token, same)
