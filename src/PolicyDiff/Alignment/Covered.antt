-- ===== src/PolicyDiff/Alignment/Covered.antt =====
-- When one contract is covered by a policy.
use onchain_strategy_mcp.Prelude.{
  Bool, true, false, Option, none, some, List, [], ◌∷◌, ◌++◌, ◌≡◌, refl, ◌∙◌, ap, ◌↔◌, any, inl,
  inr, subst, All, arith, Bool-cases, ◌==◌,
}
use onchain_strategy_mcp.Prelude.Text.{Text, codes, text_eq, eq_ignore_ascii_case, split_once}
use onchain_strategy_mcp.Prelude.Json.{Json}
use onchain_strategy_mcp.PolicyDiff.{allowed, section_keys}
use onchain_strategy_mcp.PolicyDiff.Alignment.{
  lowercase, first_chain, is_pair, or_later, selector_entry, covered, entry_coverage,
  chain_coverage, coverage,
}

-- The policy has the contract, in some letters, in the list of a chain.
abbrev pub lists_contract : Json → Text → Text → Bool
lists_contract policy addr chain =
    any (λ a. lowercase a == lowercase addr) (allowed (codes "contracts") policy chain)

-- The selectors of an entry have the word `any`.
abbrev pub has_any : Json → Text → Bool
has_any policy key =
    any (λ s. eq_ignore_ascii_case s (codes "any")) (allowed (codes "selectors") policy key)

-- An entry of the selectors is for the contract on the chain.
abbrev pub is_entry : Text → Text → Text → Bool
is_entry chain addr key = is_pair chain (lowercase addr) (split_once key 58)

-- `x` is in the list, passes the test, and nothing before it does.
abbrev pub IsFirst : {A : Type 0} → (A → Bool) → List A → A → Type 0
IsFirst {A} p l x =
    (before after : List A) × (l ≡ before ++ x ∷ after)
    × (p x ≡ true)
    × All (λ y. p y ≡ false) before

-- `x` is in the list, passes the test, and nothing after it does.
abbrev pub IsLast : {A : Type 0} → (A → Bool) → List A → A → Type 0
IsLast {A} p l x =
    (before after : List A) × (l ≡ before ++ x ∷ after)
    × (p x ≡ true)
    × All (λ y. p y ≡ false) after

-- A chain lists the contract, and the last entry for it on the first such chain has `any`.
abbrev pub IsCovered : Json → Text → Type 0
IsCovered policy addr =
    (chain key : Text) × IsFirst (lists_contract policy addr)
      (section_keys (codes "contracts") policy) chain
    × IsLast (is_entry chain addr) (section_keys (codes "selectors") policy) key
    × (has_any policy key ≡ true)

module _ (policy : Json) (addr : Text) where
  first_chain-some :
      (ks : List Text) (chain : Text)
      → first_chain policy (lowercase addr) ks ≡ some chain
      → IsFirst (lists_contract policy addr) ks chain
  first_chain-some [] chain h = absurd (cc h)
  first_chain-some (k ∷ ks) chain h = elim (Bool-cases (lists_contract policy addr k)) [
    | inl here ↦
        (let found : some k ≡ some chain = rw here at h in
          let same : k ≡ chain = cc found in
          subst (IsFirst (lists_contract policy addr) (k ∷ ks)) same ([], ks, refl, here, tt))
    | inr other ↦
        (let (before, after, exact, there, none_before) =
            first_chain-some ks chain (rw other at h) in
          (k ∷ before, after, ap (λ l. k ∷ l) exact, there, (other, none_before)))
  ]

  first_chain-found :
      (before after : List Text) (chain : Text)
      → lists_contract policy addr chain ≡ true
      → All (λ k. lists_contract policy addr k ≡ false) before
      → first_chain policy (lowercase addr) (before ++ chain ∷ after) ≡ some chain
  first_chain-found [] after chain here none_before = rw here refl
  first_chain-found (k ∷ before) after chain here (miss, none_before) =
      rw miss (first_chain-found before after chain here none_before)

  module _ (chain : Text) where
    abbrev entry : List Text → Option Bool
    entry ks = selector_entry policy chain (lowercase addr) ks

    entry-none : (ks : List Text) → All (λ k. is_entry chain addr k ≡ false) ks → entry ks ≡ none
    entry-none [] h = refl
    entry-none (k ∷ ks) (miss, h) = rw (entry-none ks h, miss) refl

    none-entry : (ks : List Text) → entry ks ≡ none → All (λ k. is_entry chain addr k ≡ false) ks
    none-entry [] h = tt
    none-entry (k ∷ ks) h = go (entry ks) refl h (none-entry ks)
      where
        go :
            (o : Option Bool)
            → entry ks ≡ o
            → or_later o (is_entry chain addr k) (has_any policy k) ≡ none
            → (entry ks ≡ none → All (λ j. is_entry chain addr j ≡ false) ks)
            → All (λ j. is_entry chain addr j ≡ false) (k ∷ ks)
        go (some b) q h' rest = absurd (cc h')
        go none q h' rest = (ground (arith, h'), rest q)

    entry-some :
        (ks : List Text) (b : Bool)
        → entry ks ≡ some b
        → (key : Text) × IsLast (is_entry chain addr) ks key × (has_any policy key ≡ b)
    entry-some [] b h = absurd (cc h)
    entry-some (k ∷ ks) b h = go (entry ks) refl h (entry-some ks b)
      where
        go :
            (o : Option Bool)
            → entry ks ≡ o
            → or_later o (is_entry chain addr k) (has_any policy k) ≡ some b
            → (entry ks ≡ some b
                → (key : Text) × IsLast (is_entry chain addr) ks key × (has_any policy key ≡ b))
            → (key : Text) × IsLast (is_entry chain addr) (k ∷ ks) key × (has_any policy key ≡ b)
        go (some c) q h' rest =
            let (key, (before, after, exact, there, last), word) = rest (q ∙ h') in
            (key, (k ∷ before, after, ap (λ l. k ∷ l) exact, there, last), word)
        go none q h' rest = elim (Bool-cases (is_entry chain addr k)) [
          | inl here ↦
              (let found : some (has_any policy k) ≡ some b = rw here at h' in
                (k, ([], ks, refl, here, none-entry ks q), cc found))
          | inr other ↦ (let lost : none ≡ some b = rw other at h' in absurd (cc lost))
        ]

    entry-found :
        (before after : List Text) (key : Text)
        → is_entry chain addr key ≡ true
        → All (λ k. is_entry chain addr k ≡ false) after
        → entry (before ++ key ∷ after) ≡ some (has_any policy key)
    entry-found [] after key here none_after = rw (entry-none after none_after, here) refl
    entry-found (k ∷ before) after key here none_after =
        rw (entry-found before after key here none_after) refl

  -- The verdict of the code on one contract.
  pub coverage_iff : (coverage policy addr ≡ covered) ↔ IsCovered policy addr
  unfolding coverage
  coverage_iff = (to_spec, from_spec)
    where
      entered : (chain : Text) (o : Option Bool) → entry_coverage o ≡ covered → o ≡ some true
      entered chain none h = absurd (cc h)
      entered chain (some true) h = refl
      entered chain (some false) h = absurd (cc h)

      on_chain :
          (o : Option Text)
          → first_chain policy (lowercase addr) (section_keys (codes "contracts") policy) ≡ o
          → chain_coverage policy (lowercase addr) o ≡ covered
          → IsCovered policy addr
      on_chain none q h = absurd (cc h)
      on_chain (some chain) q h =
          let ks = section_keys (codes "selectors") policy in
          let (key, last, word) = entry-some chain ks true (entered chain (entry chain ks) h) in
          (
            chain,
            key,
            first_chain-some (section_keys (codes "contracts") policy) chain q,
            last,
            word,
          )

      to_spec : coverage policy addr ≡ covered → IsCovered policy addr
      to_spec h =
          on_chain (first_chain policy (lowercase addr) (section_keys (codes "contracts") policy))
            refl h

      from_spec : IsCovered policy addr → coverage policy addr ≡ covered
      from_spec
            (
              chain,
              key,
              (before, after, exact, there, none_before),
              (before', after', exact', there', none_after),
              word,
            ) =
          let first =
            ap (first_chain policy (lowercase addr)) exact
            ∙ first_chain-found before after chain there none_before in
          let found =
            ap (entry chain) exact'
            ∙ entry-found chain before' after' key there' none_after
            ∙ ap some word in
          ap (chain_coverage policy (lowercase addr)) first ∙ ap entry_coverage found
