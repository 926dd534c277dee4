-- ===== src/Policy/Loaded.antt =====
-- What `resolve` guarantees of the policy that it returns.
use onchain_strategy_mcp.Prelude.{
  ℕ, true, none, some, List, [], ◌∷◌, ◌≡◌, ◌⊎◌, inl, inr, arith, Eq, nat_eq, ◌==◌, Exists,
  Bool-cases, All,
}
use onchain_strategy_mcp.Prelude.Text.{Text}
use onchain_strategy_mcp.Prelude.Map.{get, contains_key, insert, get-insert}
use onchain_strategy_mcp.Prelude.Result.{
  Result, ok, ◌>>=◌, ◌>>◌, guard, collect, collect_inverse, bind_ok, guard_ok,
}
use onchain_strategy_mcp.Alloy.{Alloy, Address, U256}
use onchain_strategy_mcp.Policy.Model.{
  SelectorPattern, ChainContract, chain_contract_eq, LoadedPolicy,
}
use onchain_strategy_mcp.Policy.Config.{
  PolicyConfig, PolicyError, validation_error, chain_missing_contracts_subtable, bad_selector_key,
  bad_erc20_spend_key, parse_chain_id, parse_address_lenient, parse_u256_decimal,
  parse_selector_pattern,
}
use onchain_strategy_mcp.State.Keys.{All-map}
use onchain_strategy_mcp.Policy.Load.{
  insert_all, parse_key, has_subtables, resolve_entry, assemble, resolve,
}

module _ {K V W : Type 0} ⦃e : Eq K⦄ (key : Text → Result PolicyError K)
    (value : V → Result PolicyError W) where
  -- An entry of the file that says `w` for `k`.
  abbrev pub Says : K → W → Text × V → Type 0
  Says k w entry = (key entry.0 ≡ ok k) × (value entry.1 ≡ ok w)

  insert_all-get :
      (es : List (Text × V)) (m : List (K × W)) {m' : List (K × W)} (k : K) (w : W)
      → insert_all key value es m ≡ ok m'
      → get m' k ≡ some w
      → (get m k ≡ some w) ⊎ Exists (Says k w) es
  unfolding insert_all
  insert_all-get [] m k w h found = inl (cc (h, found))
  insert_all-get ((s, v) ∷ es) m k w h found =
      let (j, is_key, h1) =
        bind_ok (key s) (λ k'. value v >>= λ x. insert_all key value es (insert m k' x)) h in
      let (x, is_value, h2) = bind_ok (value v) (λ x. insert_all key value es (insert m j x)) h1 in
      elim (insert_all-get es (insert m j x) k w h2 found) [
        | inr later ↦ inr (inr later)
        | inl here ↦ elim (Bool-cases (j == k)) [
          | inl same ↦
              let e_key : j ≡ k = (e.decides j k).0 same in
              let e_val : some x ≡ some w = rw same at (rw (get-insert m j k x) at here) in
              inr (inl (cc (is_key, e_key), cc (is_value, e_val)))
          | inr other ↦ inl (rw other at (rw (get-insert m j k x) at here))
        ]
      ]

  from_file :
      (es : List (Text × V)) {m' : List (K × W)} (k : K) (w : W)
      → insert_all key value es [] ≡ ok m'
      → get m' k ≡ some w
      → Exists (Says k w) es
  from_file es k w h found = elim (insert_all-get es [] k w h found) [
    | inr entry ↦ entry
    | inl nothing ↦ absurd (none≢some nothing)
  ]
    where
      none≢some : {w : W} → none ≡ some w → ⊥
      none≢some q = cc

module _ (alloy : Alloy) where
  has_subtables-All :
      (chains : List ℕ) (m : List (ℕ × List Address))
      → has_subtables alloy chains m ≡ true
      → All (λ c. contains_key m c ≡ true) chains
  has_subtables-All [] m h = tt
  has_subtables-All (c ∷ cs) m h = (ground (arith, h), has_subtables-All cs m (ground (arith, h)))

  -- The sections of the result are those of the file, read one by one.
  assemble-ok :
      (cfg : PolicyConfig) (contracts : List (ℕ × List Address)) {p : LoadedPolicy}
      → assemble alloy cfg contracts ≡ ok p
      → (insert_all
            (parse_key alloy bad_selector_key)
            (collect parse_selector_pattern)
            cfg.selectors
            []
          ≡ ok p.selectors_by_chain_contract)
        × (insert_all parse_chain_id (parse_u256_decimal alloy) cfg.native_value []
            ≡ ok p.native_value_by_chain)
        × (insert_all
              (parse_key alloy bad_erc20_spend_key)
              (parse_u256_decimal alloy)
              cfg.erc20_spend
              []
            ≡ ok p.erc20_spend_by_chain_token)
        × (collect (resolve_entry alloy) cfg.raw_call.allow ≡ ok p.raw_call_allow)
        × (p.contracts_by_chain ≡ contracts)
        × (p.chains_allow ≡ cfg.chains_allow)
        × (p.raw_call_allow_global ≡ cfg.raw_call.allow_global)
  assemble-ok cfg contracts h = (
    ground (arith, h),
    ground (arith, h),
    ground (arith, h),
    ground (arith, h),
    ground (arith, h),
    ground (arith, h),
    ground (arith, h),
  )

  resolve-parts :
      (cfg : PolicyConfig) {p : LoadedPolicy}
      → resolve alloy cfg ≡ ok p
      → (insert_all parse_chain_id (collect (parse_address_lenient alloy)) cfg.contracts []
          ≡ ok p.contracts_by_chain)
        × (has_subtables alloy p.chains_allow p.contracts_by_chain ≡ true)
        × (m : List (ℕ × List Address)) × (assemble alloy cfg m ≡ ok p)
  unfolding resolve
  resolve-parts cfg {p} h =
      let (m, contracts, h1) =
        bind_ok (insert_all parse_chain_id (collect (parse_address_lenient alloy)) cfg.contracts [])
          (λ m.
            guard (has_subtables alloy cfg.chains_allow m)
              (validation_error chain_missing_contracts_subtable)
            >> assemble alloy cfg m)
          h in
      let (u, covered, h2) =
        bind_ok
          (guard (has_subtables alloy cfg.chains_allow m)
            (validation_error chain_missing_contracts_subtable))
          (λ _. assemble alloy cfg m) h1 in
      let (_, _, _, _, same, chains, _) = assemble-ok cfg m h2 in
      (
        rw same contracts,
        rw (same, chains) (guard_ok (has_subtables alloy cfg.chains_allow m) _ covered),
        m,
        h2,
      )

  -- P-10: in a policy that was loaded, every allowed chain has a list of contracts, and the allowed
  -- chains are those of the file.
  pub resolve-subtables :
      (cfg : PolicyConfig) (p : LoadedPolicy)
      → resolve alloy cfg ≡ ok p
      → (p.chains_allow ≡ cfg.chains_allow)
        × All (λ c. contains_key p.contracts_by_chain c ≡ true) p.chains_allow
  resolve-subtables cfg p h =
      let (contracts, covered, m, assembled) = resolve-parts cfg h in
      let (_, _, _, _, _, chains, _) = assemble-ok cfg m assembled in
      (chains, has_subtables-All p.chains_allow p.contracts_by_chain covered)

  collect-from :
      {A B : Type 0} (f : A → Result PolicyError B) (xs : List A) (ys : List B)
      → collect f xs ≡ ok ys
      → All (λ y. Exists (λ x. f x ≡ ok y) xs) ys
  collect-from f xs [] h = tt
  collect-from f [] (y ∷ ys) h = absurd (cc h)
  collect-from f (x ∷ xs) (y ∷ ys) h =
      let (first, rest) = collect_inverse f x xs y ys h in
      (
        inl first,
        All-map (λ z. Exists (λ w. f w ≡ ok z) xs) (λ z. Exists (λ w. f w ≡ ok z) (x ∷ xs)) ys
            (λ z found. inr found) (collect-from f xs ys rest),
      )

  -- Nothing is granted that the file does not say: every list of contracts or selectors and every cap
  -- of the loaded policy comes from an entry of the file whose key and value parse to it, every entry
  -- of the list of raw calls from an entry of that list that resolves to it, and the allowed chains
  -- and the switch for all raw calls are those of the file.
  pub resolve-granted :
      (cfg : PolicyConfig) (p : LoadedPolicy)
      → resolve alloy cfg ≡ ok p
      → ((c : ℕ) (l : List Address)
          → get p.contracts_by_chain c ≡ some l
          → Exists (Says parse_chain_id (collect (parse_address_lenient alloy)) c l) cfg.contracts)
        × ((k : ChainContract) (l : List SelectorPattern)
            → get p.selectors_by_chain_contract k ≡ some l
            → Exists
                (Says (parse_key alloy bad_selector_key) (collect parse_selector_pattern) k l)
                cfg.selectors)
        × ((c : ℕ) (v : U256)
            → get p.native_value_by_chain c ≡ some v
            → Exists (Says parse_chain_id (parse_u256_decimal alloy) c v) cfg.native_value)
        × ((k : ChainContract) (v : U256)
            → get p.erc20_spend_by_chain_token k ≡ some v
            → Exists
                (Says (parse_key alloy bad_erc20_spend_key) (parse_u256_decimal alloy) k v)
                cfg.erc20_spend)
        × All
            (λ x. Exists (λ entry. resolve_entry alloy entry ≡ ok x) cfg.raw_call.allow)
            p.raw_call_allow
        × (p.chains_allow ≡ cfg.chains_allow)
        × (p.raw_call_allow_global ≡ cfg.raw_call.allow_global)
  resolve-granted cfg p h =
      let (contracts, covered, m, assembled) = resolve-parts cfg h in
      let (selectors, native, erc20, raw, _, chains, global) = assemble-ok cfg m assembled in
      (
        (λ c l found. from_file _ _ cfg.contracts c l contracts found),
        (λ k l found. from_file _ _ cfg.selectors k l selectors found),
        (λ c v found. from_file _ _ cfg.native_value c v native found),
        (λ k v found. from_file _ _ cfg.erc20_spend k v erc20 found),
        collect-from (resolve_entry alloy) cfg.raw_call.allow p.raw_call_allow raw,
        chains,
        global,
      )
