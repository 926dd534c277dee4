-- ===== src/Policy/Load.antt =====
-- crates/executor-policy/src/load.rs: `resolve`, from the parsed file to the policy that the
-- evaluator reads.
use onchain_strategy_mcp.Prelude.{
  ℕ, Bool, not, Option, none, some, List, [], ◌∷◌, ltb, Eq, ◌*◌, all, nat_eq,
}
use onchain_strategy_mcp.Prelude.Text.{Text, split_once}
use onchain_strategy_mcp.Prelude.Map.{contains_key, insert}
use onchain_strategy_mcp.Prelude.Result.{Result, ok, err, ◌>>=◌, ◌>>◌, guard, collect}
use onchain_strategy_mcp.Alloy.{Alloy, Address}
use onchain_strategy_mcp.Policy.Model.{
  ChainContract, chain_contract, chain_contract_eq, RawCallAllowResolved, LoadedPolicy,
}
use onchain_strategy_mcp.Policy.Config.{
  PolicyConfig, RawCallAllowEntry, PolicyError, io, file_not_found, config, validation_error,
  Category, chain_missing_contracts_subtable, bad_selector_key, bad_erc20_spend_key, toml_parse,
  size_exceeds_cap, parse_chain_id, parse_address_lenient, parse_u256_decimal,
  parse_selector_pattern,
}

module _ {K V W : Type 0} ⦃e : Eq K⦄ where
  -- The loop over one section of the file: a key and a value of the file become a key and a value
  -- of the policy, and the last entry with a key stays.
  unfoldable pub insert_all :
      (Text → Result PolicyError K)
      → (V → Result PolicyError W)
      → List (Text × V)
      → List (K × W)
      → Result PolicyError (List (K × W))
  insert_all key value [] m = ok m
  insert_all key value ((k, v) ∷ rest) m = do
    k' ← key k
    w ← value v
    insert_all key value rest (insert m k' w)

-- `split_once(':')`, then the chain and the address.
abbrev pub pair_or : Category → Option (Text × Text) → Result PolicyError (Text × Text)
pair_or c none = err (validation_error c)
pair_or c (some p) = ok p

module _ (alloy : Alloy) where
  unfoldable pub parse_key : Category → Text → Result PolicyError ChainContract
  parse_key c key = do
    parts ← pair_or c (split_once key 58)
    chain_id ← parse_chain_id parts.0
    addr ← parse_address_lenient alloy parts.1
    ok (chain_contract chain_id addr)

  -- P-10: every allowed chain has a section of contracts.
  abbrev pub has_subtables : List ℕ → List (ℕ × List Address) → Bool
  has_subtables chains m = all (λ c. contains_key m c) chains

  unfoldable pub resolve_entry : RawCallAllowEntry → Result PolicyError RawCallAllowResolved
  resolve_entry e = do
    contract ← parse_address_lenient alloy e.contract
    selector ← parse_selector_pattern e.selector
    ok record { chain = e.chain; contract = contract; selector = selector }

  -- The last step: the sections are put together.
  abbrev pub assemble : PolicyConfig → List (ℕ × List Address) → Result PolicyError LoadedPolicy
  assemble cfg contracts = do
    selectors ←
        insert_all (parse_key bad_selector_key) (collect parse_selector_pattern) cfg.selectors []
    native ← insert_all parse_chain_id (parse_u256_decimal alloy) cfg.native_value []
    erc20 ← insert_all (parse_key bad_erc20_spend_key) (parse_u256_decimal alloy) cfg.erc20_spend []
    raw ← collect resolve_entry cfg.raw_call.allow
    ok record {
      chains_allow = cfg.chains_allow;
      contracts_by_chain = contracts;
      selectors_by_chain_contract = selectors;
      native_value_by_chain = native;
      erc20_spend_by_chain_token = erc20;
      raw_call_allow_global = cfg.raw_call.allow_global;
      raw_call_allow = raw;
    }

  unfoldable pub resolve : PolicyConfig → Result PolicyError LoadedPolicy
  resolve cfg = do
    contracts ← insert_all parse_chain_id (collect (parse_address_lenient alloy)) cfg.contracts []
    guard (has_subtables cfg.chains_allow contracts)
        (validation_error chain_missing_contracts_subtable)
    assemble cfg contracts

  -- The file as the loader sees it; reading it and its TOML syntax belong to other libraries.
  pub record PolicyFile : Type 0 where
    pub exists : Bool
    pub metadata_len : Option ℕ
    pub contents : Option Text

  abbrev pub max_policy_file_bytes : ℕ
  max_policy_file_bytes = 1024 * 1024

  abbrev pub or_error : {A : Type 0} → PolicyError → Option A → Result PolicyError A
  or_error e none = err e
  or_error e (some a) = ok a

  module _ (from_toml : Text → Option PolicyConfig) where
    unfoldable pub parse_policy_str : Text → Result PolicyError LoadedPolicy
    parse_policy_str raw = or_error (config toml_parse) (from_toml raw) >>= resolve

    unfoldable pub load_policy_from_path : PolicyFile → Result PolicyError LoadedPolicy
    load_policy_from_path file = do
      guard file.exists file_not_found
      len ← or_error io file.metadata_len
      guard (not (ltb max_policy_file_bytes len)) (config size_exceeds_cap)
      raw ← or_error io file.contents
      parse_policy_str raw
