-- ===== src/Policy/Model.antt =====
-- crates/executor-policy/src/model.rs and decision.rs: the resolved policy, its six lookups, and
-- what the evaluator takes and returns.
use onchain_strategy_mcp.Prelude.{
  ℕ, Bool, true, false, not, ◌&&◌, ◌||◌, Option, none, some, List, [], ◌≡◌, ◌↔◌, arith, nat_beq, Eq,
  ◌==◌, if◌then◌else◌, any, contains, unwrap_or, nat_eq,
}
use onchain_strategy_mcp.Prelude.Map.{get}
use onchain_strategy_mcp.Alloy.{Address, U256}

-- `[u8; 4]`
pub record Selector : Type 0 where
  pub b0 : ℕ
  pub b1 : ℕ
  pub b2 : ℕ
  pub b3 : ℕ

abbrev pub selector_beq : Selector → Selector → Bool
selector_beq s t = nat_beq s.b0 t.b0 && nat_beq s.b1 t.b1 && nat_beq s.b2 t.b2 && nat_beq s.b3 t.b3

pub selector_beq_iff : (s t : Selector) → (selector_beq s t ≡ true) ↔ (s ≡ t)
selector_beq_iff s t = ground arith

instance abbrev pub selector_eq : Eq Selector
selector_eq = record { beq = selector_beq; decides = selector_beq_iff }

pub record ChainContract : Type 0 where
  pub chain : ℕ
  pub contract : Address

abbrev pub chain_contract_beq : ChainContract → ChainContract → Bool
chain_contract_beq j k = nat_beq j.chain k.chain && nat_beq j.contract k.contract

pub chain_contract_beq_iff : (j k : ChainContract) → (chain_contract_beq j k ≡ true) ↔ (j ≡ k)
chain_contract_beq_iff j k = ground arith

instance abbrev pub chain_contract_eq : Eq ChainContract
chain_contract_eq = record { beq = chain_contract_beq; decides = chain_contract_beq_iff }

pub data SelectorPattern : Type 0 where
  specific : Selector → SelectorPattern
  any_selector : SelectorPattern

pub record RawCallAllowResolved : Type 0 where
  pub chain : ℕ
  pub contract : Address
  pub selector : SelectorPattern

pub record LoadedPolicy : Type 0 where
  pub chains_allow : List ℕ
  pub contracts_by_chain : List (ℕ × List Address)
  pub selectors_by_chain_contract : List (ChainContract × List SelectorPattern)
  pub native_value_by_chain : List (ℕ × U256)
  pub erc20_spend_by_chain_token : List (ChainContract × U256)
  pub raw_call_allow_global : Bool
  pub raw_call_allow : List RawCallAllowResolved

-- `LoadedPolicy::default()`
abbrev pub default_policy : LoadedPolicy
default_policy = record {
  chains_allow = [];
  contracts_by_chain = [];
  selectors_by_chain_contract = [];
  native_value_by_chain = [];
  erc20_spend_by_chain_token = [];
  raw_call_allow_global = false;
  raw_call_allow = [];
}

-- `ChainContract::new`
abbrev pub chain_contract : ℕ → Address → ChainContract
chain_contract c a = record { chain = c; contract = a }

unfoldable pub allows_chain : LoadedPolicy → ℕ → Bool
allows_chain p chain_id = contains p.chains_allow chain_id

-- `is_some_and(|list| list.contains(addr))`
abbrev listed : Option (List Address) → Address → Bool
listed none addr = false
listed (some l) addr = contains l addr

unfoldable pub allows_contract : LoadedPolicy → ℕ → Address → Bool
allows_contract p chain_id addr = listed (get p.contracts_by_chain chain_id) addr

-- The closure of `allows_selector`.
abbrev pub pattern_admits : Selector → SelectorPattern → Bool
pattern_admits sel any_selector = true
pattern_admits sel (specific s) = s == sel

abbrev some_pattern : Option (List SelectorPattern) → Selector → Bool
some_pattern none sel = false
some_pattern (some l) sel = any (pattern_admits sel) l

unfoldable pub allows_selector : LoadedPolicy → ℕ → Address → Selector → Bool
allows_selector p chain_id contract sel =
    some_pattern (get p.selectors_by_chain_contract (chain_contract chain_id contract)) sel

unfoldable pub native_value_cap : LoadedPolicy → ℕ → U256
native_value_cap p chain_id = unwrap_or (get p.native_value_by_chain chain_id) 0

unfoldable pub erc20_spend_cap : LoadedPolicy → ℕ → Address → Option U256
erc20_spend_cap p chain_id token = get p.erc20_spend_by_chain_token (chain_contract chain_id token)

-- The `match (&e.selector, selector)` of `raw_call_allows`.
abbrev pub raw_selector_admits : SelectorPattern → Option Selector → Bool
raw_selector_admits any_selector sel = true
raw_selector_admits (specific a) (some b) = a == b
raw_selector_admits (specific a) none = false

abbrev pub raw_entry_admits : ℕ → Address → Option Selector → RawCallAllowResolved → Bool
raw_entry_admits chain_id contract sel e =
    if not (e.chain == chain_id) || not (e.contract == contract)
    then false
    else raw_selector_admits e.selector sel

unfoldable pub raw_call_allows : LoadedPolicy → ℕ → Address → Option Selector → Bool
raw_call_allows p chain_id contract sel =
    if p.raw_call_allow_global
    then true
    else any (raw_entry_admits chain_id contract sel) p.raw_call_allow

-- decision.rs: `NormalizedActionKindCopy`
pub data NormalizedActionKindCopy : Type 0 where
  contract_call raw_call erc20_transfer erc20_approve native_transfer : NormalizedActionKindCopy

pub record Decision : Type 0 where
  pub chain_id : ℕ
  pub action_index : ℕ
  pub action_kind : NormalizedActionKindCopy
  pub to : Address
  pub selector : Option Selector
  pub native_value : U256
  pub erc20_amount : Option U256

-- The stable violation taxonomy (`data.rule` on the wire).
pub data Rule : Type 0 where
  chain_not_allowed contract_not_allowed raw_call_denied selector_not_allowed native_value_exceeds
        erc20_spend_exceeds :
      Rule

-- The message of a denial: which format string, and the values put into it.
pub data Detail : Type 0 where
  chain_not_in_allowlist : ℕ → Detail
  contract_not_on_chain : Address → ℕ → Detail
  raw_call_not_in_allowlist : Address → Option Selector → Detail
  selector_not_for : Selector → Address → ℕ → Detail
  value_exceeds_cap : U256 → U256 → ℕ → Detail
  spend_exceeds_cap : Address → U256 → Detail

pub data DecisionVerdict : Type 0 where
  allow : DecisionVerdict
  deny : Rule → Detail → DecisionVerdict
