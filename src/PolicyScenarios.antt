-- ===== src/PolicyScenarios.antt =====
-- Policies that are set, and what the theorems say of them.
use onchain_strategy_mcp.Prelude.{
  ℕ, ◌==◌, nat_eq, Bool, true, false, Option, none, some, List, [], ◌∷◌, ◌≡◌, ◌↔◌, refl, ap, arith,
  any,
}
use mathlib.Core.List.{Perm}
use mathlib.Core.List.Permᴰ
use onchain_strategy_mcp.Prelude.Text.{Text, codes, text_eq}
use onchain_strategy_mcp.Prelude.Json.{Json, Fields, field, end, cons, nil}
use onchain_strategy_mcp.Prelude.Result.{Result}
use onchain_strategy_mcp.Alloy.{Alloy}
use onchain_strategy_mcp.Policy.Model.{LoadedPolicy, default_policy}
use onchain_strategy_mcp.Policy.Config.{
  PolicyConfig, RawCallAllowEntry, digits_from, parse_chain_id, parse_u64, parse_u256_decimal,
}
use onchain_strategy_mcp.Policy.Load.{resolve, insert_all}
use onchain_strategy_mcp.State.Error.{StateError}
use onchain_strategy_mcp.State.Revisions.{Policies, PolicyRevision, IsSound, set_active, get_active}
use onchain_strategy_mcp.PolicyBoot.{
  Serde, TomlFile, Server, resolve_boot_policy, policy_set, parse_policy_json, write_revision,
  swap_policy,
}
use onchain_strategy_mcp.PolicyBoot.Agreement.{
  KeepsConfig, IsReordered, Agrees, booted, starts, sets, here, next, Reach-Agrees,
}
use onchain_strategy_mcp.PolicyDiff.{new_capabilities_granted}
use onchain_strategy_mcp.PolicyDiff.Alignment.{
  satisfied, missing, coverage, survey, compute_alignment,
}
use onchain_strategy_mcp.PolicyDiff.Alignment.Verdict.{AllCovered, compute_alignment-satisfied}
use onchain_strategy_mcp.PolicyDiff.Granted.{
  is_raw_call, is_contract, is_selector, new_capabilities_granted_lem,
}

abbrev alloy : Alloy
alloy = record {
  saturating_add = λ x y. x;
  from_decimal = digits_from 0;
  parse_checksummed = λ s. none;
  from_str = λ s. none;
  bytes_from_str = λ s. none;
}

abbrev Caps : Type 0
Caps = List (Text × Text)

-- Configurations with these caps on native value, and with every raw call or none.
abbrev gate : Bool → Caps → PolicyConfig
gate b caps = record {
  chains_allow = [];
  contracts = [];
  selectors = [];
  native_value = caps;
  erc20_spend = [];
  raw_call = record { allow_global = b; allow = [] };
}

abbrev flag : Bool → ℕ
flag true = 49
flag false = 48

-- A printer for these alone, when the keys and the values have one character each.
abbrev cons_entry : Text → Text → Option Text → Option Text
cons_entry (k ∷ []) (v ∷ []) (some rest) = some (k ∷ v ∷ rest)
cons_entry _ _ _ = none

abbrev entries : Caps → Option Text
entries [] = some []
entries ((k, v) ∷ caps) = cons_entry k v (entries caps)

abbrev flagged : Bool → Option Text → Option Text
flagged b none = none
flagged b (some body) = some (flag b ∷ body)

abbrev print :
    List ℕ
    → List (Text × List Text)
    → List (Text × List Text)
    → Caps
    → Caps
    → Bool
    → List RawCallAllowEntry
    → Option Text
print [] [] [] caps [] b [] = flagged b (entries caps)
print _ _ _ _ _ b _ = none

abbrev read_entries : Text → Caps
read_entries (k ∷ v ∷ rest) = (k ∷ [], v ∷ []) ∷ read_entries rest
read_entries _ = []

-- The reader has the first two entries the other way round.
abbrev swapped : Caps → Caps
swapped (x ∷ y ∷ caps) = y ∷ x ∷ caps
swapped (x ∷ []) = x ∷ []
swapped [] = []

abbrev read : Text → Option PolicyConfig
read (b ∷ rest) = some (gate (b == 49) (swapped (read_entries rest)))
read [] = none

abbrev caps : Caps
caps = (codes "1", codes "5") ∷ (codes "2", codes "7") ∷ []

-- The gate is open in every body that comes as a JSON value, and shut in the file.
abbrev serde : Serde
serde = record {
  from_str = read;
  from_value = λ j. some (gate true caps);
  value_from_str = λ s. none;
  to_string = λ c.
      print c.chains_allow c.contracts c.selectors c.native_value c.erc20_spend
        c.raw_call.allow_global c.raw_call.allow;
  from_toml = λ s. some (gate false caps);
}

swapped-Perm : (c : Caps) → Perm (swapped c) c
swapped-Perm [] = ∣ Permᴰ.refl [] ∣₁
swapped-Perm (x ∷ []) = ∣ Permᴰ.refl (x ∷ []) ∣₁
swapped-Perm (x ∷ y ∷ c) = ∣ Permᴰ.swap refl refl ∣₁

cons_entry-some :
    (k v : Text) (o : Option Text) (t : Text)
    → cons_entry k v o ≡ some t
    → (a b : ℕ) × (rest : Text) × (k ≡ a ∷ []) × (v ≡ b ∷ []) × (o ≡ some rest) × (t ≡ a ∷ b ∷ rest)
cons_entry-some (a ∷ []) (b ∷ []) (some rest) t h = (a, b, rest, refl, refl, refl, cc h)
cons_entry-some (a ∷ []) (b ∷ []) none t h = absurd (cc h)
cons_entry-some (a ∷ []) [] o t h = absurd (cc h)
cons_entry-some (a ∷ []) (b ∷ y ∷ v) o t h = absurd (cc h)
cons_entry-some (a ∷ x ∷ k) v o t h = absurd (cc h)
cons_entry-some [] v o t h = absurd (cc h)

read_entries-entries : (c : Caps) (t : Text) → entries c ≡ some t → read_entries t ≡ c
read_entries-entries [] t h = let empty : [] ≡ t = cc h in rw⁻¹ empty refl
read_entries-entries ((k, v) ∷ c) t h =
    let (a, b, rest, key, value, later, body) = cons_entry-some k v (entries c) t h in
    rw (body, key, value) (ap (λ l. (a ∷ [], b ∷ []) ∷ l) (read_entries-entries c rest later))

flag_read : (b : Bool) → (flag b == 49) ≡ b
flag_read true = refl
flag_read false = refl

serde-KeepsConfig : KeepsConfig serde
serde-KeepsConfig cfg body h =
    go cfg.chains_allow cfg.contracts cfg.selectors cfg.native_value cfg.erc20_spend
      cfg.raw_call.allow_global cfg.raw_call.allow h
  where
    of :
        List ℕ
        → List (Text × List Text)
        → List (Text × List Text)
        → Caps
        → Caps
        → Bool
        → List RawCallAllowEntry
        → PolicyConfig
    of chains contracts selectors native erc20 b allow = record {
      chains_allow = chains;
      contracts = contracts;
      selectors = selectors;
      native_value = native;
      erc20_spend = erc20;
      raw_call = record { allow_global = b; allow = allow };
    }

    reads :
        (native : Caps) (b : Bool) (o : Option Text)
        → entries native ≡ o
        → flagged b o ≡ some body
        → (c : PolicyConfig) × (read body ≡ some c) × IsReordered c (gate b native)
    reads native b none q h' = absurd (cc h')
    reads native b (some t) q h' =
        let same : flag b ∷ t ≡ body = cc h' in
        let back = read_entries-entries native t q in
        (
          gate b (swapped native),
          rw⁻¹ same (rw (back, flag_read b) refl),
          record {
            chains_allow = refl;
            contracts = ∣ Permᴰ.refl [] ∣₁;
            selectors = ∣ Permᴰ.refl [] ∣₁;
            native_value = swapped-Perm native;
            erc20_spend = ∣ Permᴰ.refl [] ∣₁;
            raw_call = refl;
          },
        )

    go :
        (chains : List ℕ) (contracts selectors : List (Text × List Text)) (native erc20 : Caps)
        (b : Bool) (allow : List RawCallAllowEntry)
        → print chains contracts selectors native erc20 b allow ≡ some body
        → (c : PolicyConfig) × (read body ≡ some c)
          × IsReordered c (of chains contracts selectors native erc20 b allow)
    go [] [] [] native [] b [] q = reads native b (entries native) refl q
    go [] [] [] native [] b (x ∷ xs) q = absurd (cc q)
    go [] [] [] native (x ∷ xs) b allow q = absurd (cc q)
    go [] [] (x ∷ xs) native erc20 b allow q = absurd (cc q)
    go [] (x ∷ xs) selectors native erc20 b allow q = absurd (cc q)
    go (x ∷ xs) contracts selectors native erc20 b allow q = absurd (cc q)

abbrev no_policy : Server
no_policy = record { policies = []; policy = none }

abbrev file : TomlFile
file = record { exists = true; contents = some (codes "") }

abbrev started : Server
started = booted alloy serde (resolve_boot_policy alloy serde (some file) "p1" "t1" [])

abbrev opened : Server
opened = (policy_set alloy serde Json.null (some "open") "p2" "t2" started).1

no_policy-Agrees : Agrees alloy serde no_policy
unfolding get_active
no_policy-Agrees = refl

Reach-Agrees_example : Agrees alloy serde opened
Reach-Agrees_example =
    Reach-Agrees alloy serde serde-KeepsConfig
      (next (next here (starts (some file) "p1" "t1" no_policy))
        (sets Json.null (some "open") "p2" "t2" started))
      no_policy-Agrees

abbrev granting : Bool → LoadedPolicy
granting b = record default_policy {
  native_value_by_chain = (1, 5) ∷ (2, 7) ∷ [];
  raw_call_allow_global = b;
}

opens : opened.policy ≡ some (granting true)
unfolding policy_set parse_policy_json resolve_boot_policy set_active get_active resolve insert_all
    parse_chain_id parse_u64 parse_u256_decimal
opens = refl

-- Two calls that overlap: each writes its revision before either has changed the policy in memory,
-- and the first is the last to do so. The open gate is in memory, the shut one in the table.
abbrev first_write : Result StateError PolicyRevision × Server
first_write = write_revision alloy serde "p1" "t1" (codes "11527") none no_policy

abbrev second_write : Result StateError PolicyRevision × Server
second_write = write_revision alloy serde "p2" "t2" (codes "01527") none first_write.1

abbrev active_body : Option PolicyRevision → Option Text
active_body none = none
active_body (some r) = some r.body_json

abbrev overlapped : Server
overlapped =
    (swap_policy alloy serde (granting true) first_write.0
      (swap_policy alloy serde (granting false) second_write.0 second_write.1).1).1

overlap :
    (overlapped.policy ≡ some (granting true))
    × (active_body (get_active overlapped.policies) ≡ some (codes "01527"))
unfolding set_active get_active
overlap = (refl, refl)

abbrev one_revision : Policies
one_revision = (set_active "p1" "t1" (codes "0") none []).1

nothing-IsSound : IsSound []
nothing-IsSound = (tt, omega arith)

-- `{"contracts": {"1": {"allow": [addr]}}}`
abbrev contract_policy : Text → Json
contract_policy addr = Json.object (
    field (codes "contracts")
      (Json.object (
        field (codes "1")
          (Json.object (field (codes "allow") (Json.array (cons (Json.string addr) nil)) end)) end))
      end)

new_capabilities_granted_lem_example :
    (any
        (is_contract (codes "1") (codes "0xab"))
        (new_capabilities_granted (contract_policy (codes "0xcd")) (contract_policy (codes "0xab")))
      ≡ true)
    × (any (is_selector (codes "1") (codes "0xab") (codes "any")) (
          new_capabilities_granted
            (contract_policy (codes "0xcd"))
            (contract_policy (codes "0xab")))
        ≡ false)
    × (any is_raw_call (
          new_capabilities_granted
            (contract_policy (codes "0xcd"))
            (contract_policy (codes "0xab")))
        ≡ false)
new_capabilities_granted_lem_example =
    new_capabilities_granted_lem (contract_policy (codes "0xcd")) (contract_policy (codes "0xab"))
      (codes "1") (codes "0xab") (codes "any") refl

-- The same address in other letters is no new capability.
same_address :
    new_capabilities_granted (contract_policy (codes "0xAB")) (contract_policy (codes "0xab")) ≡ []
unfolding new_capabilities_granted
same_address = refl

abbrev touched : Fields
touched =
    field (codes "0xAB") (Json.array (cons (Json.string (codes "supply")) nil))
      (field (codes "_extraction") (Json.string (codes "complete")) end)

compute_alignment-satisfied_example :
    ((compute_alignment
          (some (Json.object touched))
          (some (contract_policy (codes "0xab")))).verdict
        ≡ satisfied
      ↔ AllCovered (contract_policy (codes "0xab")) touched)
    × ((compute_alignment
            (some (Json.object touched))
            (some (contract_policy (codes "0xab")))).missing_entries
          ≡ []
        ↔ AllCovered (contract_policy (codes "0xab")) touched)
compute_alignment-satisfied_example =
    compute_alignment-satisfied touched (contract_policy (codes "0xab")) refl

-- The contract is allowed, but the policy has no selectors for it.
not_covered :
    (compute_alignment (some (Json.object touched)) (some (contract_policy (codes "0xab")))).verdict
    ≡ missing
unfolding compute_alignment survey coverage
not_covered = refl
