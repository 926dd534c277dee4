-- ===== src/State/Strategies/Register/Installed.antt =====
-- The active version of a name after a registration.
use onchain_strategy_mcp.Prelude.{
  String, ◌&&◌, Option, none, some, [], ◌∷◌, ◌≡◌, refl, sym, ap, ◌∙◌, arith, ◌==◌, string_eq,
}
use onchain_strategy_mcp.Prelude.Text.{Text}
use onchain_strategy_mcp.Prelude.Result.{Result, ok, err}
use text.Mathlib.TextEquality.{eq_iff}
use onchain_strategy_mcp.State.Table.{update, find-append, any-find}
use onchain_strategy_mcp.State.Error.{StateError}
use onchain_strategy_mcp.State.Strategies.{
  Strategy, Strategies, Bundle, RegisterOutcome, created, already_exists, replaced_version,
  is_active, is_active_name, get_by_id, get_by_name, set_deleted, insert_strategy, new_strategy,
  replaced, register_fresh, register_version, register_new, register_unless, register, content_id,
  effective_lineage,
}

-- The new active version that an outcome names; a row that was there already is no new one.
abbrev pub new_version_of : RegisterOutcome → Option Strategy
new_version_of (created s) = some s
new_version_of (already_exists s) = none
new_version_of (replaced_version s p m n c1 c2 c3 c4) = some s

insert_strategy-get_by_name :
    (s : Strategy) (t : Strategies)
    → s.deleted_at ≡ none
    → (insert_strategy s t).0 ≡ ok tt
    → get_by_name s.name (insert_strategy s t).1 ≡ some s
unfolding insert_strategy
insert_strategy-get_by_name s t alive h = ground (
  arith,
  find-append (is_active_name s.name) t (s ∷ []),
  any-find (is_active_name s.name) t,
  eq_iff s.name s.name,
)

module _ (digest : Text → String) (bytes : String → Text) where
  -- What holds of the answer to a registration that made a new version.
  abbrev pub Installed :
      Bundle → String → Option Strategy → Result StateError RegisterOutcome × Strategies → Type 0
  Installed b fresh active r =
      (o : RegisterOutcome) (s : Strategy)
      → r.0 ≡ ok o
      → new_version_of o ≡ some s
      → (get_by_name b.name r.1 ≡ some s)
        × (s.lineage_id ≡ effective_lineage digest bytes fresh active)

  register_new-Installed :
      (b : Bundle) (fresh id now : String) (active : Option Strategy) (t : Strategies)
      → Installed b fresh active (register_new digest bytes b fresh id now active t)
  unfolding register_fresh register_version
  register_new-Installed b fresh id now none t =
      inserted (insert_strategy (new_strategy b id fresh now) t)
        (insert_strategy-get_by_name (new_strategy b id fresh now) t refl)
    where
      inserted :
          (r : Result StateError (Unit {0}) × Strategies)
          → (r.0 ≡ ok tt → get_by_name b.name r.1 ≡ some (new_strategy b id fresh now))
          → Installed b fresh none
              (elim r.0 as (λ _. Result StateError RegisterOutcome × Strategies) [
                | err e ↦ (err e, r.1)
                | ok _ ↦ (ok (created (new_strategy b id fresh now)), r.1)
              ])
      inserted (err e, u) k o s h new = absurd (no h)
        where
          no : {x : RegisterOutcome} → err e ≡ ok x → ⊥
          no q = cc
      inserted (ok x, u) k o s h new =
          let e : some (new_strategy b id fresh now) ≡ some s =
            ap new_version_of (outcome h) ∙ new in
          (k refl ∙ e, sym (lineage e))
        where
          outcome :
              {x y : RegisterOutcome}
              → ◌≡◌ {A = Result StateError RegisterOutcome} (ok x) (ok y)
              → x ≡ y
          outcome q = cc

          lineage : some (new_strategy b id fresh now) ≡ some s → fresh ≡ s.lineage_id
          lineage q = ap (λ z. elim z [ none ↦ fresh | some y ↦ y.lineage_id ]) q
  register_new-Installed b fresh id now (some previous) t =
      inserted (insert_strategy s' deleted) (insert_strategy-get_by_name s' deleted refl)
    where
      s' : Strategy
      s' = new_strategy b id previous.lineage_id now

      deleted : Strategies
      deleted = update (λ x. x.id == previous.id && is_active x) (set_deleted now) t

      inserted :
          (r : Result StateError (Unit {0}) × Strategies)
          → (r.0 ≡ ok tt → get_by_name b.name r.1 ≡ some s')
          → Installed b fresh
              (some previous)
              (elim r.0 as (λ _. Result StateError RegisterOutcome × Strategies) [
                | err e ↦ (err e, r.1)
                | ok _ ↦ (ok (replaced digest bytes b previous s' t r.1), r.1)
              ])
      inserted (err e, u) k o s h new = absurd (no h)
        where
          no : {x : RegisterOutcome} → err e ≡ ok x → ⊥
          no q = cc
      inserted (ok x, u) k o s h new =
          let e : some s' ≡ some s = ap new_version_of (outcome h) ∙ new in
          (k refl ∙ e, sym (lineage e))
        where
          outcome :
              {x y : RegisterOutcome}
              → ◌≡◌ {A = Result StateError RegisterOutcome} (ok x) (ok y)
              → x ≡ y
          outcome q = cc

          lineage : some s' ≡ some s → previous.lineage_id ≡ s.lineage_id
          lineage q = ap (λ z. elim z [ none ↦ fresh | some y ↦ y.lineage_id ]) q

  -- A new version that a registration reports is the active row of the name afterwards, and its
  -- lineage is that of the version that was active before, or the fresh one if there was none.
  pub register-installed :
      (b : Bundle) (fresh now : String) (t : Strategies) (o : RegisterOutcome) (s : Strategy)
      → (register digest bytes b fresh now t).0 ≡ ok o
      → new_version_of o ≡ some s
      → (get_by_name b.name (register digest bytes b fresh now t).1 ≡ some s)
        × (s.lineage_id ≡ effective_lineage digest bytes fresh (get_by_name b.name t))
  unfolding register
  register-installed b fresh now t =
      unless (get_by_id (content_id digest bytes b fresh (get_by_name b.name t)) t)
    where
      unless :
          (existing : Option Strategy)
          → Installed b fresh (get_by_name b.name t) (
              register_unless digest bytes existing b fresh
                (content_id digest bytes b fresh (get_by_name b.name t))
                now
                (get_by_name b.name t)
                t)
      unless (some existing) = λ o s h new. ground (arith, h, new)
      unless none =
          register_new-Installed b fresh (content_id digest bytes b fresh (get_by_name b.name t))
            now (get_by_name b.name t) t
