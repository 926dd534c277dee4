-- ===== src/State/Strategies/Register.antt =====
-- What a registration and a soft deletion do to the table of strategies.
pub mod Installed
pub mod Replaced
use onchain_strategy_mcp.Prelude.{
  ◌+◌, ◌≤◌, String, Bool, true, false, ◌&&◌, Option, none, some, [], ◌∷◌, ◌++◌, ◌≡◌, refl, sym, ap,
  ◌∙◌, arith, inl, inr, ◌==◌, string_eq, any, Bool-cases,
}
use onchain_strategy_mcp.Prelude.Text.{Text}
use onchain_strategy_mcp.Prelude.Result.{Result, ok, err}
use text.Mathlib.TextEquality.{eq_iff}
use onchain_strategy_mcp.State.Table.{
  find, count, update, find-append, any-count, any-find, find-update,
}
use onchain_strategy_mcp.State.Error.{StateError}
use onchain_strategy_mcp.State.Strategies.{
  Strategy, Strategies, Bundle, RegisterOutcome, created, already_exists, replaced_version, has_id,
  is_active, is_active_name, is_active_lineage, get_by_id, get_by_name, set_deleted,
  insert_strategy, new_strategy, replaced, register_fresh, register_version, register_new,
  register_unless, register, content_id, effective_lineage, deletion, soft_delete,
}

-- One row for an identifier, and one active row for a name and for a lineage, at most.
abbrev pub IsSound : Strategies → Type 0
IsSound t =
    ((id : String) → count (has_id id) t ≤ 1)
    × ((name : String) → count (is_active_name name) t ≤ 1)
    × ((lineage : String) → count (is_active_lineage lineage) t ≤ 1)

count-append : (p : Strategy → Bool) (t u : Strategies) → count p (t ++ u) ≡ count p t + count p u
count-append p [] u = omega arith
count-append p (s ∷ t) u = ground (arith, count-append p t u)

-- A soft deletion makes no search find more rows.
count-set_deleted :
    (p q : Strategy → Bool) (now : String) (t : Strategies)
    → ((s : Strategy) → p (set_deleted now s) ≡ true → p s ≡ true)
    → count p (update q (set_deleted now) t) ≤ count p t
count-set_deleted p q now [] h = omega arith
count-set_deleted p q now (s ∷ t) h = ground (arith, count-set_deleted p q now t h, h s)

set_deleted-IsSound :
    (q : Strategy → Bool) (now : String) (t : Strategies)
    → IsSound t
    → IsSound (update q (set_deleted now) t)
set_deleted-IsSound q now t (ids, names, lineages) = (
  (λ id. omega (arith, ids id, count-set_deleted (has_id id) q now t (λ s e. e))),
  (λ n.
      omega
        (arith, names n, count-set_deleted (is_active_name n) q now t (λ s e. ground (arith, e)))),
  λ l. omega (
    arith,
    lineages l,
    count-set_deleted (is_active_lineage l) q now t (λ s e. ground (arith, e)),
  ),
)

-- A row that a search does not find yet can be added to what it finds.
count-added :
    (p : Strategy → Bool) (s : Strategy) (t : Strategies)
    → count p t ≤ 1
    → (p s ≡ true → any p t ≡ false)
    → count p (t ++ s ∷ []) ≤ 1
count-added p s t h fresh = elim (Bool-cases (p s)) [
  | inr other ↦ rw (count-append p t (s ∷ [])) (rw other (omega (arith, h)))
  | inl hit ↦ rw (count-append p t (s ∷ [])) (rw hit (omega (arith, (any-count p t).1 (fresh hit))))
]

insert_strategy-IsSound :
    (s : Strategy) (t : Strategies) → IsSound t → IsSound (insert_strategy s t).1
unfolding insert_strategy
insert_strategy-IsSound s t h = elim (Bool-cases (any (has_id s.id) t)) [
  | inl taken ↦ rw taken h
  | inr free_id ↦ rw free_id (elim (Bool-cases (any (is_active_name s.name) t)) [
    | inl taken ↦ rw taken h
    | inr free_name ↦ rw free_name (elim (Bool-cases (any (is_active_lineage s.lineage_id) t)) [
      | inl taken ↦ rw taken h
      | inr free_lineage ↦ rw free_lineage (
        (λ id. count-added (has_id id) s t (h.0 id) (λ hit. rw (← same hit) free_id)),
        (λ n.
            count-added (is_active_name n) s t (h.1 n)
              (λ hit. rw (← same (first (s.name == n) hit)) free_name)),
        λ l.
            count-added (is_active_lineage l) s t (h.2 l)
              (λ hit. rw (← same (first (s.lineage_id == l) hit)) free_lineage),
      )
    ])
  ])
]
  where
    same : {a b : String} → (a == b) ≡ true → a ≡ b
    same {a} {b} e = (eq_iff a b).0 e

    first : (a : Bool) → (a && is_active s) ≡ true → a ≡ true
    first true e = refl
    first false e = e

module _ (digest : Text → String) (bytes : String → Text) where
  register_new-IsSound :
      (b : Bundle) (fresh id now : String) (active : Option Strategy) (t : Strategies)
      → IsSound t
      → IsSound (register_new digest bytes b fresh id now active t).1
  unfolding register_fresh register_version
  register_new-IsSound b fresh id now none t h =
      inserted (insert_strategy (new_strategy b id fresh now) t)
        (insert_strategy-IsSound (new_strategy b id fresh now) t h)
    where
      inserted :
          (r : Result StateError (Unit {0}) × Strategies)
          → IsSound r.1
          → IsSound
              (elim r.0 as (λ _. Result StateError RegisterOutcome × Strategies) [
                | err e ↦ (err e, r.1)
                | ok _ ↦ (ok (created (new_strategy b id fresh now)), r.1)
              ]).1
      inserted (err e, u) k = k
      inserted (ok x, u) k = k
  register_new-IsSound b fresh id now (some previous) t h = inserted (insert_strategy s deleted) (
      insert_strategy-IsSound s deleted
        (set_deleted-IsSound (λ x. x.id == previous.id && is_active x) now t h))
    where
      s : Strategy
      s = new_strategy b id previous.lineage_id now

      deleted : Strategies
      deleted = update (λ x. x.id == previous.id && is_active x) (set_deleted now) t

      inserted :
          (r : Result StateError (Unit {0}) × Strategies)
          → IsSound r.1
          → IsSound
              (elim r.0 as (λ _. Result StateError RegisterOutcome × Strategies) [
                | err e ↦ (err e, r.1)
                | ok _ ↦ (ok (replaced digest bytes b previous s t r.1), r.1)
              ]).1
      inserted (err e, u) k = k
      inserted (ok x, u) k = k

  -- Whatever it answers, a registration keeps the table sound: one row for an identifier, and one
  -- active row for a name and for a lineage, at most.
  pub register-IsSound :
      (b : Bundle) (fresh now : String) (t : Strategies)
      → IsSound t
      → IsSound (register digest bytes b fresh now t).1
  unfolding register
  register-IsSound b fresh now t h =
      unless (get_by_id (content_id digest bytes b fresh (get_by_name b.name t)) t)
    where
      active : Option Strategy
      active = get_by_name b.name t

      unless :
          (o : Option Strategy)
          → IsSound
              (register_unless digest bytes o b fresh
                (content_id digest bytes b fresh (get_by_name b.name t))
                now
                (get_by_name b.name t)
                t).1
      unless (some existing) = h
      unless none =
          register_new-IsSound b fresh (content_id digest bytes b fresh (get_by_name b.name t)) now
            (get_by_name b.name t) t h

find-holds : (p : Strategy → Bool) (t : Strategies) (s : Strategy) → find p t ≡ some s → p s ≡ true
find-holds p [] s h = ground (arith, h)
find-holds p (x ∷ t) s h = ground (arith, find-holds p t s)

deletion-again :
    (o : Option Strategy) (id now later : String) (t : Strategies) (at_time : String)
    → get_by_id id t ≡ o
    → (deletion o id now t).0 ≡ ok at_time
    → soft_delete id later (deletion o id now t).1 ≡ (ok at_time, (deletion o id now t).1)
unfolding soft_delete
deletion-again none id now later t at_time found h = ground (arith, h)
deletion-again (some s) id now later t at_time found h = ground (
  arith,
  h,
  found,
  find-update (has_id id) (has_id id) (set_deleted now) t (λ x. refl),
  find-holds (has_id id) t s found,
)

-- A second soft deletion answers with the time of the first and changes nothing.
pub soft_delete-again :
    (id now later : String) (t : Strategies) (at_time : String)
    → (soft_delete id now t).0 ≡ ok at_time
    → soft_delete id later (soft_delete id now t).1 ≡ (ok at_time, (soft_delete id now t).1)
unfolding soft_delete
soft_delete-again id now later t at_time h =
    deletion-again (get_by_id id t) id now later t at_time refl h

-- A soft deletion keeps the table sound.
pub soft_delete-IsSound :
    (id now : String) (t : Strategies) → IsSound t → IsSound (soft_delete id now t).1
unfolding soft_delete
soft_delete-IsSound id now t h = go (get_by_id id t)
  where
    go : (o : Option Strategy) → IsSound (deletion o id now t).1
    go none = h
    go (some s) =
        elim s.deleted_at
          as (λ d.
            IsSound
              (elim d as (λ _. Result StateError String × Strategies) [
                | some at_time ↦ (ok at_time, t)
                | none ↦ (ok now, update (has_id id) (set_deleted now) t)
              ]).1) [ some at_time ↦ h | none ↦ set_deleted-IsSound (has_id id) now t h ]
