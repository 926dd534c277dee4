-- ===== src/State/Strategies/Register/Replaced.antt =====
-- A new version of a name that has an active one.
use onchain_strategy_mcp.Prelude.{
  ◌≤◌, String, Bool, true, false, ◌&&◌, Option, Exists, none, some, [], ◌∷◌, ◌++◌, ◌≡◌, refl, sym,
  ap, ◌∙◌, arith, inl, inr, ◌==◌, string_eq, ==_refl, any, Bool-cases, is_some, if◌then◌else◌,
}
use onchain_strategy_mcp.Prelude.Text.{Text}
use onchain_strategy_mcp.Prelude.Result.{Result, ok, err}
use mathlib.Core.Bool.{false≢true}
use text.Mathlib.TextEquality.{eq_iff}
use onchain_strategy_mcp.State.Table.{
  find, count, update, set_if, find-append, any-count, any-find, find-update,
}
use onchain_strategy_mcp.State.Error.{StateError}
use onchain_strategy_mcp.State.Strategies.{
  Strategy, Strategies, Bundle, RegisterOutcome, has_id, is_active, is_active_name,
  is_active_lineage, get_by_id, get_by_name, set_deleted, insert_strategy, new_strategy, replaced,
  register_version, register_new, register_unless, register, content_id,
}
use onchain_strategy_mcp.State.Strategies.Register.{IsSound, count-set_deleted}
use onchain_strategy_mcp.State.Strategies.Register.Installed.{new_version_of, register-installed}

-- The row stands in the table.
abbrev pub Has : Strategy → Strategies → Type 0
Has s t = Exists (λ x. x ≡ s) t

module _ (s : Strategy) where
  find-Has : (p : Strategy → Bool) (t : Strategies) → find p t ≡ some s → (p s ≡ true) × Has s t
  find-Has p [] h = absurd (cc h)
  find-Has p (x ∷ t) h = elim (Bool-cases (p x)) [
    | inl hit ↦
        (let found : some x ≡ some s = rw hit at h in
          let same : x ≡ s = cc found in (rw⁻¹ same hit, inl same))
    | inr miss ↦ (let later = find-Has p t (rw miss at h) in (later.0, inr later.1))
  ]

  Has-count : (p : Strategy → Bool) (t : Strategies) → p s ≡ true → Has s t → 1 ≤ count p t
  Has-count p [] hit never = absurd never
  Has-count p (x ∷ t) hit (inl same) =
      let here : p x ≡ true = ap p same ∙ hit in ground (arith, here)
  Has-count p (x ∷ t) hit (inr later) = ground (arith, Has-count p t hit later)

  -- The one row that a test finds is the row that passes it.
  find-only :
      (p : Strategy → Bool) (t : Strategies)
      → p s ≡ true
      → Has s t
      → count p t ≤ 1
      → find p t ≡ some s
  find-only p [] hit never one = absurd never
  find-only p (x ∷ t) hit (inl same) one =
      let here : p x ≡ true = ap p same ∙ hit in rw here (ap some same)
  find-only p (x ∷ t) hit (inr later) one =
      ground (arith, one, Has-count p t hit later, find-only p t hit later)

  -- When the only row that a test finds is deleted, and no deleted row passes it, nothing does.
  retired :
      (p : Strategy → Bool) (now : String) (t : Strategies)
      → ((x : Strategy) → p (set_deleted now x) ≡ false)
      → is_active s ≡ true
      → p s ≡ true
      → Has s t
      → count p t ≤ 1
      → any p (update (λ x. x.id == s.id && is_active x) (set_deleted now) t) ≡ false
  retired p now [] deleted active hit never one = absurd never
  retired p now (x ∷ t) deleted active hit (inl same) one =
      let gone = λ (y : Strategy). y.id == s.id && is_active y in
      let here : p x ≡ true = ap p same ∙ hit in
      let goes : gone x ≡ true = ap gone same ∙ ground (arith, ==_refl s.id, active) in
      let fewer : count p (update gone (set_deleted now) t) ≤ count p t =
        count-set_deleted p gone now t (λ y e. absurd (false≢true (sym (deleted y) ∙ e))) in
      let nothing : count p (update gone (set_deleted now) t) ≡ 0 =
        ground (arith, here, one, fewer) in
      rw goes (rw (deleted x) ((any-count p (update gone (set_deleted now) t)).0 nothing))
  retired p now (x ∷ t) deleted active hit (inr later) one =
      let more = Has-count p t hit later in
      let miss : p x ≡ false = ground (arith, more, one) in
      ground
        (arith, miss, deleted x, retired p now t deleted active hit later (ground (arith, one)))

module _ (digest : Text → String) (bytes : String → Text) where
  -- The table after a new version: the one before it is deleted softly.
  abbrev after_version : Strategy → Strategy → String → Strategies → Strategies
  after_version previous s now t =
      update (λ x. x.id == previous.id && is_active x) (set_deleted now) t ++ s ∷ []

  insert_strategy-free :
      (s : Strategy) (t : Strategies)
      → any (has_id s.id) t ≡ false
      → any (is_active_name s.name) t ≡ false
      → any (is_active_lineage s.lineage_id) t ≡ false
      → insert_strategy s t ≡ (ok tt, t ++ s ∷ [])
  unfolding insert_strategy
  insert_strategy-free s t id name lineage = rw (id, name, lineage) refl

  -- The new version goes in: nothing that is left active has its name or its lineage.
  register_version-goes :
      (b : Bundle) (id now : String) (previous : Strategy) (t : Strategies)
      → IsSound t
      → get_by_name b.name t ≡ some previous
      → get_by_id id t ≡ none
      → let after = after_version previous (new_strategy b id previous.lineage_id now) now t in
        register_version digest bytes b id now previous t ≡ (
          ok (replaced digest bytes b previous (new_strategy b id previous.lineage_id now) t after),
          after,
        )
  unfolding register_version
  register_version-goes b id now previous t (ids, names, lineages) active free =
      let (hit, there) = find-Has previous (is_active_name b.name) t active in
      let alive : is_active previous ≡ true = ground (arith, hit) in
      let gone = λ (x : Strategy). x.id == previous.id && is_active x in
      let deleted = update gone (set_deleted now) t in
      let free_name =
        retired previous (is_active_name b.name) now t (λ x. ground arith) alive hit there
          (names b.name) in
      let free_lineage =
        retired previous (is_active_lineage previous.lineage_id) now t (λ x. ground arith) alive
          (ground (arith, ==_refl previous.lineage_id, alive)) there
          (lineages previous.lineage_id) in
      let free_id =
        sym (any-find (has_id id) deleted)
        ∙ ap is_some (
            find-update (has_id id) gone (set_deleted now) t (λ x. refl)
            ∙ ap (set_if gone (set_deleted now)) free) in
      ap
        (λ out. elim out.0 as (λ _. Result StateError RegisterOutcome × Strategies) [
          | err e ↦ (err e, out.1)
          | ok _ ↦ (
            ok (
                replaced digest bytes b previous (new_strategy b id previous.lineage_id now) t
                  out.1),
            out.1,
          )
        ])
        (insert_strategy-free (new_strategy b id previous.lineage_id now) deleted free_id free_name
          free_lineage)

  -- What a row of the old table has become.
  after_version-get_by_id :
      (previous s : Strategy) (now id : String) (t : Strategies)
      → (id == previous.id) ≡ false
      → (s.id == id) ≡ false
      → get_by_id id (after_version previous s now t) ≡ get_by_id id t
  after_version-get_by_id previous s now id t other new =
      find-append (has_id id) (update gone (set_deleted now) t) (s ∷ [])
      ∙ rw (find-update (has_id id) gone (set_deleted now) t (λ x. refl))
          (go (find (has_id id) t) refl)
    where
      gone : Strategy → Bool
      gone x = x.id == previous.id && is_active x

      go :
          (o : Option Strategy)
          → find (has_id id) t ≡ o
          → (if is_some (set_if gone (set_deleted now) o)
              then set_if gone (set_deleted now) o
              else find (has_id id) (s ∷ []))
            ≡ o
      go none q = rw new refl
      go (some x) q =
          let named : x.id ≡ id = (eq_iff x.id id).0 (find-Has x (has_id id) t q).0 in
          let kept : (x.id == previous.id) ≡ false = ap (λ i. i == previous.id) named ∙ other in
          rw kept refl

  after_version-previous :
      (previous s : Strategy) (now : String) (t : Strategies)
      → is_active previous ≡ true
      → get_by_id previous.id t ≡ some previous
      → get_by_id previous.id (after_version previous s now t) ≡ some (set_deleted now previous)
  after_version-previous previous s now t active found =
      find-append (has_id previous.id) (update gone (set_deleted now) t) (s ∷ [])
      ∙ rw (find-update (has_id previous.id) gone (set_deleted now) t (λ x. refl), found)
          (ground (arith, ==_refl previous.id, active))
    where
      gone : Strategy → Bool
      gone x = x.id == previous.id && is_active x

  -- A registration of new content for a name that is active is that of a new version.
  registered :
      (b : Bundle) (fresh now : String) (t : Strategies) (previous : Strategy)
      → get_by_name b.name t ≡ some previous
      → get_by_id (content_id digest bytes b fresh (get_by_name b.name t)) t ≡ none
      → register digest bytes b fresh now t
        ≡ register_version digest bytes b
            (content_id digest bytes b fresh (get_by_name b.name t))
            now
            previous
            t
  unfolding register
  registered b fresh now t previous active free =
      let id = content_id digest bytes b fresh (get_by_name b.name t) in
      ap (λ o. register_unless digest bytes o b fresh id now (get_by_name b.name t) t) free
      ∙ ap (λ a. register_new digest bytes b fresh id now a t) active

  -- On a sound table, new content for a name that has an active version goes in as a new version: the
  -- call reports it, it is the active row of the name, the version before it is there with the time
  -- of its deletion, and every other row is what it was.
  pub register-replaces :
      (b : Bundle) (fresh now : String) (t : Strategies) (previous : Strategy)
      → IsSound t
      → get_by_name b.name t ≡ some previous
      → get_by_id (content_id digest bytes b fresh (get_by_name b.name t)) t ≡ none
      → let id = content_id digest bytes b fresh (get_by_name b.name t) in
        let s = new_strategy b id previous.lineage_id now in
        let r = register digest bytes b fresh now t in
        ((o : RegisterOutcome) × (r.0 ≡ ok o) × (new_version_of o ≡ some s))
        × (get_by_name b.name r.1 ≡ some s)
        × (get_by_id previous.id r.1 ≡ some (set_deleted now previous))
        × ((j : String)
            → (j == previous.id) ≡ false
            → (id == j) ≡ false
            → get_by_id j r.1 ≡ get_by_id j t)
  register-replaces b fresh now t previous sound active free =
      let id = content_id digest bytes b fresh (get_by_name b.name t) in
      let s = new_strategy b id previous.lineage_id now in
      let o = replaced digest bytes b previous s t (after_version previous s now t) in
      let done : register digest bytes b fresh now t ≡ (ok o, after_version previous s now t) =
        registered b fresh now t previous active free
        ∙ register_version-goes b id now previous t sound active free in
      let answer : (register digest bytes b fresh now t).0 ≡ ok o = ap (λ x. x.0) done in
      let after = ap (λ x. x.1) done in
      let (hit, there) = find-Has previous (is_active_name b.name) t active in
      let found =
        find-only previous (has_id previous.id) t (==_refl previous.id) there
          (sound.0 previous.id) in
      (
        (o, answer, refl),
        (register-installed digest bytes b fresh now t o s answer refl).0,
        ap (get_by_id previous.id) after
            ∙ after_version-previous previous s now t (ground (arith, hit)) found,
        λ j other new.
            ap (get_by_id j) after ∙ after_version-get_by_id previous s now j t other new,
      )
