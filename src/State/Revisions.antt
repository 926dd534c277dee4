-- ===== src/State/Revisions.antt =====
-- crates/executor-state/src/policy_revisions.rs: the history of policies, of which one is active. The
-- identifier and the time that a call mints are arguments.
use onchain_strategy_mcp.Prelude.{
  ◌≤◌, String, Bool, true, false, Option, none, some, List, [], ◌∷◌, ◌++◌, ◌≡◌, refl, ap, sym, inl,
  inr, ◌==◌, string_eq, any, arith, Bool-cases,
}
use onchain_strategy_mcp.Prelude.Text.{Text}
use onchain_strategy_mcp.Prelude.Result.{Result, ok, err}
use onchain_strategy_mcp.State.Table.{find, count, update}
use onchain_strategy_mcp.State.Keys.{UniqueKeys, UniqueKeys-append, UniqueKeys-update}
use onchain_strategy_mcp.State.Error.{StateError, storage, primary_key, unique_index, Call}

pub record PolicyRow : Type 0 where
  pub revision_id : String
  pub body_json : Text
  pub rationale : Option String
  pub set_at : String
  pub is_active : Bool

pub record PolicyRevision : Type 0 where
  pub revision_id : String
  pub body_json : Text
  pub rationale : Option String
  pub set_at : String

abbrev pub Policies : Type 0
Policies = List PolicyRow

abbrev pub is_active : PolicyRow → Bool
is_active r = r.is_active

abbrev pub has_id : String → PolicyRow → Bool
has_id id r = r.revision_id == id

abbrev pub deactivate : PolicyRow → PolicyRow
deactivate r = record r { is_active = false }

abbrev pub revision_of : PolicyRow → PolicyRevision
revision_of r = record {
  revision_id = r.revision_id;
  body_json = r.body_json;
  rationale = r.rationale;
  set_at = r.set_at;
}

-- The INSERT, with the primary key and the partial unique index on active rows; the first table is
-- the one that a failure rolls back to.
abbrev pub commit_unless :
    (taken second : Bool) → Policies → PolicyRow → Call Policies PolicyRevision
commit_unless true second before row t = (err (storage primary_key), before)
commit_unless false true before row t = (err (storage unique_index), before)
commit_unless false false before row t = (ok (revision_of row), t ++ row ∷ [])

abbrev pub insert_or_rollback : Policies → PolicyRow → Call Policies PolicyRevision
insert_or_rollback before row t =
    commit_unless (any (has_id row.revision_id) t) (any is_active t) before row t

unfoldable pub set_active : String → String → Text → Option String → Call Policies PolicyRevision
set_active new_id now body_json rationale t =
    insert_or_rollback t
      record {
        revision_id = new_id;
        body_json = body_json;
        rationale = rationale;
        set_at = now;
        is_active = true;
      }
      (update is_active deactivate t)

abbrev pub optional_revision : Option PolicyRow → Option PolicyRevision
optional_revision none = none
optional_revision (some r) = some (revision_of r)

unfoldable pub get_active : Policies → Option PolicyRevision
get_active t = optional_revision (find is_active t)

-- Revisions have identifiers of their own, and one is active at most.
abbrev pub IsSound : Policies → Type 0
IsSound t = UniqueKeys (λ r. r.revision_id) t × (count is_active t ≤ 1)

deactivated : (t : Policies) → any is_active (update is_active deactivate t) ≡ false
deactivated [] = refl
deactivated (r ∷ t) = ground (arith, deactivated t)

count_of_none : (t : Policies) → any is_active t ≡ false → count is_active t ≡ 0
count_of_none [] h = refl
count_of_none (r ∷ t) h = ground (arith, count_of_none t)

count-append :
    (t : Policies) (r : PolicyRow) → count is_active t ≡ 0 → count is_active (t ++ r ∷ []) ≤ 1
count-append [] r h = ground arith
count-append (x ∷ t) r h = ground (arith, count-append t r, h)

-- Whether it is committed or rolled back, setting a policy keeps the table sound.
pub set_active-IsSound :
    (new_id now : String) (body_json : Text) (rationale : Option String) (t : Policies)
    → IsSound t
    → IsSound (set_active new_id now body_json rationale t).1
unfolding set_active
set_active-IsSound new_id now body_json rationale t s =
    let cleared = update is_active deactivate t in
    elim (Bool-cases (any (has_id new_id) cleared)) [
      | inl taken ↦ rw taken s
      | inr fresh ↦
          rw (fresh, deactivated t)
            (
              UniqueKeys-append (λ r. r.revision_id) cleared _
                  (UniqueKeys-update (λ r. r.revision_id) is_active deactivate t (λ r. refl) s.0)
                  fresh,
              count-append cleared _ (count_of_none cleared (deactivated t)),
            )
    ]

-- What is active after a call: the revision that it answers with, or what was active before it.
abbrev pub active_after : Result StateError PolicyRevision → Policies → Option PolicyRevision
active_after (ok r) t = some r
active_after (err e) t = get_active t

find_last :
    (t : Policies) (r : PolicyRow)
    → any is_active t ≡ false
    → r.is_active ≡ true
    → find is_active (t ++ r ∷ []) ≡ some r
find_last [] r h k = rw k refl
find_last (x ∷ t) r h k = ground (arith, find_last t r, h, k)

-- After a policy is set, the active revision is the one that the call answers with, and it is the one
-- that was active before if the call fails.
pub get_active-set_active :
    (new_id now : String) (body_json : Text) (rationale : Option String) (t : Policies)
    → get_active (set_active new_id now body_json rationale t).1
      ≡ active_after (set_active new_id now body_json rationale t).0 t
unfolding set_active get_active
get_active-set_active new_id now body_json rationale t =
    let cleared = update is_active deactivate t in
    elim (Bool-cases (any (has_id new_id) cleared)) [
      | inl taken ↦ rw taken refl
      | inr fresh ↦
          rw (fresh, deactivated t)
            (ap optional_revision (find_last cleared _ (deactivated t) refl))
    ]

-- The revision that a call answers with has the body that it was given.
pub set_active-body :
    (new_id now : String) (body_json : Text) (rationale : Option String) (t : Policies)
    (r : PolicyRevision)
    → (set_active new_id now body_json rationale t).0 ≡ ok r
    → r.body_json ≡ body_json
unfolding set_active
set_active-body new_id now body_json rationale t r h =
    let cleared = update is_active deactivate t in
    committed (any (has_id new_id) cleared) (any is_active cleared) t _ cleared r h
  where
    committed :
        (taken second : Bool) (before : Policies) (row : PolicyRow) (u : Policies)
        (q : PolicyRevision)
        → (commit_unless taken second before row u).0 ≡ ok q
        → q.body_json ≡ row.body_json
    committed true second before row u q k = absurd (cc k)
    committed false true before row u q k = absurd (cc k)
    committed false false before row u q k =
        let same : revision_of row ≡ q = cc k in sym (ap (λ x. x.body_json) same)
