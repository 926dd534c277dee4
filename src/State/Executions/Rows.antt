-- ===== src/State/Executions/Rows.antt =====
-- The row of an action through broadcast, receipt and error.
use onchain_strategy_mcp.Prelude.{
  ℕ, String, Bool, true, Option, none, some, [], ◌∷◌, ◌≡◌, refl, arith, string_eq, nat_eq, ==_refl,
}
use onchain_strategy_mcp.State.Table.{find, find-update, find-append, any-find, any-count}
use onchain_strategy_mcp.State.Executions.{
  ExecutionActionEntry, Executions, is_action, has_id, set_broadcast, set_error, new_broadcast,
  broadcast_row, record_broadcast, record_execution_error,
}

-- The first row of the action.
abbrev pub row_of : String → ℕ → Executions → Option ExecutionActionEntry
row_of run_id idx t = find (is_action run_id idx) t

find_satisfies :
    (p : ExecutionActionEntry → Bool) (t : Executions) (e : ExecutionActionEntry)
    → find p t ≡ some e
    → p e ≡ true
find_satisfies p [] e h = ground (arith, h)
find_satisfies p (x ∷ t) e h = ground (arith, find_satisfies p t e)

broadcast_row-row :
    (o : Option ExecutionActionEntry) (new_id now run_id : String) (idx : ℕ) (signer hash : String)
    (t : Executions)
    → row_of run_id idx t ≡ o
    → (e : ExecutionActionEntry) × (row_of run_id idx
          (broadcast_row o new_id now run_id idx signer hash t).1
        ≡ some e)
      × (e.tx_hash ≡ some hash)
broadcast_row-row none new_id now run_id idx signer hash t found = (
  new_broadcast new_id now run_id idx signer hash,
  ground (
    arith,
    found,
    find-append (is_action run_id idx) t (new_broadcast new_id now run_id idx signer hash ∷ []),
    ==_refl run_id,
    ==_refl idx,
  ),
  refl,
)
broadcast_row-row (some e) new_id now run_id idx signer hash t found = (
  set_broadcast now signer hash e,
  rw
      (find-update (is_action run_id idx) (has_id e.id) (set_broadcast now signer hash) t
        (λ x. refl))
      (rw found (rw (==_refl e.id) refl)),
  refl,
)

record_execution_error-row :
    (new_id now run_id : String) (idx : ℕ) (signer : Option String) (kind : String)
    (detail : Option String) (t : Executions) (e : ExecutionActionEntry)
    → row_of run_id idx t ≡ some e
    → row_of run_id idx (record_execution_error new_id now run_id idx signer kind detail t).1
      ≡ some (set_error now kind detail e)
unfolding record_execution_error
record_execution_error-row new_id now run_id idx signer kind detail t e found =
    let there = any-find (is_action run_id idx) t in
    let counted = any-count (is_action run_id idx) t in
    let updated =
      find-update (is_action run_id idx) (is_action run_id idx) (set_error now kind detail) t
        (λ x. refl) in
    ground (arith, found, there, counted, updated, find_satisfies (is_action run_id idx) t e found)

-- An error after the broadcast of an action keeps the hash of the transaction that was sent, and
-- marks the action as failed with the kind of the error.
pub record_execution_error-record_broadcast :
    (new_id later_id now later run_id : String) (idx : ℕ) (signer hash kind : String)
    (who detail : Option String) (t : Executions)
    → (e : ExecutionActionEntry) × (row_of run_id idx
          (record_execution_error later_id later run_id idx who kind detail
            (record_broadcast new_id now run_id idx signer hash t).1).1
        ≡ some e)
      × (e.tx_hash ≡ some hash)
      × (e.status ≡ "failed")
      × (e.error_kind ≡ some kind)
unfolding record_broadcast
record_execution_error-record_broadcast new_id later_id now later run_id idx signer hash kind who
      detail t =
    let (e, found, hashed) =
      broadcast_row-row (row_of run_id idx t) new_id now run_id idx signer hash t refl in
    (
      set_error later kind detail e,
      record_execution_error-row later_id later run_id idx who kind detail _ e found,
      hashed,
      refl,
      refl,
    )
