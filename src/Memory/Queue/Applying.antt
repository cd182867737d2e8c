-- ===== src/Memory/Queue/Applying.antt =====
-- What `appendMemoryReversibleApply` answers and leaves.
use gpao_t.Prelude.{
  ◌≡◌, refl, sym, subst, true, false, Option, none, some, [], ◌∷◌, ◌++◌, is_empty, Bool-cases, inl,
  inr,
}
use gpao_t.Ledger.{Ledger}
use gpao_t.Memory.Record.{
  Env, Receipt, ApplyRequest, ProposedChange, Bridge, Apply, ApplyStatus, applied_local_only,
  ApplyResult, memory_reversible_apply, Store,
}
use gpao_t.Memory.Checks.{apply_checks, validate_apply}
use gpao_t.Memory.Apply.{cell_for, candidate_for, build_apply}
use gpao_t.Memory.Apply.Authority.{IsAuthorized, IsAuthorized-of_clear, change_of_validate}
use gpao_t.Memory.Queue.{append_apply, finish_apply, write_applied}

-- An apply either stands on its authority, and then appends one cell of its request and bridge and
-- records itself with that cell's id, or it gives its findings and leaves the store.
pub data Applied (env : Env) (request : Option ApplyRequest) (bridge : Option Bridge)
    (store : Store) : Apply × Store → Type 0 where
  appended :
      (r : ApplyRequest) (b : Bridge) (c : ProposedChange) (a : Apply) (result : ApplyResult)
      → request ≡ some r
      → bridge ≡ some b
      → r.proposed_change ≡ some c
      → (authority : IsAuthorized store.ledger r b)
      → a.approval_receipt_id ≡ some authority.receipt.approval_record_id
      → a.status ≡ applied_local_only
      → a.result ≡ some result
      → result.applied_candidate_id ≡ (cell_for env r c b).id
      → Applied env request bridge store (
        a,
        record store {
          cells = store.cells ++ cell_for env r c b ∷ [];
          queue = store.queue ++ memory_reversible_apply a ∷ [];
        },
      )
  refused :
      (a : Apply)
      → a.status ≡ ApplyStatus.blocked
      → is_empty a.findings ≡ false
      → a.result ≡ none
      → Applied env request bridge store (a, store)

append_apply-blocked :
    (env : Env) (request : Option ApplyRequest) (bridge : Option Bridge) (store : Store)
    → is_empty (validate_apply env store.ledger request bridge) ≡ false
    → Applied env request bridge store (append_apply env request bridge store)
unfolding append_apply build_apply candidate_for
append_apply-blocked env request bridge store h =
    let e : (build_apply env store.ledger request bridge).proposed_candidate ≡ none = rw h in
    subst
      (λ o.
        Applied env request bridge store
          (finish_apply (build_apply env store.ledger request bridge) o store))
      (sym e) (refused (build_apply env store.ledger request bridge) (rw h) h refl)

receipt_id_of :
    (env : Env) (ledger : Ledger) (request : Option ApplyRequest) (b : Bridge) (receipt : Receipt)
    → b.receipt ≡ some receipt
    → (build_apply env ledger request (some b)).approval_receipt_id
      ≡ some receipt.approval_record_id
unfolding build_apply
receipt_id_of env ledger request b receipt h = rw h refl

append_apply-clear :
    (env : Env) (r : ApplyRequest) (b : Bridge) (c : ProposedChange) (store : Store)
    → r.proposed_change ≡ some c
    → is_empty (validate_apply env store.ledger (some r) (some b)) ≡ true
    → Applied env (some r) (some b) store (append_apply env (some r) (some b) store)
unfolding append_apply build_apply candidate_for write_applied
append_apply-clear env r b c store e h =
    let preview = build_apply env store.ledger (some r) (some b) in
    let authority = IsAuthorized-of_clear env store.ledger r b h in
    let found : preview.proposed_candidate ≡ some (cell_for env r c b) = rw (h, e) in
    subst (λ o. Applied env (some r) (some b) store (finish_apply preview o store)) (sym found)
      (appended r b c _ _ refl refl e authority
        (receipt_id_of env store.ledger (some r) b authority.receipt authority.of_bridge) refl refl
        refl)

validate_apply-missing_request :
    (env : Env) (ledger : Ledger) (bridge : Option Bridge)
    → is_empty (validate_apply env ledger none bridge) ≡ false
unfolding validate_apply apply_checks
validate_apply-missing_request env ledger bridge = refl

validate_apply-missing_bridge :
    (env : Env) (ledger : Ledger) (r : ApplyRequest)
    → is_empty (validate_apply env ledger (some r) none) ≡ false
unfolding validate_apply apply_checks
validate_apply-missing_bridge env ledger r = refl

-- An apply appends exactly one cell, made of its request and bridge, and records itself with that
-- cell's id, only with an awaiting request, an independent proof, the Context Mesh target, a
-- recorded bridge, a receipt for the same candidate, target and scope, and its confirmed approval
-- and audit among the newest 500 ledger records; any other apply is blocked with findings and
-- leaves the store.
pub append_apply-Applied :
    (env : Env) (request : Option ApplyRequest) (bridge : Option Bridge) (store : Store)
    → Applied env request bridge store (append_apply env request bridge store)
append_apply-Applied env none bridge store =
    append_apply-blocked env none bridge store
      (validate_apply-missing_request env store.ledger bridge)
append_apply-Applied env (some r) none store =
    append_apply-blocked env (some r) none store (validate_apply-missing_bridge env store.ledger r)
append_apply-Applied env (some r) (some b) store =
    elim (Bool-cases (is_empty (validate_apply env store.ledger (some r) (some b)))) [
      | inl h ↦
          let (c, e) = change_of_validate env store.ledger r (some b) h in
          append_apply-clear env r b c store e h
      | inr h ↦ append_apply-blocked env (some r) (some b) store h
    ]
