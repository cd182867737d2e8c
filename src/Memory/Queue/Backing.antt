-- ===== src/Memory/Queue/Backing.antt =====
-- What stands behind each line of the review queue, as long as the ledgers only grow.
use gpao_t.Prelude.{
  ◌≡◌, String, Bool, true, ◌&&◌, some, [], ◌∷◌, ◌++◌, ◌==◌, any, any-append_left, All, All-append,
}
use gpao_t.Ledger.{ApprovalRecord, AuditRecord, Ledger}
use gpao_t.Ledger.Laws.{appended}
use gpao_t.Memory.Record.{
  Candidate, review_only, Evidence, ApplyRequest, awaiting_approval, Bridge, recorded_local_only,
  Receipt, Apply, applied_local_only, Rollback, rolled_back_local_only, QueueRecord,
  memory_candidate, memory_replay_evidence, memory_apply_request, memory_apply_approval_audit,
  memory_reversible_apply, memory_reversible_apply_rollback, Store,
}
use gpao_t.Memory.Bridge.{explicit_confirmation, proof_of_request}

-- An approval record with this id, and an audit record of it, each with an explicit confirmation.
abbrev pub approves : String → ApprovalRecord → Bool
approves id a = a.id == id && a.confirmation_state == explicit_confirmation

abbrev pub audits_of : String → AuditRecord → Bool
audits_of id u = u.approval_record_id == id && u.user_confirmation_state == explicit_confirmation

pub record IsApprovedIn (ledger : Ledger) (id : String) : Type 0 where
  pub approval : any (approves id) ledger.approvals ≡ true
  pub audit : any (audits_of id) ledger.audits ≡ true

pub record IsBackedBridge (ledger : Ledger) (b : Bridge) : Type 0 where
  pub status : b.status ≡ recorded_local_only
  pub receipt : Receipt
  pub of_bridge : b.receipt ≡ some receipt
  pub approved : IsApprovedIn ledger receipt.approval_record_id

pub record IsBackedApply (ledger : Ledger) (a : Apply) : Type 0 where
  pub status : a.status ≡ applied_local_only
  pub receipt_id : String
  pub of_apply : a.approval_receipt_id ≡ some receipt_id
  pub approved : IsApprovedIn ledger receipt_id

-- A candidate is kept for review; a request awaits its approval with an independent proof; a bridge
-- and an apply have their approval and its audit in the ledgers; a rollback has been done.
pub data IsBacked (ledger : Ledger) : QueueRecord → Type 0 where
  candidate_backed : (c : Candidate) → c.status ≡ review_only → IsBacked ledger (memory_candidate c)
  evidence_backed : (e : Evidence) → IsBacked ledger (memory_replay_evidence e)
  request_backed :
      (r : ApplyRequest)
      → r.status ≡ awaiting_approval
      → proof_of_request (some r) ≡ true
      → IsBacked ledger (memory_apply_request r)
  bridge_backed :
      (b : Bridge) → IsBackedBridge ledger b → IsBacked ledger (memory_apply_approval_audit b)
  apply_backed : (a : Apply) → IsBackedApply ledger a → IsBacked ledger (memory_reversible_apply a)
  rollback_backed :
      (r : Rollback)
      → r.status ≡ rolled_back_local_only
      → IsBacked ledger (memory_reversible_apply_rollback r)

pub record IsSound (store : Store) : Type 0 where
  pub backed : All (IsBacked store.ledger) store.queue

IsApprovedIn-appended :
    (ledger : Ledger) (a : ApprovalRecord) (u : AuditRecord) (id : String)
    → IsApprovedIn ledger id
    → IsApprovedIn (appended ledger a u) id
IsApprovedIn-appended ledger a u id h = record {
  approval = any-append_left (approves id) ledger.approvals (a ∷ []) h.approval;
  audit = any-append_left (audits_of id) ledger.audits (u ∷ []) h.audit;
}

pub IsBacked-appended :
    (ledger : Ledger) (a : ApprovalRecord) (u : AuditRecord) (q : QueueRecord)
    → IsBacked ledger q
    → IsBacked (appended ledger a u) q
IsBacked-appended ledger a u _ (candidate_backed c h) = candidate_backed c h
IsBacked-appended ledger a u _ (evidence_backed e) = evidence_backed e
IsBacked-appended ledger a u _ (request_backed r h k) = request_backed r h k
IsBacked-appended ledger a u _ (bridge_backed b h) = bridge_backed b (record {
  status = h.status;
  receipt = h.receipt;
  of_bridge = h.of_bridge;
  approved = IsApprovedIn-appended ledger a u h.receipt.approval_record_id h.approved;
})
IsBacked-appended ledger a u _ (apply_backed p h) = apply_backed p (record {
  status = h.status;
  receipt_id = h.receipt_id;
  of_apply = h.of_apply;
  approved = IsApprovedIn-appended ledger a u h.receipt_id h.approved;
})
IsBacked-appended ledger a u _ (rollback_backed r h) = rollback_backed r h

-- A backed line may be appended, with whatever cells.
pub IsSound-enqueue :
    (store : Store) (q : QueueRecord)
    → IsSound store
    → IsBacked store.ledger q
    → All (IsBacked store.ledger) (store.queue ++ q ∷ [])
IsSound-enqueue store q h k =
    All-append (IsBacked store.ledger) store.queue (q ∷ []) h.backed (k, tt)
