-- ===== src/Memory/Readback.antt =====
-- src/core/memory-candidate-review-queue.js: `validateApprovalLedgerReceipt`, which reads an
-- approval receipt back from the newest 500 records of both ledgers.
use gpao_t.Prelude.{
  String, Bool, false, not, ◌||◌, Option, none, some, List, [], ◌∷◌, ◌==◌, if◌then◌else◌, find,
  same_text, collect,
}
use gpao_t.Ledger.{
  Proposal, ApprovalRecord, AuditRecord, Ledger, read_approval_records, read_audit_records,
}
use gpao_t.Memory.Record.{Env, Receipt, Bridge}
use gpao_t.Memory.Replay.{is_none}
use gpao_t.Memory.Bridge.{explicit_confirmation}

abbrev approval_fails : (ApprovalRecord → Bool) → Option ApprovalRecord → Bool
approval_fails p none = false
approval_fails p (some a) = not (p a)

abbrev audit_fails : (AuditRecord → Bool) → Option AuditRecord → Bool
audit_fails p none = false
audit_fails p (some u) = not (p u)

-- `approvalAuditBridge?.proposal?.expectedEffect`
abbrev pub is_effect : Option Proposal → String → Bool
is_effect none effect = false
is_effect (some p) effect = effect == p.expected_effect

-- The tests of `validateApprovalLedgerReceipt` once its two early returns are passed.
unfoldable pub readback_checks :
    Bridge → Receipt → Option ApprovalRecord → Option AuditRecord → List (Bool × String)
readback_checks b r approval audit =
    (is_none approval, "approval_record_not_found_in_ledger")
    ∷ (is_none audit, "audit_record_not_found_in_ledger")
    ∷ (
      approval_fails (λ a. a.proposal_id == r.proposal_id) approval,
      "approval_ledger_proposal_mismatch",
    )
    ∷ (
      approval_fails (λ a. a.confirmation_state == explicit_confirmation) approval,
      "approval_ledger_confirmation_not_explicit",
    )
    ∷ (
      approval_fails (λ a. is_effect b.proposal a.expected_effect) approval,
      "approval_ledger_binding_trace_mismatch",
    )
    ∷ (
      audit_fails (λ u. u.approval_record_id == r.approval_record_id) audit,
      "audit_ledger_approval_record_mismatch",
    )
    ∷ (audit_fails (λ u. u.proposal_id == r.proposal_id) audit, "audit_ledger_proposal_mismatch")
    ∷ (
      audit_fails (λ u. u.user_confirmation_state == explicit_confirmation) audit,
      "audit_ledger_confirmation_not_explicit",
    )
    ∷ (
      audit_fails (λ u. is_effect b.proposal u.expected_effect) audit,
      "audit_ledger_binding_trace_mismatch",
    )
    ∷ (
      not (same_text r.candidate_id b.binding.candidate_id),
      "approval_receipt_binding_candidate_mismatch",
    )
    ∷ (not (same_text r.target_id b.binding.target_id), "approval_receipt_binding_target_mismatch")
    ∷ (
      not (same_text r.target_scope b.binding.target_scope),
      "approval_receipt_binding_scope_mismatch",
    )
    ∷ (
      not (same_text r.user_turn_ref b.binding.user_turn_ref),
      "approval_receipt_binding_user_turn_mismatch",
    )
    ∷ (
      not (same_text r.approval_reference b.binding.approval_reference),
      "approval_receipt_binding_reference_mismatch",
    )
    ∷ []

unfoldable pub find_approval : Ledger → String → Option ApprovalRecord
unfolding read_approval_records
find_approval ledger id = find (λ r. r.id == id) (read_approval_records ledger 500)

unfoldable pub find_audit : Ledger → String → Option AuditRecord
unfolding read_audit_records
find_audit ledger id = find (λ r. r.id == id) (read_audit_records ledger 500)

abbrev pub receipt_ids_missing : Receipt → Bool
receipt_ids_missing r = r.approval_record_id == "" || r.audit_record_id == ""

unfoldable pub readback : Ledger → Bridge → Option Receipt → List String
unfolding readback_checks find_approval find_audit
readback ledger b none = "approval_ledger_receipt_ids_missing" ∷ []
readback ledger b (some r) =
    if receipt_ids_missing r
    then "approval_ledger_receipt_ids_missing" ∷ []
    else collect (
        readback_checks b r (find_approval ledger r.approval_record_id)
          (find_audit ledger r.audit_record_id))

-- `validateApprovalLedgerReceipt`
unfoldable pub ledger_findings : Env → Ledger → Option Bridge → List String
unfolding readback
ledger_findings env ledger bridge =
    if not env.root_given then "approval_ledger_readback_required" ∷ [] else elim bridge [
      | none ↦ "approval_ledger_receipt_ids_missing" ∷ []
      | some b ↦ readback ledger b b.receipt
    ]
