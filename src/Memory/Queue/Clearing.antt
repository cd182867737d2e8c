-- ===== src/Memory/Queue/Clearing.antt =====
-- What clears the tests of an apply: a receipt that is for its request, and its records in the ledgers.
use gpao_t.Prelude.{
  ◌≡◌, ◌≢◌, refl, sym, subst, String, true, false, Option, none, some, [], ◌==◌, is_empty, collect,
  AllClear, empty_of_clear, arith, eq_iff, eq_refl, same_text,
}
use gpao_t.Ledger.{read_approval_records, read_audit_records, ApprovalRecord, AuditRecord, Ledger}
use gpao_t.Ledger.Laws.{appended, newest_of_appended}
use gpao_t.Memory.Record.{
  Env, ApplyRequest, ProposedChange, awaiting_approval, recorded_local_only, Bridge, Receipt,
}
use gpao_t.Memory.Replay.{is_none}
use gpao_t.Memory.Bridge.{proof_of_request, request_id}
use gpao_t.Memory.Readback.{
  readback_checks, readback, find_approval, find_audit, receipt_ids_missing, ledger_findings,
}
use gpao_t.Memory.Checks.{apply_checks, change_checks, validate_apply, both_differ}
use gpao_t.Memory.Apply.Authority.{IsReadBack}

same_text_refl : (o : Option String) → same_text o o ≡ true
same_text_refl none = refl
same_text_refl (some s) = eq_refl s

both_differ_refl : (o : Option String) → both_differ o o ≡ false
both_differ_refl none = refl
both_differ_refl (some s) = rw (eq_refl s) refl

-- The records that a receipt names pass the tests of the read-back.
readback_checks-clear :
    (b : Bridge) (r : Receipt) (a : ApprovalRecord) (u : AuditRecord)
    → IsReadBack b r a u
    → AllClear (readback_checks b r (some a) (some u))
unfolding readback_checks
readback_checks-clear b r a u h = (
  refl,
  (
    refl,
    (
      rw (h.approval_proposal, eq_refl r.proposal_id) refl,
      (
        rw (h.approval_confirmation) refl,
        (
          rw (h.of_bridge, h.approval_effect, eq_refl h.proposal.expected_effect) refl,
          (
            rw (h.audit_approval, eq_refl r.approval_record_id) refl,
            (
              rw (h.audit_proposal, eq_refl r.proposal_id) refl,
              (
                rw (h.audit_confirmation) refl,
                (
                  rw (h.of_bridge, h.audit_effect, eq_refl h.proposal.expected_effect) refl,
                  (
                    rw (h.candidate, same_text_refl b.binding.candidate_id) refl,
                    (
                      rw (h.target, same_text_refl b.binding.target_id) refl,
                      (
                        rw (h.scope, same_text_refl b.binding.target_scope) refl,
                        (
                          rw (h.user_turn, same_text_refl b.binding.user_turn_ref) refl,
                          (rw (h.reference, same_text_refl b.binding.approval_reference) refl, tt),
                        ),
                      ),
                    ),
                  ),
                ),
              ),
            ),
          ),
        ),
      ),
    ),
  ),
)

-- A request and a bridge whose receipt is for it.
pub record IsFor (r : ApplyRequest) (b : Bridge) (rc : Receipt) : Type 0 where
  pub awaiting : r.status ≡ awaiting_approval
  pub proof : proof_of_request (some r) ≡ true
  pub target : r.target.id ≡ "context_mesh_candidate"
  pub recorded : b.status ≡ recorded_local_only
  pub of_request : b.apply_request_id ≡ request_id (some r)
  pub of_candidate : b.candidate_id ≡ r.candidate_id
  pub of_bridge : b.receipt ≡ some rc
  pub receipt_candidate : rc.candidate_id ≡ r.candidate_id
  pub receipt_target : rc.target_id ≡ some r.target.id
  pub receipt_scope : rc.target_scope ≡ some r.target.scope
  pub user_turn : is_none rc.user_turn_ref ≡ false
  pub reference : is_none rc.approval_reference ≡ false

apply_checks-clear :
    (r : ApplyRequest) (b : Bridge) (rc : Receipt)
    → IsFor r b rc
    → AllClear (apply_checks (some r) (some b))
unfolding apply_checks
apply_checks-clear r b rc h = (
  refl,
  (
    refl,
    (
      rw (h.awaiting) refl,
      (
        rw (h.recorded) refl,
        (
          rw (h.proof) refl,
          (
            rw (h.target) refl,
            (
              rw (h.of_request, both_differ_refl (request_id (some r))) refl,
              (
                rw (h.of_candidate, both_differ_refl r.candidate_id) refl,
                (
                  rw (h.of_bridge) refl,
                  (
                    rw (h.of_bridge, h.receipt_candidate, same_text_refl r.candidate_id) refl,
                    (
                      rw (h.of_bridge, h.receipt_target, eq_refl r.target.id) refl,
                      (
                        rw (h.of_bridge, h.receipt_scope, eq_refl r.target.scope) refl,
                        (rw (h.of_bridge, h.user_turn, h.reference) refl, tt),
                      ),
                    ),
                  ),
                ),
              ),
            ),
          ),
        ),
      ),
    ),
  ),
)

-- The newest of the ledgers are found under their ids.
pub find_approval-appended :
    (ledger : Ledger) (a : ApprovalRecord) (u : AuditRecord)
    → find_approval (appended ledger a u) a.id ≡ some a
unfolding find_approval read_approval_records
find_approval-appended ledger a u =
    rw (newest_of_appended 499 ledger.approvals a) (rw (eq_refl a.id) refl)

pub find_audit-appended :
    (ledger : Ledger) (a : ApprovalRecord) (u : AuditRecord)
    → find_audit (appended ledger a u) u.id ≡ some u
unfolding find_audit read_audit_records
find_audit-appended ledger a u =
    rw (newest_of_appended 499 ledger.audits u) (rw (eq_refl u.id) refl)

pub test_of_nonempty : (s : String) → s ≢ "" → (s == "") ≡ false
test_of_nonempty s h = ground (arith, eq_iff s "")

pub readback-clear :
    (ledger : Ledger) (b : Bridge) (rc : Receipt) (a : ApprovalRecord) (u : AuditRecord)
    → receipt_ids_missing rc ≡ false
    → find_approval ledger rc.approval_record_id ≡ some a
    → find_audit ledger rc.audit_record_id ≡ some u
    → IsReadBack b rc a u
    → readback ledger b (some rc) ≡ []
unfolding readback
readback-clear ledger b rc a u named fa fu h =
    rw (named, fa, fu)
      (empty_of_clear (readback_checks b rc (some a) (some u)) (readback_checks-clear b rc a u h))

pub ledger_findings-clear :
    (env : Env) (ledger : Ledger) (b : Bridge) (rc : Receipt)
    → env.root_given ≡ true
    → b.receipt ≡ some rc
    → readback ledger b (some rc) ≡ []
    → ledger_findings env ledger (some b) ≡ []
unfolding ledger_findings
ledger_findings-clear env ledger b rc given e h =
    rw given (subst (λ o. readback ledger b o ≡ []) (sym e) h)

pub change_checks-clear :
    (r : ApplyRequest) (c : ProposedChange)
    → is_none r.rollback_plan ≡ false
    → r.proposed_change ≡ some c
    → c.operating_principle ≢ ""
    → collect (change_checks (some r)) ≡ []
unfolding change_checks
change_checks-clear r c planned e n = rw (planned, e, test_of_nonempty c.operating_principle n) refl

pub validate_apply-clear :
    (env : Env) (ledger : Ledger) (r : ApplyRequest) (b : Bridge) (rc : Receipt)
    → IsFor r b rc
    → ledger_findings env ledger (some b) ≡ []
    → collect (change_checks (some r)) ≡ []
    → is_empty (validate_apply env ledger (some r) (some b)) ≡ true
unfolding validate_apply
validate_apply-clear env ledger r b rc h k l =
    rw (empty_of_clear (apply_checks (some r) (some b)) (apply_checks-clear r b rc h), k, l) refl
