-- ===== src/Memory/Bridge.antt =====
-- src/core/memory-candidate-review-queue.js: an explicit approval, bound to an apply request, and its
-- record in both ledgers.
pub mod Approving
use gpao_t.Prelude.{
  String, Bool, true, false, not, ◌&&◌, Option, none, some, List, [], ◌∷◌, ◌++◌, ◌==◌,
  if◌then◌else◌, or_null, append, truthy, is_text, collect, is_empty, trim,
}
use gpao_t.Ledger
use gpao_t.Ledger.{Proposal, ApprovalRecord, AuditRecord, Ledger, WriteResult, write_local_records}
use gpao_t.Memory.Words.{binding_trace}
use gpao_t.Memory.Record.{
  Env, RequestStatus, TargetPolicy, ApplyRequest, ApprovalInput, Binding, Receipt, BridgeStatus,
  record_ready, recorded_local_only, Bridge,
}
use gpao_t.Memory.Replay.{is_none, is_independent_proof}

abbrev pub explicit_confirmation : String
explicit_confirmation = "explicit_user_approval_recorded"

abbrev no_approval : ApprovalInput
no_approval = record {
  decision = "";
  candidate_id = "";
  target_id = "";
  target_scope = "";
  user_turn_ref = "";
  approval_reference = "";
  source = "";
}

abbrev or_no_approval : Option ApprovalInput → ApprovalInput
or_no_approval none = no_approval
or_no_approval (some a) = a

unfoldable pub normalize_binding : Option ApprovalInput → Binding
normalize_binding approval =
    let a = or_no_approval approval in
    record {
      decision = or_null a.decision;
      candidate_id = or_null a.candidate_id;
      target_id = or_null a.target_id;
      target_scope = or_null a.target_scope;
      user_turn_ref = or_null (trim a.user_turn_ref);
      approval_reference = or_null (trim a.approval_reference);
    }

-- `value.candidateId && value.candidateId !== applyRequest?.candidateId`
unfoldable pub candidate_differs : Option String → Option ApplyRequest → Bool
candidate_differs none request = false
candidate_differs (some id) none = true
candidate_differs (some id) (some r) = not (is_text r.candidate_id id)

-- `value.target.id !== applyRequest?.target?.id`: null is not undefined.
unfoldable pub target_differs : Option String → Option ApplyRequest → Bool
target_differs id none = true
target_differs id (some r) = not (is_text id r.target.id)

unfoldable pub scope_differs : Option String → Option ApplyRequest → Bool
scope_differs scope none = true
scope_differs scope (some r) = not (is_text scope r.target.scope)

unfoldable pub binding_checks : Option ApprovalInput → Option ApplyRequest → List (Bool × String)
unfolding candidate_differs target_differs scope_differs normalize_binding
binding_checks approval request =
    let a = or_no_approval approval in
    let value = normalize_binding approval in
    (is_none approval, "explicit_user_approval_missing")
    ∷ (truthy a.source && not (truthy a.user_turn_ref), "caller_declared_source_is_not_approval")
    ∷ (not (is_text value.decision "approved"), "explicit_user_approval_decision_missing")
    ∷ (is_none value.candidate_id, "approval_candidate_id_missing")
    ∷ (candidate_differs value.candidate_id request, "approval_candidate_mismatch")
    ∷ (target_differs value.target_id request, "approval_target_mismatch")
    ∷ (scope_differs value.target_scope request, "approval_scope_mismatch")
    ∷ (is_none value.user_turn_ref, "explicit_user_turn_ref_missing")
    ∷ (is_none value.approval_reference, "approval_reference_missing")
    ∷ []

abbrev pub is_blocked : Option ApplyRequest → Bool
is_blocked none = false
is_blocked (some r) = elim r.status [ RequestStatus.blocked ↦ true | _ ↦ false ]

abbrev pub lacks_plan : Option ApplyRequest → Bool
lacks_plan none = true
lacks_plan (some r) = is_none r.rollback_plan

unfoldable pub proof_of_request : Option ApplyRequest → Bool
unfolding is_independent_proof
proof_of_request none = false
proof_of_request (some r) = is_independent_proof r.replay_proof.proof

unfoldable pub bridge_checks : Option ApplyRequest → List (Bool × String)
unfolding proof_of_request
bridge_checks request =
    (is_none request, "apply_request_missing")
    ∷ (is_blocked request, "apply_request_blocked")
    ∷ (lacks_plan request, "rollback_receipt_missing")
    ∷ (not (proof_of_request request), "independent_replay_proof_missing")
    ∷ []

abbrev plan_action : ApplyRequest → String
plan_action r = elim r.rollback_plan [ none ↦ "" | some plan ↦ plan.rollback_action ]

-- `buildApprovalProposalFromApplyRequest`
unfoldable pub proposal_for : ApplyRequest → Binding → Proposal
unfolding binding_trace
proposal_for r binding = record {
  id = append "proposal." r.id;
  source = "gpao_t.memory_apply_request";
  tool_kind = "memory";
  action_type = "write";
  authority_level = "write";
  expected_effect = append "Record bound memory apply approval without target mutation. binding=" (
      binding_trace r.candidate_id r.target.id r.target.scope binding.user_turn_ref
        binding.approval_reference);
  risk =
      "User may confuse local approval/audit record with actual memory application, so apply engine remains blocked.";
  rollback_reference = plan_action r;
  target = r.target.id;
  target_scope = r.target.scope;
  apply_request_id = r.id;
  candidate_id = r.candidate_id;
  user_turn_ref = binding.user_turn_ref;
  approval_reference = binding.approval_reference;
}

abbrev pub request_id_or : Option ApplyRequest → String → String
request_id_or none d = d
request_id_or (some r) d = if r.id == "" then d else r.id

abbrev pub request_id : Option ApplyRequest → Option String
request_id none = none
request_id (some r) = or_null r.id

abbrev pub request_candidate_id : Option ApplyRequest → Option String
request_candidate_id none = none
request_candidate_id (some r) = r.candidate_id

abbrev pub request_target : Option ApplyRequest → Option TargetPolicy
request_target none = none
request_target (some r) = some r.target

unfoldable pub proposed : Bool → Option ApplyRequest → Binding → Option Proposal
unfolding proposal_for
proposed true (some r) binding = some (proposal_for r binding)
proposed _ _ binding = none

-- `buildMemoryApplyApprovalAuditBridge`
unfoldable pub build_bridge : Env → Option ApplyRequest → Option ApprovalInput → Bridge
unfolding bridge_checks binding_checks normalize_binding proposed
build_bridge env request approval =
    let findings = collect (bridge_checks request) ++ collect (binding_checks approval request) in
    let clear = is_empty findings in
    let binding = normalize_binding approval in
    record {
      id = append "memapproval." (append env.millis (append "." (request_id_or request "unknown")));
      created_at = env.now;
      status = if clear then record_ready else BridgeStatus.blocked;
      apply_request_id = request_id request;
      candidate_id = request_candidate_id request;
      target = request_target request;
      binding = binding;
      proposal = proposed clear request binding;
      receipt = none;
      writes_now = false;
      approval_record_id = none;
      audit_record_id = none;
      findings = findings;
    }

unfoldable pub clock_of : Env → Ledger.Clock
clock_of env = record { now = env.now; wall = env.wall }

-- `ledgerVerified`, of a write that was accepted.
unfoldable pub is_verified : Proposal → ApprovalRecord → AuditRecord → Bool → Bool
is_verified p a u ready =
    ready
    && a.proposal_id == p.id
    && a.confirmation_state == explicit_confirmation
    && a.expected_effect == p.expected_effect
    && u.approval_record_id == a.id
    && u.user_confirmation_state == explicit_confirmation
    && u.expected_effect == p.expected_effect

unfoldable pub receipt_for : Bridge → Proposal → String → ApprovalRecord → AuditRecord → Receipt
receipt_for b p request_id a u = record {
  candidate_id = b.binding.candidate_id;
  target_id = b.binding.target_id;
  target_scope = b.binding.target_scope;
  user_turn_ref = b.binding.user_turn_ref;
  approval_reference = b.binding.approval_reference;
  apply_request_id = request_id;
  proposal_id = p.id;
  approval_record_id = a.id;
  audit_record_id = u.id;
  replay_ready = true;
}

-- The bridge after the write: recorded with its receipt, or blocked.
unfoldable pub record_write : Bridge → Proposal → String → WriteResult → Bridge
unfolding is_verified receipt_for
record_write b p request_id (WriteResult.blocked findings) = record b {
  status = BridgeStatus.blocked;
  findings = findings;
}
record_write b p request_id (WriteResult.written_local_only a u r) =
    let verified = is_verified p a u r.ready in
    record b {
      status = if verified then recorded_local_only else BridgeStatus.blocked;
      receipt = if verified then some (receipt_for b p request_id a u) else none;
      writes_now = verified;
      approval_record_id = or_null a.id;
      audit_record_id = or_null u.id;
      findings = if verified then [] else "approval_receipt_or_ledger_verification_failed" ∷ [];
    }
