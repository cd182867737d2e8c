-- ===== src/Memory/Apply.antt =====
-- src/core/memory-candidate-review-queue.js: the cell that an apply appends, and the preview of a
-- reversible apply.
pub mod Authority
use gpao_t.Prelude.{
  String, Bool, true, Option, none, some, List, [], ◌∷◌, ◌++◌, if◌then◌else◌, or_text, append,
  truthy, filter, is_empty,
}
use gpao_t.Cell.{Cell, empty_replay, empty_trace}
use gpao_t.Ledger.{Ledger}
use gpao_t.Memory.Record.{
  Env, ProposedChange, ApplyRequest, Receipt, Bridge, ApplyStatus, ready_to_apply, ApplyPlan, Apply,
}
use gpao_t.Memory.Candidate.{slug}
use gpao_t.Memory.Bridge.{request_id, request_id_or, request_candidate_id, request_target}
use gpao_t.Memory.Checks.{receipt_of, validate_apply}

abbrev or_empty : Option String → String
or_empty none = ""
or_empty (some s) = s

abbrev shown : Option String → String
shown none = "null"
shown (some s) = s

abbrev or_conditions : List String → List String
or_conditions [] = "current user request conflicts with this candidate" ∷ []
or_conditions (c ∷ cs) = c ∷ cs

abbrev receipt_text : (Receipt → Option String) → Option Receipt → String
receipt_text f none = ""
receipt_text f (some r) = or_empty (f r)

-- `buildContextMeshCandidateFromApplyRequest`
unfoldable pub cell_for : Env → ApplyRequest → ProposedChange → Bridge → Cell
unfolding slug
cell_for env r change b =
    let anchor : String = or_text change.anchor (slug env (or_text change.title "memory-apply")) in
    record {
      id = append "tcell.applied." (append (slug env anchor) (append "." env.millis));
      pi = change.operating_principle;
      x = filter truthy (
          change.title
          ∷ append "Applied from memory review candidate " (shown r.candidate_id)
          ∷ append "Replay evidence " (shown r.replay_evidence_id)
          ∷ []);
      anchor = anchor;
      radius = record {
        scope = "project";
        valid_for = "follow_up" ∷ "artifact_request" ∷ "general_request" ∷ [];
        invalid_for = or_conditions change.invalid_conditions;
      };
      source_refs = change.source_refs ++ r.id ∷ b.id ∷ [];
      contradicts = [];
      weights =
          some
            (record { relevance = 700; confidence = 720; freshness = 950; risk = 220; cost = 80 });
      lifecycle = "applied_pending_independent_replay";
      authority = record {
        allowed_use =
            "retrieve" ∷ "review" ∷ "candidate_evidence" ∷ "supporting_context" ∷ "explain" ∷ [];
        blocked_use =
            "answer_anchor" ∷ "durable_promotion" ∷ "external_action" ∷ "live_rule_mutation"
            ∷ "openclaw_memory_write" ∷ "automatic_answer_anchor" ∷ [];
      };
      replay = record empty_replay { status = "pending_independent_post_apply_replay" };
      trace = record empty_trace {
        created_from = or_empty r.candidate_id;
        apply_request_id = r.id;
        replay_evidence_id = or_empty r.replay_evidence_id;
        approval_audit_bridge_id = b.id;
        approval_record_id = or_empty b.approval_record_id;
        audit_record_id = or_empty b.audit_record_id;
        applied_at = env.now;
        user_turn_ref = receipt_text (λ r. r.user_turn_ref) b.receipt;
        approval_reference = receipt_text (λ r. r.approval_reference) b.receipt;
      };
      admission_role = "";
      downgrade_reason = "";
      answer_anchor_eligible = none;
      mesh_score = 0;
    }

-- A clear validation has a request with a proposed change, and a bridge.
unfoldable pub candidate_for : Bool → Env → Option ApplyRequest → Option Bridge → Option Cell
unfolding cell_for
candidate_for true env (some r) (some b) = elim r.proposed_change [
  | none ↦ none
  | some change ↦ some (cell_for env r change b)
]
candidate_for _ env request bridge = none

abbrev plan_for : Option ApplyRequest → Option Bridge → Cell → ApplyPlan
plan_for request bridge cell = record {
  target = elim request [ none ↦ none | some r ↦ some r.target.id ];
  applied_candidate_id = cell.id;
  apply_request_id = request_id_or request "";
  bridge_id = elim bridge [ none ↦ "" | some b ↦ b.id ];
}

-- `buildMemoryReversibleApply`
unfoldable pub build_apply : Env → Ledger → Option ApplyRequest → Option Bridge → Apply
unfolding validate_apply candidate_for
build_apply env ledger request bridge =
    let findings = validate_apply env ledger request bridge in
    let can_apply = is_empty findings in
    let cell = candidate_for can_apply env request bridge in
    record {
      id = append "memapplyrun." (append env.millis (append "." (request_id_or request "unknown")));
      created_at = env.now;
      status = if can_apply then ready_to_apply else ApplyStatus.blocked;
      apply_request_id = request_id request;
      bridge_id = elim bridge [ none ↦ none | some b ↦ some b.id ];
      approval_receipt_id = elim (receipt_of bridge) [
        | none ↦ none
        | some r ↦ some r.approval_record_id
      ];
      candidate_id = request_candidate_id request;
      target = request_target request;
      proposed_candidate = cell;
      mutation_allowed_now = can_apply;
      rollback_plan = elim cell [ none ↦ none | some c ↦ some (plan_for request bridge c) ];
      rollback_receipt = none;
      result = none;
      findings = findings;
    }
