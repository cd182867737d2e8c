-- ===== src/Memory/Request.antt =====
-- src/core/memory-candidate-review-queue.js: `buildMemoryApplyRequest`, the target policies and the
-- planned rollback receipt.
pub mod Planning
use gpao_t.Prelude.{
  String, Bool, true, false, not, ◌&&◌, Option, none, some, List, [], ◌∷◌, ◌==◌, if◌then◌else◌,
  append, has, truthy, collect, is_empty,
}
use gpao_t.Memory.Record.{
  Env, Candidate, Evidence, TargetPolicy, ProposedChange, RollbackPlan, RequestStatus,
  awaiting_approval, ApplyRequest,
}
use gpao_t.Memory.Replay.{is_none, proof_of_evidence, compact_replay_proof}

unfoldable pub apply_targets : List String
apply_targets =
    "gpao_t_memory_wiki" ∷ "context_mesh_candidate" ∷ "openclaw_memory" ∷ "session_meta" ∷ []

unfoldable pub approval_states : List String
approval_states =
    "not_requested" ∷ "requested" ∷ "approved_for_preview" ∷ "approved_for_apply" ∷ "rejected" ∷ []

unfoldable pub normalize_target : String → String
unfolding apply_targets
normalize_target target = if has apply_targets target then target else "gpao_t_memory_wiki"

unfoldable pub target_policy : String → TargetPolicy
target_policy target =
    if target == "gpao_t_memory_wiki"
    then record {
      id = target;
      scope = "durable_gpao_t_memory_write";
      label = "GPAO-T Memory Wiki";
      write_path = ".gpao-t/memory/wiki.json";
      effect = "promote candidate into source-linked GPAO-T memory wiki entry";
    }
    else if target == "context_mesh_candidate"
    then record {
      id = target;
      scope = "local_context_mesh_candidate_append";
      label = "Context Mesh Candidate";
      write_path = ".gpao-t/memory/tcell-candidates.jsonl";
      effect = "make candidate available for future retrieval but not automatic admission";
    }
    else if target == "openclaw_memory"
    then record {
      id = target;
      scope = "live_runtime_memory_write";
      label = "기존 런타임 기억 저장소";
      write_path = "기존 런타임 기억 저장소";
      effect = "write candidate into the inherited runtime memory substrate";
    }
    else record {
      id = target;
      scope = "session_metadata_write";
      label = "Session Metadata";
      write_path = "GPAO-T session metadata";
      effect = "attach scoped candidate marker to a session";
    }

unfoldable pub rollback_plan_of : Candidate → Evidence → TargetPolicy → RollbackPlan
rollback_plan_of c e policy = record {
  target = policy.id;
  candidate_id = c.id;
  replay_evidence_id = e.id;
  rollback_action =
      if policy.id == "openclaw_memory"
      then "restore inherited runtime memory backup created immediately before apply"
      else append "remove or revert record written to " policy.write_path;
}

unfoldable pub mismatched : Option Candidate → Option Evidence → Bool
mismatched (some c) (some e) = truthy e.candidate_id && truthy c.id && not (e.candidate_id == c.id)
mismatched _ _ = false

unfoldable pub request_checks : Option Candidate → Option Evidence → List (Bool × String)
unfolding proof_of_evidence mismatched
request_checks candidate evidence =
    (is_none candidate, "candidate_record_missing")
    ∷ (is_none evidence, "replay_evidence_missing")
    ∷ (not (proof_of_evidence evidence), "independent_replay_proof_missing")
    ∷ (mismatched candidate evidence, "candidate_replay_mismatch")
    ∷ []

abbrev pub id_or : Option Candidate → String → String
id_or none d = d
id_or (some c) d = if c.id == "" then d else c.id

abbrev candidate_id_of : Option Candidate → Option String
candidate_id_of none = none
candidate_id_of (some c) = if c.id == "" then none else some c.id

abbrev evidence_id_of : Option Evidence → Option String
evidence_id_of none = none
evidence_id_of (some e) = if e.id == "" then none else some e.id

unfoldable pub proposed_change_of : Option Candidate → Option ProposedChange
proposed_change_of none = none
proposed_change_of (some c) = some (record {
  title = c.candidate.title;
  operating_principle = c.candidate.operating_principle;
  anchor = c.candidate.anchor;
  source_refs = c.source_truth.refs;
  invalid_conditions = c.candidate.invalid_conditions;
})

-- The plan stands only in a request that is ready, which has both records.
unfoldable pub planned :
    Bool → Option Candidate → Option Evidence → TargetPolicy → Option RollbackPlan
unfolding rollback_plan_of
planned true (some c) (some e) policy = some (rollback_plan_of c e policy)
planned _ _ _ policy = none

unfoldable pub build_apply_request :
    Env → Option Candidate → Option Evidence → (target approval_state : String) → ApplyRequest
unfolding normalize_target target_policy request_checks planned proposed_change_of approval_states
    compact_replay_proof
build_apply_request env candidate evidence target approval_state =
    let findings = collect (request_checks candidate evidence) in
    let ready = is_empty findings in
    let policy = target_policy (normalize_target target) in
    record {
      id = append "memapply." (append env.millis (append "." (id_or candidate "unknown")));
      created_at = env.now;
      status = if ready then awaiting_approval else RequestStatus.blocked;
      candidate_id = candidate_id_of candidate;
      replay_evidence_id = evidence_id_of evidence;
      target = policy;
      proposed_change = proposed_change_of candidate;
      legacy_caller_state =
          if has approval_states approval_state then approval_state else "not_requested";
      approval_passed = false;
      replay_proof = compact_replay_proof evidence;
      rollback_plan = planned ready candidate evidence policy;
      mutation_allowed_now = false;
      findings = findings;
    }
