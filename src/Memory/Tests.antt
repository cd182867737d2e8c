-- ===== src/Memory/Tests.antt =====
-- The review queue at a concrete candidate, from its review to an apply and its rollback.
use native.Mathlib.Nat as Nat
use gpao_t.Memory.Queue.Steps.{start, next, bridge_step, apply_step, Reachable-IsSound}
use gpao_t.Memory.Queue.Backing.{IsSound}
use gpao_t.Memory.Queue.Applying.{Applied, append_apply-Applied}
use gpao_t.Memory.Queue.Recording.{Bridged, append_bridge-Bridged}
use gpao_t.Memory.Queue.RoundTrip.{IsUndone, rollback_apply-append_apply}
use gpao_t.Memory.Lifecycle.{read_limit, has_cell_id, applied_id, review_lifecycle}
use gpao_t.Memory.Lifecycle.Granting.{Reviewed, review_lifecycle-Reviewed}
use gpao_t.Memory.Replay.Improvement.{IsImproved, evidence_for-IsImproved}
use gpao_t.Memory.Apply.{candidate_for, build_apply, cell_for}
use gpao_t.Memory.Checks.{apply_checks, validate_apply, change_checks}
use gpao_t.Memory.Readback.{ledger_findings, find_audit, readback, find_approval, readback_checks}
use gpao_t.Memory.Bridge.{
  candidate_differs, proof_of_request, build_bridge, normalize_binding, is_verified, proposed,
  scope_differs, bridge_checks, clock_of, target_differs, receipt_for, proposal_for, record_write,
  binding_checks,
}
use gpao_t.Prelude.{
  ◌≢◌, ◌==◌, eq_iff, ℕ, zero, suc, ◌*◌, ◌/◌, ◌≤◌, ◌<◌, ◌≡◌, refl, true, false, none, some, [], ◌∷◌,
  any, length, arith, trim, includes, is_space,
}
use gpao_t.Ledger.{
  build_audit_record, build_replay, write_local_records, write_checks, build_record_id,
  build_approval_record, read_audit_records, read_approval_records,
}
use gpao_t.Memory.Queue.Completing.{append_apply-append_bridge}
use gpao_t.Memory.Record.{
  recorded_local_only, ProposedChange, Env, SourceInput, CandidateInput, Candidate, ReplayCaseInput,
  Evidence, ApplyRequest, ApprovalInput, Bridge, Apply, applied_local_only, Store,
}
use gpao_t.Memory.Words.{binding_trace, slug_text, replay_tokens, matched}
use gpao_t.Memory.Replay.{
  proof_of_evidence, compact_replay_proof, normalize_replay_case, replay_case_checks, score_output,
  expected_tokens_of, independent_mode, evidence_for, is_independent_proof,
}
use gpao_t.Memory.Candidate.{normalize_source_truth, normalize_candidate, slug, build_candidate}
use gpao_t.Memory.Request.{
  apply_targets, target_policy, normalize_target, request_checks, mismatched, approval_states,
  proposed_change_of, planned, rollback_plan_of, build_apply_request,
}
use gpao_t.Memory.Queue.{write_applied, append_bridge, append_apply, rollback_apply}

abbrev env : Env
env = record {
  now = "2026-06-01T09:00:00.000Z";
  millis = "1780304400000";
  wall = "1780304400000";
  root_given = true;
  lower = λ s. s;
  fixed3 = λ m total. m * 1000 / total;
}

abbrev source : SourceInput
source = record {
  kind = "session";
  refs = some ("turn.1" ∷ []);
  label = "Tone";
  raw_excerpt = "keep answers short";
  captured_at = "";
  authority = "";
}

abbrev input : CandidateInput
input = record {
  title = "Short answers";
  operating_principle = "keep answers short";
  pi = "";
  reason = "user asked";
  expected_benefit = "less reading";
  invalid_conditions = none;
  anchor = "";
  target_surface = "";
}

abbrev candidate : Candidate
candidate = build_candidate env source input "Summarise this"

abbrev observed : ReplayCaseInput
observed = record {
  mode = independent_mode;
  stage = "pre_apply";
  request_ref = "turn.2";
  observation_ref = "run.7";
  evaluator_ref = "user";
  principle_injected = false;
}

abbrev evidence : Evidence
evidence = evidence_for env candidate "a long text" "short answers for less reading" (some observed)

improved : is_independent_proof evidence.proof ≡ true
unfolding is_independent_proof evidence_for normalize_replay_case replay_case_checks score_output
    expected_tokens_of build_candidate normalize_source_truth normalize_candidate slug slug_text
    replay_tokens matched trim includes is_space
improved = refl

abbrev request : ApplyRequest
request =
    build_apply_request env (some candidate) (some evidence) "context_mesh_candidate"
      "not_requested"

abbrev approval : ApprovalInput
approval = record {
  decision = "approved";
  candidate_id = candidate.id;
  target_id = "context_mesh_candidate";
  target_scope = "local_context_mesh_candidate_append";
  user_turn_ref = "turn.3";
  approval_reference = "approval.3";
  source = "";
}

abbrev store : Store
store = record { queue = []; cells = []; ledger = record { approvals = []; audits = [] } }

abbrev bridged : Bridge × Store
bridged = append_bridge env (some request) (some approval) store

abbrev applied : Apply × Store
applied = append_apply env (some request) (some bridged.0) bridged.1

applied_now : applied.0.status ≡ applied_local_only
unfolding append_apply append_bridge build_apply_request request_checks build_bridge write_applied
    build_apply validate_apply apply_checks change_checks ledger_findings readback readback_checks
    find_approval find_audit candidate_for cell_for binding_checks bridge_checks normalize_binding
    proof_of_request proof_of_evidence compact_replay_proof planned rollback_plan_of
    proposed_change_of target_policy normalize_target apply_targets approval_states mismatched
    proposed proposal_for binding_trace record_write is_verified receipt_for clock_of
    write_local_records write_checks build_approval_record build_audit_record build_replay
    read_approval_records read_audit_records candidate_differs target_differs scope_differs
    is_independent_proof evidence_for normalize_replay_case replay_case_checks score_output
    expected_tokens_of build_candidate normalize_source_truth normalize_candidate slug slug_text
    replay_tokens matched trim includes is_space build_record_id
applied_now = refl

Reachable-IsSound_example : IsSound applied.1
Reachable-IsSound_example = Reachable-IsSound applied.1 (
    next
      (next (start [] (record { approvals = []; audits = [] }))
        (bridge_step env (some request) (some approval)))
      (apply_step env (some request) (some bridged.0)))

append_apply-Applied_example : Applied env (some request) (some bridged.0) bridged.1 applied
append_apply-Applied_example = append_apply-Applied env (some request) (some bridged.0) bridged.1

append_bridge-Bridged_example : Bridged (some request) (some approval) store bridged
append_bridge-Bridged_example = append_bridge-Bridged env (some request) (some approval) store

abbrev observed_after : ReplayCaseInput
observed_after = record observed {
  stage = "post_apply";
  request_ref = "turn.4";
  observation_ref = "run.8";
}

abbrev evidence_after : Evidence
evidence_after =
    evidence_for env candidate "a long text" "short answers for less reading" (some observed_after)

review_lifecycle-Reviewed_example :
    Reviewed env candidate applied.0 evidence_after applied.1
      (review_lifecycle env candidate applied.0 evidence_after applied.1)
review_lifecycle-Reviewed_example =
    review_lifecycle-Reviewed env candidate applied.0 evidence_after applied.1

scaled : (m n total : ℕ) → m ≤ n → env.fixed3 m total ≤ env.fixed3 n total
scaled m n zero h = rw (Nat.div-zero (m * 1000), Nat.div-zero (n * 1000)) (omega arith)
scaled m n (suc t) h =
    let k : m * 1000 / suc t * suc t ≤ m * 1000 = Nat.div-mul-le_self (m * 1000) (suc t) in
    (Nat.le-div_iff_mul-le {k = suc t} {x = m * 1000 / suc t} {y = n * 1000} (omega arith)).1
      (omega (arith, h, k))

evidence_for-IsImproved_example :
    IsImproved env candidate "a long text" "short answers for less reading" evidence
evidence_for-IsImproved_example =
    evidence_for-IsImproved env scaled candidate "a long text" "short answers for less reading"
      (some observed) improved

no_cells : bridged.1.cells ≡ []
unfolding append_bridge build_bridge build_apply_request evidence_for build_candidate trim includes
    record_write write_local_records clock_of
no_cells = refl

fresh : any (has_cell_id (applied_id applied.0)) bridged.1.cells ≡ false
fresh = rw no_cells refl

short : length bridged.1.cells < read_limit
short = rw no_cells (omega arith)

rollback_apply-append_apply_example :
    IsUndone bridged.1 (rollback_apply env (some applied.0) applied.1)
rollback_apply-append_apply_example =
    rollback_apply-append_apply env env (some request) (some bridged.0) bridged.1 applied_now fresh
      short

recorded_now : bridged.0.status ≡ recorded_local_only
unfolding append_apply append_bridge build_apply_request request_checks build_bridge write_applied
    build_apply validate_apply apply_checks change_checks ledger_findings readback readback_checks
    find_approval find_audit candidate_for cell_for binding_checks bridge_checks normalize_binding
    proof_of_request proof_of_evidence compact_replay_proof planned rollback_plan_of
    proposed_change_of target_policy normalize_target apply_targets approval_states mismatched
    proposed proposal_for binding_trace record_write is_verified receipt_for clock_of
    write_local_records write_checks build_approval_record build_audit_record build_replay
    read_approval_records read_audit_records candidate_differs target_differs scope_differs
    is_independent_proof evidence_for normalize_replay_case replay_case_checks score_output
    expected_tokens_of build_candidate normalize_source_truth normalize_candidate slug slug_text
    replay_tokens matched trim includes is_space build_record_id
recorded_now = refl

abbrev change : ProposedChange
change = record {
  title = candidate.candidate.title;
  operating_principle = candidate.candidate.operating_principle;
  anchor = candidate.candidate.anchor;
  source_refs = candidate.source_truth.refs;
  invalid_conditions = candidate.candidate.invalid_conditions;
}

for_mesh : request.target.id ≡ "context_mesh_candidate"
unfolding build_apply_request target_policy normalize_target apply_targets
for_mesh = refl

changes : request.proposed_change ≡ some change
unfolding build_apply_request proposed_change_of
changes = refl

principle_test : (change.operating_principle == "") ≡ false
unfolding build_candidate normalize_candidate
principle_test = refl

principle_given : change.operating_principle ≢ ""
principle_given h = cc (principle_test, (eq_iff change.operating_principle "").1 h)

append_apply-append_bridge_example : applied.0.status ≡ applied_local_only
append_apply-append_bridge_example =
    append_apply-append_bridge env env request (some approval) change store recorded_now for_mesh
      changes principle_given refl
