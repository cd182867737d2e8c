-- ===== src/Policy/Tests.antt =====
-- The admission policy at an applied cell, before and after its review, and at a follow-up.
use gpao_t.Prelude.{◌≡◌, refl, ◌⊎◌, true, false, none, some, [], ◌∷◌, or_text}
use gpao_t.Cell.{Cell}
use gpao_t.Memory.Record.{
  Env, SourceInput, CandidateInput, ApplyRequest, ProposedChange, Bridge, Evidence,
}
use gpao_t.Memory.Candidate.{build_candidate}
use gpao_t.Memory.Replay.{evidence_for}
use gpao_t.Memory.Request.{build_apply_request}
use gpao_t.Memory.Bridge.{build_bridge}
use gpao_t.Memory.Apply.{cell_for}
use gpao_t.Memory.Lifecycle.{reviewed_cell}
use gpao_t.Policy.{
  Signals, RequestPolicy, classify_request_target, follow_up_target, current_target,
  stale_supporting, answer_anchor, supporting_context, classify_candidate_use,
}
use gpao_t.Policy.Anchors.{
  IsAnchor, classify_candidate_use-IsAnchor, classify_candidate_use-pending,
  classify_candidate_use-reviewed,
}
use gpao_t.Policy.Targets.{classify_request_target-carry}

abbrev env : Env
env = record {
  now = "2026-06-01T09:00:00.000Z";
  millis = "1780304400000";
  wall = "1780304400000";
  root_given = true;
  lower = λ s. s;
  fixed3 = λ m total. m;
}

abbrev source : SourceInput
source = record {
  kind = "session";
  refs = some ("turn.1" ∷ []);
  label = "Tone";
  raw_excerpt = "keep answers short";
  captured_at = "";
  authority = "";
}

abbrev input : CandidateInput
input = record {
  title = "Short answers";
  operating_principle = "keep answers short";
  pi = "";
  reason = "user asked";
  expected_benefit = "less reading";
  invalid_conditions = none;
  anchor = "general-runtime";
  target_surface = "";
}

abbrev evidence : Evidence
evidence = evidence_for env (build_candidate env source input "") "before" "short answers" none

abbrev request : ApplyRequest
request =
    build_apply_request env (some (build_candidate env source input "")) (some evidence)
      "context_mesh_candidate" ""

abbrev change : ProposedChange
change = record {
  title = "Short answers";
  operating_principle = "keep answers short";
  anchor = "general-runtime";
  source_refs = "turn.1" ∷ [];
  invalid_conditions = [];
}

abbrev bridge : Bridge
bridge = build_bridge env (some request) none

abbrev no_signals : Signals
no_signals = record {
  release = false;
  follow_up = false;
  package_word = false;
  work_surface = false;
}

abbrev policy : RequestPolicy
policy = classify_request_target no_signals "general_request" none

on_target : or_text (cell_for env request change bridge).anchor "unknown" ≡ policy.active_target_id
unfolding cell_for classify_request_target follow_up_target current_target
on_target = refl

classify_candidate_use-pending_example :
    ((classify_candidate_use
        (cell_for env request change bridge)
        policy
        "general_request").admission_role
      ≡ stale_supporting)
    ⊎ ((classify_candidate_use
          (cell_for env request change bridge)
          policy
          "general_request").admission_role
        ≡ supporting_context)
classify_candidate_use-pending_example =
    classify_candidate_use-pending env request change bridge policy "general_request"

classify_candidate_use-reviewed_example :
    (classify_candidate_use
      (reviewed_cell env evidence (cell_for env request change bridge))
      policy
      "general_request").admission_role
    ≡ answer_anchor
classify_candidate_use-reviewed_example =
    classify_candidate_use-reviewed env env request change bridge evidence policy "general_request"
      on_target

abbrev reviewed : Cell
reviewed = reviewed_cell env evidence (cell_for env request change bridge)

anchored : (classify_candidate_use reviewed policy "general_request").admission_role ≡ answer_anchor
anchored =
    classify_candidate_use-reviewed env env request change bridge evidence policy "general_request"
      on_target

classify_candidate_use-IsAnchor_example : IsAnchor reviewed policy
classify_candidate_use-IsAnchor_example =
    classify_candidate_use-IsAnchor reviewed policy "general_request" anchored

carried :
    (classify_request_target no_signals "follow_up" (some "artifact")).carry_prior_target ≡ true
unfolding classify_request_target follow_up_target
carried = refl

classify_request_target-carry_example :
    some "artifact"
    ≡ some (classify_request_target no_signals "follow_up" (some "artifact")).active_target_id
classify_request_target-carry_example =
    classify_request_target-carry no_signals "follow_up" (some "artifact") carried
