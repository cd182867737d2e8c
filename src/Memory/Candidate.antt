-- ===== src/Memory/Candidate.antt =====
-- src/core/memory-candidate-review-queue.js: `buildMemoryReviewCandidate` and its normalisers.
use gpao_t.Prelude.{
  String, Bool, ◌&&◌, Option, none, some, List, [], ◌∷◌, ◌==◌, if◌then◌else◌, or_text, or_null,
  append, truthy, filter, collect, is_empty, trim,
}
use gpao_t.Memory.Words.{slug_text}
use gpao_t.Memory.Record.{
  Env, SourceInput, SourceTruth, CandidateInput, CandidateBody, Review, Candidate, review_only,
}

-- `slug(value)`
unfoldable pub slug : Env → String → String
unfolding slug_text
slug env value = slug_text (env.lower (trim value))

abbrev first_ref : Option (List String) → String
first_ref none = ""
first_ref (some []) = ""
first_ref (some (r ∷ refs)) = r

abbrev pub or_list : Option (List String) → List String → List String
or_list none d = d
or_list (some xs) d = xs

unfoldable pub normalize_source_truth : SourceInput → SourceTruth
normalize_source_truth source = record {
  kind = or_text source.kind "unknown";
  refs = filter truthy (or_list source.refs []);
  label = or_text source.label (or_text (first_ref source.refs) "source");
  raw_excerpt = source.raw_excerpt;
  captured_at = or_null source.captured_at;
  authority = or_text source.authority "source_truth_only";
}

unfoldable pub normalize_candidate : Env → CandidateInput → SourceTruth → CandidateBody
unfolding slug
normalize_candidate env candidate truth = record {
  title = or_text candidate.title (or_text truth.label "Memory candidate");
  operating_principle = or_text candidate.operating_principle candidate.pi;
  reason = candidate.reason;
  expected_benefit = candidate.expected_benefit;
  invalid_conditions =
      or_list candidate.invalid_conditions
        ("current user request conflicts with this candidate" ∷ []);
  anchor =
      or_text candidate.anchor
        (slug env (or_text candidate.title (or_text truth.label "candidate")));
  target_surface = or_text candidate.target_surface "gpao_t_review_queue";
}

unfoldable pub candidate_checks : SourceTruth → CandidateBody → List (Bool × String)
candidate_checks truth body =
    (is_empty truth.refs && truth.raw_excerpt == "", "source_truth_missing")
    ∷ (body.operating_principle == "", "operating_principle_missing")
    ∷ (body.reason == "", "candidate_reason_missing")
    ∷ []

unfoldable pub build_candidate : Env → SourceInput → CandidateInput → String → Candidate
unfolding normalize_source_truth normalize_candidate candidate_checks slug
build_candidate env source candidate request =
    let truth = normalize_source_truth source in
    let body = normalize_candidate env candidate truth in
    let findings = collect (candidate_checks truth body) in
    record {
      id = append "memq." (
          append env.millis
            (append "." (slug env (or_text body.title (or_text truth.label "candidate")))));
      created_at = env.now;
      status = if is_empty findings then review_only else Review.blocked;
      request = request;
      source_truth = truth;
      candidate = body;
      draft_x = filter truthy (body.title ∷ body.reason ∷ truth.raw_excerpt ∷ []);
      allowed_use = "review" ∷ "local_replay" ∷ "explain" ∷ "discard" ∷ [];
      blocked_use =
          "durable_memory_promotion" ∷ "openclaw_memory_write" ∷ "context_mesh_admission"
          ∷ "live_rule_mutation" ∷ "external_send" ∷ [];
      findings = findings;
    }
