-- ===== src/Memory/Replay.antt =====
-- src/core/memory-candidate-review-queue.js: `buildReadOnlyMemoryReplay`, the check of an independent
-- replay case, and the proof that an apply needs.
pub mod Improvement
use gpao_t.Prelude.{
  ℕ, String, Bool, true, false, not, ◌&&◌, ◌||◌, Option, none, some, List, [], ◌∷◌, ◌++◌, ◌==◌,
  if◌then◌else◌, or_text, or_null, append, collect, is_empty, trim, ltb, length, join,
}
use gpao_t.Memory.Words.{replay_tokens, matched}
use gpao_t.Memory.Record.{Env, Candidate, ReplayCaseInput, ReplayCase, Proof, Evidence, ReplayProof}

abbrev pub is_none {ℓ} : {A : Type ℓ} → Option A → Bool
is_none none = true
is_none (some a) = false

abbrev pub independent_mode : String
independent_mode = "independent_observation"

abbrev no_case : ReplayCaseInput
no_case = record {
  mode = "";
  stage = "";
  request_ref = "";
  observation_ref = "";
  evaluator_ref = "";
  principle_injected = false;
}

abbrev or_no_case : Option ReplayCaseInput → ReplayCaseInput
or_no_case none = no_case
or_no_case (some given) = given

unfoldable pub normalize_replay_case : Option ReplayCaseInput → ReplayCase
normalize_replay_case given =
    let c = or_no_case given in
    record {
      mode = or_text c.mode "unverified";
      stage = or_text c.stage "pre_apply";
      request_ref = or_null (trim c.request_ref);
      observation_ref = or_null (trim c.observation_ref);
      evaluator_ref = or_null (trim c.evaluator_ref);
      principle_injected = c.principle_injected;
    }

unfoldable pub replay_case_checks : ReplayCase → List (Bool × String)
replay_case_checks value =
    (not (value.mode == independent_mode), "independent_replay_mode_required")
    ∷ (not (value.stage == "pre_apply" || value.stage == "post_apply"), "replay_stage_invalid")
    ∷ (is_none value.request_ref, "replay_request_ref_missing")
    ∷ (is_none value.observation_ref, "replay_observation_ref_missing")
    ∷ (is_none value.evaluator_ref, "replay_evaluator_ref_missing")
    ∷ (value.principle_injected, "candidate_principle_injected_by_harness")
    ∷ []

-- `scoreOutput`, in thousandths; the tokens are in lower case already.
unfoldable pub score_output : Env → String → List String → ℕ
unfolding matched
score_output env output expected =
    if is_empty expected
    then 0
    else env.fixed3 (matched (env.lower output) expected) (length expected)

unfoldable pub expected_tokens_of : Env → Candidate → List String
unfolding replay_tokens
expected_tokens_of env c = replay_tokens (
    env.lower (
      join " "
        (c.candidate.operating_principle ∷ c.candidate.expected_benefit ∷ c.candidate.reason ∷ [])))

unfoldable pub evidence_for :
    Env → Candidate → (before_output after_output : String) → Option ReplayCaseInput → Evidence
unfolding normalize_replay_case replay_case_checks score_output expected_tokens_of
evidence_for env c before_output after_output given =
    let expected = expected_tokens_of env c in
    let before_score = score_output env before_output expected in
    let after_score = score_output env after_output expected in
    let improved = ltb before_score after_score in
    let value = normalize_replay_case given in
    let case_findings = collect (replay_case_checks value) in
    let independent = is_empty case_findings in
    let passed = improved && independent in
    record {
      id = append "memreplay." (append env.millis (append "." c.id));
      candidate_id = c.id;
      created_at = env.now;
      proof = record {
        passed = passed;
        independent = independent;
        measurable_improvement = improved;
        principle_injected = value.principle_injected;
      };
      before_output = before_output;
      before_score = before_score;
      after_output = after_output;
      after_score = after_score;
      replay_case = value;
      expected_tokens = expected;
      eligible_for_apply_request = passed;
      findings = collect ((not improved, "no_measurable_replay_improvement") ∷ []) ++ case_findings;
      lifecycle_review = none;
    }

-- `buildReadOnlyMemoryReplay`; `none` is the answer `candidate_record_missing`.
unfoldable pub build_replay :
    Env
    → Option Candidate
    → (before_output after_output : String) → Option ReplayCaseInput
    → Option Evidence
unfolding evidence_for
build_replay env none before_output after_output given = none
build_replay env (some c) before_output after_output given =
    some (evidence_for env c before_output after_output given)

-- `isIndependentReplayProof`
unfoldable pub is_independent_proof : Proof → Bool
is_independent_proof p =
    p.passed && p.independent && p.measurable_improvement && not p.principle_injected

unfoldable pub proof_of_evidence : Option Evidence → Bool
unfolding is_independent_proof
proof_of_evidence none = false
proof_of_evidence (some e) = is_independent_proof e.proof

abbrev no_proof : Proof
no_proof = record {
  passed = false;
  independent = false;
  measurable_improvement = false;
  principle_injected = false;
}

-- `compactReplayProof`
unfoldable pub compact_replay_proof : Option Evidence → ReplayProof
unfolding proof_of_evidence
compact_replay_proof none = record {
  proof = no_proof;
  evidence_id = none;
  candidate_id = none;
  replay_case = none;
}
compact_replay_proof (some e) = record {
  proof = record {
    passed = proof_of_evidence (some e);
    independent = e.proof.independent;
    measurable_improvement = e.proof.measurable_improvement;
    principle_injected = e.proof.principle_injected;
  };
  evidence_id = some e.id;
  candidate_id = some e.candidate_id;
  replay_case = some e.replay_case;
}
