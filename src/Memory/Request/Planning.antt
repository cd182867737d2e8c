-- ===== src/Memory/Request/Planning.antt =====
-- When an apply request awaits an approval, and what it plans.
use gpao_t.Prelude.{
  ◌≡◌, ◌⊎◌, arith, eq_iff, refl, ◌∙◌, String, true, false, Option, none, some, is_empty, Bool-cases,
  inl, inr, collect, clear_of_empty, not-false,
}
use gpao_t.Memory.Record.{
  Env, Candidate, Evidence, RequestStatus, awaiting_approval, ApplyRequest, RollbackPlan,
}
use gpao_t.Memory.Replay.{proof_of_evidence, compact_replay_proof}
use gpao_t.Memory.Replay.Improvement.{compact_replay_proof-independent}
use gpao_t.Memory.Request.{
  request_checks, mismatched, planned, rollback_plan_of, target_policy, normalize_target,
  build_apply_request,
}
use gpao_t.Memory.Bridge.{proof_of_request}

-- A request that awaits its approval, for a candidate and its evidence.
pub record IsPlanned (c : Candidate) (e : Evidence) (r : ApplyRequest) : Type 0 where
  pub status : r.status ≡ awaiting_approval
  pub proof : proof_of_evidence (some e) ≡ true
  pub request_proof : proof_of_request (some r) ≡ true
  pub of_candidate : (e.candidate_id ≡ "") ⊎ (c.id ≡ "") ⊎ (e.candidate_id ≡ c.id)
  pub proof_evidence : r.replay_proof.evidence_id ≡ some e.id
  pub proof_candidate : r.replay_proof.candidate_id ≡ some e.candidate_id
  pub proof_case : r.replay_proof.replay_case ≡ some e.replay_case
  pub proof_held :
      (r.replay_proof.proof.independent ≡ e.proof.independent)
      × (r.replay_proof.proof.measurable_improvement ≡ e.proof.measurable_improvement)
      × (r.replay_proof.proof.principle_injected ≡ e.proof.principle_injected)
  pub plan : RollbackPlan
  pub planned : r.rollback_plan ≡ some plan
  pub plan_candidate : plan.candidate_id ≡ c.id
  pub plan_evidence : plan.replay_evidence_id ≡ e.id
  pub plan_target : plan.target ≡ r.target.id

-- The two kinds of apply request; neither may change anything by itself.
pub data Requested (candidate : Option Candidate) (evidence : Option Evidence)
    : ApplyRequest → Type 0 where
  awaiting :
      (c : Candidate) (e : Evidence) (r : ApplyRequest)
      → candidate ≡ some c
      → evidence ≡ some e
      → IsPlanned c e r
      → r.approval_passed ≡ false
      → r.mutation_allowed_now ≡ false
      → Requested candidate evidence r
  refused :
      (r : ApplyRequest)
      → r.status ≡ RequestStatus.blocked
      → r.rollback_plan ≡ none
      → is_empty r.findings ≡ false
      → r.approval_passed ≡ false
      → r.mutation_allowed_now ≡ false
      → Requested candidate evidence r

request_proof_of :
    (env : Env) (c : Candidate) (e : Evidence) (target approval_state : String)
    → proof_of_evidence (some e) ≡ true
    → proof_of_request (some (build_apply_request env (some c) (some e) target approval_state))
      ≡ true
unfolding build_apply_request proof_of_request
request_proof_of env c e target approval_state h = compact_replay_proof-independent (some e) ∙ h

same_candidate :
    (c : Candidate) (e : Evidence)
    → mismatched (some c) (some e) ≡ false
    → (e.candidate_id ≡ "") ⊎ (c.id ≡ "") ⊎ (e.candidate_id ≡ c.id)
unfolding mismatched
same_candidate c e h =
    ground (arith, h, eq_iff e.candidate_id "", eq_iff c.id "", eq_iff e.candidate_id c.id)

build_apply_request-awaiting :
    (env : Env) (c : Candidate) (e : Evidence) (target approval_state : String)
    → is_empty (collect (request_checks (some c) (some e))) ≡ true
    → Requested (some c) (some e) (build_apply_request env (some c) (some e) target approval_state)
unfolding build_apply_request request_checks planned rollback_plan_of compact_replay_proof
build_apply_request-awaiting env c e target approval_state h =
    let (_, (_, (c2, (c3, _)))) = clear_of_empty (request_checks (some c) (some e)) h in
    let proof = not-false (proof_of_evidence (some e)) c2 in
    awaiting c e (build_apply_request env (some c) (some e) target approval_state) refl refl
      (record {
        status = rw h refl;
        proof = proof;
        request_proof = request_proof_of env c e target approval_state proof;
        of_candidate = same_candidate c e c3;
        proof_evidence = refl;
        proof_candidate = refl;
        proof_case = refl;
        proof_held = (refl, refl, refl);
        plan = rollback_plan_of c e (target_policy (normalize_target target));
        planned = rw h refl;
        plan_candidate = refl;
        plan_evidence = refl;
        plan_target = refl;
      })
      refl refl

pub build_apply_request-Requested :
    (env : Env) (candidate : Option Candidate) (evidence : Option Evidence)
    (target approval_state : String)
    → Requested candidate evidence
        (build_apply_request env candidate evidence target approval_state)
unfolding build_apply_request request_checks planned
build_apply_request-Requested env none evidence target approval_state =
    refused _ refl refl refl refl refl
build_apply_request-Requested env (some c) none target approval_state =
    refused _ refl refl refl refl refl
build_apply_request-Requested env (some c) (some e) target approval_state =
    elim (Bool-cases (is_empty (collect (request_checks (some c) (some e))))) [
      | inl h ↦ build_apply_request-awaiting env c e target approval_state h
      | inr h ↦ refused _ (rw h refl) (rw h refl) h refl refl
    ]
