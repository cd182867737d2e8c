-- ===== src/Memory/Replay/Improvement.antt =====
-- What replay evidence shows when `isIndependentReplayProof` accepts it.
use gpao_t.Prelude.{
  ℕ, ◌≡◌, ◌≤◌, ◌<◌, ◌⊎◌, inl, inr, refl, String, Bool, true, false, not, ◌&&◌, ◌||◌, Option, none,
  some, List, ◌==◌, is_empty, Bool-cases, length, ltb, collect, clear_of_empty, not-false,
  eq_of_equal, arith, eq_iff,
}
use gpao_t.Memory.Words.{matched}
use gpao_t.Memory.Record.{Env, Candidate, ReplayCaseInput, ReplayCase, Proof, Evidence}
use gpao_t.Memory.Replay.{
  is_none, independent_mode, normalize_replay_case, replay_case_checks, score_output,
  expected_tokens_of, evidence_for, is_independent_proof, compact_replay_proof, proof_of_evidence,
}

-- An independent observation, made before or after an apply, with its three references.
pub record IsIndependent (value : ReplayCase) : Type 0 where
  pub mode : value.mode ≡ independent_mode
  pub stage : (value.stage ≡ "pre_apply") ⊎ (value.stage ≡ "post_apply")
  pub request_ref : is_none value.request_ref ≡ false
  pub observation_ref : is_none value.observation_ref ≡ false
  pub evaluator_ref : is_none value.evaluator_ref ≡ false
  pub not_injected : value.principle_injected ≡ false

or_of_test : (a b : Bool) → not (a || b) ≡ false → (a ≡ true) ⊎ (b ≡ true)
or_of_test true b h = inl refl
or_of_test false b h = inr (not-false b h)

stage_of_test :
    (s : String)
    → not (s == "pre_apply" || s == "post_apply") ≡ false
    → (s ≡ "pre_apply") ⊎ (s ≡ "post_apply")
stage_of_test s h = elim (or_of_test (s == "pre_apply") (s == "post_apply") h) [
  | inl e ↦ inl ((eq_iff s "pre_apply").0 e)
  | inr e ↦ inr ((eq_iff s "post_apply").0 e)
]

IsIndependent-of_clear :
    (value : ReplayCase)
    → is_empty (collect (replay_case_checks value)) ≡ true
    → IsIndependent value
unfolding replay_case_checks
IsIndependent-of_clear value h =
    let (c0, (c1, (c2, (c3, (c4, (c5, _)))))) = clear_of_empty (replay_case_checks value) h in
    record {
      mode = eq_of_equal value.mode independent_mode c0;
      stage = stage_of_test value.stage c1;
      request_ref = c2;
      observation_ref = c3;
      evaluator_ref = c4;
      not_injected = c5;
    }

and_true : (a b : Bool) → (a && b) ≡ true → (a ≡ true) × (b ≡ true)
and_true true b h = (refl, h)
and_true false b h = cc

ltb-< : (a b : ℕ) → ltb a b ≡ true → a < b
ltb-< a b h = ground arith

not_ltb : (a b : ℕ) → ltb a b ≡ false → b ≤ a
not_ltb a b h = ground arith

-- A function that does not decrease reflects `<`.
reflected : (f : ℕ → ℕ) → ((m n : ℕ) → m ≤ n → f m ≤ f n) → (m n : ℕ) → f m < f n → m < n
reflected f mono m n h = elim (Bool-cases (ltb m n)) [
  | inl e ↦ ltb-< m n e
  | inr e ↦ let k : f n ≤ f m = mono n m (not_ltb m n e) in omega (arith, h, k)
]

-- A better score has more matched words, where the rounding does not decrease.
score_output-matched :
    (env : Env)
    → ((m n total : ℕ) → m ≤ n → env.fixed3 m total ≤ env.fixed3 n total)
    → (before_output after_output : String) (expected : List String)
    → score_output env before_output expected < score_output env after_output expected
    → matched (env.lower before_output) expected < matched (env.lower after_output) expected
unfolding score_output
score_output-matched env mono before_output after_output expected h =
    elim (Bool-cases (is_empty expected)) [
      | inl e ↦ let k : 0 < 0 = rw e at h in omega arith
      | inr e ↦
          reflected (λ m. env.fixed3 m (length expected)) (λ m n. mono m n (length expected))
            (matched (env.lower before_output) expected) (matched (env.lower after_output) expected)
            (rw e at h)
    ]

-- What the evidence of a replay shows of the two outputs and of the case.
pub record IsImproved (env : Env) (c : Candidate) (before_output after_output : String)
    (e : Evidence) : Type 0 where
  pub more :
      matched (env.lower before_output) (expected_tokens_of env c)
      < matched (env.lower after_output) (expected_tokens_of env c)
  pub of_candidate : e.candidate_id ≡ c.id
  pub eligible : e.eligible_for_apply_request ≡ true
  pub replayed : IsIndependent e.replay_case

passed_of_independent : (p : Proof) → is_independent_proof p ≡ true → p.passed ≡ true
unfolding is_independent_proof
passed_of_independent p h = ground arith

-- Where the rounding of scores does not decrease, replay evidence whose proof is independent has more
-- expected words in the output after than in the output before, comes from an independent observation
-- with its three references and without the principle injected, and is the candidate's.
pub evidence_for-IsImproved :
    (env : Env)
    → ((m n total : ℕ) → m ≤ n → env.fixed3 m total ≤ env.fixed3 n total)
    → (c : Candidate) (before_output after_output : String) (given : Option ReplayCaseInput)
    → is_independent_proof (evidence_for env c before_output after_output given).proof ≡ true
    → IsImproved env c before_output after_output
        (evidence_for env c before_output after_output given)
unfolding evidence_for
evidence_for-IsImproved env mono c before_output after_output given h =
    let expected = expected_tokens_of env c in
    let passed =
      passed_of_independent (evidence_for env c before_output after_output given).proof h in
    let (improved, independent) =
      and_true
        (ltb (score_output env before_output expected) (score_output env after_output expected)) _
        passed in
    record {
      more = score_output-matched env mono before_output after_output expected (ltb-< _ _ improved);
      of_candidate = refl;
      eligible = passed;
      replayed = IsIndependent-of_clear (normalize_replay_case given) independent;
    }

-- The compact proof of an apply request is independent exactly when the evidence's is.
pub compact_replay_proof-independent :
    (evidence : Option Evidence)
    → is_independent_proof (compact_replay_proof evidence).proof ≡ proof_of_evidence evidence
unfolding compact_replay_proof proof_of_evidence is_independent_proof
compact_replay_proof-independent none = refl
compact_replay_proof-independent (some e) = ground arith
