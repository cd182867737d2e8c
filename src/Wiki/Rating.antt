-- ===== src/Wiki/Rating.antt =====
-- The score of a candidate for a request: what it is made of, and when it is above 0.
use gpao_t.Prelude.{
  some, if-holds, or_text, not, ℕ, ◌*◌, ap, ◌||◌, truthy, includes, if◌then◌else◌, AllPairs, ◌+◌,
  ◌-◌, String, Bool, false, ◌&&◌, ◌≡◌, refl, ◌∙◌, List, [], ◌∷◌, map, ◌==◌, filter, has, ltb,
  length, arith, Bool-cases, inl, inr, zero, suc,
}
use gpao_t.Cell.{Cell}
use gpao_t.Policy.{
  RequestPolicy, release_target, classify_candidate_use, use_of, CandidateUse, AuthorityUse,
  classify_authority_use,
}
use gpao_t.Wiki.Scoring.{
  annotate, is_scored, score_candidate, token_points, haystack, tokens, is_stale_role,
}

-- How many words of the request a cell's text holds.
abbrev pub matches : Cell → String → ℕ
matches c request =
    length (filter (λ token. truthy token && includes (haystack c) token) (tokens request))

abbrev pub is_penalised : Cell → RequestPolicy → String → Bool
is_penalised c policy kind = is_stale_role (classify_candidate_use c policy kind).admission_role

-- The cell of the active target that may be an answer's anchor.
abbrev pub is_target : Cell → RequestPolicy → String → Bool
is_target c policy kind =
    c.anchor == policy.active_target_id
    && (classify_candidate_use c policy kind).answer_anchor_eligible

-- What a candidate's score is made of, before the penalty of stale support.
abbrev pub gained : Cell → RequestPolicy → (request kind : String) → ℕ
gained c policy request kind =
    2000 * matches c request
    + (if is_target c policy kind then 4000 else 0)
    + (if has c.radius.valid_for kind then 1000 else 0)
    + (if c.lifecycle == "candidate" then 500 else 0)

-- The annotation of a candidate: its other fields are kept, its score, and whether that is above 0.
pub record IsRated (policy : RequestPolicy) (request kind : String) (c r : Cell) : Type 0 where
  pub unchanged : r ≡ record c {
    admission_role = r.admission_role;
    answer_anchor_eligible = r.answer_anchor_eligible;
    downgrade_reason = r.downgrade_reason;
    mesh_score = r.mesh_score;
  }
  pub eligible :
      r.answer_anchor_eligible ≡ some (classify_candidate_use c policy kind).answer_anchor_eligible
  pub score :
      r.mesh_score ≡ gained c policy request kind - (if is_penalised c policy kind then 1000 else 0)
  pub kept : is_scored r ≡ (
      ltb 0 (matches c request)
      || is_target c policy kind
      || (if is_penalised c policy kind
          then has c.radius.valid_for kind && c.lifecycle == "candidate"
          else has c.radius.valid_for kind || c.lifecycle == "candidate"))

token_points-matches :
    (text : String) (words : List String)
    → token_points text words
      ≡ 2000 * length (filter (λ token. truthy token && includes text token) words)
token_points-matches text [] = omega arith
token_points-matches text (word ∷ words) = elim (Bool-cases (truthy word && includes text word)) [
  | inl e ↦ rw e (omega (arith, token_points-matches text words))
  | inr e ↦ rw e (omega (arith, token_points-matches text words))
]

above_zero :
    (n : ℕ) (target valid candidate stale : Bool)
    → (target && stale) ≡ false
    → ltb 0 (
        2000 * n
        + (if target then 4000 else 0)
        + (if valid then 1000 else 0)
        + (if candidate then 500 else 0)
        - (if stale then 1000 else 0))
      ≡ (ltb 0 n || target || (if stale then valid && candidate else valid || candidate))
above_zero zero target valid candidate stale h = ground (arith, h)
above_zero (suc n) target valid candidate stale h = ground (arith, h)

-- Stale support is never the anchor.
record IsApart (u : CandidateUse) : Type 0 where
  apart : (u.answer_anchor_eligible && is_stale_role u.admission_role) ≡ false

use_of-IsApart :
    (c : Cell) (u : AuthorityUse) (policy : RequestPolicy) (kind : String)
    → IsApart (use_of c u policy kind)
unfolding use_of
use_of-IsApart c u policy kind =
    let anchor : String = or_text c.anchor "unknown" in
    let released =
      anchor == release_target
      && not (policy.active_target_id == release_target)
      && not (policy.request_type == "continuity_follow_up") in
    if-holds IsApart (not u.candidate_evidence_allowed) _ _ (λ e. record { apart = refl })
      (λ e.
        if-holds IsApart (released && u.supporting_context_allowed) _ _
          (λ f. record { apart = refl })
          (λ f.
            if-holds IsApart (anchor == policy.active_target_id && u.answer_anchor_allowed) _ _
              (λ g. record { apart = refl })
              (λ g.
                if-holds IsApart u.supporting_context_allowed _ _ (λ h. record { apart = refl })
                  (λ h. record { apart = refl }))))

target_not_stale :
    (c : Cell) (policy : RequestPolicy) (kind : String)
    → (is_target c policy kind && is_penalised c policy kind) ≡ false
unfolding classify_candidate_use
target_not_stale c policy kind =
    with_target (c.anchor == policy.active_target_id) _ _
      (use_of-IsApart c (classify_authority_use c) policy kind).apart
  where
    with_target : (p q r : Bool) → (q && r) ≡ false → (p && q && r) ≡ false
    with_target p q r h = ground (arith, h)

pub annotate-id :
    (policy : RequestPolicy) (request kind : String) (c : Cell)
    → (annotate policy request kind c).id ≡ c.id
unfolding annotate
annotate-id policy request kind c = refl

annotate_fields :
    (policy : RequestPolicy) (request kind : String) (c : Cell)
    → annotate policy request kind c ≡ record c {
      admission_role = (annotate policy request kind c).admission_role;
      answer_anchor_eligible = (annotate policy request kind c).answer_anchor_eligible;
      downgrade_reason = (annotate policy request kind c).downgrade_reason;
      mesh_score = (annotate policy request kind c).mesh_score;
    }
unfolding annotate
annotate_fields policy request kind c = refl

annotate_eligible :
    (policy : RequestPolicy) (request kind : String) (c : Cell)
    → (annotate policy request kind c).answer_anchor_eligible
      ≡ some (classify_candidate_use c policy kind).answer_anchor_eligible
unfolding annotate
annotate_eligible policy request kind c = refl

annotate-score :
    (policy : RequestPolicy) (request kind : String) (c : Cell)
    → (annotate policy request kind c).mesh_score
      ≡ gained c policy request kind - (if is_penalised c policy kind then 1000 else 0)
unfolding annotate score_candidate
annotate-score policy request kind c =
    ap
      (λ n.
        n
        + (if is_target c policy kind then 4000 else 0)
        + (if has c.radius.valid_for kind then 1000 else 0)
        + (if c.lifecycle == "candidate" then 500 else 0)
        - (if is_penalised c policy kind then 1000 else 0))
      (token_points-matches (haystack c) (tokens request))

annotate-IsRated :
    (policy : RequestPolicy) (request kind : String) (c : Cell)
    → IsRated policy request kind c (annotate policy request kind c)
annotate-IsRated policy request kind c =
    let score = annotate-score policy request kind c in
    record {
      unchanged = annotate_fields policy request kind c;
      eligible = annotate_eligible policy request kind c;
      score = score;
      kept =
          ap (λ n. ltb 0 n) score
          ∙ above_zero (matches c request) (is_target c policy kind) (has c.radius.valid_for kind)
              (c.lifecycle == "candidate") (is_penalised c policy kind)
              (target_not_stale c policy kind);
    }

pub map-IsRated :
    (policy : RequestPolicy) (request kind : String) (candidates : List Cell)
    → AllPairs
        (IsRated policy request kind)
        candidates
        (map (annotate policy request kind) candidates)
map-IsRated policy request kind [] = tt
map-IsRated policy request kind (c ∷ candidates) =
    (annotate-IsRated policy request kind c, map-IsRated policy request kind candidates)
