-- ===== src/Wiki/Scoring.antt =====
-- src/core/memory-wiki.js: `scoreCandidate` and `resolveContextMesh`, the retrieval of cells for a request.
use gpao_t.Prelude.{
  ℕ, ◌+◌, ◌-◌, String, Bool, true, false, not, ◌&&◌, Option, none, some, List, [], ◌∷◌, map, ◌==◌,
  if◌then◌else◌, or_text, filter, truthy, has, includes, trim, join, or_null, ltb, sort_desc,
  is_empty,
}
use gpao_t.Cell.{Cell}
use gpao_t.Memory.Words.{split_from}
use gpao_t.Policy.{
  Signals, RequestPolicy, classify_request_target, CandidateUse, classify_candidate_use, Role,
  blocked, stale_supporting, answer_anchor, supporting_context, candidate_evidence,
}
use gpao_t.Wiki.{Files, read_candidates}

-- `tokens`
unfoldable pub tokens : String → List String
tokens text = filter truthy (map trim (split_from "" text))

abbrev pub haystack : Cell → String
haystack c = join " " (c.pi ∷ c.anchor ∷ c.x)

abbrev pub points : Bool → ℕ → ℕ
points test n = if test then n else 0

abbrev pub token_points : String → List String → ℕ
token_points text [] = 0
token_points text (token ∷ rest) =
    points (truthy token && includes text token) 2000 + token_points text rest

abbrev pub is_stale_role : Role → Bool
is_stale_role stale_supporting = true
is_stale_role _ = false

-- `scoreCandidate`, in thousandths; only a score above 0 is used, and one below it is 0 here.
unfoldable pub score_candidate : Cell → (request kind active_target_id : String) → CandidateUse → ℕ
unfolding tokens
score_candidate c request kind active_target_id u =
    token_points (haystack c) (tokens request)
    + points (c.anchor == active_target_id && u.answer_anchor_eligible) 4000
    + points (has c.radius.valid_for kind) 1000
    + points (c.lifecycle == "candidate") 500
    - points (is_stale_role u.admission_role) 1000

abbrev pub role_name : Role → String
role_name blocked = "blocked"
role_name stale_supporting = "stale_supporting"
role_name answer_anchor = "answer_anchor"
role_name supporting_context = "supporting_context"
role_name candidate_evidence = "candidate_evidence"

abbrev pub reason_text : Option String → String
reason_text none = ""
reason_text (some reason) = reason

abbrev pub annotated : Cell → CandidateUse → ℕ → Cell
annotated c u score = record c {
  admission_role = role_name u.admission_role;
  answer_anchor_eligible = some u.answer_anchor_eligible;
  downgrade_reason = reason_text u.downgrade_reason;
  mesh_score = score;
}

-- The body of the `map` in `resolveContextMesh`.
unfoldable pub annotate : RequestPolicy → (request kind : String) → Cell → Cell
unfolding score_candidate
annotate policy request kind c =
    let u = classify_candidate_use c policy kind in
    annotated c u (score_candidate c request kind policy.active_target_id u)

abbrev pub is_scored : Cell → Bool
is_scored c = ltb 0 c.mesh_score

abbrev pub mesh_key : Cell → ℕ
mesh_key c = c.mesh_score

-- The scored candidates, the highest score first.
unfoldable pub retrieve : RequestPolicy → (request kind : String) → List Cell → List Cell
unfolding annotate
retrieve policy request kind candidates =
    sort_desc mesh_key (filter is_scored (map (annotate policy request kind) candidates))

pub record Mesh : Type 0 where
  pub ready : Bool
  pub active_target_id : String
  pub policy : RequestPolicy
  pub retrieved : List Cell

-- The prior flow's target, or else the active target.
abbrev pub prior_target : Option (Option String) → String → Option String
prior_target none active_target_id = or_null active_target_id
prior_target (some target) active_target_id = target

-- `resolveContextMesh`; the prior flow is none where it is missing, and its target none where that is.
unfoldable pub resolve_mesh :
    (now : String)
    → Signals
    → (request kind active_target_id : String) → Option (Option String)
    → Files
    → Mesh × Files
unfolding retrieve read_candidates
resolve_mesh now signals request kind active_target_id prior files =
    let (candidates, after) = read_candidates now 100 files in
    let policy = classify_request_target signals kind (prior_target prior active_target_id) in
    let target : String = or_text policy.active_target_id active_target_id in
    let effective : RequestPolicy = record policy { active_target_id = target } in
    let retrieved = retrieve effective request kind candidates in
    (
      record {
        ready = not (is_empty retrieved);
        active_target_id = target;
        policy = policy;
        retrieved = retrieved;
      },
      after,
    )
