-- ===== src/Policy.antt =====
-- src/core/context-admission-policy.js: what a request is about, and for what a cell may be used in
-- its turn. The results of the regular expressions on the request's text are arguments.
pub mod Anchors
pub mod Targets
mod Tests
use gpao_t.Prelude.{
  String, Bool, true, false, not, ◌&&◌, ◌||◌, Option, none, some, List, [], ◌∷◌, map, ◌==◌,
  if◌then◌else◌, or_text, or_null, append, filter, has, has_any, truthy, trim, is_empty, is_text,
}
use gpao_t.Cell.{Cell}

abbrev pub release_target : String
release_target = "release-file"

abbrev pub general_target : String
general_target = "general-runtime"

abbrev pub non_anchor_lifecycles : List String
non_anchor_lifecycles =
    "raw_signal" ∷ "candidate" ∷ "stale" ∷ "conflicted" ∷ "rejected" ∷ "archived" ∷ []

-- What the expressions find in a request's text: `hasReleaseSignal`, `hasFollowUpSignal`, the looser
-- test of `inferArtifactTarget`, and `isWorkSurfaceRequest`.
pub record Signals : Type 0 where
  pub release : Bool
  pub follow_up : Bool
  pub package_word : Bool
  pub work_surface : Bool

pub record RequestPolicy : Type 0 where
  pub request_type : String
  pub active_target_id : String
  pub carry_prior_target : Bool
  pub target_source : String
  pub stale_prior_target : Bool
  pub stale_reason : Option String

unfoldable pub infer_artifact_target : Signals → String
infer_artifact_target s = if s.release || s.package_word then release_target else "artifact"

abbrev is_given : Option String → Bool
is_given none = false
is_given (some t) = true

-- `priorTarget && priorTarget !== GENERAL_TARGET`
abbrev is_stale : Option String → Bool
is_stale none = false
is_stale (some t) = not (t == general_target)

abbrev stale_reason_of : Option String → Option String
stale_reason_of none = none
stale_reason_of (some t) =
    if t == general_target
    then none
    else some
        (append "prior active target '" (append t "' is supporting-only for this request type"))

-- The branches after an explicit release signal and a follow-up of a prior target.
unfoldable pub current_target : Signals → String → Option String → RequestPolicy
unfolding infer_artifact_target
current_target s kind prior =
    if kind == "artifact_request"
    then record {
      request_type = "artifact_request";
      active_target_id = infer_artifact_target s;
      carry_prior_target = false;
      target_source = "current_request";
      stale_prior_target = is_given prior;
      stale_reason = none;
    }
    else record {
      request_type =
          if s.work_surface then "work_surface_general_request" else "general_work_request";
      active_target_id = general_target;
      carry_prior_target = false;
      target_source = "current_request";
      stale_prior_target = is_stale prior;
      stale_reason = stale_reason_of prior;
    }

unfoldable pub follow_up_target : Bool → Signals → String → Option String → RequestPolicy
unfolding current_target
follow_up_target true s kind (some target) = record {
  request_type = "continuity_follow_up";
  active_target_id = target;
  carry_prior_target = true;
  target_source = "prior_flow_follow_up";
  stale_prior_target = false;
  stale_reason = none;
}
follow_up_target _ s kind prior = current_target s kind prior

-- `classifyRequestTarget`; `prior` is the prior flow's target, none where it is missing or empty.
unfoldable pub classify_request_target :
    Signals → (kind : String) → (prior : Option String) → RequestPolicy
unfolding follow_up_target
classify_request_target s kind prior =
    let follow_up = kind == "follow_up" || s.follow_up in
    let rest = follow_up_target follow_up s kind prior in
    if s.release
    then record {
      request_type = if follow_up then "release_file_follow_up" else "release_file_request";
      active_target_id = release_target;
      carry_prior_target = is_text prior release_target;
      target_source = "explicit_request";
      stale_prior_target = false;
      stale_reason = none;
    }
    else rest

-- `normalizeUses`
unfoldable pub normalize_uses : List String → List String
normalize_uses uses = filter truthy (map trim uses)

pub record AuthorityUse : Type 0 where
  pub lifecycle : String
  pub answer_anchor_allowed : Bool
  pub supporting_context_allowed : Bool
  pub candidate_evidence_allowed : Bool
  pub answer_anchor_denied_reason : String

abbrev pub anchor_uses : List String
anchor_uses = "answer_anchor" ∷ "admit" ∷ "admit_for_current_turn" ∷ []

abbrev pub supporting_uses : List String
supporting_uses = "answer_anchor" ∷ "supporting_context" ∷ "admit" ∷ "admit_for_current_turn" ∷ []

abbrev pub evidence_uses : List String
evidence_uses =
    "answer_anchor" ∷ "supporting_context" ∷ "candidate_evidence" ∷ "candidate_only" ∷ "review_only"
    ∷ "admit" ∷ "admit_for_current_turn" ∷ "retrieve" ∷ "review" ∷ "explain" ∷ []

-- `allContextUseBlocked`
unfoldable pub all_use_blocked : List String → List String → Bool
all_use_blocked allowed blocked =
    has allowed "none"
    || has allowed "blocked"
    || has blocked "all_context_use"
    || has blocked "context_use"
    || has blocked "admit_for_current_turn"

abbrev pub allows : List String → List String → Bool
allows allowed uses = is_empty allowed || has_any allowed uses

-- `classifyCellAuthorityUse`
unfoldable pub classify_authority_use : Cell → AuthorityUse
unfolding normalize_uses all_use_blocked
classify_authority_use c =
    let lifecycle : String = or_text c.lifecycle "unknown" in
    let allowed = normalize_uses c.authority.allowed_use in
    let blocked = normalize_uses c.authority.blocked_use in
    let all_blocked = all_use_blocked allowed blocked in
    let lifecycle_allows = not (has non_anchor_lifecycles lifecycle) in
    record {
      lifecycle = lifecycle;
      answer_anchor_allowed =
          lifecycle_allows
          && allows allowed anchor_uses
          && not all_blocked
          && not (has blocked "answer_anchor");
      supporting_context_allowed =
          allows allowed supporting_uses
          && not all_blocked
          && not (has blocked "supporting_context");
      candidate_evidence_allowed =
          allows allowed evidence_uses && not all_blocked && not (has blocked "candidate_evidence");
      answer_anchor_denied_reason =
          if not lifecycle_allows
          then append "lifecycle '" (append lifecycle "' cannot become answer_anchor before review")
          else if has blocked "answer_anchor"
          then "candidate authority explicitly blocks answer_anchor"
          else "candidate allowedUse does not permit answer_anchor";
    }

pub data Role : Type 0 where
  blocked stale_supporting answer_anchor supporting_context candidate_evidence : Role

pub record CandidateUse : Type 0 where
  pub target_match : Bool
  pub admission_role : Role
  pub answer_anchor_eligible : Bool
  pub downgrade_reason : Option String

unfoldable pub supporting_reason : Cell → AuthorityUse → Bool → String → String
supporting_reason c u target_match kind =
    if target_match
    then u.answer_anchor_denied_reason
    else if has c.radius.valid_for kind
    then "candidate fits the request type but does not match the active target"
    else "candidate is available only as non-anchor context"

unfoldable pub use_of : Cell → AuthorityUse → RequestPolicy → (kind : String) → CandidateUse
unfolding supporting_reason
use_of c u policy kind =
    let anchor : String = or_text c.anchor "unknown" in
    let target_match = anchor == policy.active_target_id in
    let release_on_general =
      anchor == release_target
      && not (policy.active_target_id == release_target)
      && not (policy.request_type == "continuity_follow_up") in
    if not u.candidate_evidence_allowed
    then record {
      target_match = target_match;
      admission_role = Role.blocked;
      answer_anchor_eligible = false;
      downgrade_reason = some "candidate authority blocks current-turn context use";
    }
    else if release_on_general && u.supporting_context_allowed
    then record {
      target_match = false;
      admission_role = stale_supporting;
      answer_anchor_eligible = false;
      downgrade_reason =
          some "release-file candidate is stale/supporting for a general Work Surface request";
    }
    else if target_match && u.answer_anchor_allowed
    then record {
      target_match = true;
      admission_role = answer_anchor;
      answer_anchor_eligible = true;
      downgrade_reason = none;
    }
    else if u.supporting_context_allowed
    then record {
      target_match = target_match;
      admission_role = supporting_context;
      answer_anchor_eligible = false;
      downgrade_reason = some (supporting_reason c u target_match kind);
    }
    else record {
      target_match = target_match;
      admission_role = candidate_evidence;
      answer_anchor_eligible = false;
      downgrade_reason = some "candidate may be retrieved for review but is not admitted context";
    }

-- `classifyContextCandidateUse`
unfoldable pub classify_candidate_use : Cell → RequestPolicy → (kind : String) → CandidateUse
unfolding classify_authority_use use_of
classify_candidate_use c policy kind = use_of c (classify_authority_use c) policy kind
