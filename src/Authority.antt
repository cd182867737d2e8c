-- ===== src/Authority.antt =====
-- src/core/authority.js: the approvals that a turn needs. The regular expressions are arguments: their
-- tests, their replacements, and the texts before the matches of the execution pattern.
pub mod Gates
mod Tests
use gpao_t.Prelude.{
  String, Bool, true, false, not, ◌&&◌, ◌||◌, Option, none, some, List, [], ◌∷◌, ◌++◌, map, ◌==◌,
  if◌then◌else◌, filter, any, ltb, is_empty, unique,
}
use gpao_t.Cell.{Weights, Cell}
use gpao_t.Admission.{Scored}

-- An entry of `RISKY_PATTERNS`: the test of its pattern, and for each negated pattern the replacement of
-- its matches by a space.
pub record RiskPattern : Type 0 where
  pub test : String → Bool
  pub replacements : List (String → String)

pub record Patterns : Type 0 where
  pub release : RiskPattern
  pub deletion : RiskPattern
  pub secret : RiskPattern
  pub send : RiskPattern
  pub automation : RiskPattern
  -- The 24 characters before each match of `REFERENTIAL_EXECUTION_PATTERN`.
  pub execution_prefixes : String → List String
  pub negated_prefix : String → Bool
  pub korean_execution : String → Bool
  pub korean_negated : String → Bool

abbrev pub release_gate : String
release_gate = "public_release_or_distribution"

abbrev pub secret_gate : String
secret_gate = "secret_or_account_boundary"

abbrev pub high_risk_gate : String
high_risk_gate = "high_risk_context_use"

-- `RISKY_PATTERNS` with their gates.
abbrev pub risky_patterns : Patterns → List (RiskPattern × String)
risky_patterns p =
    (p.release, release_gate)
    ∷ (p.deletion, "data_deletion")
    ∷ (p.secret, secret_gate)
    ∷ (p.send, "external_send")
    ∷ (p.automation, "recurring_automation")
    ∷ []

abbrev pub replace_all : List (String → String) → String → String
replace_all [] text = text
replace_all (replace ∷ replacements) text = replace_all replacements (replace text)

-- `hasAffirmativeRiskSignal`
unfoldable pub has_affirmative_risk : String → RiskPattern → Bool
has_affirmative_risk text p = p.test (replace_all p.replacements text)

-- `hasAffirmativeReferentialExecution`
unfoldable pub has_referential_execution : Patterns → String → Bool
has_referential_execution p text =
    any (λ prefix. not (p.negated_prefix prefix)) (p.execution_prefixes text)
    || (p.korean_execution text && not (p.korean_negated text))

-- `RECOVERED_TARGET_GATES.get(id) || null`
abbrev pub recovered_target_gate : String → Option String
recovered_target_gate id = if id == "release-file" then some release_gate else none

-- `resolveRecoveredTargetGate`
unfoldable pub resolve_recovered_gate :
    Patterns → (text target_source active_target_id : String) → Option String
unfolding has_referential_execution
resolve_recovered_gate p text target_source active_target_id =
    if not (target_source == "prior_flow_follow_up")
    then none
    else if not (has_referential_execution p text)
    then none
    else recovered_target_gate active_target_id

-- `item.cell.weights?.risk > 0.65`
abbrev pub is_risky_weight : Option Weights → Bool
is_risky_weight none = false
is_risky_weight (some w) = ltb 650 w.risk

abbrev pub is_high_risk : Scored → Bool
is_high_risk s = is_risky_weight s.cell.weights

abbrev pub option_list : Option String → List String
option_list none = []
option_list (some s) = s ∷ []

abbrev pub gates_of : String → List (RiskPattern × String) → List String
gates_of text [] = []
gates_of text ((p, gate) ∷ patterns) =
    let rest = gates_of text patterns in if has_affirmative_risk text p then gate ∷ rest else rest

-- The approvals before they are made unique.
unfoldable pub approvals_of :
    Patterns → (text target_source active_target_id : String) → List Scored → List String
unfolding has_affirmative_risk resolve_recovered_gate
approvals_of p text target_source active_target_id admitted =
    gates_of text (risky_patterns p)
    ++ (option_list (resolve_recovered_gate p text target_source active_target_id)
        ++ map (λ s. high_risk_gate) (filter is_high_risk admitted))

pub data DecisionStatus : Type 0 where
  needs_approval allowed : DecisionStatus

pub record Decision : Type 0 where
  pub status : DecisionStatus
  pub required_approvals : List String
  pub allowed_actions : List String
  pub blocked_actions : List String

abbrev pub decision_for : List String → Decision
decision_for [] = record {
  status = allowed;
  required_approvals = [];
  allowed_actions = "explain" ∷ "plan" ∷ "draft" ∷ "local_preview" ∷ "local_read" ∷ [];
  blocked_actions = [];
}
decision_for (approval ∷ approvals) = record {
  status = needs_approval;
  required_approvals = approval ∷ approvals;
  allowed_actions = "explain" ∷ "plan" ∷ "draft" ∷ "local_preview" ∷ [];
  blocked_actions = "external_action" ∷ "durable_mutation" ∷ "public_release" ∷ "secret_write" ∷ [];
}

-- `buildAuthorityDecision`, of the input's text, and of what the admission packet holds of the target.
unfoldable pub build_decision :
    Patterns → (text target_source active_target_id : String) → List Scored → Decision
unfolding approvals_of
build_decision p text target_source active_target_id admitted =
    decision_for (unique (approvals_of p text target_source active_target_id admitted))
