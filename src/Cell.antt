-- ===== src/Cell.antt =====
-- The T-cell objects that src/core/context-runtime.js, src/core/memory-candidate-review-queue.js and
-- src/core/memory-wiki.js build and that src/core/admission.js scores. Decimal fractions are counted
-- in thousandths. An absent text is the empty text, and an absent list of uses is the empty list.
use gpao_t.Prelude.{ℕ, String, Bool, false, Option, List}

pub record Radius : Type 0 where
  pub scope : String
  pub valid_for : List String
  pub invalid_for : List String

pub record Weights : Type 0 where
  pub relevance : ℕ
  pub confidence : ℕ
  pub freshness : ℕ
  pub risk : ℕ
  pub cost : ℕ

-- A use that is given as one text, not as an array, is the list of that text.
pub record Authority : Type 0 where
  pub allowed_use : List String
  pub blocked_use : List String

pub record CellReplay : Type 0 where
  pub status : String
  pub independent : Bool
  pub evidence_id : String
  pub reviewed_lifecycle_allowed : Bool
  pub reviewed_at : String

pub record CellTrace : Type 0 where
  pub created_from : String
  pub apply_request_id : String
  pub replay_evidence_id : String
  pub approval_audit_bridge_id : String
  pub approval_record_id : String
  pub audit_record_id : String
  pub applied_at : String
  pub user_turn_ref : String
  pub approval_reference : String
  pub lifecycle_review_replay_evidence_id : String
  pub lifecycle_reviewed_at : String

pub record Cell : Type 0 where
  pub id : String
  pub pi : String
  pub x : List String
  pub anchor : String
  pub radius : Radius
  pub source_refs : List String
  pub contradicts : List String
  pub weights : Option Weights
  pub lifecycle : String
  pub authority : Authority
  pub replay : CellReplay
  pub trace : CellTrace
  pub admission_role : String
  pub downgrade_reason : String
  pub answer_anchor_eligible : Option Bool
  pub mesh_score : ℕ

abbrev pub empty_trace : CellTrace
empty_trace = record {
  created_from = "";
  apply_request_id = "";
  replay_evidence_id = "";
  approval_audit_bridge_id = "";
  approval_record_id = "";
  audit_record_id = "";
  applied_at = "";
  user_turn_ref = "";
  approval_reference = "";
  lifecycle_review_replay_evidence_id = "";
  lifecycle_reviewed_at = "";
}

abbrev pub empty_replay : CellReplay
empty_replay = record {
  status = "";
  independent = false;
  evidence_id = "";
  reviewed_lifecycle_allowed = false;
  reviewed_at = "";
}
