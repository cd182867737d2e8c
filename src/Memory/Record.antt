-- ===== src/Memory/Record.antt =====
-- src/core/memory-candidate-review-queue.js: the objects of the review queue. `null` and a missing
-- object are `none`; a text that the code only tests for being there is empty when it is absent.
-- Scores are counted in thousandths. Constant descriptive fields are left out.
use gpao_t.Prelude.{ℕ, String, Bool, Option, List}
use gpao_t.Cell.{Cell}
use gpao_t.Ledger.{Ledger, Proposal}

-- What the calls take from outside: the `now` argument, the decimal text of `Date.parse(now) || 0`,
-- the text of `Date.now()`, whether `root` was given, the engine's lower case, and its rounding of
-- `matched / total` to three decimals, in thousandths.
pub record Env : Type 0 where
  pub now : String
  pub millis : String
  pub wall : String
  pub root_given : Bool
  pub lower : String → String
  pub fixed3 : ℕ → ℕ → ℕ

pub record SourceInput : Type 0 where
  pub kind : String
  pub refs : Option (List String)
  pub label : String
  pub raw_excerpt : String
  pub captured_at : String
  pub authority : String

pub record SourceTruth : Type 0 where
  pub kind : String
  pub refs : List String
  pub label : String
  pub raw_excerpt : String
  pub captured_at : Option String
  pub authority : String

pub record CandidateInput : Type 0 where
  pub title : String
  pub operating_principle : String
  pub pi : String
  pub reason : String
  pub expected_benefit : String
  pub invalid_conditions : Option (List String)
  pub anchor : String
  pub target_surface : String

pub record CandidateBody : Type 0 where
  pub title : String
  pub operating_principle : String
  pub reason : String
  pub expected_benefit : String
  pub invalid_conditions : List String
  pub anchor : String
  pub target_surface : String

pub data Review : Type 0 where
  blocked review_only : Review

pub record Candidate : Type 0 where
  pub id : String
  pub created_at : String
  pub status : Review
  pub request : String
  pub source_truth : SourceTruth
  pub candidate : CandidateBody
  pub draft_x : List String
  pub allowed_use : List String
  pub blocked_use : List String
  pub findings : List String

pub record ReplayCaseInput : Type 0 where
  pub mode : String
  pub stage : String
  pub request_ref : String
  pub observation_ref : String
  pub evaluator_ref : String
  pub principle_injected : Bool

pub record ReplayCase : Type 0 where
  pub mode : String
  pub stage : String
  pub request_ref : Option String
  pub observation_ref : Option String
  pub evaluator_ref : Option String
  pub principle_injected : Bool

-- The `proof` object of replay evidence and of an apply request's `replayProof`, with the status
-- beside it: `passed` says that it is "passed".
pub record Proof : Type 0 where
  pub passed : Bool
  pub independent : Bool
  pub measurable_improvement : Bool
  pub principle_injected : Bool

pub data LifecycleStatus : Type 0 where
  blocked reviewed_after_independent_replay : LifecycleStatus

pub record LifecycleReview : Type 0 where
  pub status : LifecycleStatus
  pub applied_candidate_id : Option String
  pub replay_evidence_id : Option String
  pub previous_lifecycle : Option String
  pub findings : List String

pub record Evidence : Type 0 where
  pub id : String
  pub candidate_id : String
  pub created_at : String
  pub proof : Proof
  pub before_output : String
  pub before_score : ℕ
  pub after_output : String
  pub after_score : ℕ
  pub replay_case : ReplayCase
  pub expected_tokens : List String
  pub eligible_for_apply_request : Bool
  pub findings : List String
  pub lifecycle_review : Option LifecycleReview

pub record TargetPolicy : Type 0 where
  pub id : String
  pub scope : String
  pub label : String
  pub write_path : String
  pub effect : String

pub record ProposedChange : Type 0 where
  pub title : String
  pub operating_principle : String
  pub anchor : String
  pub source_refs : List String
  pub invalid_conditions : List String

pub record ReplayProof : Type 0 where
  pub proof : Proof
  pub evidence_id : Option String
  pub candidate_id : Option String
  pub replay_case : Option ReplayCase

pub record RollbackPlan : Type 0 where
  pub target : String
  pub candidate_id : String
  pub replay_evidence_id : String
  pub rollback_action : String

pub data RequestStatus : Type 0 where
  blocked awaiting_approval : RequestStatus

pub record ApplyRequest : Type 0 where
  pub id : String
  pub created_at : String
  pub status : RequestStatus
  pub candidate_id : Option String
  pub replay_evidence_id : Option String
  pub target : TargetPolicy
  pub proposed_change : Option ProposedChange
  pub legacy_caller_state : String
  pub approval_passed : Bool
  pub replay_proof : ReplayProof
  pub rollback_plan : Option RollbackPlan
  pub mutation_allowed_now : Bool
  pub findings : List String

pub record ApprovalInput : Type 0 where
  pub decision : String
  pub candidate_id : String
  pub target_id : String
  pub target_scope : String
  pub user_turn_ref : String
  pub approval_reference : String
  pub source : String

pub record Binding : Type 0 where
  pub decision : Option String
  pub candidate_id : Option String
  pub target_id : Option String
  pub target_scope : Option String
  pub user_turn_ref : Option String
  pub approval_reference : Option String

-- An approval receipt exists only as "recorded_and_verified".
pub record Receipt : Type 0 where
  pub candidate_id : Option String
  pub target_id : Option String
  pub target_scope : Option String
  pub user_turn_ref : Option String
  pub approval_reference : Option String
  pub apply_request_id : String
  pub proposal_id : String
  pub approval_record_id : String
  pub audit_record_id : String
  pub replay_ready : Bool

pub data BridgeStatus : Type 0 where
  blocked record_ready recorded_local_only : BridgeStatus

pub record Bridge : Type 0 where
  pub id : String
  pub created_at : String
  pub status : BridgeStatus
  pub apply_request_id : Option String
  pub candidate_id : Option String
  pub target : Option TargetPolicy
  pub binding : Binding
  pub proposal : Option Proposal
  pub receipt : Option Receipt
  pub writes_now : Bool
  pub approval_record_id : Option String
  pub audit_record_id : Option String
  pub findings : List String

pub data ApplyStatus : Type 0 where
  blocked ready_to_apply applied_local_only : ApplyStatus

pub record ApplyPlan : Type 0 where
  pub target : Option String
  pub applied_candidate_id : String
  pub apply_request_id : String
  pub bridge_id : String

pub record ApplyResult : Type 0 where
  pub before_line_count : ℕ
  pub after_line_count : ℕ
  pub applied_candidate_id : String

pub record Apply : Type 0 where
  pub id : String
  pub created_at : String
  pub status : ApplyStatus
  pub apply_request_id : Option String
  pub bridge_id : Option String
  pub approval_receipt_id : Option String
  pub candidate_id : Option String
  pub target : Option TargetPolicy
  pub proposed_candidate : Option Cell
  pub mutation_allowed_now : Bool
  pub rollback_plan : Option ApplyPlan
  pub rollback_receipt : Option ApplyPlan
  pub result : Option ApplyResult
  pub findings : List String

pub data RollbackStatus : Type 0 where
  blocked rolled_back_local_only : RollbackStatus

pub record Rollback : Type 0 where
  pub id : String
  pub created_at : String
  pub status : RollbackStatus
  pub apply_record_id : Option String
  pub applied_candidate_id : Option String
  pub result : Option ApplyResult
  pub findings : List String

-- One line of the review queue.
pub data QueueRecord : Type 0 where
  memory_candidate : Candidate → QueueRecord
  memory_replay_evidence : Evidence → QueueRecord
  memory_apply_request : ApplyRequest → QueueRecord
  memory_apply_approval_audit : Bridge → QueueRecord
  memory_reversible_apply : Apply → QueueRecord
  memory_reversible_apply_rollback : Rollback → QueueRecord

-- The files under the runtime root that the queue's operations read and write, each as the list of
-- its lines, the oldest first: the review queue, the Context Mesh candidates, the two ledgers.
pub record Store : Type 0 where
  pub queue : List QueueRecord
  pub cells : List Cell
  pub ledger : Ledger
