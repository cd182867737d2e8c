-- ===== src/Memory/Checks.antt =====
-- src/core/memory-candidate-review-queue.js: `validateReversibleApply`, the checks of a reversible
-- apply against its request, its bridge and the ledgers.
use gpao_t.Prelude.{
  String, Bool, true, false, not, ◌||◌, Option, none, some, List, [], ◌∷◌, ◌++◌, ◌==◌, same_text,
  collect,
}
use gpao_t.Ledger.{Ledger}
use gpao_t.Memory.Record.{Env, RequestStatus, ApplyRequest, Receipt, BridgeStatus, Bridge}
use gpao_t.Memory.Replay.{is_none}
use gpao_t.Memory.Bridge.{proof_of_request, request_id, request_candidate_id}
use gpao_t.Memory.Readback.{ledger_findings}

-- A value that may be undefined, and if it is there null.
abbrev pub Maybe : Type 0
Maybe = Option (Option String)

abbrev pub same_value : Maybe → Maybe → Bool
same_value none none = true
same_value (some a) (some b) = same_text a b
same_value _ _ = false

abbrev pub receipt_of : Option Bridge → Option Receipt
receipt_of none = none
receipt_of (some b) = b.receipt

abbrev pub receipt_value : (Receipt → Option String) → Option Receipt → Maybe
receipt_value f none = none
receipt_value f (some r) = some (f r)

abbrev request_value : (ApplyRequest → Option String) → Option ApplyRequest → Maybe
request_value f none = none
request_value f (some r) = some (f r)

abbrev pub is_awaiting : Option ApplyRequest → Bool
is_awaiting none = false
is_awaiting (some r) = elim r.status [ RequestStatus.awaiting_approval ↦ true | _ ↦ false ]

abbrev pub is_recorded : Option Bridge → Bool
is_recorded none = false
is_recorded (some b) = elim b.status [ BridgeStatus.recorded_local_only ↦ true | _ ↦ false ]

abbrev target_is : String → Option ApplyRequest → Bool
target_is id none = false
target_is id (some r) = r.target.id == id

-- `a && b && a !== b`
abbrev pub both_differ : Option String → Option String → Bool
both_differ (some a) (some b) = not (a == b)
both_differ _ _ = false

abbrev bridge_request_id : Option Bridge → Option String
bridge_request_id none = none
bridge_request_id (some b) = b.apply_request_id

abbrev bridge_candidate_id : Option Bridge → Option String
bridge_candidate_id none = none
bridge_candidate_id (some b) = b.candidate_id

abbrev lacks_user_reference : Option Receipt → Bool
lacks_user_reference none = true
lacks_user_reference (some r) = is_none r.user_turn_ref || is_none r.approval_reference

abbrev lacks_request_plan : Option ApplyRequest → Bool
lacks_request_plan none = true
lacks_request_plan (some r) = is_none r.rollback_plan

abbrev lacks_principle : Option ApplyRequest → Bool
lacks_principle none = true
lacks_principle (some r) = elim r.proposed_change [
  | none ↦ true
  | some c ↦ c.operating_principle == ""
]

-- The tests of `validateReversibleApply` before it reads the ledgers, and after.
unfoldable pub apply_checks : Option ApplyRequest → Option Bridge → List (Bool × String)
unfolding proof_of_request
apply_checks request bridge =
    let receipt = receipt_of bridge in
    (is_none request, "apply_request_missing")
    ∷ (is_none bridge, "approval_audit_bridge_missing")
    ∷ (not (is_awaiting request), "apply_request_not_ready_for_bound_approval")
    ∷ (not (is_recorded bridge), "approval_audit_not_recorded")
    ∷ (not (proof_of_request request), "independent_replay_proof_missing")
    ∷ (not (target_is "context_mesh_candidate" request), "target_not_context_mesh_candidate")
    ∷ (
      both_differ (bridge_request_id bridge) (request_id request),
      "approval_apply_request_mismatch",
    )
    ∷ (
      both_differ (bridge_candidate_id bridge) (request_candidate_id request),
      "approval_candidate_mismatch",
    )
    ∷ (is_none receipt, "bound_approval_receipt_missing")
    ∷ (
      not (
          same_value (receipt_value (λ r. r.candidate_id) receipt)
            (request_value (λ r. r.candidate_id) request)),
      "approval_receipt_candidate_mismatch",
    )
    ∷ (
      not (
          same_value (receipt_value (λ r. r.target_id) receipt)
            (request_value (λ r. some r.target.id) request)),
      "approval_receipt_target_mismatch",
    )
    ∷ (
      not (
          same_value (receipt_value (λ r. r.target_scope) receipt)
            (request_value (λ r. some r.target.scope) request)),
      "approval_receipt_scope_mismatch",
    )
    ∷ (lacks_user_reference receipt, "approval_receipt_user_reference_missing")
    ∷ []

unfoldable pub change_checks : Option ApplyRequest → List (Bool × String)
change_checks request =
    (lacks_request_plan request, "rollback_receipt_missing")
    ∷ (lacks_principle request, "operating_principle_missing")
    ∷ []

unfoldable pub validate_apply : Env → Ledger → Option ApplyRequest → Option Bridge → List String
unfolding apply_checks ledger_findings change_checks
validate_apply env ledger request bridge =
    collect (apply_checks request bridge)
    ++ (ledger_findings env ledger bridge ++ collect (change_checks request))
