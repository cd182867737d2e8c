-- ===== src/Growth/Tests.antt =====
-- Two recoveries of one target, the proposal that they support, and its gate with an approval.
use gpao_t.Prelude.{String, ◌≡◌, refl, none, []}
use gpao_t.Growth.{
  Env, Recovery, Store, append_recovery, append_proposal, append_gate, review_passed_apply_blocked,
}
use gpao_t.Growth.Steps.{
  Reachable, start, step, recovers, proposes, reviews, IsGrounded, Reachable-IsGrounded,
}

abbrev env : Env
env = record { now = "2026-06-01T09:00:00.000Z"; millis = "1780304400000" }

abbrev recovery : (id : String) → Recovery
recovery id = record { id = id; target = "release-file"; anchor = none }

abbrev empty_store : Store
empty_store = record { history = []; proposals = []; gates = [] }

abbrev recovered : Store
recovered = append_recovery (recovery "two") (append_recovery (recovery "one") empty_store)

abbrev with_proposal : Store
with_proposal = (append_proposal env "" 2 recovered).1

abbrev with_gate : Store
with_gate = (append_gate env "" "release-file" "approved_for_apply" 2 with_proposal).1

passed :
    (append_gate env "" "release-file" "approved_for_apply" 2 with_proposal).0.review_status
    ≡ review_passed_apply_blocked
unfolding append_gate append_proposal
passed = refl

with_gate-Reachable : Reachable with_gate
with_gate-Reachable =
    step _ _
      (step _ _
        (step _ _ (step _ _ start (recovers (recovery "one") empty_store))
          (recovers (recovery "two") (append_recovery (recovery "one") empty_store)))
        (proposes env "" 2 recovered))
      (reviews env "" "release-file" "approved_for_apply" 2 with_proposal)

Reachable-IsGrounded_example : IsGrounded with_gate
Reachable-IsGrounded_example = Reachable-IsGrounded with_gate with_gate-Reachable
