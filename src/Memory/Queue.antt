-- ===== src/Memory/Queue.antt =====
-- src/core/memory-candidate-review-queue.js: the operations that write. Each answers its record and
-- leaves the store that it wrote; a refused one leaves the store that it was given.
pub mod Applying
pub mod RoundTrip
pub mod Undoing
pub mod Recording
pub mod Backing
pub mod Clearing
pub mod Completing
pub mod Steps
use gpao_t.Prelude.{
  or_option, String, Bool, false, not, Option, none, some, List, [], ◌∷◌, ◌++◌, ◌==◌, if◌then◌else◌,
  or_null, append, filter, length, collect, is_empty, eq_nat,
}
use gpao_t.Cell.{Cell}
use gpao_t.Ledger.{Ledger, Proposal, WriteResult, write_local_records}
use gpao_t.Memory.Record.{
  Env, SourceInput, CandidateInput, Candidate, Review, ReplayCaseInput, Evidence, RequestStatus,
  ApplyRequest, ApprovalInput, BridgeStatus, Bridge, applied_local_only, Apply, RollbackStatus,
  rolled_back_local_only, Rollback, QueueRecord, memory_candidate, memory_replay_evidence,
  memory_apply_request, memory_apply_approval_audit, memory_reversible_apply,
  memory_reversible_apply_rollback, Store,
}
use gpao_t.Memory.Candidate.{build_candidate}
use gpao_t.Memory.Replay.{is_none, build_replay}
use gpao_t.Memory.Request.{build_apply_request}
use gpao_t.Memory.Bridge.{build_bridge, record_write, clock_of, explicit_confirmation}
use gpao_t.Memory.Apply.{build_apply}
use gpao_t.Memory.Lifecycle.{read_cells, is_applied, applied_id, has_cell_id, review_lifecycle}

-- `appendQueueRecord`
abbrev pub enqueue : QueueRecord → Store → Store
enqueue r store = record store { queue = store.queue ++ r ∷ [] }

-- `if (record.status !== …) return` and the line that is written otherwise.
abbrev pub keep_candidate : Candidate → Review → Store → Store
keep_candidate c Review.review_only store = enqueue (memory_candidate c) store
keep_candidate c Review.blocked store = store

-- `appendMemoryReviewCandidate`
unfoldable pub append_candidate :
    Env → SourceInput → CandidateInput → String → Store → Candidate × Store
append_candidate env source candidate request store =
    let c = build_candidate env source candidate request in (c, keep_candidate c c.status store)

unfoldable pub record_evidence :
    Env → Candidate → Option Apply → Evidence → Store → Evidence × Store
unfolding review_lifecycle
record_evidence env c none e store = (e, enqueue (memory_replay_evidence e) store)
record_evidence env c (some a) e store =
    let (review, store') = review_lifecycle env c a e store in
    let e' = record e { lifecycle_review = some review } in
    (e', enqueue (memory_replay_evidence e') store')

-- `appendMemoryReplayEvidence`; without a candidate nothing is recorded.
unfoldable pub append_replay_evidence :
    Env
    → Option Candidate
    → (before_output after_output : String) → Option ReplayCaseInput
    → Option Apply
    → Store
    → Option Evidence × Store
unfolding record_evidence
append_replay_evidence env none before_output after_output given applied store = (none, store)
append_replay_evidence env (some c) before_output after_output given applied store =
    elim (build_replay env (some c) before_output after_output given) [
      | none ↦ (none, store)
      | some e ↦ let (e', store') = record_evidence env c applied e store in (some e', store')
    ]

abbrev pub keep_request : ApplyRequest → RequestStatus → Store → Store
keep_request r RequestStatus.awaiting_approval store = enqueue (memory_apply_request r) store
keep_request r RequestStatus.blocked store = store

-- `appendMemoryApplyRequest`
unfoldable pub append_apply_request :
    Env
    → Option Candidate
    → Option Evidence
    → (target approval_state : String) → Store
    → ApplyRequest × Store
append_apply_request env candidate evidence target approval_state store =
    let r = build_apply_request env candidate evidence target approval_state in
    (r, keep_request r r.status store)

abbrev pub record_bridge : Bridge → Store → Store
record_bridge b store = elim b.status [
  | BridgeStatus.blocked ↦ store
  | _ ↦ enqueue (memory_apply_approval_audit b) store
]

-- The bridge after the write to the ledgers.
abbrev pub finish_bridge :
    Bridge → Proposal → (request_id : String) → WriteResult × Ledger → Store → Bridge × Store
finish_bridge b p request_id (answer, ledger') store =
    let b' = record_write b p request_id answer in
    (b', record_bridge b' (record store { ledger = ledger' }))

abbrev pub write_bridge :
    Env → (request_id : String) → Bridge → Option Proposal → Store → Bridge × Store
write_bridge env request_id b none store = (b, store)
write_bridge env request_id b (some p) store =
    finish_bridge b p request_id
      (write_local_records (clock_of env) p explicit_confirmation store.ledger) store

-- `appendMemoryApplyApprovalAuditBridge`. A bridge that is ready has its request and its proposal;
-- without them the code would fail on a null.
unfoldable pub append_bridge :
    Env → Option ApplyRequest → Option ApprovalInput → Store → Bridge × Store
append_bridge env none approval store = (build_bridge env none approval, store)
append_bridge env (some r) approval store =
    let b = build_bridge env (some r) approval in write_bridge env r.id b b.proposal store

-- `appendMemoryReversibleApply` of a preview that is not blocked, which is one with a candidate. The
-- rollback receipt is the plan, with the two counts of the result, which are kept there only.
unfoldable pub write_applied : Apply → Cell → Store → Apply × Store
unfolding read_cells
write_applied preview cell store =
    let written : Store = record store { cells = store.cells ++ cell ∷ [] } in
    let applied = record preview {
      status = applied_local_only;
      mutation_allowed_now = false;
      rollback_receipt = preview.rollback_plan;
      result = some (record {
        before_line_count = length (read_cells store);
        after_line_count = length (read_cells written);
        applied_candidate_id = cell.id;
      });
    } in
    (applied, enqueue (memory_reversible_apply applied) written)

abbrev pub finish_apply : Apply → Option Cell → Store → Apply × Store
finish_apply preview none store = (preview, store)
finish_apply preview (some cell) store = write_applied preview cell store

unfoldable pub append_apply : Env → Option ApplyRequest → Option Bridge → Store → Apply × Store
unfolding write_applied
append_apply env request bridge store =
    let preview = build_apply env store.ledger request bridge in
    finish_apply preview preview.proposed_candidate store

abbrev apply_id : Option Apply → Option String
apply_id none = none
apply_id (some a) = or_null a.id

abbrev apply_id_or : Option Apply → String → String
apply_id_or none d = d
apply_id_or (some a) d = if a.id == "" then d else a.id

abbrev receipt_candidate_id : Apply → Option String
receipt_candidate_id a = elim a.rollback_receipt [
  | none ↦ none
  | some p ↦ or_null p.applied_candidate_id
]

abbrev pub rolled_back_id : Option Apply → Option String
rolled_back_id none = none
rolled_back_id (some a) = or_option (applied_id a) (receipt_candidate_id a)

abbrev is_applied_record : Option Apply → Bool
is_applied_record none = false
is_applied_record (some a) = is_applied a

unfoldable pub remaining_cells : Option String → List Cell → List Cell
remaining_cells id cells = filter (λ c. not (has_cell_id id c)) cells

unfoldable pub rollback_checks : Option Apply → List Cell → List Cell → List (Bool × String)
rollback_checks applied before after =
    (is_none applied, "apply_record_missing")
    ∷ (not (is_applied_record applied), "apply_record_not_applied")
    ∷ (is_none (rolled_back_id applied), "applied_candidate_id_missing")
    ∷ (eq_nat (length before) (length after), "applied_candidate_not_found")
    ∷ []

-- `rollbackMemoryReversibleApply`
unfoldable pub rollback_apply : Env → Option Apply → Store → Rollback × Store
unfolding read_cells remaining_cells rollback_checks
rollback_apply env applied store =
    let id = rolled_back_id applied in
    let before = read_cells store in
    let after = remaining_cells id before in
    let findings = collect (rollback_checks applied before after) in
    let base : Rollback = record {
      id = append "memrollback." (append env.millis (append "." (apply_id_or applied "unknown")));
      created_at = env.now;
      status = RollbackStatus.blocked;
      apply_record_id = apply_id applied;
      applied_candidate_id = id;
      result = none;
      findings = findings;
    } in
    let done = record base {
      status = rolled_back_local_only;
      result = some (record {
        before_line_count = length before;
        after_line_count = length after;
        applied_candidate_id = elim id [ none ↦ "" | some s ↦ s ];
      });
    } in
    if is_empty findings
    then (done, enqueue (memory_reversible_apply_rollback done) (record store { cells = after }))
    else (base, store)

-- The two invocations that a user interface may make, behind their tokens. `none` is
-- `blockedInvocationResult`.
unfoldable pub invoke_apply :
    Env → Option ApplyRequest → Option Bridge → (token : String) → Store → Option Apply × Store
unfolding append_apply
invoke_apply env request bridge token store =
    if token == "apply-context-mesh-local"
    then (let (a, store') = append_apply env request bridge store in (some a, store'))
    else (none, store)

unfoldable pub invoke_rollback :
    Env → Option Apply → (token : String) → Store → Option Rollback × Store
unfolding rollback_apply
invoke_rollback env applied token store =
    if token == "rollback-context-mesh-local"
    then (let (r, store') = rollback_apply env applied store in (some r, store'))
    else (none, store)
