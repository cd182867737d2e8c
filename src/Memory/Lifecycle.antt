-- ===== src/Memory/Lifecycle.antt =====
-- src/core/memory-candidate-review-queue.js: the lifecycle review of an applied cell after an
-- independent replay.
pub mod Granting
use gpao_t.Prelude.{
  ℕ, String, Bool, true, false, not, Option, none, some, List, [], ◌∷◌, ◌==◌, if◌then◌else◌,
  or_null, filter, find, any, take_last, is_text, collect, is_empty,
}
use gpao_t.Cell.{Cell}
use gpao_t.Memory.Record.{
  Env, Candidate, Evidence, LifecycleStatus, reviewed_after_independent_replay, LifecycleReview,
  ApplyStatus, Apply, Store,
}
use gpao_t.Memory.Replay.{is_none, is_independent_proof}

-- `readTCellCandidates` with the limit that the queue passes.
abbrev pub read_limit : ℕ
read_limit = 100000

unfoldable pub read_cells : Store → List Cell
read_cells store = take_last read_limit store.cells

-- The `id` and `status` that the lifecycle review reads of an apply record.
abbrev pub is_applied : Apply → Bool
is_applied a = elim a.status [ ApplyStatus.applied_local_only ↦ true | _ ↦ false ]

abbrev pub applied_id : Apply → Option String
applied_id a = elim a.result [ none ↦ none | some r ↦ or_null r.applied_candidate_id ]

abbrev pub has_cell_id : Option String → Cell → Bool
has_cell_id id c = is_text id c.id

unfoldable pub lifecycle_checks : Candidate → Apply → Evidence → List Cell → List (Bool × String)
unfolding is_independent_proof
lifecycle_checks c a e cells =
    (not (is_applied a), "applied_candidate_record_missing")
    ∷ (not (is_text a.candidate_id c.id), "applied_candidate_review_mismatch")
    ∷ (not (is_independent_proof e.proof), "independent_replay_proof_missing")
    ∷ (not (e.replay_case.stage == "post_apply"), "post_apply_replay_stage_required")
    ∷ (is_none (applied_id a), "applied_candidate_id_missing")
    ∷ (not (any (has_cell_id (applied_id a)) cells), "applied_candidate_not_found")
    ∷ []

-- The cell after its review: it may become an answer's anchor.
unfoldable pub reviewed_cell : Env → Evidence → Cell → Cell
reviewed_cell env e cell = record cell {
  lifecycle = "reviewed";
  authority = record {
    allowed_use =
        "retrieve" ∷ "review" ∷ "supporting_context" ∷ "admit_for_current_turn" ∷ "answer_anchor"
        ∷ "explain" ∷ [];
    blocked_use = filter (λ u. not (u == "answer_anchor")) cell.authority.blocked_use;
  };
  replay = record {
    status = "passed";
    independent = true;
    evidence_id = e.id;
    reviewed_lifecycle_allowed = true;
    reviewed_at = env.now;
  };
  trace = record (cell.trace) {
    lifecycle_review_replay_evidence_id = e.id;
    lifecycle_reviewed_at = env.now;
  };
}

-- `candidates[candidateIndex] = …` at the first index that `findIndex` gives.
unfoldable pub update_first : (Cell → Bool) → (Cell → Cell) → List Cell → List Cell
update_first p f [] = []
update_first p f (c ∷ cells) =
    let rest = update_first p f cells in if p c then f c ∷ cells else c ∷ rest

abbrev lifecycle_of : Option Cell → Option String
lifecycle_of none = none
lifecycle_of (some c) = some c.lifecycle

-- `reviewAppliedCandidateLifecycle`
unfoldable pub review_lifecycle :
    Env → Candidate → Apply → Evidence → Store → LifecycleReview × Store
unfolding read_cells lifecycle_checks reviewed_cell update_first
review_lifecycle env c a e store =
    let cells = read_cells store in
    let found = has_cell_id (applied_id a) in
    let findings = collect (lifecycle_checks c a e cells) in
    if is_empty findings
    then (
      record {
        status = reviewed_after_independent_replay;
        applied_candidate_id = applied_id a;
        replay_evidence_id = some e.id;
        previous_lifecycle = lifecycle_of (find found cells);
        findings = [];
      },
      record store { cells = update_first found (reviewed_cell env e) cells },
    )
    else (
      record {
        status = LifecycleStatus.blocked;
        applied_candidate_id = applied_id a;
        replay_evidence_id = none;
        previous_lifecycle = none;
        findings = findings;
      },
      store,
    )
