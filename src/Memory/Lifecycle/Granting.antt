-- ===== src/Memory/Lifecycle/Granting.antt =====
-- When `reviewAppliedCandidateLifecycle` lets a cell become an answer's anchor, and what it changes.
use gpao_t.Prelude.{
  String, ◌≡◌, refl, ap, Bool, true, false, not, Option, none, some, List, [], ◌∷◌, ◌++◌, ◌==◌,
  is_empty, Bool-cases, inl, inr, any, filter, has, eq_iff, eq_of_equal, eq_of_is_text, not-false,
  collect, clear_of_empty,
}
use gpao_t.Cell.{Cell}
use gpao_t.Memory.Record.{
  Env, Candidate, Apply, Evidence, LifecycleReview, LifecycleStatus,
  reviewed_after_independent_replay, Store,
}
use gpao_t.Memory.Replay.{is_independent_proof}
use gpao_t.Memory.Lifecycle.{
  read_cells, is_applied, applied_id, has_cell_id, lifecycle_checks, reviewed_cell, update_first,
  review_lifecycle,
}

-- A list around the first element that passes.
record IsSplit (p : Cell → Bool) (f : Cell → Cell) (cells : List Cell) : Type 0 where
  before : List Cell
  cell : Cell
  after : List Cell
  whole : cells ≡ before ++ cell ∷ after
  updated : update_first p f cells ≡ before ++ f cell ∷ after
  passes : p cell ≡ true
  fresh : any p before ≡ false

update_first-IsSplit :
    (p : Cell → Bool) (f : Cell → Cell) (cells : List Cell) → any p cells ≡ true → IsSplit p f cells
unfolding update_first
update_first-IsSplit p f [] h = cc
update_first-IsSplit p f (x ∷ cells) h = elim (Bool-cases (p x)) [
  | inl e ↦ record {
    before = [];
    cell = x;
    after = cells;
    whole = refl;
    updated = rw e refl;
    passes = e;
    fresh = refl;
  }
  | inr e ↦
      let r = update_first-IsSplit p f cells (rw e at h) in
      record {
        before = x ∷ r.before;
        cell = r.cell;
        after = r.after;
        whole = ap (λ l. x ∷ l) r.whole;
        updated = rw (e, r.updated) refl;
        passes = r.passes;
        fresh = rw (e, r.fresh) refl;
      }
]

-- The conditions of a review, and the cell that it changes among those that it reads.
pub record IsGranted (env : Env) (c : Candidate) (a : Apply) (e : Evidence) (store : Store)
    (cells : List Cell) : Type 0 where
  pub applied : is_applied a ≡ true
  pub of_candidate : a.candidate_id ≡ some c.id
  pub proof : is_independent_proof e.proof ≡ true
  pub stage : e.replay_case.stage ≡ "post_apply"
  pub before : List Cell
  pub cell : Cell
  pub after : List Cell
  pub read : read_cells store ≡ before ++ cell ∷ after
  pub written : cells ≡ before ++ reviewed_cell env e cell ∷ after
  pub id : applied_id a ≡ some cell.id
  pub first : any (has_cell_id (applied_id a)) before ≡ false
  pub anchors : has (reviewed_cell env e cell).authority.allowed_use "answer_anchor" ≡ true
  pub unblocked : has (reviewed_cell env e cell).authority.blocked_use "answer_anchor" ≡ false

pub data Reviewed (env : Env) (c : Candidate) (a : Apply) (e : Evidence) (store : Store)
    : LifecycleReview × Store → Type 0 where
  granted :
      (review : LifecycleReview) (cells : List Cell)
      → review.status ≡ reviewed_after_independent_replay
      → IsGranted env c a e store cells
      → Reviewed env c a e store (review, record store { cells = cells })
  refused :
      (review : LifecycleReview)
      → review.status ≡ LifecycleStatus.blocked
      → is_empty review.findings ≡ false
      → Reviewed env c a e store (review, store)

has-filter : (s : String) (xs : List String) → has (filter (λ u. not (u == s)) xs) s ≡ false
has-filter s [] = refl
has-filter s (x ∷ xs) = elim (Bool-cases (x == s)) [
  | inl e ↦ rw e (has-filter s xs)
  | inr e ↦ rw e (rw (e, has-filter s xs) refl)
]

has_cell_id-eq : (id : Option String) (c : Cell) → has_cell_id id c ≡ true → id ≡ some c.id
has_cell_id-eq none c h = cc
has_cell_id-eq (some s) c h = ap some ((eq_iff s c.id).0 h)

review_lifecycle-IsGranted :
    (env : Env) (c : Candidate) (a : Apply) (e : Evidence) (store : Store)
    → is_empty (collect (lifecycle_checks c a e (read_cells store))) ≡ true
    → IsGranted env c a e store
        (update_first (has_cell_id (applied_id a)) (reviewed_cell env e) (read_cells store))
unfolding lifecycle_checks
review_lifecycle-IsGranted env c a e store h =
    let (c0, (c1, (c2, (c3, (_, (c5, _)))))) =
      clear_of_empty (lifecycle_checks c a e (read_cells store)) h in
    let r =
      update_first-IsSplit (has_cell_id (applied_id a)) (reviewed_cell env e) (read_cells store)
        (not-false _ c5) in
    record {
      applied = not-false (is_applied a) c0;
      of_candidate = eq_of_is_text a.candidate_id c.id c1;
      proof = not-false (is_independent_proof e.proof) c2;
      stage = eq_of_equal e.replay_case.stage "post_apply" c3;
      before = r.before;
      cell = r.cell;
      after = r.after;
      read = r.whole;
      written = r.updated;
      id = has_cell_id-eq (applied_id a) r.cell r.passes;
      first = r.fresh;
      anchors = unfold reviewed_cell in refl;
      unblocked = unfold reviewed_cell in has-filter "answer_anchor" r.cell.authority.blocked_use;
    }

-- A lifecycle review changes the store only for an applied record of the same candidate, with an
-- independent proof of a replay after the apply: then, of the newest 100000 cells, which are those it
-- keeps, it changes the first one with the applied id and no other, and that cell may be an answer's
-- anchor. Otherwise it gives findings and changes nothing.
pub review_lifecycle-Reviewed :
    (env : Env) (c : Candidate) (a : Apply) (e : Evidence) (store : Store)
    → Reviewed env c a e store (review_lifecycle env c a e store)
unfolding review_lifecycle
review_lifecycle-Reviewed env c a e store =
    elim (Bool-cases (is_empty (collect (lifecycle_checks c a e (read_cells store))))) [
      | inl h ↦ rw h (granted _ _ refl (review_lifecycle-IsGranted env c a e store h))
      | inr h ↦ rw h (refused _ refl h)
    ]
