-- ===== src/Memory/Queue/Undoing.antt =====
-- What `rollbackMemoryReversibleApply` answers and leaves.
use gpao_t.Prelude.{
  ℕ, ◌≢◌, sym, eq_iff, ◌==◌, ◌≡◌, refl, ap, subst, String, true, false, Option, none, some, List,
  [], ◌∷◌, ◌++◌, is_empty, Bool-cases, inl, inr, any, length, eq_nat, collect, clear_of_empty,
  not-false, arith,
}
use gpao_t.Cell.{Cell}
use gpao_t.Memory.Record.{
  Env, Apply, Rollback, RollbackStatus, rolled_back_local_only, memory_reversible_apply_rollback,
  Store,
}
use gpao_t.Memory.Replay.{is_none}
use gpao_t.Memory.Lifecycle.{read_cells, is_applied, has_cell_id}
use gpao_t.Memory.Queue.{rolled_back_id, remaining_cells, rollback_checks, rollback_apply}

-- The cells that are left of `cells` where every one with the id is taken away and every other stays.
pub data Without (id : String) : (cells left : List Cell) → Type 0 where
  done : Without id [] []
  taken :
      (c : Cell) (cells left : List Cell)
      → c.id ≡ id
      → Without id cells left
      → Without id (c ∷ cells) left
  kept :
      (c : Cell) (cells left : List Cell)
      → c.id ≢ id
      → Without id cells left
      → Without id (c ∷ cells) (c ∷ left)

-- The two outcomes of a rollback.
pub data RolledBack (applied : Option Apply) (store : Store) : Rollback × Store → Type 0 where
  undone :
      (a : Apply) (id : String) (r : Rollback) (left : List Cell)
      → applied ≡ some a
      → is_applied a ≡ true
      → rolled_back_id (some a) ≡ some id
      → any (λ c. id == c.id) (read_cells store) ≡ true
      → Without id (read_cells store) left
      → r.status ≡ rolled_back_local_only
      → r.applied_candidate_id ≡ some id
      → RolledBack applied store (
        r,
        record store {
          cells = left;
          queue = store.queue ++ memory_reversible_apply_rollback r ∷ [];
        },
      )
  refused :
      (r : Rollback)
      → r.status ≡ RollbackStatus.blocked
      → is_empty r.findings ≡ false
      → r.result ≡ none
      → RolledBack applied store (r, store)

remaining_cells-Without :
    (id : String) (cells : List Cell) → Without id cells (remaining_cells (some id) cells)
unfolding remaining_cells
remaining_cells-Without id [] = done
remaining_cells-Without id (c ∷ cells) = elim (Bool-cases (id == c.id)) [
  | inl e ↦ rw e (
      taken c cells (remaining_cells (some id) cells) (sym ((eq_iff id c.id).0 e))
        (remaining_cells-Without id cells))
  | inr e ↦ rw e (
      kept c cells (remaining_cells (some id) cells) (ground (arith, e, eq_iff id c.id))
        (remaining_cells-Without id cells))
]

remaining_cells-all :
    (id : Option String) (cells : List Cell)
    → any (has_cell_id id) cells ≡ false
    → remaining_cells id cells ≡ cells
unfolding remaining_cells
remaining_cells-all id [] h = refl
remaining_cells-all id (c ∷ cells) h = elim (Bool-cases (has_cell_id id c)) [
  | inl e ↦ cc (rw e at h)
  | inr e ↦ rw e (ap (λ l. c ∷ l) (remaining_cells-all id cells (rw e at h)))
]

eq_nat_refl : (n : ℕ) → eq_nat n n ≡ true
eq_nat_refl n = ground arith

found_of_lengths :
    (id : Option String) (cells : List Cell)
    → eq_nat (length cells) (length (remaining_cells id cells)) ≡ false
    → any (has_cell_id id) cells ≡ true
found_of_lengths id cells h = elim (Bool-cases (any (has_cell_id id) cells)) [
  | inl e ↦ e
  | inr e ↦ cc (eq_nat_refl (length cells), rw (remaining_cells-all id cells e) at h)
]

some_of_test {ℓ} : {A : Type ℓ} (o : Option A) → is_none o ≡ false → (a : A) × (o ≡ some a)
some_of_test none h = cc
some_of_test (some a) h = (a, refl)

undone_with :
    (env : Env) (a : Apply) (store : Store) (id : String)
    → is_empty (
        collect (
          rollback_checks
            (some a)
            (read_cells store)
            (remaining_cells (rolled_back_id (some a)) (read_cells store))))
      ≡ true
    → is_applied a ≡ true
    → rolled_back_id (some a) ≡ some id
    → any (has_cell_id (some id)) (read_cells store) ≡ true
    → RolledBack (some a) store (rollback_apply env (some a) store)
unfolding rollback_apply
undone_with env a store id h applied e found =
    rw (h, e)
      (undone a id _ _ refl applied e found (remaining_cells-Without id (read_cells store)) refl
        refl)

rollback_apply-undone :
    (env : Env) (a : Apply) (store : Store)
    → is_empty (
        collect (
          rollback_checks
            (some a)
            (read_cells store)
            (remaining_cells (rolled_back_id (some a)) (read_cells store))))
      ≡ true
    → RolledBack (some a) store (rollback_apply env (some a) store)
unfolding rollback_checks
rollback_apply-undone env a store h =
    let (_, (c1, (c2, (c3, _)))) =
      clear_of_empty
        (rollback_checks (some a) (read_cells store)
          (remaining_cells (rolled_back_id (some a)) (read_cells store)))
        h in
    let (id, e) = some_of_test (rolled_back_id (some a)) c2 in
    undone_with env a store id h (not-false (is_applied a) c1) e (
      subst (λ o. any (has_cell_id o) (read_cells store) ≡ true) e
        (found_of_lengths (rolled_back_id (some a)) (read_cells store) c3))

pub rollback_apply-RolledBack :
    (env : Env) (applied : Option Apply) (store : Store)
    → RolledBack applied store (rollback_apply env applied store)
unfolding rollback_apply
rollback_apply-RolledBack env none store = refused _ refl refl refl
rollback_apply-RolledBack env (some a) store =
    elim (Bool-cases (
      is_empty (
        collect (
          rollback_checks (some a) (read_cells store)
            (remaining_cells (rolled_back_id (some a)) (read_cells store)))))) [
              | inl h ↦ rollback_apply-undone env a store h
              | inr h ↦ rw h (refused _ refl h refl)
            ]
