-- ===== src/Memory/Queue/RoundTrip.antt =====
-- An apply and its rollback: `appendMemoryReversibleApply`, then `rollbackMemoryReversibleApply`.
use gpao_t.Prelude.{
  append-nonempty, ℕ, ◌-◌, ◌≤◌, ◌<◌, String, ◌≡◌, refl, true, false, Option, some, List, [], ◌∷◌,
  ◌++◌, ◌==◌, is_empty, Bool-cases, inl, inr, any, length, length-append, take_last, eq_nat, arith,
  eq_refl, or_null-some, collect, ◌≢◌,
}
use gpao_t.Cell.{Cell}
use gpao_t.Memory.Record.{
  Env, Apply, ProposedChange, ApplyResult, applied_local_only, Rollback, rolled_back_local_only,
  ApplyRequest, Bridge, QueueRecord, Store,
}
use gpao_t.Memory.Lifecycle.{has_cell_id, is_applied, applied_id, read_limit, read_cells}
use gpao_t.Memory.Apply.{cell_for}
use gpao_t.Memory.Queue.Applying.{Applied, append_apply-Applied}
use gpao_t.Memory.Queue.{
  rolled_back_id, remaining_cells, rollback_checks, rollback_apply, append_apply,
}

take_last-all {ℓ} : {A : Type ℓ} (n : ℕ) (xs : List A) → length xs ≤ n → take_last n xs ≡ xs
take_last-all n xs h = let e : length xs - n ≡ 0 = omega arith in rw e

-- A rollback's filter takes away the one appended cell.
remaining_cells-append :
    (id : String) (cells : List Cell) (c : Cell)
    → c.id ≡ id
    → any (has_cell_id (some id)) cells ≡ false
    → remaining_cells (some id) (cells ++ c ∷ []) ≡ cells
unfolding remaining_cells
remaining_cells-append id [] c e h = rw (e, eq_refl id)
remaining_cells-append id (x ∷ cells) c e h = elim (Bool-cases (id == x.id)) [
  | inl k ↦ cc (rw k at h)
  | inr k ↦ rw k (rw (remaining_cells-append id cells c e (rw k at h)))
]

-- What a rollback leaves of a store to which a cell was appended.
pub record IsUndone (store : Store) (out : Rollback × Store) : Type 0 where
  pub cells : out.1.cells ≡ store.cells
  pub ledger : out.1.ledger ≡ store.ledger
  pub status : out.0.status ≡ rolled_back_local_only

is_applied_of : (a : Apply) → a.status ≡ applied_local_only → is_applied a ≡ true
is_applied_of a h = rw h

applied_id_of :
    (a : Apply) (r : ApplyResult) (id : String)
    → a.result ≡ some r
    → r.applied_candidate_id ≡ id
    → id ≢ ""
    → applied_id a ≡ some id
applied_id_of a r id h e n = rw (h, e) (or_null-some id n)

longer : (cells : List Cell) (c : Cell) → eq_nat (length (cells ++ c ∷ [])) (length cells) ≡ false
longer cells c = ground (arith, length-append cells (c ∷ []))

rollback_checks-clear :
    (a : Apply) (id : String) (cells : List Cell) (c : Cell)
    → is_applied a ≡ true
    → applied_id a ≡ some id
    → is_empty (collect (rollback_checks (some a) (cells ++ c ∷ []) cells)) ≡ true
unfolding rollback_checks
rollback_checks-clear a id cells c h e = rw (h, e, longer cells c)

rollback_apply-appended :
    (env : Env) (a : Apply) (store : Store) (queue : List QueueRecord) (c : Cell)
    → is_applied a ≡ true
    → applied_id a ≡ some c.id
    → any (has_cell_id (some c.id)) store.cells ≡ false
    → length store.cells < read_limit
    → IsUndone store (
        rollback_apply env (some a) (record store { cells = store.cells ++ c ∷ []; queue = queue }))
unfolding rollback_apply read_cells
rollback_apply-appended env a store queue c h e fresh short =
    let whole : take_last read_limit (store.cells ++ c ∷ []) ≡ store.cells ++ c ∷ [] =
      take_last-all read_limit (store.cells ++ c ∷ [])
        (omega (arith, short, length-append store.cells (c ∷ []))) in
    let left : remaining_cells (rolled_back_id (some a)) (store.cells ++ c ∷ []) ≡ store.cells =
      rw e (remaining_cells-append c.id store.cells c refl fresh) in
    rw (whole, left, rollback_checks-clear a c.id store.cells c h e)
      (record { cells = refl; ledger = refl; status = refl })

cell_for-id :
    (env : Env) (r : ApplyRequest) (c : ProposedChange) (b : Bridge) → (cell_for env r c b).id ≢ ""
unfolding cell_for
cell_for-id env r c b = append-nonempty "tcell.applied." _ (omega arith)

-- The rollback of whatever an apply answered.
rollback_apply-IsUndone :
    (env env' : Env) (request : Option ApplyRequest) (bridge : Option Bridge) (store : Store)
    (out : Apply × Store)
    → Applied env request bridge store out
    → out.0.status ≡ applied_local_only
    → any (has_cell_id (applied_id out.0)) store.cells ≡ false
    → length store.cells < read_limit
    → IsUndone store (rollback_apply env' (some out.0) out.1)
rollback_apply-IsUndone env env' request bridge store _
      (Applied.appended r b c a result _ _ _ _ _ s found same) h fresh short =
    let id = applied_id_of a result (cell_for env r c b).id found same (cell_for-id env r c b) in
    rollback_apply-appended env' a store _ (cell_for env r c b) (is_applied_of a s) id
      (rw id at fresh) short
rollback_apply-IsUndone env env' request bridge store _ (Applied.refused a s _ _) h fresh short =
    cc (s, h)

-- After an apply that was applied, with an id that no cell of the store has and less than 100000 cells
-- before it, the rollback of its record succeeds, restores the cells and leaves the ledgers.
pub rollback_apply-append_apply :
    (env env' : Env) (request : Option ApplyRequest) (bridge : Option Bridge) (store : Store)
    → (append_apply env request bridge store).0.status ≡ applied_local_only
    → any (has_cell_id (applied_id (append_apply env request bridge store).0)) store.cells ≡ false
    → length store.cells < read_limit
    → IsUndone store (
        rollback_apply env'
          (some (append_apply env request bridge store).0)
          (append_apply env request bridge store).1)
rollback_apply-append_apply env env' request bridge store =
    rollback_apply-IsUndone env env' request bridge store (append_apply env request bridge store)
      (append_apply-Applied env request bridge store)
