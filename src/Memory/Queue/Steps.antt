-- ===== src/Memory/Queue/Steps.antt =====
-- The review queue over time: the operations as steps between stores, and what holds after any of them.
use gpao_t.Prelude.{
  ◌≡◌, refl, sym, subst, String, true, Option, none, some, List, [], ◌∷◌, ◌++◌, ◌==◌,
  any-append_right, any-newest, find-holds, All-weaken, eq_refl,
}
use gpao_t.Cell.{Cell}
use gpao_t.Ledger.{
  newest, read_approval_records, read_audit_records, ApprovalRecord, AuditRecord, Ledger,
}
use gpao_t.Ledger.Laws.{appended}
use gpao_t.Memory.Record.{
  Env, SourceInput, CandidateInput, Candidate, Review, ReplayCaseInput, Evidence, LifecycleReview,
  ApplyRequest, ApprovalInput, Bridge, Apply, Rollback, QueueRecord, memory_candidate,
  memory_replay_evidence, memory_apply_request, memory_apply_approval_audit,
  memory_reversible_apply, memory_reversible_apply_rollback, Store,
}
use gpao_t.Memory.Candidate.{build_candidate}
use gpao_t.Memory.Replay.{build_replay}
use gpao_t.Memory.Request.{build_apply_request}
use gpao_t.Memory.Request.Planning.{Requested, build_apply_request-Requested}
use gpao_t.Memory.Bridge.{explicit_confirmation, receipt_for, proposal_for, normalize_binding}
use gpao_t.Memory.Readback.{find_approval, find_audit}
use gpao_t.Memory.Apply.Authority.{IsAuthorized}
use gpao_t.Memory.Lifecycle.{review_lifecycle}
use gpao_t.Memory.Lifecycle.Granting.{Reviewed, review_lifecycle-Reviewed}
use gpao_t.Memory.Queue.{
  keep_candidate, keep_request, record_evidence, append_candidate, append_replay_evidence,
  append_apply_request, append_bridge, append_apply, rollback_apply,
}
use gpao_t.Memory.Queue.Applying.{Applied, append_apply-Applied}
use gpao_t.Memory.Queue.Undoing.{RolledBack, rollback_apply-RolledBack}
use gpao_t.Memory.Queue.Recording.{IsRecorded, Bridged, append_bridge-Bridged}
use gpao_t.Memory.Queue.Backing.{
  approves, audits_of, IsApprovedIn, IsBacked, candidate_backed, evidence_backed, request_backed,
  bridge_backed, apply_backed, rollback_backed, IsSound, IsBacked-appended, IsSound-enqueue,
}

-- One call of one of the operations, with any arguments.
pub data Step (store : Store) : Store → Type 0 where
  candidate_step :
      (env : Env) (source : SourceInput) (candidate : CandidateInput) (request : String)
      → Step store (append_candidate env source candidate request store).1
  replay_step :
      (env : Env) (candidate : Option Candidate) (before_output after_output : String)
      (given : Option ReplayCaseInput) (applied : Option Apply)
      → Step store
          (append_replay_evidence env candidate before_output after_output given applied store).1
  request_step :
      (env : Env) (candidate : Option Candidate) (evidence : Option Evidence)
      (target approval_state : String)
      → Step store (append_apply_request env candidate evidence target approval_state store).1
  bridge_step :
      (env : Env) (request : Option ApplyRequest) (approval : Option ApprovalInput)
      → Step store (append_bridge env request approval store).1
  apply_step :
      (env : Env) (request : Option ApplyRequest) (bridge : Option Bridge)
      → Step store (append_apply env request bridge store).1
  rollback_step :
      (env : Env) (applied : Option Apply) → Step store (rollback_apply env applied store).1

-- The stores that the operations reach from an empty queue, whatever cells and ledgers there were.
pub data Reachable : Store → Type 0 where
  start :
      (cells : List Cell) (ledger : Ledger)
      → Reachable (record { queue = []; cells = cells; ledger = ledger })
  next : {store store' : Store} → Reachable store → Step store store' → Reachable store'

keep_candidate-IsSound :
    (c : Candidate) (s : Review) (store : Store)
    → c.status ≡ s
    → IsSound store
    → IsSound (keep_candidate c s store)
keep_candidate-IsSound c Review.review_only store e h = record {
  backed = IsSound-enqueue store (memory_candidate c) h (candidate_backed c e);
}
keep_candidate-IsSound c Review.blocked store e h = h

append_candidate-IsSound :
    (env : Env) (source : SourceInput) (candidate : CandidateInput) (request : String)
    (store : Store)
    → IsSound store
    → IsSound (append_candidate env source candidate request store).1
unfolding append_candidate
append_candidate-IsSound env source candidate request store h =
    let c = build_candidate env source candidate request in
    keep_candidate-IsSound c c.status store refl h

review-IsSound :
    (env : Env) (c : Candidate) (a : Apply) (e : Evidence) (store : Store)
    (out : LifecycleReview × Store) (q : QueueRecord)
    → Reviewed env c a e store out
    → IsSound store
    → IsBacked store.ledger q
    → IsSound (record out.1 { queue = out.1.queue ++ q ∷ [] })
review-IsSound env c a e store _ q (Reviewed.granted review cells _ _) h k = record {
  backed = IsSound-enqueue store q h k;
}
review-IsSound env c a e store _ q (Reviewed.refused review _ _) h k = record {
  backed = IsSound-enqueue store q h k;
}

record_evidence-IsSound :
    (env : Env) (c : Candidate) (applied : Option Apply) (e : Evidence) (store : Store)
    → IsSound store
    → IsSound (record_evidence env c applied e store).1
unfolding record_evidence
record_evidence-IsSound env c none e store h = record {
  backed = IsSound-enqueue store (memory_replay_evidence e) h (evidence_backed e);
}
record_evidence-IsSound env c (some a) e store h =
    review-IsSound env c a e store (review_lifecycle env c a e store)
      (memory_replay_evidence
        (record e { lifecycle_review = some (review_lifecycle env c a e store).0 }))
      (review_lifecycle-Reviewed env c a e store) h (evidence_backed _)

append_replay_evidence-IsSound :
    (env : Env) (candidate : Option Candidate) (before_output after_output : String)
    (given : Option ReplayCaseInput) (applied : Option Apply) (store : Store)
    → IsSound store
    → IsSound
        (append_replay_evidence env candidate before_output after_output given applied store).1
unfolding append_replay_evidence build_replay
append_replay_evidence-IsSound env none before_output after_output given applied store h = h
append_replay_evidence-IsSound env (some c) before_output after_output given applied store h =
    record_evidence-IsSound env c applied _ store h

keep_request-IsSound :
    (candidate : Option Candidate) (evidence : Option Evidence) (r : ApplyRequest) (store : Store)
    → Requested candidate evidence r
    → IsSound store
    → IsSound (keep_request r r.status store)
keep_request-IsSound candidate evidence _ store (Requested.awaiting c e r _ _ planned _ _) h =
    subst (λ s. IsSound (keep_request r s store)) (sym planned.status)
      (record {
        backed =
            IsSound-enqueue store (memory_apply_request r) h
              (request_backed r planned.status planned.request_proof);
      })
keep_request-IsSound candidate evidence _ store (Requested.refused r s _ _ _ _) h =
    subst (λ s. IsSound (keep_request r s store)) (sym s) h

append_apply_request-IsSound :
    (env : Env) (candidate : Option Candidate) (evidence : Option Evidence)
    (target approval_state : String) (store : Store)
    → IsSound store
    → IsSound (append_apply_request env candidate evidence target approval_state store).1
unfolding append_apply_request
append_apply_request-IsSound env candidate evidence target approval_state store h =
    keep_request-IsSound candidate evidence
      (build_apply_request env candidate evidence target approval_state) store
      (build_apply_request-Requested env candidate evidence target approval_state) h

-- The two new records of a bound write approve under the new approval's id.
approved-appended :
    (r : ApplyRequest) (v : ApprovalInput) (b : Bridge) (a : ApprovalRecord) (u : AuditRecord)
    (ledger : Ledger)
    → IsRecorded r v b a u
    → IsApprovedIn (appended ledger a u) a.id
approved-appended r v b a u ledger h = record {
  approval =
      any-append_right (approves a.id) ledger.approvals (a ∷ [])
        (rw (h.bound.confirmation_of, eq_refl a.id, eq_refl explicit_confirmation) refl);
  audit = any-append_right (audits_of a.id) ledger.audits (u ∷ []) (
      rw
        (
          h.bound.audit_confirmation,
          h.bound.audit_approval,
          eq_refl a.id,
          eq_refl explicit_confirmation,
        )
        refl);
}

bridge-IsSound :
    (request : Option ApplyRequest) (approval : Option ApprovalInput) (store : Store)
    (out : Bridge × Store)
    → Bridged request approval store out
    → IsSound store
    → IsSound out.1
unfolding receipt_for
bridge-IsSound request approval store _ (Bridged.recorded r v b a u _ _ _ h) s =
    let kept : IsSound (record store { ledger = appended store.ledger a u }) = record {
      backed =
          All-weaken (IsBacked store.ledger) (IsBacked (appended store.ledger a u)) store.queue
            (IsBacked-appended store.ledger a u) s.backed;
    } in
    record {
      backed =
          IsSound-enqueue (record store { ledger = appended store.ledger a u })
            (memory_apply_approval_audit b) kept
            (bridge_backed b (record {
              status = h.status;
              receipt = receipt_for b (proposal_for r (normalize_binding (some v))) r.id a u;
              of_bridge = h.receipt;
              approved = approved-appended r v b a u store.ledger h;
            }));
    }
bridge-IsSound request approval store _ (Bridged.refused b _ _ _) s = s

-- The records that an authority has read back stand in the ledgers.
approved-found :
    (ledger : Ledger) (r : ApplyRequest) (b : Bridge) (h : IsAuthorized ledger r b)
    → IsApprovedIn ledger h.receipt.approval_record_id
unfolding find_approval find_audit read_approval_records read_audit_records
approved-found ledger r b h =
    let id = h.receipt.approval_record_id in
    let same : (h.approval.id == id) ≡ true =
      find-holds (λ x. x.id == id) (newest 500 ledger.approvals) h.approval h.approval_found in
    record {
      approval =
          any-newest (λ x. x.id == id) (approves id) 500 ledger.approvals h.approval
            h.approval_found
            (rw (same, h.read_back.approval_confirmation, eq_refl explicit_confirmation) refl);
      audit =
          any-newest (λ x. x.id == h.receipt.audit_record_id) (audits_of id) 500 ledger.audits
            h.audit h.audit_found
            (rw
              (
                h.read_back.audit_approval,
                h.read_back.audit_confirmation,
                eq_refl id,
                eq_refl explicit_confirmation,
              )
              refl);
    }

apply-IsSound :
    (env : Env) (request : Option ApplyRequest) (bridge : Option Bridge) (store : Store)
    (out : Apply × Store)
    → Applied env request bridge store out
    → IsSound store
    → IsSound out.1
apply-IsSound env request bridge store _
      (Applied.appended r b c a result _ _ _ authority receipt status _ _) s =
    record {
      backed = IsSound-enqueue store (memory_reversible_apply a) s (
          apply_backed a (record {
            status = status;
            receipt_id = authority.receipt.approval_record_id;
            of_apply = receipt;
            approved = approved-found store.ledger r b authority;
          }));
    }
apply-IsSound env request bridge store _ (Applied.refused a _ _ _) s = s

rollback-IsSound :
    (applied : Option Apply) (store : Store) (out : Rollback × Store)
    → RolledBack applied store out
    → IsSound store
    → IsSound out.1
rollback-IsSound applied store _ (RolledBack.undone a id r _ _ _ _ _ _ status _) s = record {
  backed = IsSound-enqueue store (memory_reversible_apply_rollback r) s (rollback_backed r status);
}
rollback-IsSound applied store _ (RolledBack.refused r _ _ _) s = s

Step-IsSound : (store store' : Store) → Step store store' → IsSound store → IsSound store'
Step-IsSound store _ (candidate_step env source candidate request) h =
    append_candidate-IsSound env source candidate request store h
Step-IsSound store _ (replay_step env candidate before_output after_output given applied) h =
    append_replay_evidence-IsSound env candidate before_output after_output given applied store h
Step-IsSound store _ (request_step env candidate evidence target approval_state) h =
    append_apply_request-IsSound env candidate evidence target approval_state store h
Step-IsSound store _ (bridge_step env request approval) h =
    bridge-IsSound request approval store (append_bridge env request approval store)
      (append_bridge-Bridged env request approval store) h
Step-IsSound store _ (apply_step env request bridge) h =
    apply-IsSound env request bridge store (append_apply env request bridge store)
      (append_apply-Applied env request bridge store) h
Step-IsSound store _ (rollback_step env applied) h =
    rollback-IsSound applied store (rollback_apply env applied store)
      (rollback_apply-RolledBack env applied store) h

-- However the operations are called, from an empty queue on, every candidate in the queue is for review
-- only, every request in it awaits its approval with an independent proof, and every recorded bridge
-- and every apply has an explicitly confirmed approval and its audit in the ledgers.
pub Reachable-IsSound : (store : Store) → Reachable store → IsSound store
Reachable-IsSound _ (start cells ledger) = record { backed = tt }
Reachable-IsSound _ (next {store} {store'} r step) =
    Step-IsSound store store' step (Reachable-IsSound store r)
