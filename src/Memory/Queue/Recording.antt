-- ===== src/Memory/Queue/Recording.antt =====
-- What `appendMemoryApplyApprovalAuditBridge` answers and leaves.
use gpao_t.Prelude.{
  ◌≡◌, refl, sym, subst, true, false, Option, none, some, [], ◌∷◌, ◌++◌, is_empty, Bool-cases, inl,
  inr, collect, eq_refl,
}
use gpao_t.Ledger.{Proposal, ApprovalRecord, AuditRecord, Ledger, WriteResult, write_local_records}
use gpao_t.Ledger.Laws.{IsBound, Written, appended, write_local_records-Written}
use gpao_t.Memory.Record.{
  Env, ApplyRequest, ApprovalInput, BridgeStatus, recorded_local_only, Bridge,
  memory_apply_approval_audit, Store,
}
use gpao_t.Memory.Bridge.{
  request_id, explicit_confirmation, normalize_binding, bridge_checks, binding_checks, proposal_for,
  proposed, build_bridge, clock_of, is_verified, receipt_for, record_write,
}
use gpao_t.Memory.Bridge.Approving.{IsApproved, IsApproved-of_clear, binding_checks-missing}
use gpao_t.Memory.Queue.{finish_bridge, write_bridge, append_bridge}

-- The bridge that is recorded for an approval: its receipt names the two ledger records.
pub record IsRecorded (r : ApplyRequest) (v : ApprovalInput) (b : Bridge) (a : ApprovalRecord)
    (u : AuditRecord) : Type 0 where
  pub status : b.status ≡ recorded_local_only
  pub binding : b.binding ≡ normalize_binding (some v)
  pub of_request : b.apply_request_id ≡ request_id (some r)
  pub of_candidate : b.candidate_id ≡ r.candidate_id
  pub proposal : b.proposal ≡ some (proposal_for r (normalize_binding (some v)))
  pub receipt :
      b.receipt ≡ some (receipt_for b (proposal_for r (normalize_binding (some v))) r.id a u)
  pub bound : IsBound (proposal_for r (normalize_binding (some v))) explicit_confirmation a u

pub data Bridged (request : Option ApplyRequest) (approval : Option ApprovalInput) (store : Store)
    : Bridge × Store → Type 0 where
  recorded :
      (r : ApplyRequest) (v : ApprovalInput) (b : Bridge) (a : ApprovalRecord) (u : AuditRecord)
      → request ≡ some r
      → approval ≡ some v
      → IsApproved r v
      → IsRecorded r v b a u
      → Bridged request approval store (
        b,
        record store {
          ledger = appended store.ledger a u;
          queue = store.queue ++ memory_apply_approval_audit b ∷ [];
        },
      )
  refused :
      (b : Bridge)
      → b.status ≡ BridgeStatus.blocked
      → b.receipt ≡ none
      → b.writes_now ≡ false
      → Bridged request approval store (b, store)

-- A bound write is verified.
is_verified-bound :
    (p : Proposal) (a : ApprovalRecord) (u : AuditRecord)
    → IsBound p explicit_confirmation a u
    → is_verified p a u true ≡ true
unfolding is_verified
is_verified-bound p a u h =
    rw
      (
        h.proposal,
        h.confirmation_of,
        h.effect,
        h.audit_approval,
        h.audit_confirmation,
        h.audit_effect,
        eq_refl p.id,
        eq_refl explicit_confirmation,
        eq_refl p.expected_effect,
        eq_refl a.id,
      )
      refl

finish_bridge-Bridged :
    (r : ApplyRequest) (v : ApprovalInput) (b : Bridge) (store : Store) (out : WriteResult × Ledger)
    → IsApproved r v
    → b.binding ≡ normalize_binding (some v)
    → b.apply_request_id ≡ request_id (some r)
    → b.candidate_id ≡ r.candidate_id
    → b.proposal ≡ some (proposal_for r (normalize_binding (some v)))
    → b.receipt ≡ none
    → b.writes_now ≡ false
    → Written (proposal_for r (normalize_binding (some v))) explicit_confirmation store.ledger out
    → Bridged
        (some r)
        (some v)
        store
        (finish_bridge b (proposal_for r (normalize_binding (some v))) r.id out store)
unfolding record_write
finish_bridge-Bridged r v b store _ h e1 k l e2 e3 e4
      (Written.accepted a u replay w bound refl_replay) =
    let verified : is_verified (proposal_for r (normalize_binding (some v))) a u replay.ready
        ≡ true =
      rw refl_replay (is_verified-bound (proposal_for r (normalize_binding (some v))) a u bound) in
    rw verified (
      recorded r v _ a u refl refl h (record {
        status = refl;
        binding = e1;
        of_request = k;
        of_candidate = l;
        proposal = e2;
        receipt = unfold receipt_for in refl;
        bound = bound;
      }))
finish_bridge-Bridged r v b store _ h e1 k l e2 e3 e4 (Written.rejected findings _) =
    refused _ refl e3 e4

append_bridge-refused :
    (env : Env) (r : ApplyRequest) (approval : Option ApprovalInput) (store : Store)
    → is_empty (collect (bridge_checks (some r)) ++ collect (binding_checks approval (some r)))
      ≡ false
    → Bridged (some r) approval store (append_bridge env (some r) approval store)
unfolding append_bridge build_bridge proposed
append_bridge-refused env r approval store h =
    let none_proposed : (build_bridge env (some r) approval).proposal ≡ none = rw h refl in
    subst
      (λ o.
        Bridged (some r) approval store
          (write_bridge env r.id (build_bridge env (some r) approval) o store))
      (sym none_proposed) (refused (build_bridge env (some r) approval) (rw h refl) refl refl)

append_bridge-approved :
    (env : Env) (r : ApplyRequest) (v : ApprovalInput) (store : Store)
    → is_empty (collect (bridge_checks (some r)) ++ collect (binding_checks (some v) (some r)))
      ≡ true
    → Bridged (some r) (some v) store (append_bridge env (some r) (some v) store)
unfolding append_bridge build_bridge proposed
append_bridge-approved env r v store h =
    let b = build_bridge env (some r) (some v) in
    let p = proposal_for r (normalize_binding (some v)) in
    let e : b.proposal ≡ some p = rw h refl in
    subst (λ o. Bridged (some r) (some v) store (write_bridge env r.id b o store)) (sym e)
      (finish_bridge-Bridged r v b store
        (write_local_records (clock_of env) p explicit_confirmation store.ledger)
        (IsApproved-of_clear r v h) refl refl refl e refl refl
        (write_local_records-Written (clock_of env) p explicit_confirmation store.ledger))

-- An approval is recorded only where it is bound to its request: then both ledgers grow by one record
-- of the request's proposal, bound to one another, and the bridge holds the receipt that names them.
-- Any other bridge is blocked, holds no receipt and leaves the store.
pub append_bridge-Bridged :
    (env : Env) (request : Option ApplyRequest) (approval : Option ApprovalInput) (store : Store)
    → Bridged request approval store (append_bridge env request approval store)
unfolding append_bridge build_bridge
append_bridge-Bridged env none approval store = refused _ refl refl refl
append_bridge-Bridged env (some r) none store =
    append_bridge-refused env r none store (binding_checks-missing r)
append_bridge-Bridged env (some r) (some v) store =
    elim (Bool-cases
      (is_empty (collect (bridge_checks (some r)) ++ collect (binding_checks (some v) (some r))))) [
        | inl h ↦ append_bridge-approved env r v store h
        | inr h ↦ append_bridge-refused env r (some v) store h
      ]
