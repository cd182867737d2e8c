-- ===== src/Memory/Queue/Completing.antt =====
-- An apply right after the record of its approval goes through.
use gpao_t.Prelude.{
  ◌≡◌, ◌≢◌, refl, ap, sym, subst, ◌∙◌, true, false, Option, none, some, [], ◌∷◌, ◌++◌, is_empty,
}
use gpao_t.Ledger.{ApprovalRecord, AuditRecord, Ledger}
use gpao_t.Ledger.Laws.{appended}
use gpao_t.Memory.Record.{
  Env, ApplyRequest, ProposedChange, ApprovalInput, recorded_local_only, Bridge, applied_local_only,
  memory_apply_approval_audit, Store,
}
use gpao_t.Memory.Replay.{is_none}
use gpao_t.Memory.Bridge.{normalize_binding, proposal_for, receipt_for}
use gpao_t.Memory.Bridge.Approving.{IsApproved}
use gpao_t.Memory.Readback.{ledger_findings}
use gpao_t.Memory.Checks.{validate_apply}
use gpao_t.Memory.Apply.{build_apply, candidate_for, cell_for}
use gpao_t.Memory.Apply.Authority.{IsReadBack}
use gpao_t.Memory.Queue.{append_bridge, append_apply, finish_apply, write_applied}
use gpao_t.Memory.Queue.Recording.{IsRecorded, Bridged, append_bridge-Bridged}
use gpao_t.Memory.Queue.Clearing.{
  IsFor, find_approval-appended, find_audit-appended, test_of_nonempty, readback-clear,
  ledger_findings-clear, change_checks-clear, validate_apply-clear,
}

append_apply-status :
    (env : Env) (r : ApplyRequest) (b : Bridge) (c : ProposedChange) (store : Store)
    → r.proposed_change ≡ some c
    → is_empty (validate_apply env store.ledger (some r) (some b)) ≡ true
    → (append_apply env (some r) (some b) store).0.status ≡ applied_local_only
unfolding append_apply write_applied build_apply candidate_for
append_apply-status env r b c store e h =
    let preview = build_apply env store.ledger (some r) (some b) in
    let found : preview.proposed_candidate ≡ some (cell_for env r c b) = rw (h, e) refl in
    subst (λ o. (finish_apply preview o store).0.status ≡ applied_local_only) (sym found) refl

-- The receipt of a recorded bridge is for its request.
IsFor-of_recorded :
    (r : ApplyRequest) (v : ApprovalInput) (b : Bridge) (a : ApprovalRecord) (u : AuditRecord)
    → IsApproved r v
    → IsRecorded r v b a u
    → r.target.id ≡ "context_mesh_candidate"
    → IsFor r b (receipt_for b (proposal_for r (normalize_binding (some v))) r.id a u)
unfolding receipt_for
IsFor-of_recorded r v b a u h k target = record {
  awaiting = h.awaiting;
  proof = h.proof;
  target = target;
  recorded = k.status;
  of_request = k.of_request;
  of_candidate = k.of_candidate;
  of_bridge = k.receipt;
  receipt_candidate = ap (λ x. x.candidate_id) k.binding ∙ h.candidate;
  receipt_target = ap (λ x. x.target_id) k.binding ∙ h.target;
  receipt_scope = ap (λ x. x.target_scope) k.binding ∙ h.scope;
  user_turn = subst (λ x. is_none x.user_turn_ref ≡ false) (sym k.binding) h.user_turn;
  reference = subst (λ x. is_none x.approval_reference ≡ false) (sym k.binding) h.reference;
}

IsReadBack-of_recorded :
    (r : ApplyRequest) (v : ApprovalInput) (b : Bridge) (a : ApprovalRecord) (u : AuditRecord)
    → IsRecorded r v b a u
    → IsReadBack b (receipt_for b (proposal_for r (normalize_binding (some v))) r.id a u) a u
unfolding receipt_for
IsReadBack-of_recorded r v b a u k = record {
  proposal = proposal_for r (normalize_binding (some v));
  of_bridge = k.proposal;
  approval_proposal = k.bound.proposal;
  approval_confirmation = k.bound.confirmation_of;
  approval_effect = k.bound.effect;
  audit_approval = k.bound.audit_approval;
  audit_proposal = k.bound.audit_proposal;
  audit_confirmation = k.bound.audit_confirmation;
  audit_effect = k.bound.audit_effect;
  candidate = refl;
  target = refl;
  scope = refl;
  user_turn = refl;
  reference = refl;
}

recorded_findings :
    (env : Env) (r : ApplyRequest) (v : ApprovalInput) (b : Bridge) (a : ApprovalRecord)
    (u : AuditRecord) (ledger : Ledger)
    → IsRecorded r v b a u
    → env.root_given ≡ true
    → ledger_findings env (appended ledger a u) (some b) ≡ []
unfolding receipt_for
recorded_findings env r v b a u ledger k given =
    let rc = receipt_for b (proposal_for r (normalize_binding (some v))) r.id a u in
    ledger_findings-clear env (appended ledger a u) b rc given k.receipt (
      readback-clear (appended ledger a u) b rc a u
        (rw (test_of_nonempty a.id k.bound.approval_id, test_of_nonempty u.id k.bound.audit_id)
          refl)
        (find_approval-appended ledger a u) (find_audit-appended ledger a u)
        (IsReadBack-of_recorded r v b a u k))

abbrev or_request : ApplyRequest → Option ApplyRequest → ApplyRequest
or_request d none = d
or_request d (some r) = r

completed :
    (env : Env) (c : ProposedChange) (request : Option ApplyRequest)
    (approval : Option ApprovalInput) (store : Store) (out : Bridge × Store)
    → Bridged request approval store out
    → (r : ApplyRequest) → request ≡ some r
    → out.0.status ≡ recorded_local_only
    → r.target.id ≡ "context_mesh_candidate"
    → r.proposed_change ≡ some c
    → c.operating_principle ≢ ""
    → env.root_given ≡ true
    → (append_apply env (some r) (some out.0) out.1).0.status ≡ applied_local_only
completed env c request approval store _ (Bridged.recorded r' v b a u e _ h k) r e' _ target change
      n given =
    let same : r' ≡ r = ap (or_request r) (sym e ∙ e') in
    let target' = subst (λ x. x.target.id ≡ "context_mesh_candidate") (sym same) target in
    let change' = subst (λ x. x.proposed_change ≡ some c) (sym same) change in
    let left : Store = record {
      ledger = appended store.ledger a u;
      cells = store.cells;
      queue = store.queue ++ memory_apply_approval_audit b ∷ [];
    } in
    subst (λ x. (append_apply env (some x) (some b) left).0.status ≡ applied_local_only) same
      (append_apply-status env r' b c left change' (
        validate_apply-clear env left.ledger r' b
          (receipt_for b (proposal_for r' (normalize_binding (some v))) r'.id a u)
          (IsFor-of_recorded r' v b a u h k target')
          (recorded_findings env r' v b a u store.ledger k given)
          (change_checks-clear r' c h.planned change' n)))
completed env c request approval store _ (Bridged.refused b s _ _) r e' s' target change n given =
    cc (s, s')

-- Where the approval of a request for the Context Mesh, with an operating principle, was recorded, an
-- apply of the request with this bridge on the store that was left is applied, if its read-back of the
-- ledgers is given their root explicitly.
pub append_apply-append_bridge :
    (env env' : Env) (r : ApplyRequest) (approval : Option ApprovalInput) (c : ProposedChange)
    (store : Store)
    → (append_bridge env (some r) approval store).0.status ≡ recorded_local_only
    → r.target.id ≡ "context_mesh_candidate"
    → r.proposed_change ≡ some c
    → c.operating_principle ≢ ""
    → env'.root_given ≡ true
    → (append_apply env'
        (some r)
        (some (append_bridge env (some r) approval store).0)
        (append_bridge env (some r) approval store).1).0.status
      ≡ applied_local_only
append_apply-append_bridge env env' r approval c store h target change n given =
    completed env' c (some r) approval store (append_bridge env (some r) approval store)
      (append_bridge-Bridged env (some r) approval store) r refl h target change n given
