-- ===== src/Memory/Apply/Authority.antt =====
-- What a clear validation of a reversible apply says of the request, the bridge and the ledgers.
use gpao_t.Prelude.{
  String, ◌≡◌, refl, true, false, not, Option, none, some, ◌++◌, ◌==◌, eq_of_equal, eq_of_same_text,
  collect, is_empty, AllClear, clear_of_empty, append_empty, Bool-cases, inl, inr, not-false,
}
use gpao_t.Ledger.{Proposal, ApprovalRecord, AuditRecord, Ledger}
use gpao_t.Memory.Record.{
  Env, RequestStatus, awaiting_approval, ApplyRequest, ProposedChange, Receipt, BridgeStatus,
  recorded_local_only, Bridge,
}
use gpao_t.Memory.Bridge.{explicit_confirmation, proof_of_request}
use gpao_t.Memory.Readback.{
  readback_checks, readback, find_approval, find_audit, ledger_findings, is_effect,
  receipt_ids_missing,
}
use gpao_t.Memory.Checks.{
  apply_checks, change_checks, validate_apply, is_awaiting, is_recorded, same_value, receipt_value,
}

-- The two ledger records that a bridge's receipt names: both stand for its proposal, with an
-- explicit confirmation, and the receipt says what the bridge's binding says.
pub record IsReadBack (b : Bridge) (r : Receipt) (a : ApprovalRecord) (u : AuditRecord)
    : Type 0 where
  pub proposal : Proposal
  pub of_bridge : b.proposal ≡ some proposal
  pub approval_proposal : a.proposal_id ≡ r.proposal_id
  pub approval_confirmation : a.confirmation_state ≡ explicit_confirmation
  pub approval_effect : a.expected_effect ≡ proposal.expected_effect
  pub audit_approval : u.approval_record_id ≡ r.approval_record_id
  pub audit_proposal : u.proposal_id ≡ r.proposal_id
  pub audit_confirmation : u.user_confirmation_state ≡ explicit_confirmation
  pub audit_effect : u.expected_effect ≡ proposal.expected_effect
  pub candidate : r.candidate_id ≡ b.binding.candidate_id
  pub target : r.target_id ≡ b.binding.target_id
  pub scope : r.target_scope ≡ b.binding.target_scope
  pub user_turn : r.user_turn_ref ≡ b.binding.user_turn_ref
  pub reference : r.approval_reference ≡ b.binding.approval_reference

-- The authority on which a cell may be appended.
pub record IsAuthorized (ledger : Ledger) (request : ApplyRequest) (b : Bridge) : Type 0 where
  pub awaiting : request.status ≡ awaiting_approval
  pub proof : proof_of_request (some request) ≡ true
  pub target : request.target.id ≡ "context_mesh_candidate"
  pub recorded : b.status ≡ recorded_local_only
  pub receipt : Receipt
  pub of_bridge : b.receipt ≡ some receipt
  pub receipt_candidate : receipt.candidate_id ≡ request.candidate_id
  pub receipt_target : receipt.target_id ≡ some request.target.id
  pub receipt_scope : receipt.target_scope ≡ some request.target.scope
  pub approval : ApprovalRecord
  pub audit : AuditRecord
  pub approval_found : find_approval ledger receipt.approval_record_id ≡ some approval
  pub audit_found : find_audit ledger receipt.audit_record_id ≡ some audit
  pub read_back : IsReadBack b receipt approval audit

effect_of_test :
    (o : Option Proposal) (e : String)
    → not (is_effect o e) ≡ false
    → (p : Proposal) × (o ≡ some p) × (e ≡ p.expected_effect)
effect_of_test none e h = cc
effect_of_test (some p) e h = (p, refl, eq_of_equal e p.expected_effect h)

IsReadBack-of_clear :
    (b : Bridge) (r : Receipt) (approval : Option ApprovalRecord) (audit : Option AuditRecord)
    → AllClear (readback_checks b r approval audit)
    → (a : ApprovalRecord) × (u : AuditRecord) × (approval ≡ some a)
      × (audit ≡ some u)
      × IsReadBack b r a u
unfolding readback_checks
IsReadBack-of_clear b r none audit (h, _) = cc
IsReadBack-of_clear b r (some a) none (_, (h, _)) = cc
IsReadBack-of_clear b r (some a) (some u)
      (_, (_, (c1, (c2, (c3, (c4, (c5, (c6, (c7, (c8, (c9, (c10, (c11, (c12, _)))))))))))))) =
    let (p, of_bridge, effect) = effect_of_test b.proposal a.expected_effect c3 in
    let (q, of_bridge', effect') = effect_of_test b.proposal u.expected_effect c7 in
    (
      a,
      u,
      refl,
      refl,
      record {
        proposal = p;
        of_bridge = of_bridge;
        approval_proposal = eq_of_equal a.proposal_id r.proposal_id c1;
        approval_confirmation = eq_of_equal a.confirmation_state explicit_confirmation c2;
        approval_effect = effect;
        audit_approval = eq_of_equal u.approval_record_id r.approval_record_id c4;
        audit_proposal = eq_of_equal u.proposal_id r.proposal_id c5;
        audit_confirmation = eq_of_equal u.user_confirmation_state explicit_confirmation c6;
        audit_effect = cc (of_bridge, of_bridge', effect');
        candidate = eq_of_same_text r.candidate_id b.binding.candidate_id c8;
        target = eq_of_same_text r.target_id b.binding.target_id c9;
        scope = eq_of_same_text r.target_scope b.binding.target_scope c10;
        user_turn = eq_of_same_text r.user_turn_ref b.binding.user_turn_ref c11;
        reference = eq_of_same_text r.approval_reference b.binding.approval_reference c12;
      },
    )

-- The part of the second early return and of the tests after it.
readback_of_clear :
    (ledger : Ledger) (b : Bridge) (receipt : Option Receipt)
    → is_empty (readback ledger b receipt) ≡ true
    → (r : Receipt) × (receipt ≡ some r)
      × AllClear (
          readback_checks b r
            (find_approval ledger r.approval_record_id)
            (find_audit ledger r.audit_record_id))
unfolding readback
readback_of_clear ledger b none h = cc
readback_of_clear ledger b (some r) h = elim (Bool-cases (receipt_ids_missing r)) [
  | inl e ↦ cc (rw e at h)
  | inr e ↦ (
    r,
    refl,
    clear_of_empty
        (readback_checks b r (find_approval ledger r.approval_record_id)
          (find_audit ledger r.audit_record_id))
        (rw e at h),
  )
]

ledger_findings_of_clear :
    (env : Env) (ledger : Ledger) (b : Bridge)
    → is_empty (ledger_findings env ledger (some b)) ≡ true
    → is_empty (readback ledger b b.receipt) ≡ true
unfolding ledger_findings
ledger_findings_of_clear env ledger b h = elim (Bool-cases env.root_given) [
  | inl e ↦ rw e at h
  | inr e ↦ cc (rw e at h)
]

awaiting_of_test :
    (r : ApplyRequest) → not (is_awaiting (some r)) ≡ false → r.status ≡ awaiting_approval
awaiting_of_test r h = go r.status h
  where
    go :
        (s : RequestStatus)
        → not (elim s [ RequestStatus.awaiting_approval ↦ true | _ ↦ false ]) ≡ false
        → s ≡ awaiting_approval
    go RequestStatus.awaiting_approval h = refl
    go RequestStatus.blocked h = cc

recorded_of_test :
    (b : Bridge) → not (is_recorded (some b)) ≡ false → b.status ≡ recorded_local_only
recorded_of_test b h = go b.status h
  where
    go :
        (s : BridgeStatus)
        → not (elim s [ BridgeStatus.recorded_local_only ↦ true | _ ↦ false ]) ≡ false
        → s ≡ recorded_local_only
    go BridgeStatus.recorded_local_only h = refl
    go BridgeStatus.record_ready h = cc
    go BridgeStatus.blocked h = cc

-- What the receipt says, where there is one.
receipt_matches :
    (f : Receipt → Option String) (o : Option Receipt) (r : Receipt) (v : Option String)
    → o ≡ some r
    → not (same_value (receipt_value f o) (some v)) ≡ false
    → f r ≡ v
receipt_matches f o r v e h = eq_of_same_text (f r) v (rw e at h)

-- A clear validation has the authority, and a change to append.
pub IsAuthorized-of_clear :
    (env : Env) (ledger : Ledger) (r : ApplyRequest) (b : Bridge)
    → is_empty (validate_apply env ledger (some r) (some b)) ≡ true
    → IsAuthorized ledger r b
unfolding validate_apply apply_checks
IsAuthorized-of_clear env ledger r b h =
    let (checked, rest) =
      append_empty (collect (apply_checks (some r) (some b)))
        (ledger_findings env ledger (some b) ++ collect (change_checks (some r))) h in
    let (read, changed) =
      append_empty (ledger_findings env ledger (some b)) (collect (change_checks (some r))) rest in
    let (receipt, of_bridge, back) =
      readback_of_clear ledger b b.receipt (ledger_findings_of_clear env ledger b read) in
    let (a, u, approval_found, audit_found, read_back) =
      IsReadBack-of_clear b receipt (find_approval ledger receipt.approval_record_id)
        (find_audit ledger receipt.audit_record_id) back in
    let (_, (_, (c1, (c2, (c3, (c4, (_, (_, (_, (c5, (c6, (c7, _)))))))))))) =
      clear_of_empty (apply_checks (some r) (some b)) checked in
    record {
      awaiting = awaiting_of_test r c1;
      proof = not-false (proof_of_request (some r)) c3;
      target = eq_of_equal r.target.id "context_mesh_candidate" c4;
      recorded = recorded_of_test b c2;
      receipt = receipt;
      of_bridge = of_bridge;
      receipt_candidate =
          receipt_matches (λ r. r.candidate_id) b.receipt receipt r.candidate_id of_bridge c5;
      receipt_target =
          receipt_matches (λ r. r.target_id) b.receipt receipt (some r.target.id) of_bridge c6;
      receipt_scope =
          receipt_matches (λ r. r.target_scope) b.receipt receipt (some r.target.scope) of_bridge
            c7;
      approval = a;
      audit = u;
      approval_found = approval_found;
      audit_found = audit_found;
      read_back = read_back;
    }

change_of_clear :
    (r : ApplyRequest)
    → AllClear (change_checks (some r))
    → (c : ProposedChange) × (r.proposed_change ≡ some c)
unfolding change_checks
change_of_clear r (_, (h, _)) = go r.proposed_change h
  where
    go :
        (o : Option ProposedChange)
        → elim o [ none ↦ true | some c ↦ c.operating_principle == "" ] ≡ false
        → (c : ProposedChange) × (o ≡ some c)
    go none h = cc
    go (some c) h = (c, refl)

pub change_of_validate :
    (env : Env) (ledger : Ledger) (r : ApplyRequest) (b : Option Bridge)
    → is_empty (validate_apply env ledger (some r) b) ≡ true
    → (c : ProposedChange) × (r.proposed_change ≡ some c)
unfolding validate_apply
change_of_validate env ledger r b h =
    let (_, rest) =
      append_empty (collect (apply_checks (some r) b))
        (ledger_findings env ledger b ++ collect (change_checks (some r))) h in
    let (_, changed) =
      append_empty (ledger_findings env ledger b) (collect (change_checks (some r))) rest in
    change_of_clear r (clear_of_empty (change_checks (some r)) changed)
