-- ===== src/Memory/Bridge/Approving.antt =====
-- What a clear approval bridge says of the user's approval and of the apply request.
use gpao_t.Prelude.{
  ◌≡◌, refl, sym, subst, String, true, false, Option, none, some, ◌++◌, is_empty, collect,
  clear_of_empty, append_empty, not_empty-append, not-false, eq_of_is_text,
}
use gpao_t.Memory.Record.{RequestStatus, awaiting_approval, ApplyRequest, ApprovalInput}
use gpao_t.Memory.Replay.{is_none}
use gpao_t.Memory.Bridge.{
  normalize_binding, candidate_differs, target_differs, scope_differs, binding_checks,
  proof_of_request, bridge_checks, is_blocked,
}

-- A decision "approved" for this request's candidate, target and scope, with the user's turn and a
-- reference, on a request that awaits it with an independent proof and a rollback plan.
pub record IsApproved (r : ApplyRequest) (v : ApprovalInput) : Type 0 where
  pub decision : (normalize_binding (some v)).decision ≡ some "approved"
  pub candidate : (normalize_binding (some v)).candidate_id ≡ r.candidate_id
  pub candidate_given : is_none r.candidate_id ≡ false
  pub target : (normalize_binding (some v)).target_id ≡ some r.target.id
  pub scope : (normalize_binding (some v)).target_scope ≡ some r.target.scope
  pub user_turn : is_none (normalize_binding (some v)).user_turn_ref ≡ false
  pub reference : is_none (normalize_binding (some v)).approval_reference ≡ false
  pub awaiting : r.status ≡ awaiting_approval
  pub proof : proof_of_request (some r) ≡ true
  pub planned : is_none r.rollback_plan ≡ false

awaiting_of_test : (r : ApplyRequest) → is_blocked (some r) ≡ false → r.status ≡ awaiting_approval
awaiting_of_test r h = go r.status h
  where
    go :
        (s : RequestStatus)
        → elim s [ RequestStatus.blocked ↦ true | _ ↦ false ] ≡ false
        → s ≡ awaiting_approval
    go RequestStatus.awaiting_approval h = refl
    go RequestStatus.blocked h = cc

candidate_of_test :
    (id : Option String) (r : ApplyRequest)
    → is_none id ≡ false
    → candidate_differs id (some r) ≡ false
    → id ≡ r.candidate_id
unfolding candidate_differs
candidate_of_test none r h k = cc
candidate_of_test (some id) r h k = sym (eq_of_is_text r.candidate_id id k)

target_of_test :
    (id : Option String) (r : ApplyRequest)
    → target_differs id (some r) ≡ false
    → id ≡ some r.target.id
unfolding target_differs
target_of_test id r h = eq_of_is_text id r.target.id h

scope_of_test :
    (scope : Option String) (r : ApplyRequest)
    → scope_differs scope (some r) ≡ false
    → scope ≡ some r.target.scope
unfolding scope_differs
scope_of_test scope r h = eq_of_is_text scope r.target.scope h

-- Nothing is found for a request only with an approval that is bound to it.
pub IsApproved-of_clear :
    (r : ApplyRequest) (v : ApprovalInput)
    → is_empty (collect (bridge_checks (some r)) ++ collect (binding_checks (some v) (some r)))
      ≡ true
    → IsApproved r v
unfolding bridge_checks binding_checks
IsApproved-of_clear r v h =
    let (asked, bound) =
      append_empty (collect (bridge_checks (some r))) (collect (binding_checks (some v) (some r)))
        h in
    let (_, (b1, (b2, (b3, _)))) = clear_of_empty (bridge_checks (some r)) asked in
    let (_, (_, (c2, (c3, (c4, (c5, (c6, (c7, (c8, _))))))))) =
      clear_of_empty (binding_checks (some v) (some r)) bound in
    let value = normalize_binding (some v) in
    let candidate : value.candidate_id ≡ r.candidate_id =
      candidate_of_test value.candidate_id r c3 c4 in
    record {
      decision = eq_of_is_text value.decision "approved" c2;
      candidate = candidate;
      candidate_given = subst (λ o. is_none o ≡ false) candidate c3;
      target = target_of_test value.target_id r c5;
      scope = scope_of_test value.target_scope r c6;
      user_turn = c7;
      reference = c8;
      awaiting = awaiting_of_test r b1;
      proof = not-false (proof_of_request (some r)) b3;
      planned = b2;
    }

pub binding_checks-missing :
    (r : ApplyRequest)
    → is_empty (collect (bridge_checks (some r)) ++ collect (binding_checks none (some r))) ≡ false
unfolding binding_checks
binding_checks-missing r =
    not_empty-append (collect (bridge_checks (some r))) (collect (binding_checks none (some r)))
      refl
