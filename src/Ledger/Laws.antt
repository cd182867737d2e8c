-- ===== src/Ledger/Laws.antt =====
-- What `writeApprovalAuditLocalRecords` accepts, and what can be read back after it.
use Prim.Native.String.{count}
use gpao_t.Prelude.{
  ◌<◌, append-nonempty, ℕ, suc, ap, String, ◌≡◌, ◌≢◌, refl, true, false, some, List, [], ◌∷◌, ◌++◌,
  ◌==◌, arith, eq_iff, eq_refl, has, collect, is_empty, AllClear, clear_of_empty, empty_of_clear,
  Bool-cases, inl, inr,
}
use mathlib.Core.List.{reverse-append}
use gpao_t.Ledger.{
  replay_approval, replay_audit, Proposal, ApprovalRecord, AuditRecord, Ledger, Clock,
  blocked_authority_levels, write_checks, newest, build_approval_record, build_record_id,
  build_audit_record, read_approval_records, read_audit_records, Replay, build_replay, WriteResult,
  blocked, written_local_only, write_local_records,
}

-- A text that names no blocked kind of authority.
pub record IsLocal (kind : String) : Type 0 where
  pub not_external : kind ≢ "external_send"
  pub not_destructive : kind ≢ "destructive"
  pub not_paid : kind ≢ "paid_action"

-- A complete proposal for local authority, with a confirmation.
pub record IsWritable (p : Proposal) (confirmation : String) : Type 0 where
  pub id : p.id ≢ ""
  pub source : p.source ≢ ""
  pub tool_kind : p.tool_kind ≢ ""
  pub action_type : p.action_type ≢ ""
  pub authority_level : p.authority_level ≢ ""
  pub expected_effect : p.expected_effect ≢ ""
  pub risk : p.risk ≢ ""
  pub rollback_reference : p.rollback_reference ≢ ""
  pub given : confirmation ≢ ""
  pub confirmed : confirmation ≢ "not_confirmed"
  pub local_level : IsLocal p.authority_level
  pub local_action : IsLocal p.action_type

ne_of_test : (s t : String) → (s == t) ≡ false → s ≢ t
ne_of_test s t h e = cc (h, (eq_iff s t).1 e)

test_of_ne : (s t : String) → s ≢ t → (s == t) ≡ false
test_of_ne s t h = ground (arith, eq_iff s t)

IsLocal-of_test : (kind : String) → has blocked_authority_levels kind ≡ false → IsLocal kind
unfolding blocked_authority_levels
IsLocal-of_test kind h = record {
  not_external = ground (arith, eq_iff "external_send" kind);
  not_destructive = ground (arith, eq_iff "destructive" kind);
  not_paid = ground (arith, eq_iff "paid_action" kind);
}

test_of_IsLocal : (kind : String) → IsLocal kind → has blocked_authority_levels kind ≡ false
unfolding blocked_authority_levels
test_of_IsLocal kind h =
    ground
      (arith, eq_iff "external_send" kind, eq_iff "destructive" kind, eq_iff "paid_action" kind)

IsWritable-of_clear : (p : Proposal) (c : String) → AllClear (write_checks p c) → IsWritable p c
unfolding write_checks
IsWritable-of_clear p c (a, (b, (d, (e, (f, (g, (h, (i, (j, (k, (l, _))))))))))) = record {
  id = ne_of_test p.id "" a;
  source = ne_of_test p.source "" b;
  tool_kind = ne_of_test p.tool_kind "" d;
  action_type = ne_of_test p.action_type "" e;
  authority_level = ne_of_test p.authority_level "" f;
  expected_effect = ne_of_test p.expected_effect "" g;
  risk = ne_of_test p.risk "" h;
  rollback_reference = ne_of_test p.rollback_reference "" i;
  given = ground (arith, eq_iff c "");
  confirmed = ground (arith, eq_iff c "not_confirmed");
  local_level = IsLocal-of_test p.authority_level k;
  local_action = IsLocal-of_test p.action_type l;
}

clear_of_IsWritable : (p : Proposal) (c : String) → IsWritable p c → AllClear (write_checks p c)
unfolding write_checks
clear_of_IsWritable p c w = (
  test_of_ne p.id "" w.id,
  (
    test_of_ne p.source "" w.source,
    (
      test_of_ne p.tool_kind "" w.tool_kind,
      (
        test_of_ne p.action_type "" w.action_type,
        (
          test_of_ne p.authority_level "" w.authority_level,
          (
            test_of_ne p.expected_effect "" w.expected_effect,
            (
              test_of_ne p.risk "" w.risk,
              (
                test_of_ne p.rollback_reference "" w.rollback_reference,
                (
                  rw (test_of_ne c "" w.given, test_of_ne c "not_confirmed" w.confirmed),
                  (
                    test_of_IsLocal p.authority_level w.local_level,
                    (test_of_IsLocal p.action_type w.local_action, tt),
                  ),
                ),
              ),
            ),
          ),
        ),
      ),
    ),
  ),
)

abbrev pub appended : Ledger → ApprovalRecord → AuditRecord → Ledger
appended ledger a u = record {
  approvals = ledger.approvals ++ a ∷ [];
  audits = ledger.audits ++ u ∷ [];
}

pub newest_of_appended {ℓ} :
    {A : Type ℓ} (n : ℕ) (xs : List A) (x : A) → newest (suc n) (xs ++ x ∷ []) ≡ x ∷ newest n xs
newest_of_appended n xs x = rw (reverse-append xs (x ∷ []))

build_record_id-nonempty :
    (clock : Clock) (prefix id : String) → 0 < count prefix → build_record_id clock prefix id ≢ ""
unfolding build_record_id
build_record_id-nonempty clock prefix id h = append-nonempty prefix _ h

-- The two records that a write makes of a proposal stand for it and for one another.
pub record IsBound (p : Proposal) (confirmation : String) (a : ApprovalRecord) (u : AuditRecord)
    : Type 0 where
  pub proposal : a.proposal_id ≡ p.id
  pub effect : a.expected_effect ≡ p.expected_effect
  pub confirmation_of : a.confirmation_state ≡ confirmation
  pub audit_approval : u.approval_record_id ≡ a.id
  pub audit_proposal : u.proposal_id ≡ p.id
  pub audit_effect : u.expected_effect ≡ p.expected_effect
  pub audit_confirmation : u.user_confirmation_state ≡ confirmation
  pub approval_id : a.id ≢ ""
  pub audit_id : u.id ≢ ""

-- What a write answers and leaves.
pub data Written (p : Proposal) (confirmation : String) (ledger : Ledger)
    : WriteResult × Ledger → Type 0 where
  accepted :
      (a : ApprovalRecord) (u : AuditRecord) (r : Replay)
      → IsWritable p confirmation
      → IsBound p confirmation a u
      → r ≡ record { ready = true; approval = some a; audit = some u }
      → Written p confirmation ledger (written_local_only a u r, appended ledger a u)
  rejected :
      (findings : List String)
      → ¬ IsWritable p confirmation
      → Written p confirmation ledger (blocked findings, ledger)

replay_approval-newest :
    (a : ApprovalRecord) (approvals : List ApprovalRecord)
    → replay_approval a.id (a ∷ approvals) ≡ some a
unfolding replay_approval
replay_approval-newest a approvals = ground (arith, eq_refl a.id)

replay_audit-newest :
    (a : ApprovalRecord) (u : AuditRecord) (audits : List AuditRecord)
    → u.approval_record_id ≡ a.id
    → replay_audit (some a) (u ∷ audits) ≡ some u
unfolding replay_audit
replay_audit-newest a u audits h = ground (arith, eq_iff u.approval_record_id a.id)

build_replay-appended :
    (ledger : Ledger) (a : ApprovalRecord) (u : AuditRecord)
    → u.approval_record_id ≡ a.id
    → build_replay (appended ledger a u) a.id
      ≡ record { ready = true; approval = some a; audit = some u }
unfolding build_replay read_approval_records read_audit_records
build_replay-appended ledger a u h =
    let found : replay_approval a.id (newest 100 (ledger.approvals ++ a ∷ [])) ≡ some a =
      rw (newest_of_appended 99 ledger.approvals a) (replay_approval-newest a _) in
    let audit : replay_audit (some a) (newest 100 (ledger.audits ++ u ∷ [])) ≡ some u =
      rw (newest_of_appended 99 ledger.audits u) (replay_audit-newest a u _ h) in
    rw (found, audit)

-- A complete, confirmed proposal for local authority is appended to both ledgers as two records
-- bound to it, and the replay of the new approval reads back these two; anything else leaves both
-- ledgers as they were.
pub write_local_records-Written :
    (clock : Clock) (p : Proposal) (confirmation : String) (ledger : Ledger)
    → Written p confirmation ledger (write_local_records clock p confirmation ledger)
unfolding write_local_records
write_local_records-Written clock p c ledger =
    elim (Bool-cases (is_empty (collect (write_checks p c)))) [
      | inl h ↦ rw h (
          accepted _ _ _ (IsWritable-of_clear p c (clear_of_empty (write_checks p c) h))
            (unfold build_approval_record build_audit_record in
              record {
                proposal = refl;
                effect = refl;
                confirmation_of = refl;
                audit_approval = refl;
                audit_proposal = refl;
                audit_effect = refl;
                audit_confirmation = refl;
                approval_id = build_record_id-nonempty clock "approval" p.id (omega arith);
                audit_id = build_record_id-nonempty clock "audit" p.id (omega arith);
              })
            (build_replay-appended ledger (build_approval_record clock p c)
              (build_audit_record clock p (build_approval_record clock p c) c)
              (unfold build_audit_record in refl)))
      | inr h ↦ rw h (
          rejected _ (λ w.
            cc (h, ap is_empty (empty_of_clear (write_checks p c) (clear_of_IsWritable p c w)))))
    ]
