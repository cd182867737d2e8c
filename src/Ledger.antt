-- ===== src/Ledger.antt =====
-- src/core/approval-audit-records.js: the two local ledgers, of approvals and of audits. Each is a
-- JSONL file that is only appended to; here it is the list of its records, the oldest first.
pub mod Laws
mod Tests
use Prim.Native.Char.{Char, code}
use Prim.Native.String
use gpao_t.Prelude.{
  ℕ, String, Bool, true, false, not, ◌&&◌, ◌||◌, Option, none, some, List, [], ◌∷◌, ◌++◌, ◌==◌,
  if◌then◌else◌, or_text, or_null, append, has, find, head?, take, collect, is_empty, leb, is_digit,
  is_ascii_lower, is_ascii_upper, has_code, keep_chars, take_chars,
}
use mathlib.Core.List.{reverse}

-- The proposal of `buildApprovalProposalFromApplyRequest`. The ledger requires its first eight
-- fields; an absent one is the empty text.
pub record Proposal : Type 0 where
  pub id : String
  pub source : String
  pub tool_kind : String
  pub action_type : String
  pub authority_level : String
  pub expected_effect : String
  pub risk : String
  pub rollback_reference : String
  pub target : String
  pub target_scope : String
  pub apply_request_id : String
  pub candidate_id : Option String
  pub user_turn_ref : Option String
  pub approval_reference : Option String

pub record ApprovalRecord : Type 0 where
  pub id : String
  pub created_at : String
  pub packet_id : String
  pub proposal_id : String
  pub source : String
  pub tool_kind : String
  pub action_type : String
  pub authority_level : String
  pub authority_label : String
  pub confirmation_state : String
  pub scope : String
  pub expected_effect : String
  pub risk : String
  pub rollback_reference : String
  pub audit_reference : String
  pub replay_reference : String
  pub status : String

pub record AuditRecord : Type 0 where
  pub id : String
  pub created_at : String
  pub approval_record_id : String
  pub proposal_id : String
  pub source : String
  pub requested_action : String
  pub authority_level : String
  pub authority_label : String
  pub expected_effect : String
  pub risk : String
  pub rollback_reference : String
  pub user_confirmation_state : String
  pub status : String
  pub replay_reference : String

pub record Ledger : Type 0 where
  pub approvals : List ApprovalRecord
  pub audits : List AuditRecord

-- The `now` argument, and the text of `Date.now()`, which names a record when `now` has no digit.
pub record Clock : Type 0 where
  pub now : String
  pub wall : String

unfoldable pub blocked_authority_levels : List String
blocked_authority_levels = "external_send" ∷ "destructive" ∷ "paid_action" ∷ []

-- `AUTHORITY_DISPLAY` of src/core/execution-approval.js: the label of a level, the second entry's
-- for an unknown one.
authority_label : String → String
authority_label level =
    if level == "read_only"
    then "읽기 전용"
    else if level == "dry_run"
    then "미리보기만"
    else if level == "write"
    then "저장 전 확인"
    else if level == "external_send"
    then "외부 전송 전 확인"
    else if level == "destructive"
    then "되돌리기 어려움"
    else if level == "paid_action"
    then "비용 발생 가능"
    else "미리보기만"

abbrev missing : String → String → Bool × String
missing value finding = (value == "", finding)

-- The tests of `validateLocalRecordWriteProposal`, in order.
unfoldable pub write_checks : Proposal → String → List (Bool × String)
unfolding blocked_authority_levels
write_checks proposal confirmation_state =
    missing proposal.id "missing_id"
    ∷ missing proposal.source "missing_source"
    ∷ missing proposal.tool_kind "missing_toolKind"
    ∷ missing proposal.action_type "missing_actionType"
    ∷ missing proposal.authority_level "missing_authorityLevel"
    ∷ missing proposal.expected_effect "missing_expectedEffect"
    ∷ missing proposal.risk "missing_risk"
    ∷ missing proposal.rollback_reference "missing_rollbackReference"
    ∷ (
      confirmation_state == "" || confirmation_state == "not_confirmed",
      "confirmation_state_required",
    )
    ∷ (
      has blocked_authority_levels proposal.authority_level,
      append "blocked_authority_level:" proposal.authority_level,
    )
    ∷ (
      has blocked_authority_levels proposal.action_type,
      append "blocked_action_type:" proposal.action_type,
    )
    ∷ []

-- `[a-zA-Z0-9._-]`
abbrev is_safe : ℕ → Bool
is_safe c =
    is_ascii_lower c
    || is_ascii_upper c
    || is_digit c
    || has_code 46 c
    || has_code 95 c
    || has_code 45 c

-- Every UTF-16 unit outside the safe class becomes a `_`.
safe_text : String → String
safe_text String.[] = String.[]
safe_text (String.◌∷◌ c s) =
    let rest = safe_text s in
    if is_safe (code c)
    then String.◌∷◌ c rest
    else append (if leb (code c) 0xffff then "_" else "__") rest

unfoldable pub build_record_id : Clock → String → String → String
unfolding safe_text
build_record_id clock prefix proposal_id =
    let stamp : String = or_text (take_chars 14 (keep_chars is_digit clock.now)) clock.wall in
    let safe : String = take_chars 72 (safe_text (or_text proposal_id "proposal")) in
    append prefix (append "." (append stamp (append "." safe)))

unfoldable pub build_approval_record : Clock → Proposal → String → ApprovalRecord
unfolding authority_label build_record_id
build_approval_record clock proposal confirmation_state =
    let id : String = build_record_id clock "approval" proposal.id in
    record {
      id = id;
      created_at = clock.now;
      packet_id = append "packet." id;
      proposal_id = proposal.id;
      source = proposal.source;
      tool_kind = proposal.tool_kind;
      action_type = proposal.action_type;
      authority_level = proposal.authority_level;
      authority_label = authority_label proposal.authority_level;
      confirmation_state = confirmation_state;
      scope = "local_record_only";
      expected_effect = proposal.expected_effect;
      risk = proposal.risk;
      rollback_reference = proposal.rollback_reference;
      audit_reference = append "audit.for." id;
      replay_reference = append "replay.for." id;
      status = "written_local_only";
    }

unfoldable pub build_audit_record : Clock → Proposal → ApprovalRecord → String → AuditRecord
unfolding authority_label build_record_id
build_audit_record clock proposal approval confirmation_state = record {
  id = build_record_id clock "audit" proposal.id;
  created_at = clock.now;
  approval_record_id = approval.id;
  proposal_id = proposal.id;
  source = proposal.source;
  requested_action = append proposal.tool_kind (append "." proposal.action_type);
  authority_level = proposal.authority_level;
  authority_label = authority_label proposal.authority_level;
  expected_effect = proposal.expected_effect;
  risk = proposal.risk;
  rollback_reference = proposal.rollback_reference;
  user_confirmation_state = confirmation_state;
  status = "written_local_only";
  replay_reference = approval.replay_reference;
}

-- The newest first, `limit` at most.
abbrev pub newest {ℓ} : {A : Type ℓ} → ℕ → List A → List A
newest limit records = take limit (reverse records)

unfoldable pub read_approval_records : Ledger → ℕ → List ApprovalRecord
read_approval_records ledger limit = newest limit ledger.approvals

unfoldable pub read_audit_records : Ledger → ℕ → List AuditRecord
read_audit_records ledger limit = newest limit ledger.audits

pub record Replay : Type 0 where
  pub ready : Bool
  pub approval : Option ApprovalRecord
  pub audit : Option AuditRecord

unfoldable pub replay_approval : String → List ApprovalRecord → Option ApprovalRecord
replay_approval record_id approvals =
    if record_id == "" then head? approvals else find (λ r. r.id == record_id) approvals

unfoldable pub replay_audit : Option ApprovalRecord → List AuditRecord → Option AuditRecord
replay_audit none audits = head? audits
replay_audit (some a) audits =
    find (λ r. r.approval_record_id == a.id || r.proposal_id == a.proposal_id) audits

-- `buildApprovalAuditReplay` for a record's id; an empty id means the newest record.
unfoldable pub build_replay : Ledger → String → Replay
unfolding read_approval_records read_audit_records replay_approval replay_audit
build_replay ledger record_id =
    let approval = replay_approval record_id (read_approval_records ledger 100) in
    record {
      ready = elim approval [ none ↦ false | some a ↦ true ];
      approval = approval;
      audit = replay_audit approval (read_audit_records ledger 100);
    }

-- The answer of `writeApprovalAuditLocalRecords`.
pub data WriteResult : Type 0 where
  blocked : (findings : List String) → WriteResult
  written_local_only : ApprovalRecord → AuditRecord → Replay → WriteResult

unfoldable pub write_local_records : Clock → Proposal → String → Ledger → WriteResult × Ledger
unfolding write_checks build_approval_record build_audit_record build_replay
write_local_records clock proposal confirmation_state ledger =
    let findings = collect (write_checks proposal confirmation_state) in
    let approval = build_approval_record clock proposal confirmation_state in
    let audit = build_audit_record clock proposal approval confirmation_state in
    let ledger' : Ledger = record {
      approvals = ledger.approvals ++ approval ∷ [];
      audits = ledger.audits ++ audit ∷ [];
    } in
    if is_empty findings
    then (written_local_only approval audit (build_replay ledger' approval.id), ledger')
    else (blocked findings, ledger)
