-- ===== src/Ledger/Tests.antt =====
-- The ledgers at a concrete proposal.
use gpao_t.Prelude.{[], none}
use gpao_t.Ledger.{Proposal, Ledger, Clock, write_local_records}
use gpao_t.Ledger.Laws.{Written, write_local_records-Written}

abbrev proposal : Proposal
proposal = record {
  id = "proposal.memapply.1";
  source = "gpao_t.memory_apply_request";
  tool_kind = "memory";
  action_type = "write";
  authority_level = "write";
  expected_effect = "record an approval";
  risk = "none";
  rollback_reference = "remove the record";
  target = "context_mesh_candidate";
  target_scope = "local_context_mesh_candidate_append";
  apply_request_id = "memapply.1";
  candidate_id = none;
  user_turn_ref = none;
  approval_reference = none;
}

abbrev clock : Clock
clock = record { now = "2026-06-01T09:00:00.000Z"; wall = "1780304400000" }

abbrev empty_ledger : Ledger
empty_ledger = record { approvals = []; audits = [] }

write_local_records-Written_example :
    Written proposal "explicit_user_approval_recorded" empty_ledger
      (write_local_records clock proposal "explicit_user_approval_recorded" empty_ledger)
write_local_records-Written_example =
    write_local_records-Written clock proposal "explicit_user_approval_recorded" empty_ledger
