-- ===== src/Growth.antt =====
-- src/core/growth-proposals.js and src/core/growth-application-gates.js, with the reading and the summary of
-- src/core/replay-history.js: what repeated recoveries propose, and the gate before an application. A file
-- of JSON lines is the list of its records. Targets that are written as an array index are not modelled.
pub mod Evidence
pub mod Gating
pub mod Steps
mod Tests
use gpao_t.Prelude.{
  ℕ, suc, ◌+◌, String, Bool, true, false, not, ◌&&◌, Option, none, some, List, [], ◌∷◌, ◌++◌, map,
  ◌==◌, if◌then◌else◌, or_text, append, filter, find, find_last, any, has, unique, length, leb, ltb,
  truthy, is_none,
}
use mathlib.Core.List.{reverse}
use gpao_t.Storage.{slice_last}

-- A record of the recovery history; an absent target is the empty text.
pub record Recovery : Type 0 where
  pub id : String
  pub target : String
  pub anchor : Option String

-- The clock's text and its `Date.parse`.
pub record Env : Type 0 where
  pub now : String
  pub millis : String

-- `readReplayRecoveryHistory`
unfoldable pub read_history : (limit : ℕ) → List Recovery → List Recovery
unfolding slice_last
read_history limit history = slice_last limit history

-- `acc[key] = (acc[key] || 0) + 1`
abbrev pub count_key : String → List (String × ℕ) → List (String × ℕ)
count_key key [] = (key, 1) ∷ []
count_key key ((k, n) ∷ counts) =
    if k == key then (k, suc n) ∷ counts else (k, n) ∷ count_key key counts

-- `countBy`, of the targets.
abbrev pub count_targets : List Recovery → List (String × ℕ) → List (String × ℕ)
count_targets [] counts = counts
count_targets (r ∷ records) counts =
    count_targets records (count_key (or_text r.target "unknown") counts)

-- `repeatedTargets` of `buildRecoveryHistorySummary`
unfoldable pub repeated_targets : List Recovery → List (String × ℕ)
repeated_targets records = filter (λ entry. ltb 1 entry.1) (count_targets records [])

abbrev pub last_of {ℓ} : {A : Type ℓ} → List A → Option A
last_of xs = find_last (λ x. true) xs

abbrev pub first_target : List (String × ℕ) → String
first_target [] = ""
first_target ((target, n) ∷ entries) = target

abbrev pub target_of : Option Recovery → String
target_of none = ""
target_of (some r) = r.target

abbrev pub id_of : Option Recovery → Option String
id_of none = none
id_of (some r) = some r.id

-- `.map((record) => record.representativeAnchor?.id).filter(Boolean)`
abbrev pub anchor_ids : List Recovery → List String
anchor_ids [] = []
anchor_ids (r ∷ records) =
    let rest = anchor_ids records in
    elim r.anchor [ none ↦ rest | some id ↦ if truthy id then id ∷ rest else rest ]

pub data ProposalStatus : Type 0 where
  proposed insufficient_evidence : ProposalStatus

pub record Target : Type 0 where
  pub id : String
  pub count : ℕ
  pub is_repeated : Bool

pub record Proposal : Type 0 where
  pub id : String
  pub created_at : String
  pub status : ProposalStatus
  pub target : Option Target
  pub min_evidence : ℕ
  pub evidence_count : ℕ
  pub latest_record_id : Option String
  pub representative_anchors : List String
  pub replay_pending : Bool

-- `target || summary.repeatedTargets[0]?.target || summary.latest?.activeTarget?.id`
unfoldable pub select_target : (target : String) → List Recovery → String
unfolding repeated_targets
select_target target records =
    or_text target (or_text (first_target (repeated_targets records)) (target_of (last_of records)))

abbrev pub about : String → List Recovery → List Recovery
about target records = filter (λ r. r.target == target) records

abbrev pub is_supported : String → ℕ → List Recovery → Bool
is_supported target min_evidence records = truthy target && leb min_evidence (length records)

-- `buildSelfGrowthProposal`, without its texts.
unfoldable pub build_proposal :
    Env → (target : String) → (min_evidence : ℕ) → List Recovery → Proposal
unfolding select_target read_history
build_proposal env target min_evidence history =
    let recent = read_history 50 history in
    let selected = select_target target recent in
    let records = about selected recent in
    let supported = is_supported selected min_evidence records in
    record {
      id = append "growth." (append env.millis (append "." (or_text selected "unknown")));
      created_at = env.now;
      status = if supported then proposed else insufficient_evidence;
      target =
          if truthy selected
          then some (record {
            id = selected;
            count = length records;
            is_repeated = any (λ entry. entry.0 == selected) (repeated_targets recent);
          })
          else none;
      min_evidence = min_evidence;
      evidence_count = length records;
      latest_record_id = id_of (last_of records);
      representative_anchors = unique (anchor_ids records);
      replay_pending = supported;
    }

abbrev pub approval_states : List String
approval_states =
    "not_requested" ∷ "requested" ∷ "approved_for_preview" ∷ "approved_for_apply" ∷ "rejected" ∷ []

abbrev pub target_id : Proposal → String
target_id p = elim p.target [ none ↦ "" | some t ↦ t.id ]

-- `selectProposal`, of the newest fifty proposals.
unfoldable pub select_proposal : (proposal_id target : String) → List Proposal → Option Proposal
unfolding slice_last
select_proposal proposal_id target proposals =
    let recent = slice_last 50 proposals in
    if truthy proposal_id
    then find (λ p. p.id == proposal_id) recent
    else if truthy target
    then find_last (λ p. target_id p == target) recent
    else last_of recent

pub data ReviewStatus : Type 0 where
  review_passed_apply_blocked awaiting_approval not_ready : ReviewStatus

-- `buildRollbackPlan`
pub record RollbackPlan : Type 0 where
  pub proposal_id : String
  pub target : String
  pub evidence_record_ids : List String

pub record Gate : Type 0 where
  pub id : String
  pub review_status : ReviewStatus
  pub proposal_id : Option String
  pub replay_passed : Bool
  pub min_replay : ℕ
  pub evidence_count : ℕ
  pub approval_status : String
  pub approval_passed : Bool
  pub rollback_plan : Option RollbackPlan
  pub can_apply_now : Bool

-- `proposal?.target?.id || target || null`
abbrev pub gate_target : Option Proposal → String → String
gate_target none target = target
gate_target (some p) target = or_text (target_id p) target

abbrev pub rollback_plan :
    Option Proposal → (replay_passed : Bool) → List Recovery → Option RollbackPlan
rollback_plan (some p) true records = some (record {
  proposal_id = p.id;
  target = target_id p;
  evidence_record_ids = map (λ r. r.id) records;
})
rollback_plan _ replay_passed records = none

abbrev pub review_status_of :
    Option Proposal → (replay_passed approval_passed : Bool) → ReviewStatus
review_status_of (some p) true true = review_passed_apply_blocked
review_status_of (some p) true false = awaiting_approval
review_status_of _ replay_passed approval_passed = not_ready

abbrev pub proposal_id_of : Option Proposal → Option String
proposal_id_of none = none
proposal_id_of (some p) = some p.id

-- The gate for the proposal that was selected.
unfoldable pub gate_for :
    Env
    → (target approval_status : String) → (min_replay : ℕ) → Option Proposal
    → List Recovery
    → Gate
unfolding read_history
gate_for env target approval_status min_replay proposal history =
    let approval : String =
      if has approval_states approval_status then approval_status else "not_requested" in
    let target_id = gate_target proposal target in
    let records = if truthy target_id then about target_id (read_history 50 history) else [] in
    let replay_passed = leb min_replay (length records) in
    let approval_passed = approval == "approved_for_apply" in
    record {
      id = append "growth_gate." (append env.millis (append "." (or_text target_id "unknown")));
      review_status = review_status_of proposal replay_passed approval_passed;
      proposal_id = proposal_id_of proposal;
      replay_passed = replay_passed;
      min_replay = min_replay;
      evidence_count = length records;
      approval_status = approval;
      approval_passed = approval_passed;
      rollback_plan = rollback_plan proposal replay_passed records;
      can_apply_now = false;
    }

-- The three files under the runtime root.
pub record Store : Type 0 where
  pub history : List Recovery
  pub proposals : List Proposal
  pub gates : List Gate

-- `appendReplayRecoveryRecord`, of the record that it builds.
abbrev pub append_recovery : Recovery → Store → Store
append_recovery r store = record store { history = store.history ++ r ∷ [] }

abbrev pub keep_proposal : Proposal → ProposalStatus → Store → Store
keep_proposal p proposed store = record store { proposals = store.proposals ++ p ∷ [] }
keep_proposal p insufficient_evidence store = store

-- `appendSelfGrowthProposal`
unfoldable pub append_proposal :
    Env → (target : String) → (min_evidence : ℕ) → Store → Proposal × Store
unfolding build_proposal
append_proposal env target min_evidence store =
    let p = build_proposal env target min_evidence store.history in
    (p, keep_proposal p p.status store)

-- `appendGrowthApplicationGate`, with `buildGrowthApplicationGate`.
unfoldable pub append_gate :
    Env → (proposal_id target approval_status : String) → (min_replay : ℕ) → Store → Gate × Store
unfolding gate_for select_proposal
append_gate env proposal_id target approval_status min_replay store =
    let proposal = select_proposal proposal_id target store.proposals in
    let gate = gate_for env target approval_status min_replay proposal store.history in
    (gate, record store { gates = store.gates ++ gate ∷ [] })
