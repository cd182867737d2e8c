-- ===== src/Admission.antt =====
-- src/core/admission.js: the score of a retrieved cell, its role in the current turn, and the packet of
-- the admitted cells. The texts that explain a role are left out.
pub mod Scores
pub mod Roles
mod Tests
use gpao_t.Prelude.{
  ℕ, ◌+◌, ◌*◌, ◌/◌, String, Bool, true, false, not, ◌&&◌, ◌||◌, Option, none, some, List, [], ◌∷◌,
  ◌++◌, map, ◌==◌, if◌then◌else◌, append, filter, find, any, has, or_null, truthy, ltb, leb,
}
use gpao_t.Cell.{Weights, Cell}
use gpao_t.Policy.{AuthorityUse, classify_authority_use}

abbrev pub default_weights : Weights
default_weights = record {
  relevance = 500;
  confidence = 500;
  freshness = 500;
  risk = 200;
  cost = 200;
}

abbrev pub weights_of : Cell → Weights
weights_of c = elim c.weights [ none ↦ default_weights | some w ↦ w ]

-- What the admission reads of the session overlay; no referent is the empty text.
pub record Overlay : Type 0 where
  pub active_target_id : String
  pub active_referent : String

-- One line of the breakdown: a signal that adds to the score, or one that takes from it.
pub data Entry : Type 0 where
  gain loss : (signal : String) → (value : ℕ) → Entry

-- The running score: `total` is what was added less what was taken, and may be negative.
pub record Score : Type 0 where
  pub added : ℕ
  pub taken : ℕ
  pub breakdown : List Entry

-- `breakdown.push`
abbrev pub push_entry : Entry → Score → Score
push_entry entry s = record s { breakdown = s.breakdown ++ entry ∷ [] }

-- `total += n` and `total -= n`
pub data Change : Type 0 where
  plus minus : (value : ℕ) → Change

abbrev pub change_total : Change → Score → Score
change_total (plus value) s = record s { added = s.added + value }
change_total (minus value) s = record s { taken = s.taken + value }

-- `if (test) { breakdown.push(…); total += … }`, in order.
abbrev pub score_all : List (Bool × Entry × Change) → Score → Score
score_all [] s = s
score_all ((test, entry, change) ∷ signals) s =
    score_all signals (if test then change_total change (push_entry entry s) else s)

abbrev pub no_score : Score
no_score = record { added = 0; taken = 0; breakdown = [] }

abbrev pub is_referent : Overlay → Cell → Bool
is_referent o c = truthy o.active_referent && c.anchor == append "referent:" o.active_referent

abbrev pub is_conflict : Overlay → Cell → Bool
is_conflict o c = has c.contradicts o.active_target_id

-- `Math.min(20, Math.round(cell.meshScore * 3))`
abbrev pub mesh_value : ℕ → ℕ
mesh_value mesh_score =
    let rounded = (mesh_score * 3 + 500) / 1000 in if leb 20 rounded then 20 else rounded

-- `Math.round(weights.confidence * 10)`
abbrev pub confidence_value : ℕ → ℕ
confidence_value confidence = (confidence + 50) / 100

unfoldable pub signals_of : Cell → (kind : String) → Overlay → List (Bool × Entry × Change)
signals_of c kind o =
    (c.anchor == o.active_target_id, gain "active_target_anchor" 40, plus 40)
    ∷ (is_referent o c, gain "active_referent_anchor" 36, plus 36)
    ∷ (c.admission_role == "stale_supporting", loss "stale_supporting_downgrade" 10, minus 10)
    ∷ (has c.radius.valid_for kind, gain "input_signal_fit" 15, plus 15)
    ∷ (
      ltb 0 c.mesh_score,
      gain "context_mesh_score" (mesh_value c.mesh_score),
      plus (mesh_value c.mesh_score),
    )
    ∷ (
      leb 550 (weights_of c).confidence,
      gain "confidence" (confidence_value (weights_of c).confidence),
      plus (confidence_value (weights_of c).confidence),
    )
    ∷ (ltb 800 (weights_of c).risk, loss "high_risk_penalty" 50, minus 50)
    ∷ (c.lifecycle == "candidate", loss "candidate_penalty" 5, minus 5)
    ∷ (is_conflict o c, loss "conflict_penalty" 60, minus 60)
    ∷ []

-- `scoreAdmission`
unfoldable pub score_admission : Cell → (kind : String) → Overlay → Score
unfolding signals_of
score_admission c kind o = score_all (signals_of c kind o) no_score

pub data Role : Type 0 where
  anchor support candidate conflict rejected : Role

-- `total < 5`
abbrev pub is_weak : Score → Bool
is_weak s = ltb s.added (s.taken + 5)

abbrev pub is_false : Option Bool → Bool
is_false none = false
is_false (some b) = not b

abbrev pub is_true : Option Bool → Bool
is_true none = false
is_true (some b) = b

-- `classifyCellRole`; its last two branches both answer "support".
unfoldable pub role_of : Cell → AuthorityUse → Overlay → Score → Role
role_of c u o s =
    if is_conflict o c
    then conflict
    else if c.admission_role == "blocked" || not u.candidate_evidence_allowed
    then rejected
    else if ltb 800 (weights_of c).risk || is_weak s
    then rejected
    else if c.admission_role == "candidate_evidence" || not u.supporting_context_allowed
    then candidate
    else if c.admission_role == "stale_supporting"
    then support
    else if is_false c.answer_anchor_eligible || not u.answer_anchor_allowed
    then support
    else if is_referent o c
    then if is_true c.answer_anchor_eligible then anchor else support
    else if c.anchor == o.active_target_id
    then anchor
    else support

pub record Scored : Type 0 where
  pub cell : Cell
  pub role : Role
  pub admitted : Bool
  pub score : Score

abbrev pub is_admitted : Role → Bool
is_admitted anchor = true
is_admitted support = true
is_admitted _ = false

abbrev pub is_anchor_role : Role → Bool
is_anchor_role anchor = true
is_anchor_role _ = false

unfoldable pub score_cell : (kind : String) → Overlay → Cell → Scored
unfolding score_admission role_of
score_cell kind o c =
    let score = score_admission c kind o in
    let role = role_of c (classify_authority_use c) o score in
    record { cell = c; role = role; admitted = is_admitted role; score = score }

pub data PacketStatus : Type 0 where
  ready review : PacketStatus

pub record Packet : Type 0 where
  pub status : PacketStatus
  pub admitted_cells : List Scored
  pub rejected_cells : List Scored
  pub strongest_anchor : Option String

-- `buildAdmissionPacket`
unfoldable pub build_packet : List Cell → (kind : String) → Overlay → Packet
unfolding score_cell
build_packet cells kind o =
    let scored = map (score_cell kind o) cells in
    let admitted = filter (λ s. s.admitted) scored in
    record {
      status = if any (λ s. is_anchor_role s.role) admitted then ready else review;
      admitted_cells = admitted;
      rejected_cells = filter (λ s. not s.admitted) scored;
      strongest_anchor = elim (find (λ s. is_anchor_role s.role) admitted) [
        | none ↦ none
        | some s ↦ some s.cell.id
      ];
    }
