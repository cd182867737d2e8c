-- ===== src/Admission/Tests.antt =====
-- The admission at one cell of the active target.
use gpao_t.Prelude.{◌≡◌, refl, true, some, [], ◌∷◌, trim, is_space}
use gpao_t.Cell.{Cell, empty_replay, empty_trace}
use gpao_t.Policy.{classify_authority_use, normalize_uses, all_use_blocked}
use gpao_t.Admission.{
  Overlay, signals_of, score_admission, anchor, role_of, score_cell, build_packet,
}
use gpao_t.Admission.Scores.{IsScore, score_admission-IsScore}
use gpao_t.Admission.Roles.{Parted, build_packet-Parted}

abbrev overlay : Overlay
overlay = record { active_target_id = "general-runtime"; active_referent = "" }

abbrev cell : Cell
cell = record {
  id = "tcell.1";
  pi = "keep answers short";
  x = [];
  anchor = "general-runtime";
  radius = record { scope = "project"; valid_for = "general_request" ∷ []; invalid_for = [] };
  source_refs = "turn.1" ∷ [];
  contradicts = [];
  weights =
      some (record { relevance = 700; confidence = 720; freshness = 950; risk = 220; cost = 80 });
  lifecycle = "reviewed";
  authority = record { allowed_use = "answer_anchor" ∷ []; blocked_use = [] };
  replay = empty_replay;
  trace = empty_trace;
  admission_role = "answer_anchor";
  downgrade_reason = "";
  answer_anchor_eligible = some true;
  mesh_score = 2000;
}

score_admission-IsScore_example :
    IsScore cell "general_request" overlay (score_admission cell "general_request" overlay)
score_admission-IsScore_example = score_admission-IsScore cell "general_request" overlay

build_packet-Parted_example :
    Parted "general_request" overlay
      (cell ∷ [])
      (build_packet (cell ∷ []) "general_request" overlay).admitted_cells
      (build_packet (cell ∷ []) "general_request" overlay).rejected_cells
build_packet-Parted_example = build_packet-Parted (cell ∷ []) "general_request" overlay

anchored : (score_cell "general_request" overlay cell).role ≡ anchor
unfolding score_cell score_admission signals_of role_of classify_authority_use normalize_uses
    all_use_blocked trim is_space
anchored = refl
