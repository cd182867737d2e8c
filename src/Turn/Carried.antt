-- ===== src/Turn/Carried.antt =====
-- A referent that is carried over becomes what the turn answers from.
use gpao_t.Prelude.{
  String, true, false, ◌≡◌, ◌≢◌, refl, Option, none, some, List, ◌∷◌, ◌++◌, map, if◌then◌else◌,
  filter, any, find, append, eq_iff, eq_refl, arith, trim, is_space, ap,
}
use gpao_t.Cell.{Cell}
use gpao_t.Policy.{AuthorityUse, classify_authority_use, normalize_uses, all_use_blocked}
use gpao_t.Admission.{
  Overlay, anchor, Score, is_referent, is_weak, score_admission, signals_of, role_of, Scored,
  score_cell, ready, review, is_anchor_role, build_packet,
}
use gpao_t.Continuity as Continuity
use gpao_t.Continuity.{Referent}
use gpao_t.Continuity.Handing.{
  Handoff, auto_carry, continuity_cells, cell_of_referent, build_continuity_cells,
}
use gpao_t.Turn.{Env, SessionOverlay, admission_overlay, referent_entity, turn_with}

module _ (env : Continuity.Env) (h : Handoff) (r : Referent) where
  referent_named :
      (o : Overlay)
      → o.active_referent ≡ r.entity
      → r.entity ≢ ""
      → is_referent o (cell_of_referent env h r) ≡ true
  unfolding cell_of_referent
  referent_named o e named =
      rw e (ground (arith, eq_iff r.entity "", eq_refl (append "referent:" r.entity), named))

  strong_enough :
      (kind : String) (o : Overlay)
      → is_referent o (cell_of_referent env h r) ≡ true
      → is_weak (score_admission (cell_of_referent env h r) kind o) ≡ false
  unfolding score_admission signals_of cell_of_referent
  strong_enough kind o e = rw e (ground arith)

  carried_use :
      ((classify_authority_use (cell_of_referent env h r)).answer_anchor_allowed ≡ true)
      × ((classify_authority_use (cell_of_referent env h r)).supporting_context_allowed ≡ true)
      × ((classify_authority_use (cell_of_referent env h r)).candidate_evidence_allowed ≡ true)
  unfolding classify_authority_use cell_of_referent normalize_uses all_use_blocked trim is_space
  carried_use = (refl, refl, refl)

  carried_role :
      (u : AuthorityUse) (o : Overlay) (s : Score)
      → h.decision ≡ auto_carry
      → u.answer_anchor_allowed ≡ true
      → u.supporting_context_allowed ≡ true
      → u.candidate_evidence_allowed ≡ true
      → is_weak s ≡ false
      → is_referent o (cell_of_referent env h r) ≡ true
      → role_of (cell_of_referent env h r) u o s ≡ anchor
  unfolding role_of cell_of_referent
  carried_role u o s d a b c w e = rw (d, a, b, c, w, e) refl

  score_cell-carried :
      (kind : String) (o : Overlay)
      → h.decision ≡ auto_carry
      → o.active_referent ≡ r.entity
      → r.entity ≢ ""
      → (score_cell kind o (cell_of_referent env h r)).role ≡ anchor
  unfolding score_cell
  score_cell-carried kind o d e named =
      let cell = cell_of_referent env h r in
      let (a, b, c) = carried_use in
      let aimed = referent_named o e named in
      carried_role (classify_authority_use cell) o (score_admission cell kind o) d a b c
        (strong_enough kind o aimed) aimed

found_first :
    (s : Scored) (rest : List Scored)
    → s.admitted ≡ true
    → is_anchor_role s.role ≡ true
    → find (λ t. is_anchor_role t.role) (filter (λ t. t.admitted) (s ∷ rest)) ≡ some s
found_first s rest a e = rw a (rw e refl)

any_first :
    (s : Scored) (rest : List Scored)
    → s.admitted ≡ true
    → is_anchor_role s.role ≡ true
    → any (λ t. is_anchor_role t.role) (filter (λ t. t.admitted) (s ∷ rest)) ≡ true
any_first s rest a e = rw a (rw e refl)

-- The first cell of a packet, where it is an anchor, is what the turn answers from.
first-anchor :
    (kind : String) (o : Overlay) (c : Cell) (cells : List Cell)
    → (score_cell kind o c).role ≡ anchor
    → ((build_packet (c ∷ cells) kind o).status ≡ ready)
      × ((build_packet (c ∷ cells) kind o).strongest_anchor ≡ some c.id)
unfolding build_packet score_cell
first-anchor kind o c cells e =
    let s = score_cell kind o c in
    let rest = map (score_cell kind o) cells in
    let kept : s.admitted ≡ true = rw e refl in
    let chosen : is_anchor_role s.role ≡ true = rw e refl in
    (
      ap (λ b. if b then ready else review) (any_first s rest kept chosen),
      ap strongest (found_first s rest kept chosen),
    )
  where
    strongest : Option Scored → Option String
    strongest o = elim o [ none ↦ none | some s ↦ some s.cell.id ]

-- A handoff that is carried over without asking puts its referent, where it has a name, first: the turn's
-- packet is ready, and its strongest anchor is the referent's cell, whatever other cells are there.
pub turn_with-carried :
    (env : Env) (text kind : String) (o : SessionOverlay) (r : Referent) (cells : List Cell)
    → o.handoff.decision ≡ auto_carry
    → o.handoff.active_referent ≡ some r
    → r.entity ≢ ""
    → ((turn_with env text kind o
          (build_continuity_cells env.continuity o.handoff ++ cells)).packet.status
        ≡ ready)
      × ((turn_with env text kind o
            (build_continuity_cells env.continuity o.handoff ++ cells)).packet.strongest_anchor
          ≡ some (cell_of_referent env.continuity o.handoff r).id)
unfolding turn_with build_continuity_cells
turn_with-carried env text kind o r cells d e named =
    let cell = cell_of_referent env.continuity o.handoff r in
    let role =
      score_cell-carried env.continuity o.handoff r kind (admission_overlay o) d
        (ap referent_entity e) named in
    rw (ap (continuity_cells env.continuity o.handoff) e)
      (first-anchor kind (admission_overlay o) cell cells role)
