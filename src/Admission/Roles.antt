-- ===== src/Admission/Roles.antt =====
-- Which cells a turn admits, and which of them it answers from.
use gpao_t.Prelude.{
  refl, if◌then◌else◌, subst, ◌≤◌, ◌<◌, has, ◌==◌, ◌+◌, ◌≡◌, ◌≢◌, ◌⊎◌, inl, inr, String, true,
  false, not, List, [], ◌∷◌, map, filter, ltb, Bool-cases, arith, eq_iff,
}
use gpao_t.Cell.{Cell}
use gpao_t.Policy.{AuthorityUse, classify_authority_use}
use gpao_t.Admission.{
  weights_of, Overlay, Score, is_referent, is_conflict, is_weak, score_admission, anchor, role_of,
  Scored, is_admitted, score_cell, build_packet,
}

-- What every admitted cell has passed, and no other.
pub record IsAdmissible (o : Overlay) (s : Scored) : Type 0 where
  pub agrees : has s.cell.contradicts o.active_target_id ≡ false
  pub evident : (classify_authority_use s.cell).candidate_evidence_allowed ≡ true
  pub supporting : (classify_authority_use s.cell).supporting_context_allowed ≡ true
  pub not_blocked : s.cell.admission_role ≢ "blocked"
  pub not_evidence : s.cell.admission_role ≢ "candidate_evidence"
  pub low_risk : (weights_of s.cell).risk ≤ 800
  pub strong : s.score.taken + 5 ≤ s.score.added

-- Why a cell is rejected.
pub data Refused (o : Overlay) (s : Scored) : Type 0 where
  contradicts : has s.cell.contradicts o.active_target_id ≡ true → Refused o s
  no_evidence : (classify_authority_use s.cell).candidate_evidence_allowed ≡ false → Refused o s
  no_support : (classify_authority_use s.cell).supporting_context_allowed ≡ false → Refused o s
  blocked_cell : s.cell.admission_role ≡ "blocked" → Refused o s
  evidence_only : s.cell.admission_role ≡ "candidate_evidence" → Refused o s
  high_risk : 800 < (weights_of s.cell).risk → Refused o s
  weak : s.score.added < s.score.taken + 5 → Refused o s

role_of-admitted :
    (c : Cell) (o : Overlay) (s : Score)
    → is_admitted (role_of c (classify_authority_use c) o s) ≡ true
    → IsAdmissible o (record {
      cell = c;
      role = role_of c (classify_authority_use c) o s;
      admitted = true;
      score = s;
    })
unfolding role_of
role_of-admitted c o s h = record {
  agrees = ground (arith, h);
  evident = ground (arith, h);
  supporting = ground (arith, h);
  not_blocked = ground (arith, h, eq_iff c.admission_role "blocked");
  not_evidence = ground (arith, h, eq_iff c.admission_role "candidate_evidence");
  low_risk = ground (arith, h);
  strong = ground (arith, h);
}

role_of-anchor :
    (c : Cell) (u : AuthorityUse) (o : Overlay) (s : Score)
    → role_of c u o s ≡ anchor
    → (u.answer_anchor_allowed ≡ true)
      × ((is_referent o c ≡ true) ⊎ (c.anchor ≡ o.active_target_id))
unfolding role_of
role_of-anchor c u o s h =
    (ground (arith, h), ground (arith, h, eq_iff c.anchor o.active_target_id))

score_cell-IsAdmissible :
    (kind : String) (o : Overlay) (c : Cell)
    → (score_cell kind o c).admitted ≡ true
    → IsAdmissible o (score_cell kind o c)
unfolding score_cell
score_cell-IsAdmissible kind o c h =
    let r = role_of-admitted c o (score_admission c kind o) h in
    record {
      agrees = r.agrees;
      evident = r.evident;
      supporting = r.supporting;
      not_blocked = r.not_blocked;
      not_evidence = r.not_evidence;
      low_risk = r.low_risk;
      strong = r.strong;
    }

score_cell-Refused :
    (kind : String) (o : Overlay) (c : Cell)
    → (score_cell kind o c).admitted ≡ false
    → Refused o (score_cell kind o c)
unfolding score_cell role_of
score_cell-Refused kind o c h =
    let u = classify_authority_use c in
    let s = score_admission c kind o in
    elim (Bool-cases (is_conflict o c)) [
      | inl e ↦ contradicts e
      | inr e ↦ elim (Bool-cases (c.admission_role == "blocked")) [
        | inl f ↦ blocked_cell ((eq_iff c.admission_role "blocked").0 f)
        | inr f ↦ elim (Bool-cases u.candidate_evidence_allowed) [
          | inr g ↦ no_evidence g
          | inl g ↦ elim (Bool-cases (ltb 800 (weights_of c).risk)) [
            | inl k ↦ high_risk (ground (arith, k))
            | inr k ↦ elim (Bool-cases (is_weak s)) [
              | inl l ↦ weak (ground (arith, l))
              | inr l ↦ elim (Bool-cases (c.admission_role == "candidate_evidence")) [
                | inl m ↦ evidence_only ((eq_iff c.admission_role "candidate_evidence").0 m)
                | inr m ↦ no_support (ground (arith, e, f, g, k, l, m, h))
              ]
            ]
          ]
        ]
      ]
    ]

-- The admitted cells and the rejected ones: each of the cells stands among one of them, in the order of
-- the cells.
pub data Parted (kind : String) (o : Overlay)
    : List Cell → (admitted rejected : List Scored) → Type 0 where
  finished : Parted kind o [] [] []
  admits :
      (s : Scored) (cells : List Cell) (admitted rejected : List Scored)
      → s.score ≡ score_admission s.cell kind o
      → IsAdmissible o s
      → Parted kind o cells admitted rejected
      → Parted kind o (s.cell ∷ cells) (s ∷ admitted) rejected
  rejects :
      (s : Scored) (cells : List Cell) (admitted rejected : List Scored)
      → s.score ≡ score_admission s.cell kind o
      → Refused o s
      → Parted kind o cells admitted rejected
      → Parted kind o (s.cell ∷ cells) admitted (s ∷ rejected)

score_cell-cell : (kind : String) (o : Overlay) (c : Cell) → (score_cell kind o c).cell ≡ c
unfolding score_cell
score_cell-cell kind o c = refl

score_cell-score :
    (kind : String) (o : Overlay) (c : Cell)
    → (score_cell kind o c).score ≡ score_admission (score_cell kind o c).cell kind o
unfolding score_cell
score_cell-score kind o c = refl

side_of_cell :
    (kind : String) (o : Overlay) (s : Scored) (cells : List Cell) (xs ys : List Scored)
    → s.score ≡ score_admission s.cell kind o
    → (s.admitted ≡ true → IsAdmissible o s)
    → (s.admitted ≡ false → Refused o s)
    → Parted kind o cells xs ys
    → Parted kind o
        (s.cell ∷ cells)
        (if s.admitted then s ∷ xs else xs)
        (if not s.admitted then s ∷ ys else ys)
side_of_cell kind o s cells xs ys scored =
    elim s.admitted
      as (λ b.
        (b ≡ true → IsAdmissible o s)
        → (b ≡ false → Refused o s)
        → Parted kind o cells xs ys
        → Parted kind o (s.cell ∷ cells) (if b then s ∷ xs else xs)
            (if not b then s ∷ ys else ys)) [
              | true ↦ λ h k p. admits s cells xs ys scored (h refl) p
              | false ↦ λ h k p. rejects s cells xs ys scored (k refl) p
            ]

parted :
    (kind : String) (o : Overlay) (cells : List Cell)
    → Parted kind o cells
        (filter (λ s. s.admitted) (map (score_cell kind o) cells))
        (filter (λ s. not s.admitted) (map (score_cell kind o) cells))
parted kind o [] = finished
parted kind o (c ∷ cells) =
    let s = score_cell kind o c in
    let xs = filter (λ s. s.admitted) (map (score_cell kind o) cells) in
    let ys = filter (λ s. not s.admitted) (map (score_cell kind o) cells) in
    subst
      (λ d.
        Parted kind o (d ∷ cells) (if s.admitted then s ∷ xs else xs)
          (if not s.admitted then s ∷ ys else ys))
      (score_cell-cell kind o c)
      (side_of_cell kind o s cells xs ys (score_cell-score kind o c)
        (score_cell-IsAdmissible kind o c) (score_cell-Refused kind o c) (parted kind o cells))

-- Every retrieved cell is admitted or rejected, in the order of the retrieval. It is admitted where it
-- does not contradict the active target, its authority allows it as evidence and as supporting context,
-- its role in the retrieval is neither blocked nor evidence only, its risk is 0.8 at most and the score that the
-- scoring gives it 5 at least; a rejected one fails one of these.
pub build_packet-Parted :
    (cells : List Cell) (kind : String) (o : Overlay)
    → Parted kind o cells
        (build_packet cells kind o).admitted_cells
        (build_packet cells kind o).rejected_cells
unfolding build_packet
build_packet-Parted cells kind o = parted kind o cells

-- A turn answers only from a cell whose authority allows it as an anchor, and which is the active
-- referent's or the active target's.
pub score_cell-anchor :
    (kind : String) (o : Overlay) (c : Cell)
    → (score_cell kind o c).role ≡ anchor
    → ((classify_authority_use c).answer_anchor_allowed ≡ true)
      × ((is_referent o c ≡ true) ⊎ (c.anchor ≡ o.active_target_id))
unfolding score_cell
score_cell-anchor kind o c h =
    role_of-anchor c (classify_authority_use c) o (score_admission c kind o) h
