-- ===== src/Growth/Gating.antt =====
-- What a stored proposal and a gate that passed its review have of the history.
use gpao_t.Prelude.{
  or_text, not, ℕ, ◌≤◌, String, Bool, true, false, ◌&&◌, ◌≡◌, refl, Option, none, some, List, [],
  ◌∷◌, map, ◌==◌, if◌then◌else◌, find-any, find_last, any, has, length, length-map, leb, truthy,
  All, Bool-cases, Option-cases, inl, inr, arith, eq_refl, eq_iff, some_injective, subst, sym, ap,
  ◌∙◌,
}
use gpao_t.Storage.{slice_last}
use gpao_t.Growth.{
  Recovery, Env, Proposal, proposed, Target, Gate, review_passed_apply_blocked, RollbackPlan,
  rollback_plan, review_status_of, gate_for, about, approval_states, select_proposal, target_id,
  gate_target, read_history,
}
use gpao_t.Growth.Evidence.{
  count_about, any-slice_last, any-read_history, length-about-history, All-about, is_record,
}

-- A stored proposal: it has a target, and as many recoveries of it as it asked for, which the history
-- holds.
pub record IsSupported (history : List Recovery) (p : Proposal) : Type 0 where
  pub is_proposed : p.status ≡ proposed
  pub enough : p.min_evidence ≤ p.evidence_count
  pub target : Target
  pub targeted : p.target ≡ some target
  pub named : truthy target.id ≡ true
  pub counted : target.count ≡ p.evidence_count
  pub found : p.evidence_count ≤ count_about target.id history

-- What a gate that passed its review has: the approval, the evidence, and the way back of a stored
-- proposal, with a recovery of the proposal's target in the history for each piece of evidence.
pub record IsReviewed (history : List Recovery) (proposals : List Proposal) (g : Gate)
    : Type 0 where
  pub approved : g.approval_status ≡ "approved_for_apply"
  pub enough : g.min_replay ≤ g.evidence_count
  pub plan : RollbackPlan
  pub planned : g.rollback_plan ≡ some plan
  pub named : g.proposal_id ≡ some plan.proposal_id
  pub evidence : length plan.evidence_record_ids ≡ g.evidence_count
  pub recorded :
      All
        (λ id. any (λ r. r.id == id && r.target == plan.target) history ≡ true)
        plan.evidence_record_ids
  pub found : g.evidence_count ≤ count_about plan.target history
  pub stored : any (λ p. p.id == plan.proposal_id && target_id p == plan.target) proposals ≡ true

-- A stored gate: it applies nothing, and where its review is passed, it has all that an application needs.
pub record IsReviewOnly (history : List Recovery) (proposals : List Proposal) (g : Gate)
    : Type 0 where
  pub idle : g.can_apply_now ≡ false
  pub reviewed : g.review_status ≡ review_passed_apply_blocked → IsReviewed history proposals g

find_last-any :
    (p q : Proposal → Bool) (xs : List Proposal) (a : Proposal)
    → find_last p xs ≡ some a
    → q a ≡ true
    → any q xs ≡ true
find_last-any p q [] a h k = cc
find_last-any p q (x ∷ xs) a h k = elim (Option-cases (find_last p xs)) [
  | inl e ↦ elim (Bool-cases (p x)) [
    | inl f ↦
        let same : x ≡ a = some_injective x a (rw (e, f) at h) in
        let holds : q x ≡ true = subst (λ y. q y ≡ true) (sym same) k in rw holds refl
    | inr f ↦ cc (rw (e, f) at h)
  ]
  | inr (y, e) ↦
      let found : find_last p xs ≡ some a = e ∙ (rw e at h) in
      ground (arith, find_last-any p q xs a found k)
]

pub select_proposal-stored :
    (proposal_id target : String) (proposals : List Proposal) (p : Proposal)
    → select_proposal proposal_id target proposals ≡ some p
    → (q : Proposal → Bool) → q p ≡ true
    → any q proposals ≡ true
unfolding select_proposal
select_proposal-stored proposal_id target proposals p h q k =
    let recent = slice_last 50 proposals in
    any-slice_last q 50 proposals (elim (Bool-cases (truthy proposal_id)) [
      | inl e ↦ find-any (λ x. x.id == proposal_id) q recent p (rw e at h) k
      | inr e ↦ elim (Bool-cases (truthy target)) [
        | inl f ↦ find_last-any (λ x. target_id x == target) q recent p (rw (e, f) at h) k
        | inr f ↦ find_last-any (λ x. true) q recent p (rw (e, f) at h) k
      ]
    ])

-- Every stored proposal names its target.
none_unnamed :
    (history : List Recovery) (proposals : List Proposal)
    → All (IsSupported history) proposals
    → any (λ p. not (truthy (target_id p))) proposals ≡ false
none_unnamed history [] h = refl
none_unnamed history (p ∷ proposals) (s, h) =
    rw (s.targeted, s.named) (none_unnamed history proposals h)

pub selected_named :
    (proposal_id target : String) (history : List Recovery) (proposals : List Proposal)
    (p : Proposal)
    → All (IsSupported history) proposals
    → select_proposal proposal_id target proposals ≡ some p
    → truthy (target_id p) ≡ true
selected_named proposal_id target history proposals p h e =
    elim (Bool-cases (truthy (target_id p))) [
      | inl t ↦ t
      | inr t ↦ cc (
        none_unnamed history proposals h,
        select_proposal-stored proposal_id target proposals p e (λ x. not (truthy (target_id x)))
            (rw t refl),
      )
    ]

or_text_named : (a b : String) → truthy a ≡ true → or_text a b ≡ a
or_text_named a b h = ground (arith, h, eq_iff a "")

named_target :
    (p : Proposal) (target : String)
    → truthy (target_id p) ≡ true
    → gate_target (some p) target ≡ target_id p
named_target p target h = or_text_named (target_id p) target h

evidence_of :
    (p : Proposal) (target : String) (history : List Recovery)
    → truthy (target_id p) ≡ true
    → (if truthy (gate_target (some p) target)
        then about (gate_target (some p) target) (read_history 50 history)
        else [])
      ≡ about (target_id p) (read_history 50 history)
evidence_of p target history h = rw (named_target p target h) (rw h refl)

passed_tests :
    (p : Proposal) (replay approval : Bool)
    → review_status_of (some p) replay approval ≡ review_passed_apply_blocked
    → (replay ≡ true) × (approval ≡ true)
passed_tests p true true h = (refl, refl)
passed_tests p true false h = cc
passed_tests p false true h = cc
passed_tests p false false h = cc

pub gate_for-IsReviewOnly :
    (env : Env) (target approval_status : String) (min_replay : ℕ) (o : Option Proposal)
    (history : List Recovery) (proposals : List Proposal)
    → ((p : Proposal) → o ≡ some p → truthy (target_id p) ≡ true)
    → ((p : Proposal) → o ≡ some p → (q : Proposal → Bool) → q p ≡ true → any q proposals ≡ true)
    → IsReviewOnly history proposals (gate_for env target approval_status min_replay o history)
unfolding gate_for
gate_for-IsReviewOnly env target approval_status min_replay none history proposals named stored =
    record { idle = refl; reviewed = λ h. cc }
gate_for-IsReviewOnly env target approval_status min_replay (some p) history proposals named
      stored =
    let approval : String =
      if has approval_states approval_status then approval_status else "not_requested" in
    let id = gate_target (some p) target in
    let records : List Recovery = if truthy id then about id (read_history 50 history) else [] in
    let of_target = evidence_of p target history (named p refl) in
    record {
      idle = refl;
      reviewed = λ h.
          let (replay, approved) =
            passed_tests p (leb min_replay (length records)) (approval == "approved_for_apply") h in
          record {
            approved = (eq_iff approval "approved_for_apply").0 approved;
            enough = ground (arith, replay);
            plan = record {
              proposal_id = p.id;
              target = target_id p;
              evidence_record_ids = map (λ r. r.id) records;
            };
            planned = ap (λ b. rollback_plan (some p) b records) replay;
            named = refl;
            evidence = length-map (λ r. r.id) records;
            recorded =
                subst
                  (λ xs.
                    All (λ id. any (is_record (target_id p) id) history ≡ true)
                      (map (λ r. r.id) xs))
                  (sym of_target)
                  (All-about (target_id p) history (read_history 50 history)
                    (λ q. any-read_history q 50 history));
            found =
                subst (λ xs. length xs ≤ count_about (target_id p) history) (sym of_target)
                  (length-about-history (target_id p) history);
            stored =
                stored p refl (λ q. q.id == p.id && target_id q == target_id p)
                  (rw (eq_refl p.id, eq_refl (target_id p)) refl);
          };
    }
