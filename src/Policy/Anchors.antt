-- ===== src/Policy/Anchors.antt =====
-- Which cells may be an answer's anchor, before and after their lifecycle review.
use gpao_t.Prelude.{
  ◌≡◌, refl, ◌⊎◌, inl, inr, String, Bool, true, false, not, ◌&&◌, ◌==◌, or_text, has, Bool-cases,
  arith, eq_iff, eq_refl, trim, is_space,
}
use gpao_t.Cell.{Cell}
use gpao_t.Memory.Record.{Env, ApplyRequest, ProposedChange, Bridge, Evidence}
use gpao_t.Memory.Apply.{cell_for}
use gpao_t.Memory.Lifecycle.{reviewed_cell}
use gpao_t.Policy.{
  release_target, non_anchor_lifecycles, anchor_uses, allows, normalize_uses, all_use_blocked,
  RequestPolicy, AuthorityUse, classify_authority_use, stale_supporting, answer_anchor,
  supporting_context, use_of, classify_candidate_use,
}

-- What a cell needs to be the anchor of an answer to a request.
pub record IsAnchor (c : Cell) (policy : RequestPolicy) : Type 0 where
  pub target : or_text c.anchor "unknown" ≡ policy.active_target_id
  pub lifecycle : has non_anchor_lifecycles (or_text c.lifecycle "unknown") ≡ false
  pub allowed : allows (normalize_uses c.authority.allowed_use) anchor_uses ≡ true
  pub usable :
      all_use_blocked
        (normalize_uses c.authority.allowed_use)
        (normalize_uses c.authority.blocked_use)
      ≡ false
  pub unblocked : has (normalize_uses c.authority.blocked_use) "answer_anchor" ≡ false

record IsAnchorUse (c : Cell) (u : AuthorityUse) (policy : RequestPolicy) : Type 0 where
  target : or_text c.anchor "unknown" ≡ policy.active_target_id
  allowed : u.answer_anchor_allowed ≡ true

use_of-anchor :
    (c : Cell) (u : AuthorityUse) (policy : RequestPolicy) (kind : String)
    → (use_of c u policy kind).admission_role ≡ answer_anchor
    → IsAnchorUse c u policy
unfolding use_of
use_of-anchor c u policy kind h = record {
  target = ground (arith, h, eq_iff (or_text c.anchor "unknown") policy.active_target_id);
  allowed = ground (arith, h);
}

allowed_parts :
    (a b x y : Bool)
    → (a && b && not x && not y) ≡ true
    → (a ≡ true) × (b ≡ true) × (x ≡ false) × (y ≡ false)
allowed_parts true true false false h = (refl, refl, refl, refl)
allowed_parts false b x y h = cc
allowed_parts true false x y h = cc
allowed_parts true true true y h = cc
allowed_parts true true false true h = cc

not_has : (b : Bool) → not b ≡ true → b ≡ false
not_has false h = refl
not_has true h = cc

-- A cell is classified as an answer's anchor only for the request's target, past the lifecycles that
-- wait for a review, with an allowed use that admits it (or none given), and where no blocked use
-- forbids it.
pub classify_candidate_use-IsAnchor :
    (c : Cell) (policy : RequestPolicy) (kind : String)
    → (classify_candidate_use c policy kind).admission_role ≡ answer_anchor
    → IsAnchor c policy
unfolding classify_candidate_use classify_authority_use
classify_candidate_use-IsAnchor c policy kind h =
    let r = use_of-anchor c (classify_authority_use c) policy kind h in
    let allowed = normalize_uses c.authority.allowed_use in
    let blocked = normalize_uses c.authority.blocked_use in
    let (l, a, u, b) =
      allowed_parts (not (has non_anchor_lifecycles (or_text c.lifecycle "unknown")))
        (allows allowed anchor_uses) (all_use_blocked allowed blocked) (has blocked "answer_anchor")
        r.allowed in
    record { target = r.target; lifecycle = not_has _ l; allowed = a; usable = u; unblocked = b }

-- A classified use that no anchor is allowed for.
supporting_of :
    (c : Cell) (u : AuthorityUse) (policy : RequestPolicy) (kind : String)
    → u.answer_anchor_allowed ≡ false
    → u.supporting_context_allowed ≡ true
    → u.candidate_evidence_allowed ≡ true
    → ((use_of c u policy kind).admission_role ≡ stale_supporting)
      ⊎ ((use_of c u policy kind).admission_role ≡ supporting_context)
unfolding use_of
supporting_of c u policy kind h k l =
    elim (Bool-cases (
      or_text c.anchor "unknown" == release_target
      && not (policy.active_target_id == release_target)
      && not (policy.request_type == "continuity_follow_up"))) [
        | inl e ↦ inl (rw (l, e, k) refl)
        | inr e ↦ inr (ground (arith, h, k, l, e))
      ]

-- Until its lifecycle review, an applied cell is supporting context for every request, stale or not,
-- and never an answer's anchor.
pub classify_candidate_use-pending :
    (env : Env) (r : ApplyRequest) (change : ProposedChange) (b : Bridge) (policy : RequestPolicy)
    (kind : String)
    → ((classify_candidate_use (cell_for env r change b) policy kind).admission_role
        ≡ stale_supporting)
      ⊎ ((classify_candidate_use (cell_for env r change b) policy kind).admission_role
          ≡ supporting_context)
unfolding classify_candidate_use classify_authority_use cell_for normalize_uses all_use_blocked trim
    is_space
classify_candidate_use-pending env r change b policy kind =
    supporting_of (cell_for env r change b) (classify_authority_use (cell_for env r change b))
      policy kind refl refl refl

anchored_of :
    (c : Cell) (u : AuthorityUse) (policy : RequestPolicy) (kind : String)
    → or_text c.anchor "unknown" ≡ policy.active_target_id
    → u.answer_anchor_allowed ≡ true
    → u.candidate_evidence_allowed ≡ true
    → (use_of c u policy kind).admission_role ≡ answer_anchor
unfolding use_of
anchored_of c u policy kind e h k = rw (e, eq_refl policy.active_target_id) (ground (arith, h, k))

-- Once it is reviewed, an applied cell is the answer's anchor of every request for its target.
pub classify_candidate_use-reviewed :
    (env env' : Env) (r : ApplyRequest) (change : ProposedChange) (b : Bridge) (e : Evidence)
    (policy : RequestPolicy) (kind : String)
    → or_text (cell_for env r change b).anchor "unknown" ≡ policy.active_target_id
    → (classify_candidate_use
        (reviewed_cell env' e (cell_for env r change b))
        policy
        kind).admission_role
      ≡ answer_anchor
unfolding classify_candidate_use classify_authority_use cell_for reviewed_cell normalize_uses
    all_use_blocked trim is_space
classify_candidate_use-reviewed env env' r change b e policy kind h =
    anchored_of (reviewed_cell env' e (cell_for env r change b))
      (classify_authority_use (reviewed_cell env' e (cell_for env r change b))) policy kind h refl
      refl
