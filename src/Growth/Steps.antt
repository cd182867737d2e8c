-- ===== src/Growth/Steps.antt =====
-- What holds of the growth files however the operations are called.
use gpao_t.Prelude.{
  ℕ, String, Bool, true, false, ◌&&◌, ◌≡◌, refl, List, [], ◌∷◌, ◌++◌, ◌==◌, any, any-append_left,
  length, leb, truthy, All, All-append, All-weaken, Bool-cases, inl, inr, arith, subst, ap,
}
use gpao_t.Growth.{
  Recovery, Env, Proposal, ProposalStatus, proposed, insufficient_evidence, build_proposal,
  is_supported, Gate, about, select_proposal, target_id, Store, read_history, select_target,
  repeated_targets, append_recovery, keep_proposal, append_proposal, append_gate,
}
use gpao_t.Growth.Evidence.{length-about-history, is_record, count_about-append}
use gpao_t.Growth.Gating.{
  IsSupported, IsReviewOnly, select_proposal-stored, selected_named, gate_for-IsReviewOnly,
}

append_nil {ℓ} : {A : Type ℓ} (xs : List A) → xs ++ [] ≡ xs
append_nil [] = refl
append_nil (x ∷ xs) = ap (λ l. x ∷ l) (append_nil xs)

-- What is kept of a proposal and of a gate when the history or the proposals grow.
IsSupported-more :
    (more history : List Recovery) (p : Proposal)
    → IsSupported history p
    → IsSupported (history ++ more) p
IsSupported-more more history p h = record {
  is_proposed = h.is_proposed;
  enough = h.enough;
  target = h.target;
  targeted = h.targeted;
  named = h.named;
  counted = h.counted;
  found = omega (arith, h.found, count_about-append h.target.id history more);
}

IsReviewOnly-more :
    (records history : List Recovery) (more proposals : List Proposal) (g : Gate)
    → IsReviewOnly history proposals g
    → IsReviewOnly (history ++ records) (proposals ++ more) g
IsReviewOnly-more records history more proposals g h = record {
  idle = h.idle;
  reviewed = λ passed.
      let r = h.reviewed passed in
      record {
        approved = r.approved;
        enough = r.enough;
        plan = r.plan;
        planned = r.planned;
        named = r.named;
        evidence = r.evidence;
        recorded =
            All-weaken (λ id. any (is_record r.plan.target id) history ≡ true)
              (λ id. any (is_record r.plan.target id) (history ++ records) ≡ true)
              r.plan.evidence_record_ids
              (λ id. any-append_left (is_record r.plan.target id) history records) r.recorded;
        found = omega (arith, r.found, count_about-append r.plan.target history records);
        stored =
            any-append_left (λ p. p.id == r.plan.proposal_id && target_id p == r.plan.target)
              proposals more r.stored;
      };
}

pub record IsGrounded (s : Store) : Type 0 where
  pub proposals : All (IsSupported s.history) s.proposals
  pub gates : All (IsReviewOnly s.history s.proposals) s.gates

-- The operations that write, on any arguments.
pub data Step : Store → Store → Type 0 where
  recovers : (r : Recovery) (s : Store) → Step s (append_recovery r s)
  proposes :
      (env : Env) (target : String) (min_evidence : ℕ) (s : Store)
      → Step s (append_proposal env target min_evidence s).1
  reviews :
      (env : Env) (proposal_id target approval_status : String) (min_replay : ℕ) (s : Store)
      → Step s (append_gate env proposal_id target approval_status min_replay s).1

pub data Reachable : Store → Type 0 where
  start : Reachable (record { history = []; proposals = []; gates = [] })
  step : (s t : Store) → Reachable s → Step s t → Reachable t

and_parts : (p q : Bool) → (p && q) ≡ true → (p ≡ true) × (q ≡ true)
and_parts true q h = (refl, h)
and_parts false q h = cc

build_proposal-IsSupported :
    (env : Env) (target : String) (min_evidence : ℕ) (history : List Recovery)
    → (build_proposal env target min_evidence history).status ≡ proposed
    → IsSupported history (build_proposal env target min_evidence history)
unfolding build_proposal
build_proposal-IsSupported env target min_evidence history h =
    let recent = read_history 50 history in
    let selected = select_target target recent in
    let records = about selected recent in
    elim (Bool-cases (is_supported selected min_evidence records)) [
      | inl e ↦
          let (some_target, enough) =
            and_parts (truthy selected) (leb min_evidence (length records)) e in
          record {
            is_proposed = h;
            enough = ground (arith, enough);
            target = record {
              id = selected;
              count = length records;
              is_repeated = any (λ entry. entry.0 == selected) (repeated_targets recent);
            };
            targeted = rw some_target refl;
            named = some_target;
            counted = refl;
            found = length-about-history selected history;
          }
      | inr e ↦ cc (rw e at h)
    ]

keep_proposal-IsGrounded :
    (p : Proposal) (status : ProposalStatus) (s : Store)
    → IsGrounded s
    → (status ≡ proposed → IsSupported s.history p)
    → IsGrounded (keep_proposal p status s)
keep_proposal-IsGrounded p proposed s h k = record {
  proposals = All-append (IsSupported s.history) s.proposals (p ∷ []) h.proposals (k refl, tt);
  gates =
      All-weaken (IsReviewOnly s.history s.proposals)
        (IsReviewOnly s.history (s.proposals ++ p ∷ [])) s.gates
        (λ g r.
          subst (λ hs. IsReviewOnly hs (s.proposals ++ p ∷ []) g) (append_nil s.history)
            (IsReviewOnly-more [] s.history (p ∷ []) s.proposals g r))
        h.gates;
}
keep_proposal-IsGrounded p insufficient_evidence s h k = h

recovers-IsGrounded : (r : Recovery) (s : Store) → IsGrounded s → IsGrounded (append_recovery r s)
recovers-IsGrounded r s h = record {
  proposals =
      All-weaken (IsSupported s.history) (IsSupported (s.history ++ r ∷ [])) s.proposals
        (IsSupported-more (r ∷ []) s.history) h.proposals;
  gates =
      All-weaken (IsReviewOnly s.history s.proposals)
        (IsReviewOnly (s.history ++ r ∷ []) s.proposals) s.gates
        (λ g q.
          subst (λ ps. IsReviewOnly (s.history ++ r ∷ []) ps g) (append_nil s.proposals)
            (IsReviewOnly-more (r ∷ []) s.history [] s.proposals g q))
        h.gates;
}

reviews-IsGrounded :
    (env : Env) (proposal_id target approval_status : String) (min_replay : ℕ) (s : Store)
    → IsGrounded s
    → IsGrounded (append_gate env proposal_id target approval_status min_replay s).1
unfolding append_gate
reviews-IsGrounded env proposal_id target approval_status min_replay s h = record {
  proposals = h.proposals;
  gates = All-append (IsReviewOnly s.history s.proposals) s.gates _ h.gates (
    gate_for-IsReviewOnly env target approval_status min_replay
        (select_proposal proposal_id target s.proposals) s.history s.proposals
        (λ p. selected_named proposal_id target s.history s.proposals p h.proposals)
        (λ p. select_proposal-stored proposal_id target s.proposals p),
    tt,
  );
}

Step-IsGrounded : (s t : Store) → Step s t → IsGrounded s → IsGrounded t
unfolding append_proposal
Step-IsGrounded s t (recovers r s') h = recovers-IsGrounded r s' h
Step-IsGrounded s t (proposes env target min_evidence s') h =
    keep_proposal-IsGrounded (build_proposal env target min_evidence s'.history) _ s' h
      (build_proposal-IsSupported env target min_evidence s'.history)
Step-IsGrounded s t (reviews env proposal_id target approval_status min_replay s') h =
    reviews-IsGrounded env proposal_id target approval_status min_replay s' h

-- However recoveries are recorded, growth proposed and gates reviewed, from empty files on, every stored
-- proposal has a target, and its evidence is as many recoveries as it asked for and no more than the
-- history holds of that target; and every gate applies nothing. One whose review is passed has the
-- approval to apply, as many recoveries as it asked for and no more than the history holds of its plan's
-- target, and a rollback plan with the id and the target of a stored proposal, each of whose records is in
-- the history with that target.
pub Reachable-IsGrounded : (s : Store) → Reachable s → IsGrounded s
Reachable-IsGrounded s start = record { proposals = tt; gates = tt }
Reachable-IsGrounded t (step s t' r e) = Step-IsGrounded s t' e (Reachable-IsGrounded s r)
