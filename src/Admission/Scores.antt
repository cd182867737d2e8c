-- ===== src/Admission/Scores.antt =====
-- The score of a cell: its breakdown and its bounds.
use gpao_t.Prelude.{
  ℕ, ◌+◌, ◌*◌, ◌/◌, ◌≤◌, ◌≡◌, refl, String, Bool, true, false, List, [], ◌∷◌, ◌++◌, leb, Bool-cases,
  inl, inr, arith, All, subst, sym, if◌then◌else◌, ◌==◌, truthy, ◌&&◌, append, has, ltb,
}
use gpao_t.Cell.{Cell}
use gpao_t.Admission.{
  weights_of, Overlay, Entry, gain, loss, Score, Change, plus, minus, push_entry, change_total,
  is_referent, is_conflict, confidence_value, score_all, no_score, mesh_value, signals_of,
  score_admission,
}

-- What the lines of a breakdown add and take.
abbrev pub gains : List Entry → ℕ
gains [] = 0
gains (gain signal value ∷ entries) = value + gains entries
gains (loss signal value ∷ entries) = gains entries

abbrev pub losses : List Entry → ℕ
losses [] = 0
losses (gain signal value ∷ entries) = losses entries
losses (loss signal value ∷ entries) = value + losses entries

pub record IsSummed (s : Score) : Type 0 where
  pub added : s.added ≡ gains s.breakdown
  pub taken : s.taken ≡ losses s.breakdown

gains-append : (xs ys : List Entry) → gains (xs ++ ys) ≡ gains xs + gains ys
gains-append [] ys = omega arith
gains-append (gain signal value ∷ xs) ys = omega (arith, gains-append xs ys)
gains-append (loss signal value ∷ xs) ys = gains-append xs ys

losses-append : (xs ys : List Entry) → losses (xs ++ ys) ≡ losses xs + losses ys
losses-append [] ys = omega arith
losses-append (gain signal value ∷ xs) ys = losses-append xs ys
losses-append (loss signal value ∷ xs) ys = omega (arith, losses-append xs ys)

-- The entry of the breakdown and the change of the total are of one value.
abbrev Agrees : Entry → Change → Type 0
Agrees (gain signal value) (plus n) = value ≡ n
Agrees (loss signal value) (minus n) = value ≡ n
Agrees _ _ = ⊥

change-IsSummed :
    (e : Entry) (k : Change) (s : Score)
    → Agrees e k
    → IsSummed s
    → IsSummed (change_total k (push_entry e s))
change-IsSummed (gain signal value) (plus n) s a h = record {
  added = omega (arith, a, h.added, gains-append s.breakdown (gain signal value ∷ []));
  taken = omega (arith, h.taken, losses-append s.breakdown (gain signal value ∷ []));
}
change-IsSummed (gain signal value) (minus n) s a h = absurd a
change-IsSummed (loss signal value) (plus n) s a h = absurd a
change-IsSummed (loss signal value) (minus n) s a h = record {
  added = omega (arith, h.added, gains-append s.breakdown (loss signal value ∷ []));
  taken = omega (arith, a, h.taken, losses-append s.breakdown (loss signal value ∷ []));
}

score_all-IsSummed :
    (signals : List (Bool × Entry × Change)) (s : Score)
    → All (λ x. Agrees x.1 x.2) signals
    → IsSummed s
    → IsSummed (score_all signals s)
score_all-IsSummed [] s a h = h
score_all-IsSummed ((true, e, k) ∷ signals) s a h =
    score_all-IsSummed signals (change_total k (push_entry e s)) a.1 (change-IsSummed e k s a.0 h)
score_all-IsSummed ((false, e, k) ∷ signals) s a h = score_all-IsSummed signals s a.1 h

-- The signals that hold add and take exactly their values.
abbrev plus_of : Change → ℕ
plus_of (plus n) = n
plus_of (minus n) = 0

abbrev minus_of : Change → ℕ
minus_of (plus n) = 0
minus_of (minus n) = n

abbrev pub worth : Bool → ℕ → ℕ
worth test n = if test then n else 0

abbrev all_plus : List (Bool × Entry × Change) → ℕ
all_plus [] = 0
all_plus ((test, e, k) ∷ signals) = worth test (plus_of k) + all_plus signals

abbrev all_minus : List (Bool × Entry × Change) → ℕ
all_minus [] = 0
all_minus ((test, e, k) ∷ signals) = worth test (minus_of k) + all_minus signals

score_all-added :
    (signals : List (Bool × Entry × Change)) (s : Score)
    → (score_all signals s).added ≡ s.added + all_plus signals
score_all-added [] s = omega arith
score_all-added ((true, e, plus n) ∷ signals) s =
    omega (arith, score_all-added signals (change_total (plus n) (push_entry e s)))
score_all-added ((true, e, minus n) ∷ signals) s =
    omega (arith, score_all-added signals (change_total (minus n) (push_entry e s)))
score_all-added ((false, e, k) ∷ signals) s = omega (arith, score_all-added signals s)

score_all-taken :
    (signals : List (Bool × Entry × Change)) (s : Score)
    → (score_all signals s).taken ≡ s.taken + all_minus signals
score_all-taken [] s = omega arith
score_all-taken ((true, e, plus n) ∷ signals) s =
    omega (arith, score_all-taken signals (change_total (plus n) (push_entry e s)))
score_all-taken ((true, e, minus n) ∷ signals) s =
    omega (arith, score_all-taken signals (change_total (minus n) (push_entry e s)))
score_all-taken ((false, e, k) ∷ signals) s = omega (arith, score_all-taken signals s)

worth_none : (t : Bool) → worth t 0 ≡ 0
worth_none true = refl
worth_none false = refl

worth-bound : (t : Bool) (n : ℕ) → worth t n ≤ n
worth-bound true n = omega arith
worth-bound false n = omega arith

mesh_value-bound : (m : ℕ) → mesh_value m ≤ 20
mesh_value-bound m = elim (Bool-cases (leb 20 ((m * 3 + 500) / 1000))) [
  | inl e ↦ rw e (omega arith)
  | inr e ↦ rw e (ground (arith, e))
]

-- What a cell's score is made of.
pub record IsScore (c : Cell) (kind : String) (o : Overlay) (s : Score) : Type 0 where
  pub summed : IsSummed s
  pub added :
      s.added
      ≡ worth (c.anchor == o.active_target_id) 40
        + worth (truthy o.active_referent && c.anchor == append "referent:" o.active_referent) 36
        + worth (has c.radius.valid_for kind) 15
        + worth (ltb 0 c.mesh_score) (mesh_value c.mesh_score)
        + worth (leb 550 (weights_of c).confidence) (confidence_value (weights_of c).confidence)
  pub taken :
      s.taken
      ≡ worth (c.admission_role == "stale_supporting") 10
        + worth (ltb 800 (weights_of c).risk) 50
        + worth (c.lifecycle == "candidate") 5
        + worth (has c.contradicts o.active_target_id) 60
  pub mesh_bound : mesh_value c.mesh_score ≤ 20
  pub added_bound : s.added ≤ 111 + confidence_value (weights_of c).confidence
  pub taken_bound : s.taken ≤ 125

total_added :
    (c : Cell) (kind : String) (o : Overlay)
    → (score_admission c kind o).added
      ≡ worth (c.anchor == o.active_target_id) 40
        + worth (truthy o.active_referent && c.anchor == append "referent:" o.active_referent) 36
        + worth (has c.radius.valid_for kind) 15
        + worth (ltb 0 c.mesh_score) (mesh_value c.mesh_score)
        + worth (leb 550 (weights_of c).confidence) (confidence_value (weights_of c).confidence)
unfolding score_admission signals_of
total_added c kind o = omega (
  arith,
  score_all-added (signals_of c kind o) no_score,
  worth_none (c.admission_role == "stale_supporting"),
  worth_none (ltb 800 (weights_of c).risk),
  worth_none (c.lifecycle == "candidate"),
  worth_none (is_conflict o c),
)

total_taken :
    (c : Cell) (kind : String) (o : Overlay)
    → (score_admission c kind o).taken
      ≡ worth (c.admission_role == "stale_supporting") 10
        + worth (ltb 800 (weights_of c).risk) 50
        + worth (c.lifecycle == "candidate") 5
        + worth (has c.contradicts o.active_target_id) 60
unfolding score_admission signals_of
total_taken c kind o = omega (
  arith,
  score_all-taken (signals_of c kind o) no_score,
  worth_none (c.anchor == o.active_target_id),
  worth_none (is_referent o c),
  worth_none (has c.radius.valid_for kind),
  worth_none (ltb 0 c.mesh_score),
  worth_none (leb 550 (weights_of c).confidence),
)

added-bound :
    (a b c d e : Bool) (m w : ℕ)
    → m ≤ 20
    → worth a 40 + worth b 36 + worth c 15 + worth d m + worth e w ≤ 111 + w
added-bound a b c d e m w h = omega (
  arith,
  h,
  worth-bound a 40,
  worth-bound b 36,
  worth-bound c 15,
  worth-bound d m,
  worth-bound e w,
)

taken-bound : (a b c d : Bool) → worth a 10 + worth b 50 + worth c 5 + worth d 60 ≤ 125
taken-bound a b c d =
    omega (arith, worth-bound a 10, worth-bound b 50, worth-bound c 5, worth-bound d 60)

-- A score's total is what its breakdown adds less what it takes. It adds 40 for an anchor at the active
-- target, 36 for one at the active referent, 15 for a cell that is valid for the request's kind, the mesh
-- value of a mesh score above 0, which is 20 at most, and the confidence value from a confidence of 0.55
-- on; it takes 10 from stale support, 50 from a risk above 0.8, 5 from a candidate and 60 from a cell that
-- contradicts the active target. It adds 111 and the confidence value at most, and takes 125 at most.
pub score_admission-IsScore :
    (c : Cell) (kind : String) (o : Overlay) → IsScore c kind o (score_admission c kind o)
unfolding score_admission signals_of
score_admission-IsScore c kind o =
    let m = mesh_value-bound c.mesh_score in
    let added = total_added c kind o in
    let taken = total_taken c kind o in
    record {
      summed =
          score_all-IsSummed (signals_of c kind o) no_score
            (refl, (refl, (refl, (refl, (refl, (refl, (refl, (refl, (refl, tt)))))))))
            (record { added = refl; taken = refl });
      added = added;
      taken = taken;
      mesh_bound = m;
      added_bound =
          subst (λ n. n ≤ 111 + confidence_value (weights_of c).confidence) (sym added)
            (added-bound (c.anchor == o.active_target_id) (is_referent o c)
              (has c.radius.valid_for kind) (ltb 0 c.mesh_score) (leb 550 (weights_of c).confidence)
              (mesh_value c.mesh_score) (confidence_value (weights_of c).confidence) m);
      taken_bound =
          subst (λ n. n ≤ 125) (sym taken)
            (taken-bound (c.admission_role == "stale_supporting") (ltb 800 (weights_of c).risk)
              (c.lifecycle == "candidate") (is_conflict o c));
    }
