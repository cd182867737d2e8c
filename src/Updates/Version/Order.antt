-- ===== src/Updates/Version/Order.antt =====
-- The comparison of two date versions is a total order.
use gpao_t.Prelude.{ℕ, ◌<◌, ◌≡◌, refl, arith, ltb, Bool-cases, inl, inr, ◌⊎◌, ◌∙◌}
use gpao_t.Updates.Version.{
  DateVersion, Compared, later, earlier, same, compare_part, compare_dates,
}

-- The result with the sides exchanged.
abbrev pub opposite : Compared → Compared
opposite later = earlier
opposite earlier = later
opposite same = same

compare_part-opposite :
    (a b : ℕ) (r s : Compared) → s ≡ opposite r → compare_part b a s ≡ opposite (compare_part a b r)
unfolding compare_part
compare_part-opposite a b r s h = elim (Bool-cases (ltb b a)) [
  | inl e ↦ ground (arith, e)
  | inr e ↦ elim (Bool-cases (ltb a b)) [ inl k ↦ rw (e, k) refl | inr k ↦ rw (e, k) h ]
]

pub compare_dates-opposite : (a b : DateVersion) → compare_dates b a ≡ opposite (compare_dates a b)
unfolding compare_dates
compare_dates-opposite a b = compare_part-opposite a.year b.year _ _ (
    compare_part-opposite a.month b.month _ _ (
      compare_part-opposite a.day b.day _ _
        (compare_part-opposite a.revision b.revision same same refl)))

pub compare_dates_self : (a : DateVersion) → compare_dates a a ≡ same
unfolding compare_dates compare_part
compare_dates_self a = ground arith

-- The first parts that differ decide: a lexicographic order on the four parts.
pub data IsLater : DateVersion → DateVersion → Type 0 where
  by_year : {a b : DateVersion} → b.year < a.year → IsLater a b
  by_month : {a b : DateVersion} → a.year ≡ b.year → b.month < a.month → IsLater a b
  by_day : {a b : DateVersion} → a.year ≡ b.year → a.month ≡ b.month → b.day < a.day → IsLater a b
  by_revision :
      {a b : DateVersion}
      → a.year ≡ b.year
      → a.month ≡ b.month
      → a.day ≡ b.day
      → b.revision < a.revision
      → IsLater a b

part-later :
    (a b : ℕ) (r : Compared) → compare_part a b r ≡ later → (b < a) ⊎ ((a ≡ b) × (r ≡ later))
unfolding compare_part
part-later a b r h = elim (Bool-cases (ltb b a)) [
  | inl e ↦ inl (ground (arith, e))
  | inr e ↦ elim (Bool-cases (ltb a b)) [
    | inl k ↦ cc (rw (e, k) at h)
    | inr k ↦ inr (ground (arith, e, k), rw (e, k) at h)
  ]
]

pub compare_dates-IsLater : (a b : DateVersion) → compare_dates a b ≡ later → IsLater a b
unfolding compare_dates
compare_dates-IsLater a b h = elim (part-later a.year b.year _ h) [
  | inl l ↦ by_year l
  | inr (e1, h1) ↦ elim (part-later a.month b.month _ h1) [
    | inl l ↦ by_month e1 l
    | inr (e2, h2) ↦ elim (part-later a.day b.day _ h2) [
      | inl l ↦ by_day e1 e2 l
      | inr (e3, h3) ↦ elim (part-later a.revision b.revision _ h3) [
        | inl l ↦ by_revision e1 e2 e3 l
        | inr (e4, h4) ↦ cc
      ]
    ]
  ]
]

pub IsLater-trans : (a b c : DateVersion) → IsLater a b → IsLater b c → IsLater a c
IsLater-trans a b c (by_year p) (by_year q) = by_year (omega (arith, p, q))
IsLater-trans a b c (by_year p) (by_month y q) = by_year (omega (arith, p, y))
IsLater-trans a b c (by_year p) (by_day y m q) = by_year (omega (arith, p, y))
IsLater-trans a b c (by_year p) (by_revision y m d q) = by_year (omega (arith, p, y))
IsLater-trans a b c (by_month y p) (by_year q) = by_year (omega (arith, q, y))
IsLater-trans a b c (by_month y p) (by_month y' q) = by_month (y ∙ y') (omega (arith, p, q))
IsLater-trans a b c (by_month y p) (by_day y' m' q) = by_month (y ∙ y') (omega (arith, p, m'))
IsLater-trans a b c (by_month y p) (by_revision y' m' d' q) =
    by_month (y ∙ y') (omega (arith, p, m'))
IsLater-trans a b c (by_day y m p) (by_year q) = by_year (omega (arith, q, y))
IsLater-trans a b c (by_day y m p) (by_month y' q) = by_month (y ∙ y') (omega (arith, q, m))
IsLater-trans a b c (by_day y m p) (by_day y' m' q) = by_day (y ∙ y') (m ∙ m') (omega (arith, p, q))
IsLater-trans a b c (by_day y m p) (by_revision y' m' d' q) =
    by_day (y ∙ y') (m ∙ m') (omega (arith, p, d'))
IsLater-trans a b c (by_revision y m d p) (by_year q) = by_year (omega (arith, q, y))
IsLater-trans a b c (by_revision y m d p) (by_month y' q) = by_month (y ∙ y') (omega (arith, q, m))
IsLater-trans a b c (by_revision y m d p) (by_day y' m' q) =
    by_day (y ∙ y') (m ∙ m') (omega (arith, q, d))
IsLater-trans a b c (by_revision y m d p) (by_revision y' m' d' q) =
    by_revision (y ∙ y') (m ∙ m') (d ∙ d') (omega (arith, p, q))

pub IsLater-compare_dates : (a b : DateVersion) → IsLater a b → compare_dates a b ≡ later
unfolding compare_dates compare_part
IsLater-compare_dates a b (by_year l) = ground (arith, l)
IsLater-compare_dates a b (by_month y l) = ground (arith, y, l)
IsLater-compare_dates a b (by_day y m l) = ground (arith, y, m, l)
IsLater-compare_dates a b (by_revision y m d l) = ground (arith, y, m, d, l)

pub IsLater-irreflexive : (a : DateVersion) → ¬ IsLater a a
IsLater-irreflexive a (by_year l) = omega (arith, l)
IsLater-irreflexive a (by_month y l) = omega (arith, l)
IsLater-irreflexive a (by_day y m l) = omega (arith, l)
IsLater-irreflexive a (by_revision y m d l) = omega (arith, l)
