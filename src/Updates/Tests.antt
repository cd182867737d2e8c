-- ===== src/Updates/Tests.antt =====
-- Release feeds at concrete values: one that is newer than the release, one that is newer still.
use gpao_t.Prelude.{
  ℕ, String, false, ◌≡◌, refl, Option, none, some, List, [], ◌∷◌, ◌==◌, if◌then◌else◌, trim,
  Bool-cases, inl, inr, subst, returned, map,
}
use gpao_t.Updates.{Url, RawAsset, Feed, release_version, normalized_asset, present}
use gpao_t.Updates.Version.{compare_versions, parse_date_version, later}
use gpao_t.Updates.Reading.{build_feed, verify_feed, select_candidate, version_of}
use gpao_t.Updates.Reading.Decision.{Decided, select_candidate-Decided}
use gpao_t.Updates.Reading.Chain.{IsOffered, select_candidate_trans}
use gpao_t.Updates.Reading.RoundTrip.{IsCanonical, verify_feed-build_feed}

abbrev page : Url
page = record { protocol = "https:"; href = "https://example.org/a" }

-- A parser that knows one address.
abbrev parse_one : String → Option Url
parse_one s = if s == "https://example.org/a" then some page else none

abbrev exact : ℕ → ℕ
exact n = n

abbrev asset : String → Option RawAsset
asset kind = some (record {
  kind = some kind;
  name = some " GPAO-T ";
  url = some "https://example.org/a ";
  sha256 = some "00000000000000000000000000000000000000000000000000000000000000ff";
  bytes = some 12;
  platform = none;
})

abbrev assets : List (Option RawAsset)
assets = asset "macos_installer" ∷ none ∷ asset "production_distribution" ∷ []

abbrev next : Option Feed
next = some (build_feed parse_one "2026.08.01-r1" none assets)

abbrev last : Option Feed
last = some (build_feed parse_one "2026.08.01-r10" none assets)

-- What the parser's one URL is kept by.
abbrev Kept : Option Url → Type 0
Kept none = Unit
Kept (some u) = (trim u.href ≡ u.href) × ((u.href == "") ≡ false) × (parse_one u.href ≡ some u)

page-Kept : Kept (some page)
unfolding trim
page-Kept = (refl, refl, refl)

parse_one-IsCanonical : IsCanonical parse_one
parse_one-IsCanonical s url h = elim (Bool-cases (s == "https://example.org/a")) [
  | inl e ↦ subst Kept (rw e at h) page-Kept
  | inr e ↦ cc (rw e at h)
]

compared : compare_versions exact "2026.08.01-r10" "2026.08.01-r9" ≡ returned later
unfolding compare_versions
compared = refl

select_candidate-Decided_example :
    Decided parse_one exact next release_version
      (select_candidate parse_one exact next release_version)
select_candidate-Decided_example = select_candidate-Decided parse_one exact next release_version

next-IsOffered : IsOffered (select_candidate parse_one exact next release_version)
unfolding select_candidate build_feed parse_date_version normalized_asset trim compare_versions
next-IsOffered = refl

last-IsOffered : IsOffered (select_candidate parse_one exact last (version_of next))
unfolding select_candidate build_feed parse_date_version normalized_asset trim compare_versions
last-IsOffered = refl

select_candidate_trans_example : IsOffered (select_candidate parse_one exact last release_version)
select_candidate_trans_example =
    select_candidate_trans parse_one exact next last release_version next-IsOffered last-IsOffered

verify_feed-build_feed_example :
    (verify_feed parse_one exact next).assets ≡ present (map (normalized_asset parse_one) assets)
verify_feed-build_feed_example =
    verify_feed-build_feed parse_one parse_one-IsCanonical exact "2026.08.01-r1" none assets
