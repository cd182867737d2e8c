-- ===== src/Updates/Reading.antt =====
-- src/core/update-boundary.js: `verifyGpaoTUpdateFeed`, `selectGpaoTUpdateCandidate`,
-- `buildGpaoTUpdateFeed` and `gpaoTUpdateStatus`.
pub mod Decision
pub mod Chain
pub mod RoundTrip
use gpao_t.Prelude.{
  is_none, ℕ, String, Bool, true, false, not, Option, none, some, List, [], ◌∷◌, map, ◌==◌,
  if◌then◌else◌, any, is_text, collect, is_empty, Outcome, returned, threw, ◌>>=◌, or_option,
  truthy,
}
use gpao_t.Updates.{
  feed_schema, product_id, Url, RawAsset, Asset, Feed, Verification, CandidateStatus, invalid_feed,
  current, update_available, Candidate, Boundary, present, first_finding, normalized_url,
  normalized_asset, resolve_boundary,
}
use gpao_t.Updates.Version.{parse_date_version, Compared, later, earlier, same, compare_versions}

abbrev pub schema_of : Option Feed → Option String
schema_of none = none
schema_of (some feed) = feed.schema

abbrev pub product_of : Option Feed → Option String
product_of none = none
product_of (some feed) = feed.product_id

abbrev pub version_of : Option Feed → String
version_of none = ""
version_of (some feed) = feed.version

abbrev pub assets_of : Option Feed → List (Option RawAsset)
assets_of none = []
assets_of (some feed) = feed.assets

abbrev pub has_kind : String → List Asset → Bool
has_kind kind assets = any (λ asset. asset.kind == kind) assets

-- `{ ...boundary, status, updateAvailable, latestVersion, assets, reason }`; the two texts "configured_ready" and
-- "disabled" are the statuses of a boundary for which no feed was read.
pub data Status : Type 0 where
  configured_ready disabled : Status
  candidate : CandidateStatus → Status

pub record UpdateStatus : Type 0 where
  pub boundary : Boundary
  pub status : Status
  pub update_offered : Option Bool
  pub latest_version : Option String
  pub assets : List Asset
  pub reason : String

-- The two arguments: `new URL`, and the rounding of a number to a double.
module _ (parse_url : String → Option Url) (round : ℕ → ℕ) where
  unfoldable pub feed_checks : Option Feed → List Asset → List (Bool × String)
  feed_checks feed assets =
      (is_none feed, "feed_not_object")
      ∷ (not (is_text (schema_of feed) feed_schema), "schema_mismatch")
      ∷ (not (is_text (product_of feed) product_id), "product_id_mismatch")
      ∷ (is_none (parse_date_version round (version_of feed)), "version_not_date_release")
      ∷ (is_empty assets, "missing_assets")
      ∷ (not (has_kind "macos_installer" assets), "missing_macos_installer_asset")
      ∷ (not (has_kind "production_distribution" assets), "missing_distribution_asset")
      ∷ []

  -- `verifyGpaoTUpdateFeed`
  unfoldable pub verify_feed : Option Feed → Verification
  unfolding feed_checks
  verify_feed feed =
      let assets = present (map (normalized_asset parse_url) (assets_of feed)) in
      let findings = collect (feed_checks feed assets) in
      record { ok = is_empty findings; findings = findings; assets = assets }

  abbrev page_of : Option Feed → Option String
  page_of none = none
  page_of (some feed) = normalized_url parse_url feed.release_page_url

  -- The answers after a comparison, which may have thrown.
  unfoldable pub offer : Option Feed → Verification → Outcome Compared → Outcome Candidate
  offer feed v (threw message) = threw message
  offer feed v (returned later) = returned (record {
    status = update_available;
    update_offered = true;
    reason = none;
    latest_version = some (version_of feed);
    release_page_url = page_of feed;
    assets = v.assets;
  })
  offer feed v (returned _) = returned (record {
    status = current;
    update_offered = false;
    reason = none;
    latest_version = some (version_of feed);
    release_page_url = none;
    assets = [];
  })

  unfoldable pub select_verified :
      Option Feed → Verification → (current_version : String) → Outcome Candidate
  unfolding offer
  select_verified feed v current_version =
      if not v.ok
      then returned (record {
        status = invalid_feed;
        update_offered = false;
        reason = some (first_finding v.findings);
        latest_version = none;
        release_page_url = none;
        assets = [];
      })
      else offer feed v (compare_versions round (version_of feed) current_version)

  -- `selectGpaoTUpdateCandidate`
  unfoldable pub select_candidate : Option Feed → (current_version : String) → Outcome Candidate
  unfolding verify_feed select_verified
  select_candidate feed current_version = select_verified feed (verify_feed feed) current_version

  abbrev pub no_feed_status : Boundary → UpdateStatus
  no_feed_status b = record {
    boundary = b;
    status = if b.enabled then configured_ready else disabled;
    update_offered = none;
    latest_version = none;
    assets = [];
    reason = b.reason;
  }

  abbrev pub text_or : Option String → String → String
  text_or none d = d
  text_or (some s) d = if truthy s then s else d

  unfoldable pub with_candidate : Boundary → Outcome Candidate → Outcome UpdateStatus
  with_candidate b (threw message) = threw message
  with_candidate b (returned c) = returned (record {
    boundary = b;
    status = candidate c.status;
    update_offered = some c.update_offered;
    latest_version = c.latest_version;
    assets = c.assets;
    reason = text_or c.reason b.reason;
  })

  -- `gpaoTUpdateStatus`; a feed is absent (`none`), no object, or an object.
  unfoldable pub update_status :
      (feed_var github_feed_var : String) → Option (Option Feed) → Outcome UpdateStatus
  unfolding with_candidate select_candidate resolve_boundary
  update_status feed_var github_feed_var none =
      returned (no_feed_status (resolve_boundary parse_url feed_var github_feed_var))
  update_status feed_var github_feed_var (some feed) =
      let b = resolve_boundary parse_url feed_var github_feed_var in
      with_candidate b (select_candidate feed b.current_version)

abbrev pub raw_of : Asset → RawAsset
raw_of a = record {
  kind = some a.kind;
  name = some a.name;
  url = some a.url;
  sha256 = some a.sha256;
  bytes = a.bytes;
  platform = a.platform;
}

-- `buildGpaoTUpdateFeed`, as the feed that is read back; an empty page address is none.
unfoldable pub build_feed :
    (parse_url : String → Option Url)
    → (version : String) → (release_page_url : Option String) → List (Option RawAsset)
    → Feed
build_feed parse_url version release_page_url assets = record {
  schema = some feed_schema;
  product_id = some product_id;
  version = version;
  release_page_url = normalized_url parse_url release_page_url;
  assets = map (λ a. some (raw_of a)) (present (map (normalized_asset parse_url) assets));
}
