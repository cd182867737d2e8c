-- ===== src/Updates.antt =====
-- src/core/update-boundary.js: what a release feed must hold, and the decision to offer an update. The
-- platform's `new URL` is the argument `parse_url`.
pub mod Version
pub mod Reading
mod Tests
use Prim.Native.Char.{code}
use Prim.Native.String
use Prim.Native.String.{String}
use gpao_t.Prelude.{
  ℕ, Bool, true, false, not, ◌&&◌, ◌||◌, Option, none, some, List, [], ◌∷◌, map, ◌==◌,
  if◌then◌else◌, filter, any, is_text, or_text, trim, is_digit, code_in, ltb, collect, is_empty,
  Outcome, returned, threw, eq_nat, head?, ◌>>=◌, non_empty, append, is_none,
}
use gpao_t.Updates.Version.{
  parse_date_version, DateVersion, Compared, later, earlier, same, compare_versions,
}

-- `GPAO_T_RELEASE_VERSION`, `GPAO_T_UPDATE_FEED_SCHEMA` and the contract's product id.
abbrev pub release_version : String
release_version = "2026.07.15-r3"

abbrev pub feed_schema : String
feed_schema = "gpao_t.github_update_feed.v1"

abbrev pub product_id : String
product_id = "gpao-t"

-- The `protocol` and the `toString()` of a URL object.
pub record Url : Type 0 where
  pub protocol : String
  pub href : String

-- An asset of a feed as it is read: a field of another type than text is `none`, and so are `bytes` that
-- are no whole number or a negative one.
pub record RawAsset : Type 0 where
  pub kind : Option String
  pub name : Option String
  pub url : Option String
  pub sha256 : Option String
  pub bytes : Option ℕ
  pub platform : Option String

pub record Asset : Type 0 where
  pub kind : String
  pub name : String
  pub url : String
  pub sha256 : String
  pub bytes : Option ℕ
  pub platform : Option String

-- A feed that is an object. `version` is `String(feed.version || "")`; `assets` is empty where the field is
-- no array, and an asset that is no object is `none`.
pub record Feed : Type 0 where
  pub schema : Option String
  pub product_id : Option String
  pub version : String
  pub release_page_url : Option String
  pub assets : List (Option RawAsset)

-- `typeof value === "string" && value.trim() ? value.trim() : null`
unfoldable pub trimmed : Option String → Option String
trimmed none = none
trimmed (some s) = let t = trim s in if t == "" then none else some t

-- `/^[a-f0-9]{64}$/u`
abbrev pub is_hex : ℕ → Bool
is_hex c = code_in 97 102 c || is_digit c

abbrev pub all_hex : String → Bool
all_hex String.[] = true
all_hex (String.◌∷◌ c s) = is_hex (code c) && all_hex s

unfoldable pub is_sha256 : String → Bool
is_sha256 s = all_hex s && eq_nat (String.count s) 64

unfoldable pub sha256_of : Option String → Option String
unfolding is_sha256
sha256_of none = none
sha256_of (some s) = let t = trim s in if is_sha256 t then some t else none

-- `Number.isSafeInteger(bytes) && bytes >= 0 ? bytes : null`
abbrev pub safe_bytes : Option ℕ → Option ℕ
safe_bytes none = none
safe_bytes (some n) = if ltb n 9007199254740992 then some n else none

-- The `filter(Boolean)` of a list of objects and nulls.
abbrev pub present {ℓ} : {A : Type ℓ} → List (Option A) → List A
present [] = []
present (none ∷ xs) = present xs
present (some x ∷ xs) = x ∷ present xs

abbrev pub is_web : Url → Bool
is_web url = url.protocol == "https:" || url.protocol == "http:"

abbrev pub href_of : Option Url → Option String
href_of none = none
href_of (some url) = if is_web url then some url.href else none

-- `verification.findings[0] || "invalid_update_feed"`
abbrev pub first_finding : List String → String
first_finding [] = "invalid_update_feed"
first_finding (finding ∷ findings) = or_text finding "invalid_update_feed"

pub data CandidateStatus : Type 0 where
  invalid_feed current update_available : CandidateStatus

-- An answer of `selectGpaoTUpdateCandidate`; a field that a branch leaves out is `none` or empty.
pub record Candidate : Type 0 where
  pub status : CandidateStatus
  pub update_offered : Bool
  pub reason : Option String
  pub latest_version : Option String
  pub release_page_url : Option String
  pub assets : List Asset

pub record Verification : Type 0 where
  pub ok : Bool
  pub findings : List String
  pub assets : List Asset

pub record Boundary : Type 0 where
  pub current_version : String
  pub enabled : Bool
  pub feed_url : Option String
  pub compatibility_updater_allowed : Bool
  pub reason : String

module _ (parse_url : String → Option Url) where
  -- `normalizedUrl`
  unfoldable pub normalized_url : Option String → Option String
  unfolding trimmed
  normalized_url value = trimmed value >>= λ text. href_of (parse_url text)

  -- `normalizedAsset`
  unfoldable pub normalized_asset : Option RawAsset → Option Asset
  unfolding normalized_url sha256_of trimmed
  normalized_asset none = none
  normalized_asset (some raw) = do
    url ← normalized_url raw.url
    sha256 ← sha256_of raw.sha256
    name ← trimmed raw.name
    kind ← trimmed raw.kind
    some (record {
      kind = kind;
      name = name;
      url = url;
      sha256 = sha256;
      bytes = safe_bytes raw.bytes;
      platform = trimmed raw.platform;
    })

  -- `resolveGpaoTUpdateBoundary`, of the two variables of the environment; an unset one is empty.
  unfoldable pub resolve_boundary : (feed_var github_feed_var : String) → Boundary
  unfolding normalized_url
  resolve_boundary feed_var github_feed_var =
      let feed_url = normalized_url (some (or_text feed_var github_feed_var)) in
      record {
        current_version = release_version;
        enabled = not (is_none feed_url);
        feed_url = feed_url;
        compatibility_updater_allowed = false;
        reason =
            if is_none feed_url
            then "gpao_t_update_feed_not_configured"
            else "gpao_t_github_update_feed_configured";
      }

  -- `assertCompatibilityUpdaterDisabled`
  unfoldable pub assert_updater_disabled : (feed_var github_feed_var : String) → Outcome Bool
  unfolding resolve_boundary
  assert_updater_disabled feed_var github_feed_var =
      if (resolve_boundary feed_var github_feed_var).compatibility_updater_allowed
      then threw "GPAO-T compatibility updater must remain disabled"
      else returned true
