-- ===== src/Updates/Reading/Decision.antt =====
-- When an update is offered, and what it then is.
use gpao_t.Prelude.{
  is_none, ℕ, String, true, false, not, ◌≡◌, refl, Option, none, some, [], inl, inr, Outcome,
  returned, threw, clear_of_empty, not-false, Option-cases, ◌≢◌, eq_of_is_text, IsReturned,
  if-holds, false_of_not,
}
use gpao_t.Updates.{
  feed_schema, product_id, Url, Feed, Candidate, update_available, current, invalid_feed,
  release_version, resolve_boundary,
}
use gpao_t.Updates.Version.{
  DateVersion, parse_date_version, Compared, later, earlier, same, compare_versions, compare_parsed,
  compare_dates,
}
use gpao_t.Updates.Version.Order.{IsLater, compare_dates-IsLater}
use gpao_t.Updates.Reading.{
  version_of, schema_of, product_of, has_kind, feed_checks, verify_feed, offer, select_verified,
  select_candidate, update_status, with_candidate,
}

module _ (parse_url : String → Option Url) (round : ℕ → ℕ) where
  -- What the verification of a feed that passes it has shown.
  pub record IsVerified (feed : Option Feed) : Type 0 where
    pub passed : (verify_feed parse_url round feed).ok ≡ true
    pub schema : schema_of feed ≡ some feed_schema
    pub product : product_of feed ≡ some product_id
    pub version : DateVersion
    pub parsed : parse_date_version round (version_of feed) ≡ some version
    pub has_installer : has_kind "macos_installer" (verify_feed parse_url round feed).assets ≡ true
    pub has_distribution :
        has_kind "production_distribution" (verify_feed parse_url round feed).assets ≡ true

  given-some : {A : Type 0} (o : Option A) → is_none o ≡ false → (a : A) × (o ≡ some a)
  given-some none h = cc
  given-some (some a) h = (a, refl)

  pub verify_feed-IsVerified :
      (feed : Option Feed) → (verify_feed parse_url round feed).ok ≡ true → IsVerified feed
  unfolding verify_feed feed_checks
  verify_feed-IsVerified feed h =
      let (_, (s, (p, (v, (_, (i, (d, _))))))) =
        clear_of_empty (feed_checks parse_url round feed (verify_feed parse_url round feed).assets)
          h in
      let (version, parsed) = given-some (parse_date_version round (version_of feed)) v in
      record {
        passed = h;
        schema = eq_of_is_text (schema_of feed) feed_schema s;
        product = eq_of_is_text (product_of feed) product_id p;
        version = version;
        parsed = parsed;
        has_installer = not-false _ i;
        has_distribution = not-false _ d;
      }

  -- The four ways in which a feed is decided against the version in use.
  pub data Decided (feed : Option Feed) (current_version : String)
      : Outcome Candidate → Type 0 where
    refused :
        (c : Candidate)
        → (verify_feed parse_url round feed).ok ≡ false
        → c.status ≡ invalid_feed
        → c.update_offered ≡ false
        → c.assets ≡ []
        → Decided feed current_version (returned c)
    unsupported :
        (message : String)
        → IsVerified feed
        → parse_date_version round current_version ≡ none
        → Decided feed current_version (threw message)
    kept :
        (c : Candidate) (v : IsVerified feed) (used : DateVersion)
        → parse_date_version round current_version ≡ some used
        → compare_dates v.version used ≢ later
        → c.status ≡ current
        → c.update_offered ≡ false
        → c.assets ≡ []
        → Decided feed current_version (returned c)
    offered :
        (c : Candidate) (v : IsVerified feed) (used : DateVersion)
        → parse_date_version round current_version ≡ some used
        → IsLater v.version used
        → c.status ≡ update_available
        → c.update_offered ≡ true
        → c.latest_version ≡ some (version_of feed)
        → c.assets ≡ (verify_feed parse_url round feed).assets
        → Decided feed current_version (returned c)

  compared-Decided :
      (feed : Option Feed) (current_version : String) (v : IsVerified feed) (used : DateVersion)
      → parse_date_version round current_version ≡ some used
      → (r : Compared) → compare_dates v.version used ≡ r
      → Decided feed current_version
          (offer parse_url round feed (verify_feed parse_url round feed) (returned r))
  unfolding offer
  compared-Decided feed current_version v used p later h =
      offered _ v used p (compare_dates-IsLater v.version used h) refl refl refl refl
  compared-Decided feed current_version v used p earlier h =
      kept _ v used p (λ e. cc) refl refl refl
  compared-Decided feed current_version v used p same h = kept _ v used p (λ e. cc) refl refl refl

  verified-Decided :
      (feed : Option Feed) (current_version : String)
      → IsVerified feed
      → Decided feed current_version (
          offer parse_url round feed
            (verify_feed parse_url round feed)
            (compare_versions round (version_of feed) current_version))
  unfolding offer compare_versions compare_parsed
  verified-Decided feed current_version v =
      elim (Option-cases (parse_date_version round current_version)) [
        | inl e ↦ rw (v.parsed, e) (unsupported _ v e)
        | inr (used, e) ↦ rw (v.parsed, e) (compared-Decided feed current_version v used e _ refl)
      ]

  -- A feed is refused without an update and its assets exactly where its verification fails. Where it is
  -- verified, an unsupported version in use makes the selection throw, and an update, with the verified
  -- assets, is offered exactly where the feed's version is later than the one in use.
  pub select_candidate-Decided :
      (feed : Option Feed) (current_version : String)
      → Decided feed current_version (select_candidate parse_url round feed current_version)
  unfolding select_candidate select_verified
  select_candidate-Decided feed current_version =
      if-holds (Decided feed current_version) (not (verify_feed parse_url round feed).ok) _ _
        (λ e. refused _ (false_of_not _ e) refl refl refl)
        (λ e. verified-Decided feed current_version (verify_feed-IsVerified feed (not-false _ e)))

  with_candidate-IsReturned :
      (feed : Option Feed) (feed_var github_feed_var : String) (o : Outcome Candidate)
      → Decided feed release_version o
      → IsReturned
          (with_candidate parse_url round (resolve_boundary parse_url feed_var github_feed_var) o)
  unfolding with_candidate parse_date_version
  with_candidate-IsReturned feed feed_var github_feed_var (returned c) d = tt
  with_candidate-IsReturned feed feed_var github_feed_var (threw message) (unsupported m v e) = cc

  -- The status never throws, whatever feed was read.
  pub update_status-IsReturned :
      (feed_var github_feed_var : String) (feed : Option (Option Feed))
      → IsReturned (update_status parse_url round feed_var github_feed_var feed)
  unfolding update_status
  update_status-IsReturned feed_var github_feed_var none = tt
  update_status-IsReturned feed_var github_feed_var (some feed) =
      with_candidate-IsReturned feed feed_var github_feed_var _
        (select_candidate-Decided feed release_version)
