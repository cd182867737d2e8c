-- ===== src/Updates/Reading/Chain.antt =====
-- Updates one after another: an update that is installed is not offered again, and none leads back.
use gpao_t.Prelude.{
  some_injective, ℕ, String, true, false, ◌≡◌, Option, some, Outcome, returned, threw, sym, ◌∙◌,
  subst,
}
use gpao_t.Updates.{Url, Feed, Candidate}
use gpao_t.Updates.Version.{DateVersion, parse_date_version}
use gpao_t.Updates.Version.Order.{
  IsLater, IsLater-trans, IsLater-compare_dates, IsLater-irreflexive,
}
use gpao_t.Updates.Reading.{version_of, select_candidate}
use gpao_t.Updates.Reading.Decision.{
  IsVerified, Decided, refused, unsupported, kept, offered, select_candidate-Decided,
}

abbrev pub IsSettled : Outcome Candidate → Type 0
IsSettled (returned c) = c.update_offered ≡ false
IsSettled (threw message) = ⊥

abbrev pub IsOffered : Outcome Candidate → Type 0
IsOffered (returned c) = c.update_offered ≡ true
IsOffered (threw message) = ⊥

module _ (parse_url : String → Option Url) (round : ℕ → ℕ) where
  Decided-IsSettled :
      (feed : Option Feed) (o : Outcome Candidate)
      → Decided parse_url round feed (version_of feed) o
      → IsSettled o
  Decided-IsSettled feed (returned c) (refused c' r s u a) = u
  Decided-IsSettled feed (threw message) (unsupported m v e) = cc (v.parsed, e)
  Decided-IsSettled feed (returned c) (kept c' v used p n s u a) = u
  Decided-IsSettled feed (returned c) (offered c' v used p l s u n a) = absurd (
      IsLater-irreflexive used
        (subst (λ d. IsLater d used) (some_injective _ _ (sym v.parsed ∙ p)) l))

  -- Once a feed's version is the one in use, the feed offers no update, and its selection does not throw.
  pub select_candidate-IsSettled :
      (feed : Option Feed) → IsSettled (select_candidate parse_url round feed (version_of feed))
  select_candidate-IsSettled feed =
      Decided-IsSettled feed _ (select_candidate-Decided parse_url round feed (version_of feed))

  -- What an offer shows of the versions.
  record IsNewer (feed : Option Feed) (current_version : String) : Type 0 where
    verified : IsVerified parse_url round feed
    used : DateVersion
    parsed : parse_date_version round current_version ≡ some used
    is_later : IsLater verified.version used

  Decided-IsNewer :
      (feed : Option Feed) (current_version : String) (o : Outcome Candidate)
      → Decided parse_url round feed current_version o
      → IsOffered o
      → IsNewer feed current_version
  Decided-IsNewer feed current_version (returned c) (refused c' r s u a) h = cc
  Decided-IsNewer feed current_version (threw message) (unsupported m v e) h = absurd h
  Decided-IsNewer feed current_version (returned c) (kept c' v used p n s u a) h = cc
  Decided-IsNewer feed current_version (returned c) (offered c' v used p l s u n a) h = record {
    verified = v;
    used = used;
    parsed = p;
    is_later = l;
  }

  IsLater-IsOffered :
      (feed : Option Feed) (current_version : String) (used : DateVersion)
      → parse_date_version round current_version ≡ some used
      → (v : IsVerified parse_url round feed) → IsLater v.version used
      → (o : Outcome Candidate) → Decided parse_url round feed current_version o
      → IsOffered o
  IsLater-IsOffered feed current_version used p v l (returned c) (refused c' r s u a) =
      cc (v.passed, r)
  IsLater-IsOffered feed current_version used p v l (threw message) (unsupported m v' e) = cc (p, e)
  IsLater-IsOffered feed current_version used p v l (returned c) (kept c' v' used' p' n s u a) =
      let same_version : v'.version ≡ v.version = some_injective _ _ (sym v'.parsed ∙ v.parsed) in
      let same_used : used' ≡ used = some_injective _ _ (sym p' ∙ p) in
      absurd (n (rw (same_version, same_used) (IsLater-compare_dates v.version used l)))
  IsLater-IsOffered feed current_version used p v l (returned c) (offered c' v' u' p' l' s u n a) =
      u

  -- Where one feed is offered over a version, and a second over the first feed's version, the second
  -- is also offered over that first version in use.
  pub select_candidate_trans :
      (first second : Option Feed) (current_version : String)
      → IsOffered (select_candidate parse_url round first current_version)
      → IsOffered (select_candidate parse_url round second (version_of first))
      → IsOffered (select_candidate parse_url round second current_version)
  select_candidate_trans first second current_version h k =
      let a =
        Decided-IsNewer first current_version _
          (select_candidate-Decided parse_url round first current_version) h in
      let b =
        Decided-IsNewer second (version_of first) _
          (select_candidate-Decided parse_url round second (version_of first)) k in
      let joined : b.used ≡ a.verified.version =
        some_injective _ _ (sym b.parsed ∙ a.verified.parsed) in
      IsLater-IsOffered second current_version a.used a.parsed b.verified
        (IsLater-trans b.verified.version a.verified.version a.used
          (subst (λ d. IsLater b.verified.version d) joined b.is_later) a.is_later)
        _ (select_candidate-Decided parse_url round second current_version)
