-- ===== src/Updates/Reading/RoundTrip.antt =====
-- A feed that is built is read back with the assets that it was built with: to normalise an asset twice
-- is to normalise it once.
use gpao_t.Prelude.{
  ℕ, String, false, ◌≡◌, refl, Option, none, some, List, [], ◌∷◌, map, trim, trim-trim, Bool-cases,
  inl, inr, ◌==◌, ◌>>=◌, ltb, ap, Option-cases, All,
}
use gpao_t.Updates.{
  Url, RawAsset, Asset, trimmed, sha256_of, is_sha256, safe_bytes, normalized_url, normalized_asset,
  present, href_of, is_web,
}
use gpao_t.Updates.Reading.{raw_of, build_feed, verify_feed}

-- What a normalised optional text is: none or a text that normalising keeps.
abbrev Fixed {ℓ} : {A : Type ℓ} → (A → Option A) → Option A → Type ℓ
Fixed f none = Unit
Fixed f (some a) = f a ≡ some a

trimmed-Fixed : (o : Option String) → Fixed (λ t. trimmed (some t)) (trimmed o)
unfolding trimmed
trimmed-Fixed none = tt
trimmed-Fixed (some s) = elim (Bool-cases (trim s == "")) [
  | inl e ↦ rw e tt
  | inr e ↦ rw e (rw (trim-trim s, e) refl)
]

sha256_of-Fixed : (o : Option String) → Fixed (λ t. sha256_of (some t)) (sha256_of o)
unfolding sha256_of
sha256_of-Fixed none = tt
sha256_of-Fixed (some s) = elim (Bool-cases (is_sha256 (trim s))) [
  | inl e ↦ rw e (rw (trim-trim s, e) refl)
  | inr e ↦ rw e tt
]

trimmed-trimmed : (o : Option String) → trimmed (trimmed o) ≡ trimmed o
unfolding trimmed
trimmed-trimmed o = again (trimmed o) (trimmed-Fixed o)
  where
    again : (p : Option String) → Fixed (λ t. trimmed (some t)) p → trimmed p ≡ p
    again none h = refl
    again (some t) h = h

safe_bytes-safe_bytes : (o : Option ℕ) → safe_bytes (safe_bytes o) ≡ safe_bytes o
safe_bytes-safe_bytes none = refl
safe_bytes-safe_bytes (some n) = elim (Bool-cases (ltb n 9007199254740992)) [
  | inl e ↦ rw e (rw e refl)
  | inr e ↦ rw e refl
]

-- What the URL standard says of a URL's text: it is not empty, has no white space around it, and is
-- parsed as that URL again.
abbrev pub IsCanonical : (String → Option Url) → Type 0
IsCanonical parse_url =
    (s : String) (url : Url)
    → parse_url s ≡ some url
    → (trim url.href ≡ url.href) × ((url.href == "") ≡ false) × (parse_url url.href ≡ some url)

module _ (parse_url : String → Option Url) (canonical : IsCanonical parse_url) where
  href_of-Fixed :
      (s : String) (p : Option Url)
      → parse_url s ≡ p
      → Fixed (λ t. normalized_url parse_url (some t)) (href_of p)
  unfolding normalized_url trimmed
  href_of-Fixed s none h = tt
  href_of-Fixed s (some url) h = elim (Bool-cases (is_web url)) [
    | inl e ↦ let (t, n, p) = canonical s url h in rw e (rw (t, n, p, e) refl)
    | inr e ↦ rw e tt
  ]

  normalized_url-Fixed :
      (o : Option String)
      → Fixed (λ t. normalized_url parse_url (some t)) (normalized_url parse_url o)
  unfolding normalized_url
  normalized_url-Fixed o = elim (Option-cases (trimmed o)) [
    | inl e ↦ rw e tt
    | inr (s, e) ↦ rw e (href_of-Fixed s (parse_url s) refl)
  ]

  IsNormal : Asset → Type 0
  IsNormal a = normalized_asset parse_url (some (raw_of a)) ≡ some a

  Normal : Option Asset → Type 0
  Normal none = Unit
  Normal (some a) = IsNormal a

  built-Normal :
      (url sha256 name kind : Option String) (bytes : Option ℕ) (platform : Option String)
      → Fixed (λ t. normalized_url parse_url (some t)) url
      → Fixed (λ t. sha256_of (some t)) sha256
      → Fixed (λ t. trimmed (some t)) name
      → Fixed (λ t. trimmed (some t)) kind
      → safe_bytes bytes ≡ bytes
      → trimmed platform ≡ platform
      → Normal (do
        u ← url
        s ← sha256
        n ← name
        k ← kind
        some (record {
          kind = k;
          name = n;
          url = u;
          sha256 = s;
          bytes = bytes;
          platform = platform;
        }))
  unfolding normalized_asset Normal IsNormal
  built-Normal none s n k b p hu hs hn hk hb hp = tt
  built-Normal (some u) none n k b p hu hs hn hk hb hp = tt
  built-Normal (some u) (some s) none k b p hu hs hn hk hb hp = tt
  built-Normal (some u) (some s) (some n) none b p hu hs hn hk hb hp = tt
  built-Normal (some u) (some s) (some n) (some k) b p hu hs hn hk hb hp =
      rw (hu, hs, hn, hk, hb, hp) refl

  normalized_asset-Normal : (raw : Option RawAsset) → Normal (normalized_asset parse_url raw)
  unfolding normalized_asset Normal
  normalized_asset-Normal none = tt
  normalized_asset-Normal (some raw) =
      built-Normal _ _ _ _ _ _ (normalized_url-Fixed raw.url) (sha256_of-Fixed raw.sha256)
        (trimmed-Fixed raw.name) (trimmed-Fixed raw.kind) (safe_bytes-safe_bytes raw.bytes)
        (trimmed-trimmed raw.platform)

  present-push :
      (o : Option Asset) (rest : List (Option Asset))
      → Normal o
      → All IsNormal (present rest)
      → All IsNormal (present (o ∷ rest))
  unfolding Normal
  present-push none rest h k = k
  present-push (some a) rest h k = (h, k)

  present-Normal :
      (raws : List (Option RawAsset))
      → All IsNormal (present (map (normalized_asset parse_url) raws))
  present-Normal [] = tt
  present-Normal (raw ∷ raws) =
      present-push (normalized_asset parse_url raw) _ (normalized_asset-Normal raw)
        (present-Normal raws)

  present-raw_of :
      (assets : List Asset)
      → All IsNormal assets
      → present (map (normalized_asset parse_url) (map (λ a. some (raw_of a)) assets)) ≡ assets
  unfolding IsNormal
  present-raw_of [] h = refl
  present-raw_of (a ∷ assets) (h, hs) = rw h (ap (λ rest. a ∷ rest) (present-raw_of assets hs))

  -- With a URL parser that reads the text of a URL as that URL, a feed that is built of any assets is
  -- verified with exactly the assets that the building kept.
  pub verify_feed-build_feed :
      (round : ℕ → ℕ) (version : String) (page : Option String) (raws : List (Option RawAsset))
      → (verify_feed parse_url round (some (build_feed parse_url version page raws))).assets
        ≡ present (map (normalized_asset parse_url) raws)
  unfolding verify_feed build_feed
  verify_feed-build_feed round version page raws =
      present-raw_of (present (map (normalized_asset parse_url) raws)) (present-Normal raws)
