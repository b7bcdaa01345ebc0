-- ===== src/Podman/New/Proxy.antt =====
-- The upstream proxy that `ConfigFromMap` of internal/podman/config.go accepts.
use whaleshell_driver.Base.{
  Str, codes, ◌==◌, ==_iff, is_nil, Bool, true, false, not, ◌&&◌, ◌||◌, [], ◌∷◌, Option, none, some,
  ok, >>=-eq-ok, reject_if, reject_if-eq-ok, ◌≡◌, ◌≢◌, ◌⊎◌, Bool-cases, inl, inr, arith,
  if◌then◌else◌,
}
use whaleshell_driver.Config.{
  Machine, ConfigError, Upstream, ProxyUrl, is_unclean, validate_proxy_config, check_auth_file,
  check_ca_bundle, read_or, is_secure, is_bad_url,
}
use whaleshell_driver.Podman.New.Files.{
  IsCleanPath, IsFileOf, unclean-IsCleanPath, read_or-ok, good-true, is_nil-eq, or-false,
}

-- No proxy and nothing that is for one.
abbrev pub NoProxy : Upstream → Type 0
NoProxy p =
    (p.url ≡ [])
    × (p.no_proxy ≡ [])
    × (p.auth_file ≡ [])
    × (p.ca_bundle ≡ [])
    × (p.insecure_given ≡ false)
    × (p.connect_given ≡ false)

abbrev pub IsProxyUrl : Option ProxyUrl → Type 0
IsProxyUrl none = ⊥
IsProxyUrl (some u) =
    (u.hostname ≢ [])
    × (u.port ≢ [])
    × (u.has_user ≡ false)
    × ((u.scheme ≡ codes "http") ⊎ (u.scheme ≡ codes "https"))

-- A proxy at an HTTP or HTTPS address without a user, whose files are usable, and whose credentials
-- are sent over HTTPS only, unless the switch allows it.
abbrev pub ViaProxy : Machine → Upstream → Type 0
ViaProxy m p =
    IsProxyUrl (m.parse_url p.url)
    × ((p.auth_file ≡ [])
        ⊎ (IsCleanPath p.auth_file × ((is_secure (m.parse_url p.url) || p.insecure) ≡ true)))
    × ((p.ca_bundle ≡ []) ⊎ IsFileOf m m.has_certificates p.ca_bundle)

pub not_nil : (s : Str) → is_nil s ≡ false → s ≢ []
not_nil [] h e = cc h
not_nil (c ∷ s) h e = cc e

url-IsProxyUrl : (o : Option ProxyUrl) → is_bad_url o ≡ false → IsProxyUrl o
url-IsProxyUrl none h = absurd (cc h)
url-IsProxyUrl (some u) h =
    let (host, h1) = or-false (is_nil u.hostname) _ h in
    let (port, h2) = or-false (is_nil u.port) _ h1 in
    let (user, h3) = or-false u.has_user _ h2 in
    (not_nil u.hostname host, not_nil u.port port, user, scheme (good-true _ h3))
  where
    scheme :
        (u.scheme == codes "http" || u.scheme == codes "https") ≡ true
        → (u.scheme ≡ codes "http") ⊎ (u.scheme ≡ codes "https")
    scheme h = elim (Bool-cases (u.scheme == codes "http")) [
      | inl plain ↦ inl ((==_iff u.scheme _).0 plain)
      | inr other ↦ inr ((==_iff u.scheme _).0 (rw other at h))
    ]

auth_file :
    (m : Machine) (p : Upstream) (secure : Bool)
    → check_auth_file m p secure ≡ ok tt
    → IsCleanPath p.auth_file × (is_nil p.url ≡ false) × ((secure || p.insecure) ≡ true)
unfolding check_auth_file
auth_file m p secure h =
    let (_, a, h1) = >>=-eq-ok (reject_if (is_unclean p.auth_file) ConfigError.auth_path) _ h in
    let (_, b, h2) = >>=-eq-ok (reject_if (is_nil p.url) ConfigError.auth_alone) _ h1 in
    let (_, c, h3) =
      >>=-eq-ok (reject_if (not secure && not p.insecure) ConfigError.auth_insecure) _ h2 in
    let apart = reject_if-eq-ok _ _ c in
    (unclean-IsCleanPath p.auth_file (reject_if-eq-ok _ _ a), reject_if-eq-ok _ _ b, ground arith)

ca_bundle :
    (m : Machine) (p : Upstream)
    → check_ca_bundle m p ≡ ok tt
    → IsFileOf m m.has_certificates p.ca_bundle × (is_nil p.url ≡ false)
unfolding check_ca_bundle
ca_bundle m p h =
    let (_, a, h1) = >>=-eq-ok (reject_if (is_unclean p.ca_bundle) ConfigError.bundle_path) _ h in
    let (_, b, h2) = >>=-eq-ok (reject_if (is_nil p.url) ConfigError.bundle_alone) _ h1 in
    let (body, found, last) =
      >>=-eq-ok (read_or ConfigError.bundle_file (m.host.read_file p.ca_bundle)) _ h2 in
    (
      (
        unclean-IsCleanPath p.ca_bundle (reject_if-eq-ok _ _ a),
        (
          body,
          read_or-ok _ (m.host.read_file p.ca_bundle) found,
          good-true _ (reject_if-eq-ok _ _ last),
        ),
      ),
      reject_if-eq-ok _ _ b,
    )

-- What the switch over the credential file leaves, whichever way it goes.
auth_or_none :
    (m : Machine) (p : Upstream) (secure : Bool)
    → (if is_nil p.auth_file
        then reject_if p.insecure_given ConfigError.insecure_alone
        else check_auth_file m p secure)
      ≡ ok tt
    → ((p.auth_file ≡ []) × (p.insecure_given ≡ false))
      ⊎ (IsCleanPath p.auth_file × (is_nil p.url ≡ false) × ((secure || p.insecure) ≡ true))
auth_or_none m p secure h = elim (Bool-cases (is_nil p.auth_file)) [
  | inl none_ ↦ inl (is_nil-eq p.auth_file none_, reject_if-eq-ok _ _ (rw none_ at h))
  | inr set_ ↦ inr (auth_file m p secure (rw set_ at h))
]

bundle_or_none :
    (m : Machine) (p : Upstream)
    → (if is_nil p.ca_bundle then ok tt else check_ca_bundle m p) ≡ ok tt
    → (p.ca_bundle ≡ []) ⊎ (IsFileOf m m.has_certificates p.ca_bundle × (is_nil p.url ≡ false))
bundle_or_none m p h = elim (Bool-cases (is_nil p.ca_bundle)) [
  | inl none_ ↦ inl (is_nil-eq p.ca_bundle none_)
  | inr set_ ↦ inr (ca_bundle m p (rw set_ at h))
]

module _ (m : Machine) (p : Upstream) where
  Auth : Type 0
  Auth =
      ((p.auth_file ≡ []) × (p.insecure_given ≡ false))
      ⊎ (IsCleanPath p.auth_file
          × (is_nil p.url ≡ false)
          × (((not (is_nil p.url) && is_secure (m.parse_url p.url)) || p.insecure) ≡ true))

  Bundle : Type 0
  Bundle = (p.ca_bundle ≡ []) ⊎ (IsFileOf m m.has_certificates p.ca_bundle × (is_nil p.url ≡ false))

  without_url :
      is_nil p.url ≡ true
      → (not (is_nil p.no_proxy) && is_nil p.url) ≡ false
      → Auth
      → (p.connect_given && is_nil p.url) ≡ false
      → Bundle
      → NoProxy p
  unfolding Auth Bundle
  without_url none_ no_proxy (inl (auth, insecure)) connect (inl bundle) = (
    is_nil-eq p.url none_,
    is_nil-eq p.no_proxy (ground (arith, none_)),
    auth,
    bundle,
    insecure,
    ground (arith, none_),
  )
  without_url none_ no_proxy (inr (path, set_, secure)) connect bundle =
      absurd (cc (rw none_ at set_))
  without_url none_ no_proxy auth connect (inr (file, set_)) = absurd (cc (rw none_ at set_))

  with_url :
      is_nil p.url ≡ false
      → (not (is_nil p.url) && is_bad_url (m.parse_url p.url)) ≡ false
      → Auth
      → Bundle
      → ViaProxy m p
  unfolding Auth Bundle
  with_url set_ good auth bundle =
      (url-IsProxyUrl (m.parse_url p.url) (rw set_ at good), credentials auth, certificates bundle)
    where
      credentials :
          Auth
          → (p.auth_file ≡ [])
            ⊎ (IsCleanPath p.auth_file × ((is_secure (m.parse_url p.url) || p.insecure) ≡ true))
      credentials (inl (none_, _)) = inl none_
      credentials (inr (path, _, secure)) = inr (path, rw set_ at secure)

      certificates : Bundle → (p.ca_bundle ≡ []) ⊎ IsFileOf m m.has_certificates p.ca_bundle
      certificates (inl none_) = inl none_
      certificates (inr (file, _)) = inr file

  pub proxied : validate_proxy_config m p ≡ ok tt → NoProxy p ⊎ ViaProxy m p
  unfolding validate_proxy_config Auth Bundle
  proxied h =
      let (_, a, h1) =
        >>=-eq-ok
          (reject_if (not (is_nil p.url) && is_bad_url (m.parse_url p.url)) ConfigError.proxy_url) _
          h in
      let (_, b, h2) =
        >>=-eq-ok (reject_if (not (is_nil p.no_proxy) && is_nil p.url) ConfigError.no_proxy_alone) _
          h1 in
      let (_, c, h3) =
        >>=-eq-ok
          (if is_nil p.auth_file
            then reject_if p.insecure_given ConfigError.insecure_alone
            else check_auth_file m p (not (is_nil p.url) && is_secure (m.parse_url p.url)))
          _ h2 in
      let (_, e, h4) =
        >>=-eq-ok (reject_if (p.connect_given && is_nil p.url) ConfigError.connect_alone) _ h3 in
      let auth = auth_or_none m p _ c in
      let bundle = bundle_or_none m p h4 in
      elim (Bool-cases (is_nil p.url)) [
        | inl none_ ↦
            inl (without_url none_ (reject_if-eq-ok _ _ b) auth (reject_if-eq-ok _ _ e) bundle)
        | inr set_ ↦ inr (with_url set_ (reject_if-eq-ok _ _ a) auth bundle)
      ]
