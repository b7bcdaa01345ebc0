-- ===== src/Podman/New/Accepted.antt =====
-- What `ConfigFromMap` of internal/podman/config.go accepts, and that `NewWithConfig` of
-- internal/podman/podman.go accepts it too.
use whaleshell_driver.Base.{
  ok-inj, Str, codes, ◌==◌, ==_iff, trim_space, lower, equal_fold, is_nil, ltb_ℤ, Bool, true, false,
  not, ◌&&◌, ◌||◌, List, [], if◌then◌else◌, none, some, Result, ok, ◌>>◌, >>=-eq-ok, reject_if,
  reject_if-eq-ok, pos, ◌≡◌, refl, sym, Bool-cases, inl, inr, arith, subst,
}
use whaleshell_driver.Config.{Value, Machine, ConfigError, normalize_image_pull_policy}
use whaleshell_driver.Podman.Config.{
  Config, canonical, is_private, is_bad_ip, is_out_of_range, check_files, check_config,
  config_from_map, decode, initial,
}
use whaleshell_driver.Podman.New.{checked, check_maps, is_bad_socket, is_bad_ssh_socket}
use whaleshell_driver.Podman.Userns.{canonical_userns_mode}
use whaleshell_driver.Podman.Userns.Modes.{
  IsCanonical, canonical_userns_mode-IsCanonical, IsCanonical-canonical,
}

-- The values of a pull policy.
pub data IsPolicy (s : Str) : Type 0 where
  unset : s ≡ [] → IsPolicy s
  missing : s ≡ codes "missing" → IsPolicy s
  always : s ≡ codes "always" → IsPolicy s
  never : s ≡ codes "never" → IsPolicy s
  newer : s ≡ codes "newer" → IsPolicy s

-- The checks of ConfigFromMap, as they are passed.
pub record Passes (m : Machine) (c : Config) : Type 0 where
  pub address : is_bad_ip m c.host_gateway_ip ≡ false
  pub files : check_files m c ≡ ok tt
  pub in_range : is_out_of_range c ≡ false
  pub policy : IsPolicy c.image_pull_policy
  pub mode : IsCanonical c.userns_mode
  pub with_maps : (is_private c.userns_mode && (is_nil c.uid_map || is_nil c.gid_map)) ≡ false
  pub without_maps :
      (not (is_private c.userns_mode) && (not (is_nil c.uid_map) || not (is_nil c.gid_map))) ≡ false

str-inj : {a b : Str} → ◌≡◌ {A = Result ConfigError Str} (ok a) (ok b) → a ≡ b
str-inj h = cc

one-of-three :
    (p : Str)
    → (p == codes "always" || (p == codes "never" || p == codes "newer")) ≡ true
    → IsPolicy p
one-of-three p h = elim (Bool-cases (p == codes "always")) [
  | inl yes_ ↦ IsPolicy.always ((==_iff p _).0 yes_)
  | inr no_ ↦
      (let h1 = rw no_ at h in
        elim (Bool-cases (p == codes "never")) [
          | inl yes_ ↦ IsPolicy.never ((==_iff p _).0 yes_)
          | inr other ↦ IsPolicy.newer ((==_iff p _).0 (rw other at h1))
        ])
]

normalize-IsPolicy : (s : Str) {p : Str} → normalize_image_pull_policy s ≡ ok p → IsPolicy p
unfolding normalize_image_pull_policy
normalize-IsPolicy s h =
    let policy = lower (trim_space s) in
    elim (Bool-cases (is_nil policy)) [
      | inl empty ↦ IsPolicy.unset (sym (str-inj (rw empty at h)))
      | inr filled ↦
          (let h1 = rw filled at h in
            elim (Bool-cases (
              policy == codes "missing"
              || (policy == codes "ifnotpresent"
                  || (policy == codes "if-not-present" || policy == codes "if_not_present")))) [
                    | inl alias ↦ IsPolicy.missing (sym (str-inj (rw alias at h1)))
                    | inr other ↦
                        (let h2 = rw other at h1 in
                          elim (Bool-cases (
                            policy == codes "always"
                            || (policy == codes "never" || policy == codes "newer"))) [
                              | inl listed ↦
                                  subst IsPolicy (str-inj (rw listed at h2))
                                    (one-of-three policy listed)
                              | inr unknown ↦ (let h3 = rw unknown at h2 in cc h3)
                            ])
                  ])
    ]

IsPolicy-normalize : {p : Str} → IsPolicy p → normalize_image_pull_policy p ≡ ok p
unfolding normalize_image_pull_policy
IsPolicy-normalize (IsPolicy.unset e) = rw e refl
IsPolicy-normalize (IsPolicy.missing e) = rw e refl
IsPolicy-normalize (IsPolicy.always e) = rw e refl
IsPolicy-normalize (IsPolicy.never e) = rw e refl
IsPolicy-normalize (IsPolicy.newer e) = rw e refl

canonical-ok : (s : Str) {mode : Str} → canonical s ≡ ok mode → canonical_userns_mode s ≡ ok mode
canonical-ok s h = ground arith

check_config-Passes :
    (m : Machine) (given : Config) {c : Config} → check_config m given ≡ ok c → Passes m c
unfolding check_config check_files
check_config-Passes m g h =
    let (_, a, h1) =
      >>=-eq-ok (reject_if (is_bad_ip m g.host_gateway_ip) ConfigError.host_gateway_ip) _ h in
    let (_, b, h2) = >>=-eq-ok (check_files m g) _ h1 in
    let (_, r, h3) = >>=-eq-ok (reject_if (is_out_of_range g) ConfigError.out_of_range) _ h2 in
    let (policy, n, h4) = >>=-eq-ok (normalize_image_pull_policy g.image_pull_policy) _ h3 in
    let (mode, u, h5) = >>=-eq-ok (canonical g.userns_mode) _ h4 in
    let (_, w, h6) =
      >>=-eq-ok
        (reject_if (is_private mode && (is_nil g.uid_map || is_nil g.gid_map))
          ConfigError.private_without_maps)
        _ h5 in
    let (_, x, last) =
      >>=-eq-ok
        (reject_if (not (is_private mode) && (not (is_nil g.uid_map) || not (is_nil g.gid_map)))
          ConfigError.maps_without_private)
        _ h6 in
    subst (Passes m) (ok-inj last) (record {
      address = reject_if-eq-ok _ _ a;
      files = b;
      in_range = reject_if-eq-ok _ _ r;
      policy = normalize-IsPolicy g.image_pull_policy n;
      mode = canonical_userns_mode-IsCanonical g.userns_mode (canonical-ok g.userns_mode u);
      with_maps = reject_if-eq-ok _ _ w;
      without_maps = reject_if-eq-ok _ _ x;
    })

pub config_from_map-Passes :
    (m : Machine) (values : List (Str × Value)) {c : Config}
    → config_from_map m values ≡ ok c
    → Passes m c
unfolding config_from_map
config_from_map-Passes m values h =
    let (given, read, rest) = >>=-eq-ok (decode m values initial) (check_config m) h in
    check_config-Passes m given rest

-- A canonical mode that is read as private is that word.
pub private-eq : {mode : Str} → IsCanonical mode → is_private mode ≡ true → mode ≡ codes "private"
unfolding equal_fold
private-eq (IsCanonical.unset e) h = (let h' = rw e at h in cc h')
private-eq (IsCanonical.auto none filled e) h = (let h' = rw e at h in cc h')
private-eq (IsCanonical.auto (some s) filled e) h = (let h' = rw e at h in cc h')
private-eq (IsCanonical.keep_id none filled e) h = (let h' = rw e at h in cc h')
private-eq (IsCanonical.keep_id (some s) filled e) h = (let h' = rw e at h in cc h')
private-eq (IsCanonical.host e) h = (let h' = rw e at h in cc h')
private-eq (IsCanonical.no_map e) h = (let h' = rw e at h in cc h')
private-eq (IsCanonical.private_mode e) h = e

canonical-of : (mode : Str) → canonical_userns_mode mode ≡ ok mode → canonical mode ≡ ok mode
canonical-of mode h = ground arith

IsCanonical-kept : {mode : Str} → IsCanonical mode → canonical mode ≡ ok mode
IsCanonical-kept k = canonical-of _ (IsCanonical-canonical k)

-- The two checks of the maps, over the tests they make.
maps-pass :
    (named trimmed no_uids no_gids : Bool)
    → (named && (no_uids || no_gids)) ≡ false
    → (not named && (not no_uids || not no_gids)) ≡ false
    → (named ≡ true → trimmed ≡ true)
    → (reject_if (named && (no_uids || no_gids)) ConfigError.private_without_maps
        >> (if not no_uids || not no_gids
            then (reject_if (not trimmed) ConfigError.maps_without_private
                >> reject_if (no_uids || no_gids) ConfigError.private_without_maps)
            else ok tt))
      ≡ ok tt
maps-pass true true u g h k t = ground arith
maps-pass true false u g h k t = cc (t refl)
maps-pass false trimmed true true h k t = refl
maps-pass false trimmed true false h k t = cc
maps-pass false trimmed false g h k t = cc

trimmed_private :
    {mode : Str} → IsCanonical mode → is_private mode ≡ true → is_private (trim_space mode) ≡ true
unfolding trim_space equal_fold
trimmed_private k h = rw (private-eq k h) refl

check_maps-ok : (m : Machine) (c : Config) → Passes m c → check_maps c ≡ ok tt
unfolding check_maps
check_maps-ok m c k =
    maps-pass (is_private c.userns_mode) (is_private (trim_space c.userns_mode)) (is_nil c.uid_map)
      (is_nil c.gid_map) k.with_maps k.without_maps (trimmed_private k.mode)

limits-of :
    (c : Config)
    → is_out_of_range c ≡ false
    → (ltb_ℤ c.stop_timeout_secs (pos 0) || ltb_ℤ c.pids_limit (pos 0)) ≡ false
limits-of c h = first-two (ltb_ℤ c.stop_timeout_secs (pos 0)) (ltb_ℤ c.pids_limit (pos 0)) _ h
  where
    first-two : (a b rest : Bool) → (a || (b || rest)) ≡ false → (a || b) ≡ false
    first-two true b rest h = h
    first-two false true rest h = h
    first-two false false rest h = refl

-- A configuration that ConfigFromMap accepts, and whose two socket paths are empty or usable, passes
-- every check of NewWithConfig, which leaves it as it is.
pub config_from_map-checked :
    (m : Machine) (values : List (Str × Value)) {c : Config}
    → config_from_map m values ≡ ok c
    → is_bad_socket c.socket_path ≡ false
    → is_bad_ssh_socket c.sandbox_ssh_socket_path ≡ false
    → checked m c ≡ ok c
unfolding checked
config_from_map-checked m values {c} h socket ssh =
    let k = config_from_map-Passes m values h in
    let limits : (ltb_ℤ c.stop_timeout_secs (pos 0) || ltb_ℤ c.pids_limit (pos 0)) ≡ false =
      limits-of c k.in_range in
    rw (
      IsCanonical-kept k.mode,
      check_maps-ok m c k,
      k.files,
      k.address,
      socket,
      ssh,
      limits,
      IsPolicy-normalize k.policy,
    )
