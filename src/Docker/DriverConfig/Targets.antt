-- ===== src/Docker/DriverConfig/Targets.antt =====
-- The mounts that `parseDockerSandboxDriverConfig` of internal/docker/driver_config.go lets through.
use whaleshell_driver.Base.{
  ok-inj, Str, codes, ◌==◌, ==_iff, is_nil, split, any, Bool, true, false, not, ◌&&◌, ◌||◌, List,
  [], ◌∷◌, if◌then◌else◌, Option, none, some, pos, Result, ok, err, >>=-eq-ok, reject_if,
  reject_if-eq-ok, ◌≡◌, ◌≢◌, refl, sym, ap, All, Bool-cases, Option-cases, inl, inr, subst,
}
use whaleshell_driver.Defaults.{Defaults, Host}
use whaleshell_driver.Docker.DriverConfig.{DriverConfigError, mount_or, parse_each, parse_mounts}
use whaleshell_driver.Docker.DriverConfig.Mount.{
  Placed, Parsed, MountError, protected_paths, is_bad_target, is_below, is_dots, not_reserved,
  check_protected, check_target, decode_or, decode_default, place, bind_mount, volume_mount,
  tmpfs_mount, parse_docker_mount, check_allowed, drop_slash, text_field, is_there, is_unsafe,
  tmpfs_pairs, not_negative,
}
use whaleshell_driver.GoPath.{render, is_abs}
use whaleshell_driver.Json.{
  Json, Members, field, keys, as_string, as_bool, as_int64, as_strings, as_objects,
}
use whaleshell_driver.Mounts.{
  reserved_roots, normalize_absolute_container_path, validate_container_mount_target,
}
use whaleshell_driver.Mounts.Reserved.{IsApart, validate_container_mount_target-IsApart}
use whaleshell_driver.Mounts.Reserved.Normal.{Plain}
use whaleshell_driver.Mounts.Workspace.Denied.{IsOutside, within-IsOutside}

-- The target is an absolute path of plain segments, apart from every reserved root, and neither a
-- protected path nor below one.
abbrev pub IsSafe : Defaults → Str → Type 0
IsSafe d t =
    (y : Str) × (ys : List Str) × Plain (y ∷ ys)
    × (normalize_absolute_container_path t ≡ ok (render (y ∷ ys)))
    × All (IsApart (y ∷ ys)) (reserved_roots d)
    × All (IsOutside t) protected_paths

check_protected-All :
    (t : Str) (ps : List Str) → check_protected t ps ≡ ok tt → All (IsOutside t) ps
unfolding check_protected
check_protected-All t [] h = tt
check_protected-All t (p ∷ ps) h = elim (Bool-cases (is_below t p)) [
  | inl hit ↦ (let h' = rw hit at h in cc h')
  | inr miss ↦ (within-IsOutside t p miss, check_protected-All t ps (rw miss at h))
]

not_reserved-ok :
    {E : Type 0} (r : Result E (Unit {0})) {u : Unit {0}} → not_reserved r ≡ ok u → r ≡ ok tt
not_reserved-ok (ok _) h = refl
not_reserved-ok (err why) h = cc

check_target-IsSafe : (d : Defaults) (t : Str) → check_target d t ≡ ok tt → IsSafe d t
unfolding check_target
check_target-IsSafe d t h =
    let (_, a, h1) = >>=-eq-ok (reject_if (is_bad_target t) MountError.bad_target) _ h in
    let (_, b, h2) = >>=-eq-ok (reject_if (any is_dots (split t b'/')) MountError.traversal) _ h1 in
    let (_, c, protected) = >>=-eq-ok (not_reserved (validate_container_mount_target d t)) _ h2 in
    let (y, ys, plain, normal, apart) =
      validate_container_mount_target-IsApart d t
        (not_reserved-ok (validate_container_mount_target d t) c) in
    (y, ys, plain, normal, apart, check_protected-All t protected_paths protected)

-- What one entry gives: a mount of the engine keeps the checked target, and a bind wants the switch.
abbrev pub Fits : Bool → Str → Placed → Type 0
Fits enabled t (Placed.engine m) = m.target ≡ t
Fits enabled t (Placed.bind b) = enabled ≡ true

switched : (b : Bool) (e : MountError) {u : Unit {0}} → reject_if (not b) e ≡ ok u → b ≡ true
switched true e h = refl
switched false e h = cc

module _ (enabled : Bool) (fields : Members) (t : Str) (read_only : Bool) {p : Placed} where
  bind_mount-Fits :
      (host : Host) → bind_mount host enabled fields t read_only ≡ ok p → Fits enabled t p
  unfolding bind_mount
  bind_mount-Fits host h =
      let (_, on, h1) = >>=-eq-ok (reject_if (not enabled) MountError.binds_disabled) _ h in
      let (source, _, h2) = >>=-eq-ok (text_field fields (codes "source") true) _ h1 in
      let (_, _, h3) =
        >>=-eq-ok (reject_if (not (is_abs source)) MountError.source_relative) _ h2 in
      let (_, _, h4) =
        >>=-eq-ok (reject_if (not (is_there (host.stat source))) MountError.source_unavailable) _
          h3 in
      let (label, _, h5) = >>=-eq-ok (text_field fields (codes "selinux_label") false) _ h4 in
      let (_, _, last) =
        >>=-eq-ok
          (reject_if (not (is_nil label || (label == codes "shared" || label == codes "private")))
            MountError.selinux_label)
          _ h5 in
      subst (Fits enabled t) (ok-inj last) (switched enabled MountError.binds_disabled on)

  volume_mount-Fits : volume_mount fields t read_only ≡ ok p → Fits enabled t p
  unfolding volume_mount
  volume_mount-Fits h =
      let (_, on, h1) = >>=-eq-ok (text_field fields (codes "source") true) _ h in
      let (subpath, _, h2) = >>=-eq-ok (text_field fields (codes "subpath") false) _ h1 in
      let (_, _, last) =
        >>=-eq-ok (reject_if (not (is_nil subpath) && is_unsafe subpath) MountError.unsafe_subpath)
          _ h2 in
      subst (Fits enabled t) (ok-inj last) refl

  tmpfs_mount-Fits : tmpfs_mount fields t read_only ≡ ok p → Fits enabled t p
  unfolding tmpfs_mount
  tmpfs_mount-Fits h =
      let (options, on, h1) =
        >>=-eq-ok
          (decode_default MountError.bad_options as_strings [] (field (codes "options") fields)) _
          h in
      let (_, _, h2) = >>=-eq-ok (tmpfs_pairs options) _ h1 in
      let (size, _, h3) =
        >>=-eq-ok
          (decode_default MountError.bad_size as_int64 (pos 0) (field (codes "size_bytes") fields))
          _ h2 in
      let (_, _, h4) = >>=-eq-ok (not_negative MountError.bad_size size) _ h3 in
      let (mode, _, h5) =
        >>=-eq-ok
          (decode_default MountError.bad_mode as_int64 (pos 0) (field (codes "mode") fields)) _
          h4 in
      let (_, _, last) = >>=-eq-ok (not_negative MountError.bad_mode mode) _ h5 in
      subst (Fits enabled t) (ok-inj last) refl

  place-Fits :
      (host : Host) (kind : Str)
      → place host enabled fields kind t read_only ≡ ok p
      → Fits enabled t p
  unfolding place
  place-Fits host kind h = elim (Bool-cases (kind == codes "bind")) [
    | inl yes_ ↦ bind_mount-Fits host (rw yes_ at h)
    | inr no_ ↦
        (let h1 = rw no_ at h in
          elim (Bool-cases (kind == codes "volume")) [
            | inl yes_ ↦ volume_mount-Fits (rw yes_ at h1)
            | inr other ↦
                (let h2 = rw other at h1 in
                  elim (Bool-cases (kind == codes "tmpfs")) [
                    | inl yes_ ↦ tmpfs_mount-Fits (rw yes_ at h2)
                    | inr unknown ↦ refused (kind == codes "image") (rw unknown at h2)
                  ])
          ])
  ]
    where
      refused :
          (b : Bool)
          → (if b then err MountError.image_unsupported else err (MountError.unknown_type kind))
            ≡ ok p
          → Fits enabled t p
      refused true e = cc
      refused false e = cc

-- A parsed entry has a safe target, at which its mount is.
abbrev pub IsGood : Defaults → Bool → Parsed → Type 0
IsGood d enabled p = IsSafe d p.target × Fits enabled p.target p.placed

parse_docker_mount-IsGood :
    (d : Defaults) (host : Host) (enabled : Bool) (fields : Members) {p : Parsed}
    → parse_docker_mount d host enabled fields ≡ ok p
    → IsGood d enabled p
unfolding parse_docker_mount
parse_docker_mount-IsGood d host enabled fields h =
    let (kind, _, h1) =
      >>=-eq-ok (decode_or MountError.no_type as_string (field (codes "type") fields)) _ h in
    let (_, _, h2) = >>=-eq-ok (check_allowed (keys fields)) _ h1 in
    let (given, _, h3) =
      >>=-eq-ok (decode_or MountError.no_target as_string (field (codes "target") fields)) _ h2 in
    let (_, safe, h4) = >>=-eq-ok (check_target d (drop_slash given)) _ h3 in
    let (read_only, _, h5) =
      >>=-eq-ok
        (decode_default MountError.bad_read_only as_bool true (field (codes "read_only") fields)) _
        h4 in
    let (placed, fits, last) =
      >>=-eq-ok (place host enabled fields kind (drop_slash given) read_only) _ h5 in
    subst (IsGood d enabled) (ok-inj last) (
      check_target-IsSafe d (drop_slash given) safe,
      place-Fits enabled fields (drop_slash given) read_only host kind fits,
    )

-- No two entries are alike.
abbrev pub NoRepeat : List Str → Type 0
NoRepeat [] = Unit
NoRepeat (t ∷ ts) = All (λ u. u ≢ t) ts × NoRepeat ts

abbrev pub Apart : List Str → List Parsed → Type 0
Apart seen ps = All (λ p. All (λ s. p.target ≢ s) seen) ps

abbrev pub Distinct : List Parsed → Type 0
Distinct [] = Unit
Distinct (p ∷ ps) = All (λ q. q.target ≢ p.target) ps × Distinct ps

unseen : (t : Str) (seen : List Str) → any (λ s. s == t) seen ≡ false → All (λ s. t ≢ s) seen
unseen t [] h = tt
unseen t (s ∷ seen) h = elim (Bool-cases (s == t)) [
  | inl hit ↦ absurd (cc (rw hit at h))
  | inr miss ↦ ((λ e. cc ((==_iff s t).1 (sym e))), unseen t seen (rw miss at h))
]

split-Apart :
    (t : Str) (seen : List Str) (ps : List Parsed)
    → Apart (t ∷ seen) ps
    → All (λ q. q.target ≢ t) ps × Apart seen ps
split-Apart t seen [] h = (tt, tt)
split-Apart t seen (q ∷ ps) ((here, before), rest) =
    let (others, later) = split-Apart t seen ps rest in ((here, others), (before, later))

mount_or-ok : (r : Result MountError Parsed) {p : Parsed} → mount_or r ≡ ok p → r ≡ ok p
mount_or-ok (ok q) h = ap ok (ok-inj h)
mount_or-ok (err why) h = cc

-- What the loop over the entries gives.
abbrev pub IsSound : Defaults → Bool → List Str → List Parsed → Type 0
IsSound d enabled seen ps = All (IsGood d enabled) ps × Apart seen ps × Distinct ps

parse_each-IsSound :
    (d : Defaults) (host : Host) (enabled : Bool) (seen : List Str) (configs : List Members)
    {ps : List Parsed}
    → parse_each d host enabled seen configs ≡ ok ps
    → IsSound d enabled seen ps
unfolding parse_each
parse_each-IsSound d host enabled seen [] h = subst (IsSound d enabled seen) (ok-inj h) (tt, tt, tt)
parse_each-IsSound d host enabled seen (fields ∷ rest) h =
    let (p, good, h1) = >>=-eq-ok (mount_or (parse_docker_mount d host enabled fields)) _ h in
    let (_, fresh, h2) =
      >>=-eq-ok
        (reject_if (any (λ t. t == p.target) seen) (DriverConfigError.duplicate_target p.target)) _
        h1 in
    let (later, more, last) = >>=-eq-ok (parse_each d host enabled (p.target ∷ seen) rest) _ h2 in
    let (goods, apart, distinct) = parse_each-IsSound d host enabled (p.target ∷ seen) rest more in
    let (others, before) = split-Apart p.target seen later apart in
    let well = parse_docker_mount-IsGood d host enabled fields (mount_or-ok _ good) in
    subst (IsSound d enabled seen) (ok-inj last) (
      (well, goods),
      (unseen p.target seen (reject_if-eq-ok _ _ fresh), before),
      (others, distinct),
    )

pub parse_mounts-IsSound :
    (d : Defaults) (host : Host) (enabled : Bool) (v : Option Json) {ps : List Parsed}
    → parse_mounts d host enabled v ≡ ok ps
    → IsSound d enabled [] ps
unfolding parse_mounts
parse_mounts-IsSound d host enabled none h = subst (IsSound d enabled []) (ok-inj h) (tt, tt, tt)
parse_mounts-IsSound d host enabled (some v) h = elim (Option-cases (as_objects v)) [
  | inl bad ↦ absurd (cc (rw bad at h))
  | inr (configs, good) ↦ parse_each-IsSound d host enabled [] configs (rw good at h)
]
