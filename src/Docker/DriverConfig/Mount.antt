-- ===== src/Docker/DriverConfig/Mount.antt =====
-- `parseDockerMount` of internal/docker/driver_config.go.
use whaleshell_driver.Base.{
  Str, codes, ◌==◌, trim_space, has_prefix, split, cut, eqb, is_nil, any, ltb_ℤ, Bool, true, false,
  not, ◌&&◌, ◌||◌, List, [], ◌∷◌, ◌++◌, if◌then◌else◌, Option, none, some, Result, ok, err, ◌>>=◌,
  ◌>>◌, reject_if, ℤ, pos, negsuc, ◌%◌, ◌^◌,
}
use whaleshell_driver.Defaults.{Defaults, Host, FileInfo}
use whaleshell_driver.Engine.{Mount, MountType}
use whaleshell_driver.GoPath.{is_abs, clean}
use whaleshell_driver.Json.{Json, Members, field, keys, as_string, as_bool, as_int64, as_strings}
use whaleshell_driver.Mounts.{validate_container_mount_target}

pub data MountError : Type 0 where
  no_type no_target bad_target traversal reserved : MountError
  unknown_field : Str → MountError
  protected : Str → MountError
  bad_read_only : MountError
  missing_field invalid_field : Str → MountError
  binds_disabled source_relative source_unavailable selinux_label : MountError
  unsafe_subpath bad_options empty_option bad_size bad_mode : MountError
  tmpfs_option : Str → MountError
  image_unsupported : MountError
  unknown_type : Str → MountError

-- A mount of the engine, or a bind as a text.
pub data Placed : Type 0 where
  engine : Mount → Placed
  bind : Str → Placed

pub record Parsed : Type 0 where
  pub placed : Placed
  pub target : Str

abbrev pub protected_paths : List Str
protected_paths =
    codes "/opt/openshell"
    ∷ codes "/etc/openshell"
    ∷ codes "/etc/openshell-tls"
    ∷ codes "/run/openshell"
    ∷ codes "/run/openshell-sidecar"
    ∷ codes "/run/netns"
    ∷ codes "/var/run/netns"
    ∷ []

abbrev allowed_fields : List Str
allowed_fields =
    codes "type"
    ∷ codes "target"
    ∷ codes "read_only"
    ∷ codes "source"
    ∷ codes "selinux_label"
    ∷ codes "subpath"
    ∷ codes "options"
    ∷ codes "size_bytes"
    ∷ codes "mode"
    ∷ []

abbrev among : List Str → Str → Bool
among ks k = any (λ j. j == k) ks

unfoldable pub check_allowed : List Str → Result MountError (Unit {0})
check_allowed [] = ok tt
check_allowed (k ∷ rest) =
    let later = check_allowed rest in
    if among allowed_fields k then later else err (MountError.unknown_field k)

-- strings.TrimSuffix at one slash
unfoldable pub drop_slash : Str → Str
drop_slash [] = []
drop_slash (c ∷ s) = let rest = drop_slash s in if is_nil s && eqb c b'/' then [] else c ∷ rest

abbrev pub is_dots : Str → Bool
is_dots s = s == codes "." || s == codes ".."

abbrev pub is_bad_target : Str → Bool
is_bad_target t =
    not (is_abs t)
    || (t == codes "/"
        || (not (clean t == t) || (any (λ c. eqb c 0 || eqb c b'\\') t || not (trim_space t == t))))

-- The path is one of the protected ones or below it.
abbrev pub is_below : Str → Str → Bool
is_below t p = t == p || has_prefix t (p ++ codes "/")

unfoldable pub check_protected : Str → List Str → Result MountError (Unit {0})
unfolding has_prefix
check_protected t [] = ok tt
check_protected t (p ∷ rest) =
    let later = check_protected t rest in
    if is_below t p then err (MountError.protected p) else later

abbrev pub not_reserved : {E : Type 0} → Result E (Unit {0}) → Result MountError (Unit {0})
not_reserved (ok _) = ok tt
not_reserved (err why) = err MountError.reserved

-- The checks of the target, once the slash is gone.
unfoldable pub check_target : Defaults → Str → Result MountError (Unit {0})
unfolding is_abs clean trim_space split
check_target d t = do
  reject_if (is_bad_target t) MountError.bad_target
  reject_if (any is_dots (split t b'/')) MountError.traversal
  not_reserved (validate_container_mount_target d t)
  check_protected t protected_paths

-- json.Unmarshal of a field that may be missing, which fails.
abbrev pub decode_or :
    {A : Type 0} → MountError → (Json → Option A) → Option Json → Result MountError A
decode_or why read none = err why
decode_or why read (some v) = elim (read v) [ none ↦ err why | some a ↦ ok a ]

-- The same, with the value of a field that is missing.
abbrev pub decode_default :
    {A : Type 0} → MountError → (Json → Option A) → A → Option Json → Result MountError A
decode_default why read a none = ok a
decode_default why read a (some v) = decode_or why read (some v)

abbrev is_invalid : Bool → Str → Bool
is_invalid required v = not (trim_space v == v) || (any (λ c. eqb c 0) v || (required && is_nil v))

abbrev text_of : Str → Bool → Option Json → Result MountError Str
text_of k true none = err (MountError.missing_field k)
text_of k false none = ok []
text_of k required (some v) = elim (as_string v) [
  | none ↦ err (MountError.invalid_field k)
  | some s ↦ if is_invalid required s then err (MountError.invalid_field k) else ok s
]

-- The closure `str`
unfoldable pub text_field : Members → Str → Bool → Result MountError Str
unfolding field as_string trim_space
text_field fields k required = text_of k required (field k fields)

abbrev pub is_there : Option FileInfo → Bool
is_there none = false
is_there (some info) = true

abbrev pub label_suffix : Str → Str
label_suffix label =
    if label == codes "shared"
    then codes ",z"
    else if label == codes "private"
    then codes ",Z"
    else []

unfoldable pub bind_mount : Host → Bool → Members → Str → Bool → Result MountError Placed
unfolding text_field is_abs
bind_mount host enabled fields target read_only = do
  reject_if (not enabled) MountError.binds_disabled
  source ← text_field fields (codes "source") true
  reject_if (not (is_abs source)) MountError.source_relative
  reject_if (not (is_there (host.stat source))) MountError.source_unavailable
  label ← text_field fields (codes "selinux_label") false
  reject_if (not (is_nil label || (label == codes "shared" || label == codes "private")))
      MountError.selinux_label
  ok (
      Placed.bind (
        source
        ++ b':'
          ∷ (target ++ ((if read_only then codes ":ro" else codes ":rw") ++ label_suffix label))))

abbrev pub is_unsafe : Str → Bool
is_unsafe p = is_abs p || (not (clean p == p) || any (λ c. eqb c b'\\' || eqb c b' ') p)

unfoldable pub volume_mount : Members → Str → Bool → Result MountError Placed
unfolding text_field is_abs clean
volume_mount fields target read_only = do
  source ← text_field fields (codes "source") true
  subpath ← text_field fields (codes "subpath") false
  reject_if (not (is_nil subpath) && is_unsafe subpath) MountError.unsafe_subpath
  ok (
      Placed.engine (record {
        type = MountType.volume;
        source = source;
        target = target;
        read_only = read_only;
        bind_options = none;
        volume_options = some (record {
          subpath = subpath;
          no_copy = false;
          has_labels = false;
          has_driver_config = false;
        });
        tmpfs_options = none;
      }))

-- strings.SplitN(option, "=", 2), checked
abbrev pair_of : Str → Option (Str × Str) → Result MountError (List Str)
pair_of o none = ok (o ∷ [])
pair_of o (some (k, v)) =
    if is_nil k || is_nil v then err (MountError.tmpfs_option o) else ok (k ∷ v ∷ [])

unfoldable pub tmpfs_pairs : List Str → Result MountError (List (List Str))
unfolding cut
tmpfs_pairs [] = ok []
tmpfs_pairs (o ∷ rest) = do
  reject_if (is_nil o) MountError.empty_option
  pair ← pair_of o (cut o b'=')
  later ← tmpfs_pairs rest
  ok (pair ∷ later)

abbrev pub not_negative : MountError → ℤ → Result MountError ℤ
not_negative why n = if ltb_ℤ n (pos 0) then err why else ok n

-- os.FileMode keeps 32 bits.
abbrev pub file_mode : ℤ → ℤ
file_mode (pos n) = pos (n % 2 ^ 32)
file_mode (negsuc n) = negsuc n

unfoldable pub tmpfs_mount : Members → Str → Bool → Result MountError Placed
unfolding tmpfs_pairs field as_strings as_int64
tmpfs_mount fields target read_only = do
  options ← decode_default MountError.bad_options as_strings [] (field (codes "options") fields)
  pairs ← tmpfs_pairs options
  size ← decode_default MountError.bad_size as_int64 (pos 0) (field (codes "size_bytes") fields)
  size' ← not_negative MountError.bad_size size
  mode ← decode_default MountError.bad_mode as_int64 (pos 0) (field (codes "mode") fields)
  mode' ← not_negative MountError.bad_mode mode
  ok (
      Placed.engine (record {
        type = MountType.tmpfs;
        source = [];
        target = target;
        read_only = read_only;
        bind_options = none;
        volume_options = none;
        tmpfs_options =
            some (record { options = pairs; size_bytes = size'; mode = file_mode mode' });
      }))

-- The switch over the kinds
unfoldable pub place : Host → Bool → Members → Str → Str → Bool → Result MountError Placed
unfolding bind_mount volume_mount tmpfs_mount
place host enabled fields kind target read_only =
    if kind == codes "bind"
    then bind_mount host enabled fields target read_only
    else if kind == codes "volume"
    then volume_mount fields target read_only
    else if kind == codes "tmpfs"
    then tmpfs_mount fields target read_only
    else if kind == codes "image"
    then err MountError.image_unsupported
    else err (MountError.unknown_type kind)

unfoldable pub parse_docker_mount : Defaults → Host → Bool → Members → Result MountError Parsed
unfolding field keys as_string as_bool check_allowed drop_slash
parse_docker_mount d host enabled fields = do
  kind ← decode_or MountError.no_type as_string (field (codes "type") fields)
  check_allowed (keys fields)
  given ← decode_or MountError.no_target as_string (field (codes "target") fields)
  let target = drop_slash given
  check_target d target
  read_only ←
      decode_default MountError.bad_read_only as_bool true (field (codes "read_only") fields)
  placed ← place host enabled fields kind target read_only
  ok (record { placed = placed; target = target })
