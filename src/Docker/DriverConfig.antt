-- ===== src/Docker/DriverConfig.antt =====
-- `parseDockerSandboxDriverConfig` of internal/docker/driver_config.go.
pub mod Mount
pub mod Targets
pub mod Accepted
use whaleshell_driver.Base.{
  Str, codes, ◌==◌, trim_space, is_nil, any, Bool, true, false, not, ◌&&◌, List, [], ◌∷◌, ◌++◌,
  if◌then◌else◌, Option, none, some, Result, ok, err, ◌>>=◌, ◌>>◌, reject_if,
}
use whaleshell_driver.Defaults.{Defaults, Host}
use whaleshell_driver.Docker.Create.{SandboxConfig}
use whaleshell_driver.Engine.{Mount as EngineMount}
use whaleshell_driver.Json.{
  Json, null, object, Members, field, keys, has_duplicates, as_strings, as_objects,
}
use Mount.{Parsed, Placed, MountError, parse_docker_mount}

pub data DriverConfigError : Type 0 where
  not_object duplicate_field : DriverConfigError
  unknown_field : Str → DriverConfigError
  bad_devices blank_device bad_mounts : DriverConfigError
  bad_mount : MountError → DriverConfigError
  duplicate_target : Str → DriverConfigError

abbrev is_known : Str → Bool
is_known k = any (λ j. j == k) (codes "cdi_devices" ∷ codes "mounts" ∷ [])

-- The loop over the keys
unfoldable pub check_keys : List Str → Result DriverConfigError (Unit {0})
check_keys [] = ok tt
check_keys (k ∷ rest) =
    let later = check_keys rest in
    if is_known k then later else err (DriverConfigError.unknown_field k)

abbrev devices_of : Option (List Str) → Result DriverConfigError (List Str)
devices_of none = err DriverConfigError.bad_devices
devices_of (some ds) = do
  reject_if (is_nil ds) DriverConfigError.bad_devices
  reject_if (any (λ s. is_nil (trim_space s)) ds) DriverConfigError.blank_device
  ok ds

-- The devices, where the field is there; null is refused.
unfoldable pub parse_devices : Option Json → Result DriverConfigError (Option (List Str))
unfolding trim_space as_strings
parse_devices none = ok none
parse_devices (some null) = err DriverConfigError.bad_devices
parse_devices (some v) = devices_of (as_strings v) >>= λ ds. ok (some ds)

abbrev pub mount_or : Result MountError Parsed → Result DriverConfigError Parsed
mount_or (err why) = err (DriverConfigError.bad_mount why)
mount_or (ok p) = ok p

-- The loop over the mounts; `seen` are the targets before.
unfoldable pub parse_each :
    Defaults → Host → Bool → List Str → List Members → Result DriverConfigError (List Parsed)
unfolding parse_docker_mount
parse_each d host binds seen [] = ok []
parse_each d host binds seen (fields ∷ rest) = do
  p ← mount_or (parse_docker_mount d host binds fields)
  reject_if (any (λ t. t == p.target) seen) (DriverConfigError.duplicate_target p.target)
  later ← parse_each d host binds (p.target ∷ seen) rest
  ok (p ∷ later)

abbrev pub each_of :
    Defaults → Host → Bool → Option (List Members) → Result DriverConfigError (List Parsed)
each_of d host binds none = err DriverConfigError.bad_mounts
each_of d host binds (some configs) = parse_each d host binds [] configs

unfoldable pub parse_mounts :
    Defaults → Host → Bool → Option Json → Result DriverConfigError (List Parsed)
unfolding as_objects
parse_mounts d host binds none = ok []
parse_mounts d host binds (some v) = each_of d host binds (as_objects v)

abbrev pub add_mount : Placed → List EngineMount → List EngineMount
add_mount (Placed.engine m) rest = m ∷ rest
add_mount (Placed.bind b) rest = rest

abbrev pub add_bind : Placed → List Str → List Str
add_bind (Placed.engine m) rest = rest
add_bind (Placed.bind b) rest = b ∷ rest

unfoldable pub engine_mounts : List Parsed → List EngineMount
engine_mounts [] = []
engine_mounts (p ∷ rest) = add_mount p.placed (engine_mounts rest)

unfoldable pub bind_mounts : List Parsed → List Str
bind_mounts [] = []
bind_mounts (p ∷ rest) = add_bind p.placed (bind_mounts rest)

abbrev pub given : Option (List Str) → List Str × Bool
given none = ([], false)
given (some ds) = (ds, true)

unfoldable pub config_of : Option (List Str) → List Parsed → SandboxConfig
unfolding engine_mounts bind_mounts
config_of devices mounts = record {
  cdi_devices = (given devices).0;
  has_cdi_devices = (given devices).1;
  mounts = engine_mounts mounts;
  binds = bind_mounts mounts;
}

-- An object that the text spells.
unfoldable pub parse_object :
    Defaults → Host → Bool → Json → Members → Result DriverConfigError SandboxConfig
unfolding check_keys keys field parse_devices has_duplicates config_of
parse_object d host binds whole fields = do
  reject_if (has_duplicates whole) DriverConfigError.duplicate_field
  check_keys (keys fields)
  devices ← parse_devices (field (codes "cdi_devices") fields)
  mounts ← parse_mounts d host binds (field (codes "mounts") fields)
  ok (config_of devices mounts)

abbrev pub parse_whole :
    Defaults → Host → Bool → Option Json → Result DriverConfigError SandboxConfig
parse_whole d host binds (some (object fields)) = parse_object d host binds (object fields) fields
parse_whole d host binds _ = err DriverConfigError.not_object

-- parseDockerSandboxDriverConfig. `read` is the parser of JSON texts.
unfoldable pub parse_docker_sandbox_driver_config :
    (Str → Option Json) → Defaults → Host → Str → Bool → Result DriverConfigError SandboxConfig
unfolding trim_space config_of
parse_docker_sandbox_driver_config read d host raw binds =
    if is_nil (trim_space raw)
    then ok (config_of none [])
    else parse_whole d host binds (read (trim_space raw))
