-- ===== src/Podman/Container/Build.antt =====
-- `buildNativeSpec` and `nativeCreate` of internal/podman/libpod_create.go.
use whaleshell_driver.Base.{
  ℕ, zero, suc, Str, codes, ◌==◌, cut, trim_space, is_nil, length, eqb, Bool, true, false, not,
  ◌&&◌, ◌||◌, List, [], ◌∷◌, ◌++◌, map, if◌then◌else◌, Option, none, some, Result, ok, err, ◌>>=◌,
  ◌>>◌, reject_if, ℤ, pos, negsuc, ◌/◌,
}
use whaleshell_driver.Base.Assoc.{insert}
use whaleshell_driver.Base.Decimal.{parse_uint}
use whaleshell_driver.Engine.{CreateOptions, PortBinding}
use whaleshell_driver.Gpu.{DeviceRequest}
use whaleshell_driver.Podman.Userns.{
  IdMapping, MapError, validate_id_map, mode_of, params_of, is_set,
}
use whaleshell_driver.Podman.Container.{
  IdMappings, NativePortMapping, Resources, NativeSpec, SpecError,
}
use whaleshell_driver.Podman.Container.Storage.{
  Placed, translate_bind, translate_mount, translate_tmpfs, sort_targets, each, mounts_of,
  volumes_of,
}

abbrev device_ids : List Str → Result SpecError (List Str)
device_ids [] = ok []
device_ids (id ∷ rest) = do
  reject_if (is_nil (trim_space id)) SpecError.empty_device_id
  later ← device_ids rest
  ok (trim_space id ∷ later)

-- The loop over host.DeviceRequests
unfoldable pub cdi_devices : List DeviceRequest → Result SpecError (List Str)
unfolding trim_space
cdi_devices [] = ok []
cdi_devices (r ∷ rest) = do
  reject_if (not (r.driver == codes "cdi")) (SpecError.device_driver r.driver)
  reject_if (is_nil r.device_ids) SpecError.no_device_ids
  ids ← device_ids r.device_ids
  later ← cdi_devices rest
  ok (ids ++ later)

abbrev pub put_entry : Str → Option (Str × Str) → List (Str × Str) → List (Str × Str)
put_entry item none m = insert item [] m
put_entry item (some (key, value)) m = insert key value m

-- The loop over cfg.Env: the map that is filled, and the entries left.
unfoldable pub env_map : List (Str × Str) → List Str → List (Str × Str)
unfolding cut insert
env_map m [] = m
env_map m (item ∷ rest) = env_map (put_entry item (cut item b'=') m) rest

abbrev pub hardening : Str
hardening = codes "no-new-privileges:true"

-- The loop over host.SecurityOpt
unfoldable pub no_new_privileges : List Str → Result SpecError Bool
no_new_privileges [] = ok false
no_new_privileges (o ∷ rest) =
    let later = no_new_privileges rest in
    if o == hardening then (later >>= λ _. ok true) else err (SpecError.security_option o)

abbrev positive : ℤ → Option ℕ
positive (pos zero) = none
positive (pos (suc n)) = some (suc n)
positive (negsuc n) = none

abbrev positive_ℕ : ℕ → Option ℕ
positive_ℕ zero = none
positive_ℕ (suc n) = some (suc n)

abbrev value_or_zero : Option ℕ → ℕ
value_or_zero none = 0
value_or_zero (some n) = n

abbrev quota : Option ℕ → Option ℕ
quota none = none
quota (some nanos) = some (nanos / 10000)

unfoldable pub resources : CreateOptions → Resources
resources o = record {
  memory_limit = positive o.host.memory;
  pids_limit = positive_ℕ (value_or_zero o.host.pids_limit);
  cpu_quota = quota (positive o.host.nano_cpus);
}

abbrev numbered : Str → Option ℕ → Result SpecError ℕ
numbered text none = err (SpecError.host_port text)
numbered text (some n) = ok n

-- One binding of a port over TCP.
unfoldable pub port_mapping : ℕ × PortBinding → Result SpecError NativePortMapping
unfolding parse_uint
port_mapping (port, b) = do
  host_port ←
      (if is_nil b.host_port then ok 0 else numbered b.host_port (parse_uint 16 b.host_port))
  ok (record {
    host_ip = b.host_ip;
    host_port = host_port;
    container_port = port;
    protocol = codes "tcp";
  })

unfoldable pub port_mappings : List (ℕ × PortBinding) → Result SpecError (List NativePortMapping)
unfolding port_mapping
port_mappings [] = ok []
port_mappings (p ∷ rest) = do first ← port_mapping p; later ← port_mappings rest; ok (first ∷ later)

abbrev pub named : Str → Result MapError (Unit {0}) → Result SpecError (Unit {0})
named kind (ok _) = ok tt
named kind (err why) = err (SpecError.id_map kind why)

abbrev pub is_native_mode : Str → Bool
is_native_mode mode =
    mode == codes "private"
    || (mode == codes "auto"
        || (mode == codes "host" || (mode == codes "keep-id" || mode == codes "no-map")))

-- The checks of the mode and the maps.
unfoldable pub check_userns :
    Str → Option Str → List IdMapping → List IdMapping → Result SpecError (Unit {0})
unfolding validate_id_map
check_userns mode value uids gids = do
  reject_if (not (is_native_mode mode)) (SpecError.unsupported_mode mode)
  reject_if ((mode == codes "host" || mode == codes "no-map") && is_set value)
      (SpecError.mode_takes_no_parameters mode)
  reject_if (mode == codes "auto" && (not (is_nil uids) || not (is_nil gids)))
      SpecError.auto_with_maps
  reject_if
      (mode == codes "private"
        && (is_nil uids || (is_nil gids || not (eqb (length uids) (length gids)))))
      SpecError.private_without_maps
  reject_if (not (mode == codes "private") && (not (is_nil uids) || not (is_nil gids)))
      SpecError.maps_without_private
  named (codes "UID") (validate_id_map uids)
  named (codes "GID") (validate_id_map gids)

unfoldable pub id_mappings : Str → List IdMapping → List IdMapping → Option IdMappings
id_mappings mode uids gids =
    if mode == codes "auto" || mode == codes "private"
    then some (record { auto_user_ns = mode == codes "auto"; uid_map = uids; gid_map = gids })
    else none

-- What the binds, the mounts and the temporary file systems become, in this order.
unfoldable pub placed : CreateOptions → Result SpecError (List Placed)
unfolding translate_bind translate_mount translate_tmpfs sort_targets
placed o = do
  binds ← each translate_bind o.host.binds
  mounts ← each translate_mount o.host.mounts
  ok (binds ++ (mounts ++ map translate_tmpfs (sort_targets o.host.tmpfs)))

unfoldable pub build_native_spec :
    CreateOptions → Str → List IdMapping → List IdMapping → Result SpecError NativeSpec
unfolding cdi_devices env_map no_new_privileges resources port_mappings check_userns id_mappings
    placed mounts_of volumes_of cut
build_native_spec o userns uids gids = do
  reject_if (is_nil userns) SpecError.no_userns_mode
  reject_if o.host.privileged SpecError.privileged
  reject_if (not (is_nil o.host.devices) || not (is_nil o.host.volumes_from))
      SpecError.unrepresentable_devices
  devices ← cdi_devices o.host.device_requests
  hardened ← no_new_privileges o.host.security_opt
  ports ← port_mappings o.host.port_bindings
  let parts = cut userns b':'
  let mode = mode_of userns parts
  let value = params_of parts
  check_userns mode value uids gids
  storage ← placed o
  ok (record {
    image = o.config.image;
    name = o.name;
    env = env_map [] o.config.env;
    labels = o.config.labels;
    entrypoint = o.config.entrypoint;
    command = o.config.cmd;
    user = o.config.user;
    work_dir = o.config.working_dir;
    terminal = o.config.tty;
    stdin = o.config.open_stdin;
    user_ns = (mode, value);
    id_mappings = id_mappings mode uids gids;
    mounts = mounts_of storage;
    volumes = volumes_of storage;
    devices = devices;
    host_add = o.host.extra_hosts;
    cap_drop = o.host.cap_drop;
    cap_add = o.host.cap_add;
    no_new_privileges = hardened;
    network = if is_nil o.endpoints then o.host.network_mode else codes "bridge";
    networks = o.endpoints;
    healthcheck = o.config.healthcheck;
    resources = resources o;
    port_mappings = ports;
    shm_size = positive_ℕ o.host.shm_size;
  })
