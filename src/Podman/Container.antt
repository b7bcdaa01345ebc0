-- ===== src/Podman/Container.antt =====
-- The native container request of internal/podman/libpod_create.go. Its types.
pub mod Kept
pub mod Storage
pub mod Build
pub mod Counts
pub mod Faithful
pub mod Sandbox
use whaleshell_driver.Base.{ℕ, Str, Bool, List, Option, ℤ}
use whaleshell_driver.Engine.{HealthConfig}
use whaleshell_driver.Podman.Userns.{IdMapping, MapError}

-- nativeIDMappings; the two host flags are always false
pub record IdMappings : Type 0 where
  pub auto_user_ns : Bool
  pub uid_map : List IdMapping
  pub gid_map : List IdMapping

pub record NativeMount : Type 0 where
  pub type : Str
  pub source : Str
  pub destination : Str
  pub options : List Str

pub record NativeVolume : Type 0 where
  pub name : Str
  pub dest : Str
  pub options : List Str

pub record NativePortMapping : Type 0 where
  pub host_ip : Str
  pub host_port : ℕ
  pub container_port : ℕ
  pub protocol : Str

-- `resource_limits`: a limit that is absent is not sent.
pub record Resources : Type 0 where
  pub memory_limit : Option ℕ
  pub pids_limit : Option ℕ
  pub cpu_quota : Option ℕ

-- nativeSpec
pub record NativeSpec : Type 0 where
  pub image : Str
  pub name : Str
  pub env : List (Str × Str)
  pub labels : List (Str × Str)
  pub entrypoint : List Str
  pub command : List Str
  pub user : Str
  pub work_dir : Str
  pub terminal : Bool
  pub stdin : Bool
  -- `nsmode`, with `value` where there is one
  pub user_ns : Str × Option Str
  pub id_mappings : Option IdMappings
  pub mounts : List NativeMount
  pub volumes : List NativeVolume
  -- the paths
  pub devices : List Str
  pub host_add : List Str
  pub cap_drop : List Str
  pub cap_add : List Str
  pub no_new_privileges : Bool
  -- `nsmode`
  pub network : Str
  -- with the aliases of each
  pub networks : List (Str × List Str)
  pub healthcheck : Option HealthConfig
  pub resources : Resources
  pub port_mappings : List NativePortMapping
  pub shm_size : Option ℕ

pub data SpecError : Type 0 where
  no_userns_mode privileged unrepresentable_devices : SpecError
  device_driver : Str → SpecError
  no_device_ids empty_device_id : SpecError
  security_option : Str → SpecError
  host_port : Str → SpecError
  unsupported_mode mode_takes_no_parameters : Str → SpecError
  auto_with_maps private_without_maps maps_without_private : SpecError
  id_map : Str → MapError → SpecError
  bind_syntax : Str → SpecError
  create_mountpoint force_recursive unsupported_mount : SpecError
  tmpfs_option : List Str → SpecError
  volume_subpath : Str → SpecError
  volume_nocopy volume_labels : SpecError
