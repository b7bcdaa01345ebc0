-- ===== src/Spec.antt =====
-- The public types of driver/driver.go.
use whaleshell_driver.Base.{Str, Bool, List, ℤ}

pub record PortPublish : Type 0 where
  pub host : ℤ
  pub guest : ℤ

-- `CPU`, a float, is given in billionths of a CPU, the unit that the Engine takes. `Labels`, a map,
-- is the list of its entries in the order of iteration. `DriverConfigJSON` is not in the record:
-- what the driver decodes from it is an argument of `create`.
pub record Spec : Type 0 where
  pub name : Str
  pub image : Str
  pub workspace : Str
  pub command : List Str
  pub env : List Str
  pub i_know : Bool
  pub proxy_bin : Str
  pub policy_path : Str
  pub proxy_port : ℤ
  pub proxy_env : List Str
  pub init_bin : Str
  pub no_harden : Bool
  pub supervisor_bin : Str
  pub display_mode : Str
  pub display_port : ℤ
  pub display_password : Str
  pub labels : List (Str × Str)
  pub extra_hosts : List Str
  pub gateway_url : Str
  pub persist_volume : Bool
  pub enable_ssh : Bool
  pub ssh_bin : Str
  pub gpu : Bool
  pub gpu_count : ℤ
  pub cdi_devices : List Str
  pub cpu_nanos : ℤ
  pub memory_bytes : ℤ
  pub pids_limit : ℤ
  pub proxy_image : Str
  pub publish_ports : List PortPublish

pub record Handle : Type 0 where
  pub id : Str
  pub name : Str
  pub network : Str
  pub image : Str

pub record Info : Type 0 where
  pub id : Str
  pub name : Str
  pub network : Str
  pub image : Str
  pub status : Str

pub record ExecRequest : Type 0 where
  pub argv : List Str
  pub tty : Bool
  pub env : List Str
  pub work_dir : Str
