-- ===== src/Docker/Create/Container.antt =====
-- The request for the sandbox container that `Create` of internal/docker/docker.go builds.
pub mod Identity
mod Settings
mod Environment
mod Labels
mod Command
unfoldable pub use Settings.*
unfoldable pub use Environment.*
unfoldable pub use Labels.*
unfoldable pub use Command.*
use whaleshell_driver.Base.{
  ℕ, Str, codes, ◌==◌, trim_space, lower, is_nil, eqb, Bool, true, false, not, ◌&&◌, ◌||◌, List, [],
  ◌∷◌, ◌++◌, if◌then◌else◌, Option, none, some, ℤ, pos, negsuc, ltb_ℤ, ◌^◌,
}
use whaleshell_driver.Base.Assoc.{insert}
use whaleshell_driver.Base.Decimal.{show, show_ℤ}
use whaleshell_driver.Docker.Create.Naming.{
  container_name, proxy_name, ca_volume, ssh_volume, data_volume,
}
use whaleshell_driver.Docker.Image.{uses_embedded_init}
use whaleshell_driver.Engine.{
  Mount, CreateOptions, ContainerConfig, HostConfig, HealthConfig, PortBinding,
}
use whaleshell_driver.Env.{merge_env, filter_identity_env}
use whaleshell_driver.GoPath.{dir, join}
use whaleshell_driver.Gpu.{device_requests_for_gpu}
use whaleshell_driver.Limits.{
  or_default, sandbox_log_config, resolve_pids_limit, configured_pids_limit,
}
use whaleshell_driver.Runtime.{Driver, sandbox_ssh_socket_path, shell_quote}
use whaleshell_driver.Sidecar.{proxy_env, ca_bundle_env}
use whaleshell_driver.Spec.{Spec, PortPublish}

abbrev number_of : ℤ → ℕ
number_of (pos n) = n
number_of (negsuc n) = 0

-- `ExposedPorts` and `PortBindings` are assigned at the same keys.
unfoldable pub bind_port : ℕ → Str → List (ℕ × PortBinding) → List (ℕ × PortBinding)
bind_port guest port [] = (guest, record { host_ip = codes "127.0.0.1"; host_port = port }) ∷ []
bind_port guest port ((g, b) ∷ rest) =
    let later = bind_port guest port rest in
    if eqb g guest
    then (guest, record { host_ip = codes "127.0.0.1"; host_port = port }) ∷ rest
    else (g, b) ∷ later

publish : List (ℕ × PortBinding) → List PortPublish → List (ℕ × PortBinding)
unfolding bind_port
publish bindings [] = bindings
publish bindings (p ∷ ports) =
    publish (bind_port (number_of p.guest) (show_ℤ p.host) bindings) ports

unfoldable pub port_bindings : Driver → Spec → List (ℕ × PortBinding)
unfolding publish show_ℤ
port_bindings d spec =
    publish
      (if displays spec
        then bind_port d.defaults.no_vnc_port (show_ℤ (display_port d spec)) []
        else [])
      spec.publish_ports

exposed : List (ℕ × PortBinding) → List ℕ
exposed [] = []
exposed ((guest, b) ∷ rest) = guest ∷ exposed rest

abbrev is_zero : ℤ → Bool
is_zero (pos n) = eqb n 0
is_zero (negsuc n) = false

-- A quantity of the spec, else of the configuration; zero is no limit.
limit_or_default : ℤ → ℤ → ℤ
limit_or_default given fallback =
    let chosen = if is_zero given then fallback else given in
    if ltb_ℤ (pos 0) chosen then chosen else pos 0

healthcheck : Driver → Option HealthConfig
unfolding sandbox_ssh_socket_path shell_quote
healthcheck d =
    if ltb_ℤ (pos 0) d.runtime_config.health_check_interval_secs
    then some (record {
      test =
          codes "CMD-SHELL"
          ∷ (codes "test -e /var/run/openshell-ssh-ready || test -S "
              ++ (shell_quote (sandbox_ssh_socket_path d) ++ codes " || ss -tlnp | grep -q :22"))
          ∷ [];
      interval_secs = d.runtime_config.health_check_interval_secs;
      timeout_secs = 2;
      retries = 10;
      start_period_secs = 5;
    })
    else none

container_config : Driver → Spec → Plan → ContainerConfig
unfolding sandbox_env sandbox_labels container_cmd entrypoint container_user exposed healthcheck
    port_bindings
container_config d spec plan = record {
  image = plan.image_id;
  entrypoint = entrypoint spec;
  cmd = container_cmd d spec plan;
  env = sandbox_env d spec plan;
  labels = sandbox_labels d spec plan;
  working_dir = d.defaults.guest_workspace;
  user = container_user d spec plan;
  exposed_ports = exposed (port_bindings d spec);
  tty = false;
  open_stdin = false;
  healthcheck = healthcheck d;
}

host_config : Driver → Spec → List Mount → List Str → Plan → HostConfig
unfolding sandbox_binds sandbox_log_config resolve_pids_limit configured_pids_limit limit_or_default
    port_bindings
host_config d spec driver_mounts driver_binds plan = record {
  binds = sandbox_binds d spec plan driver_binds;
  mounts = driver_mounts;
  network_mode = plan.net;
  security_opt = codes "no-new-privileges:true" ∷ [];
  cap_drop = codes "NET_RAW" ∷ [];
  extra_hosts = spec.extra_hosts;
  log_config = sandbox_log_config d.host;
  pids_limit =
      resolve_pids_limit d.defaults d.host
        (configured_pids_limit d.runtime_config.pids_limit spec.pids_limit);
  nano_cpus = limit_or_default spec.cpu_nanos d.runtime_config.default_cpu_nanos;
  memory = limit_or_default spec.memory_bytes d.runtime_config.default_memory_bytes;
  userns_mode = d.runtime_config.userns_mode;
  device_requests = device_requests_for_gpu d.host spec;
  port_bindings = port_bindings d spec;
  shm_size = if displays spec then 2 ^ 30 else 0;
  privileged = false;
  devices = [];
  volumes_from = [];
  cap_add = [];
  tmpfs = [];
}

unfoldable pub create_options : Driver → Spec → List Mount → List Str → Plan → CreateOptions
unfolding container_config host_config
create_options d spec driver_mounts driver_binds plan = record {
  config = container_config d spec plan;
  host = host_config d spec driver_mounts driver_binds plan;
  endpoints = (plan.net, []) ∷ [];
  name = container_name plan.name;
}
