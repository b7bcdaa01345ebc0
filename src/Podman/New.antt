-- ===== src/Podman/New.antt =====
-- `NewWithConfig` of internal/podman/podman.go.
pub mod Accepted
pub mod Files
pub mod Proxy
pub mod Consistent
use whaleshell_driver.Base.{
  Str, codes, ◌==◌, trim_space, is_nil, ltb_ℤ, Bool, true, false, not, ◌&&◌, ◌||◌, List, [], ◌∷◌,
  ◌++◌, if◌then◌else◌, Option, none, some, Result, ok, err, ◌>>=◌, ◌>>◌, reject_if, ℤ, pos,
}
use whaleshell_driver.Config.{
  Machine, ConfigError, validate_guest_tls_paths, validate_egress_ca_bundle, validate_proxy_config,
  normalize_image_pull_policy, is_unclean,
}
use whaleshell_driver.GoPath.{dir}
use whaleshell_driver.Podman.Config.{
  Config, upstream, canonical, is_private, is_true, is_bad_ip, check_files,
  validate_registry_auth_file,
}
use whaleshell_driver.Podman.Sockets.{System, socket_alive, resolve_host, podman_runtime_context}
use whaleshell_driver.Podman.Userns.{IdMapping}
use whaleshell_driver.Runtime.{RuntimeConfig}

-- The checks of the user namespace: the mode is made canonical first.
unfoldable pub check_maps : Config → Result ConfigError (Unit {0})
check_maps c = do
  reject_if (is_private c.userns_mode && (is_nil c.uid_map || is_nil c.gid_map))
      ConfigError.private_without_maps
  (if not (is_nil c.uid_map) || not (is_nil c.gid_map)
      then (do
        reject_if (not (is_private (trim_space c.userns_mode))) ConfigError.maps_without_private
        reject_if (is_nil c.uid_map || is_nil c.gid_map) ConfigError.private_without_maps)
      else ok tt)

abbrev pub is_bad_socket : Str → Bool
is_bad_socket p = not (is_nil p) && is_unclean p

abbrev pub is_bad_ssh_socket : Str → Bool
is_bad_ssh_socket p = not (is_nil p) && (is_unclean p || dir p == codes "/")

-- Everything that is checked before a connection is looked for: the canonical configuration.
unfoldable pub checked : Machine → Config → Result ConfigError Config
checked m c = do
  mode ← canonical c.userns_mode
  check_maps (record c { userns_mode = mode })
  check_files m c
  reject_if (is_bad_ip m c.host_gateway_ip) ConfigError.host_gateway_ip
  reject_if (is_bad_socket c.socket_path) ConfigError.socket_path
  reject_if (is_bad_ssh_socket c.sandbox_ssh_socket_path) ConfigError.ssh_socket_path
  reject_if (ltb_ℤ c.stop_timeout_secs (pos 0) || ltb_ℤ c.pids_limit (pos 0)) ConfigError.negative
  policy ← normalize_image_pull_policy c.image_pull_policy
  ok (record c { userns_mode = mode; image_pull_policy = policy })

abbrev found : Option Str → Result ConfigError Str
found none = err ConfigError.socket_unavailable
found (some host) = ok host

unfoldable pub host_of : System → Config → Result ConfigError Str
unfolding socket_alive resolve_host trim_space
host_of sys c =
    if is_nil (trim_space c.socket_path)
    then found (resolve_host sys)
    else if socket_alive sys c.socket_path
    then ok (codes "unix://" ++ c.socket_path)
    else err ConfigError.socket_unavailable

-- The settings of the docker driver, without the callback for credentials.
unfoldable pub runtime_config : Str → Config → RuntimeConfig
unfolding podman_runtime_context
runtime_config host c = record {
  runtime_context = podman_runtime_context host;
  enable_bind_mounts = c.enable_bind_mounts;
  upstream_proxy_auth_allow_insecure = is_true c.proxy_auth_allow_insecure;
  capabilities = codes "cdi" ∷ codes "libpod-native" ∷ codes "userns" ∷ [];
  default_image = c.default_image;
  network_name = c.network_name;
  host_gateway_ip = c.host_gateway_ip;
  image_pull_policy = if c.image_pull_policy == codes "missing" then [] else c.image_pull_policy;
  stop_timeout_secs = c.stop_timeout_secs;
  pids_limit = c.pids_limit;
  provider_spiffe_workload_api_socket = c.provider_spiffe_workload_api_socket;
  gateway_grpc_endpoint = c.gateway_grpc_endpoint;
  gateway_grpc_port = c.gateway_grpc_port;
  sandbox_ssh_socket_path = c.sandbox_ssh_socket_path;
  health_check_interval_secs = c.health_check_interval_secs;
  userns_mode = c.userns_mode;
  sandbox_namespace = [];
  default_cpu_nanos = pos 2000000000;
  default_memory_bytes = pos 4294967296;
  guest_tls_ca = c.guest_tls_ca;
  guest_tls_cert = c.guest_tls_cert;
  guest_tls_key = c.guest_tls_key;
  upstream_proxy_url = c.https_proxy;
  upstream_proxy_no_proxy = c.no_proxy;
  upstream_proxy_auth_file = c.proxy_auth_file;
  upstream_proxy_ca_bundle = c.proxy_ca_bundle;
  upstream_proxy_connect_by_hostname = is_true c.proxy_connect_by_hostname;
  egress_ca_bundle = c.egress_ca_bundle;
  reconcile_data_ownership = c.reconcile_data_ownership;
  native_container_create = not (is_nil c.userns_mode);
  native_network_create = true;
  native_network_verify = true;
}

-- The host to connect to, and the settings. The client itself cannot fail here.
unfoldable pub new_with_config :
    Machine → System → Config → Result ConfigError (Str × RuntimeConfig)
unfolding checked host_of runtime_config
new_with_config m sys c = do
  c' ← checked m c
  host ← host_of sys c'
  ok (host, runtime_config host c')
