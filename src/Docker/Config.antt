-- ===== src/Docker/Config.antt =====
-- `ConfigFromMap` of internal/docker/config.go.
use whaleshell_driver.Base.{
  Str, codes, trim_space, contains, is_nil, ltb_ℤ, Bool, false, not, ◌&&◌, ◌||◌, List, [], ◌∷◌,
  ◌++◌, if◌then◌else◌, Option, none, some, Result, ok, err, ◌>>=◌, ◌>>◌, reject_if, pos,
}
use whaleshell_driver.Base.Assoc.{find}
use whaleshell_driver.Config.{
  Value, Machine, ConfigError, Upstream, string_value, non_empty_value, bool_value, int64_of,
  validate_guest_tls_paths, validate_egress_ca_bundle, validate_proxy_config,
  normalize_image_pull_policy, set_with,
}
use whaleshell_driver.Runtime.{RuntimeConfig}

-- The two variables that the loop fills.
pub record Decoded : Type 0 where
  pub cfg : RuntimeConfig
  pub socket : Str

abbrev pub initial : Decoded
initial = record {
  socket = [];
  cfg = record {
    runtime_context = [];
    enable_bind_mounts = false;
    default_image = [];
    network_name = [];
    host_gateway_ip = [];
    image_pull_policy = [];
    stop_timeout_secs = pos 0;
    pids_limit = pos 0;
    provider_spiffe_workload_api_socket = [];
    gateway_grpc_endpoint = [];
    gateway_grpc_port = pos 0;
    sandbox_ssh_socket_path = [];
    health_check_interval_secs = pos 0;
    userns_mode = [];
    sandbox_namespace = codes "default";
    default_cpu_nanos = pos 0;
    default_memory_bytes = pos 0;
    guest_tls_ca = [];
    guest_tls_cert = [];
    guest_tls_key = [];
    upstream_proxy_url = [];
    upstream_proxy_no_proxy = [];
    upstream_proxy_auth_file = [];
    upstream_proxy_auth_allow_insecure = false;
    upstream_proxy_ca_bundle = [];
    upstream_proxy_connect_by_hostname = false;
    egress_ca_bundle = [];
    reconcile_data_ownership = false;
    capabilities = [];
    native_container_create = false;
    native_network_create = false;
    native_network_verify = false;
  };
}

-- The setter of a field of the configuration.
abbrev on_cfg :
    {A : Type 0}
    → (Value → Option A)
    → (A → RuntimeConfig → RuntimeConfig)
    → Value
    → Decoded
    → Option Decoded
on_cfg read set = set_with read (λ v d. record d { cfg = set v d.cfg })

-- The switch over the keys.
unfoldable pub fields : Machine → List (Str × (Value → Decoded → Option Decoded))
unfolding string_value non_empty_value bool_value int64_of
fields m =
    (codes "socket_path", set_with string_value (λ v d. record d { socket = v }))
    ∷ (codes "default_image", on_cfg string_value (λ v c. record c { default_image = v }))
    ∷ (codes "sandbox_namespace", on_cfg string_value (λ v c. record c { sandbox_namespace = v }))
    ∷ (codes "guest_tls_ca", on_cfg string_value (λ v c. record c { guest_tls_ca = v }))
    ∷ (codes "guest_tls_cert", on_cfg string_value (λ v c. record c { guest_tls_cert = v }))
    ∷ (codes "guest_tls_key", on_cfg string_value (λ v c. record c { guest_tls_key = v }))
    ∷ (codes "network_name", on_cfg string_value (λ v c. record c { network_name = v }))
    ∷ (codes "host_gateway_ip", on_cfg string_value (λ v c. record c { host_gateway_ip = v }))
    ∷ (codes "grpc_endpoint", on_cfg string_value (λ v c. record c { gateway_grpc_endpoint = v }))
    ∷ (
      codes "ssh_socket_path",
      on_cfg string_value (λ v c. record c { sandbox_ssh_socket_path = v }),
    )
    ∷ (codes "sandbox_pids_limit", on_cfg (int64_of m) (λ v c. record c { pids_limit = v }))
    ∷ (codes "stop_timeout_secs", on_cfg (int64_of m) (λ v c. record c { stop_timeout_secs = v }))
    ∷ (codes "gateway_port", on_cfg (int64_of m) (λ v c. record c { gateway_grpc_port = v }))
    ∷ (codes "enable_bind_mounts", on_cfg bool_value (λ v c. record c { enable_bind_mounts = v }))
    ∷ (
      codes "provider_spiffe_workload_api_socket",
      on_cfg string_value (λ v c. record c { provider_spiffe_workload_api_socket = v }),
    )
    ∷ (codes "image_pull_policy", on_cfg string_value (λ v c. record c { image_pull_policy = v }))
    ∷ (codes "https_proxy", on_cfg non_empty_value (λ v c. record c { upstream_proxy_url = v }))
    ∷ (codes "no_proxy", on_cfg non_empty_value (λ v c. record c { upstream_proxy_no_proxy = v }))
    ∷ (
      codes "proxy_auth_file",
      on_cfg non_empty_value (λ v c. record c { upstream_proxy_auth_file = v }),
    )
    ∷ (
      codes "proxy_auth_allow_insecure",
      on_cfg bool_value (λ v c. record c { upstream_proxy_auth_allow_insecure = v }),
    )
    ∷ (
      codes "proxy_connect_by_hostname",
      on_cfg bool_value (λ v c. record c { upstream_proxy_connect_by_hostname = v }),
    )
    ∷ (
      codes "proxy_ca_bundle",
      on_cfg non_empty_value (λ v c. record c { upstream_proxy_ca_bundle = v }),
    )
    ∷ (codes "egress_ca_bundle", on_cfg string_value (λ v c. record c { egress_ca_bundle = v }))
    ∷ (
      codes "reconcile_data_ownership",
      on_cfg bool_value (λ v c. record c { reconcile_data_ownership = v }),
    )
    ∷ []

abbrev or_unsupported :
    Str → Option (Value → Decoded → Option Decoded) → Value → Decoded → Result ConfigError Decoded
or_unsupported key none v d = err (ConfigError.unsupported_field key)
or_unsupported key (some assign) v d = elim (assign v d) [
  | none ↦ err (ConfigError.invalid_field key)
  | some d' ↦ ok d'
]

-- The loop over the map, in the order that the iteration gives.
unfoldable pub decode : Machine → List (Str × Value) → Decoded → Result ConfigError Decoded
unfolding fields find
decode m [] d = ok d
decode m ((key, v) ∷ rest) d = or_unsupported key (find key (fields m)) v d >>= decode m rest

abbrev pub upstream : RuntimeConfig → Upstream
upstream c = record {
  url = c.upstream_proxy_url;
  no_proxy = c.upstream_proxy_no_proxy;
  auth_file = c.upstream_proxy_auth_file;
  insecure_given = c.upstream_proxy_auth_allow_insecure;
  insecure = c.upstream_proxy_auth_allow_insecure;
  connect_given = c.upstream_proxy_connect_by_hostname;
  ca_bundle = c.upstream_proxy_ca_bundle;
}

abbrev pub is_out_of_range : RuntimeConfig → Bool
is_out_of_range c =
    ltb_ℤ c.pids_limit (pos 0)
    || (ltb_ℤ c.stop_timeout_secs (pos 0)
        || (ltb_ℤ c.gateway_grpc_port (pos 0) || ltb_ℤ (pos 65535) c.gateway_grpc_port))

abbrev pub as_url : Str → Str
as_url socket =
    if not (is_nil socket) && not (contains socket (codes "://"))
    then codes "unix://" ++ socket
    else socket

-- What follows the loop.
unfoldable pub check_decoded : Machine → Decoded → Result ConfigError (RuntimeConfig × Str)
unfolding trim_space contains
check_decoded m d = do
  let c = d.cfg
  reject_if (not (is_nil c.host_gateway_ip) && not (m.is_ip c.host_gateway_ip))
      ConfigError.host_gateway_ip
  reject_if (is_nil (trim_space c.sandbox_namespace)) ConfigError.sandbox_namespace
  validate_guest_tls_paths c.guest_tls_ca c.guest_tls_cert c.guest_tls_key
  validate_proxy_config m (upstream c)
  validate_egress_ca_bundle m c.egress_ca_bundle
  reject_if (is_out_of_range c) ConfigError.out_of_range
  policy ← normalize_image_pull_policy c.image_pull_policy
  ok (record c { image_pull_policy = policy }, as_url d.socket)

-- ConfigFromMap: the configuration and the socket.
unfoldable pub config_from_map :
    Machine → List (Str × Value) → Result ConfigError (RuntimeConfig × Str)
unfolding decode check_decoded
config_from_map m values = decode m values initial >>= check_decoded m
