-- ===== src/Podman/Config.antt =====
-- `Config` of internal/podman/podman.go and `ConfigFromMap` of internal/podman/config.go.
use whaleshell_driver.Base.{
  Str, codes, trim_space, equal_fold, is_nil, leb, ltb_ℤ, Bool, true, false, not, ◌&&◌, ◌||◌, List,
  [], ◌∷◌, if◌then◌else◌, Option, none, some, Result, ok, err, ◌>>=◌, ◌>>◌, reject_if, ℤ, pos, ◌-◌,
  ◌^◌, ◌/◌,
}
use whaleshell_driver.Base.Assoc.{find}
use whaleshell_driver.Config.{
  Value, text_list, any_list, Machine, ConfigError, Upstream, string_value, non_empty_value,
  bool_value, int64_of, validate_guest_tls_paths, validate_egress_ca_bundle, validate_proxy_config,
  normalize_image_pull_policy, is_unclean, set_with,
}
use whaleshell_driver.Defaults.{FileInfo}
use whaleshell_driver.Podman.Userns.{IdMapping, parse_entries, canonical_userns_mode}

pub record Config : Type 0 where
  pub socket_path : Str
  pub default_image : Str
  pub network_name : Str
  pub host_gateway_ip : Str
  pub image_pull_policy : Str
  pub stop_timeout_secs : ℤ
  pub pids_limit : ℤ
  pub enable_bind_mounts : Bool
  pub provider_spiffe_workload_api_socket : Str
  pub gateway_grpc_endpoint : Str
  pub gateway_grpc_port : ℤ
  pub sandbox_ssh_socket_path : Str
  pub health_check_interval_secs : ℤ
  pub userns_mode : Str
  pub uid_map : List IdMapping
  pub gid_map : List IdMapping
  pub guest_tls_ca : Str
  pub guest_tls_cert : Str
  pub guest_tls_key : Str
  pub https_proxy : Str
  pub no_proxy : Str
  pub proxy_auth_file : Str
  pub proxy_auth_allow_insecure : Option Bool
  pub proxy_connect_by_hostname : Option Bool
  pub proxy_ca_bundle : Str
  pub registry_auth_file : Str
  pub egress_ca_bundle : Str
  pub reconcile_data_ownership : Bool

-- The configuration before the first field is read.
abbrev pub initial : Config
initial = record {
  socket_path = [];
  default_image = [];
  network_name = [];
  host_gateway_ip = [];
  image_pull_policy = [];
  stop_timeout_secs = pos 0;
  pids_limit = pos 0;
  enable_bind_mounts = false;
  provider_spiffe_workload_api_socket = [];
  gateway_grpc_endpoint = [];
  gateway_grpc_port = pos 0;
  sandbox_ssh_socket_path = [];
  health_check_interval_secs = pos 10;
  userns_mode = [];
  uid_map = [];
  gid_map = [];
  guest_tls_ca = [];
  guest_tls_cert = [];
  guest_tls_key = [];
  https_proxy = [];
  no_proxy = [];
  proxy_auth_file = [];
  proxy_auth_allow_insecure = none;
  proxy_connect_by_hostname = none;
  proxy_ca_bundle = [];
  registry_auth_file = [];
  egress_ca_bundle = [];
  reconcile_data_ownership = false;
}

abbrev optional : Option Bool → Option (Option Bool)
optional none = none
optional (some b) = some (some b)

-- optionalBoolValue
unfoldable pub optional_bool_value : Value → Option (Option Bool)
unfolding bool_value
optional_bool_value v = optional (bool_value v)

-- The texts of a list of any values; none where one is no text.
all_texts : List (Option Str) → Option (List Str)
all_texts [] = some []
all_texts (none ∷ rest) = none
all_texts (some s ∷ rest) = elim (all_texts rest) [ none ↦ none | some ss ↦ some (s ∷ ss) ]

abbrev parsed : Option (List Str) → Option (List IdMapping)
parsed none = none
parsed (some entries) = elim (parse_entries entries) [ err why ↦ none | ok ms ↦ some ms ]

-- idMapListValue
unfoldable pub id_map_list_value : Value → Option (List IdMapping)
unfolding all_texts parse_entries
id_map_list_value (text_list entries) = parsed (some entries)
id_map_list_value (any_list entries) = parsed (all_texts entries)
id_map_list_value _ = none

-- The switch over the keys.
unfoldable pub fields : Machine → List (Str × (Value → Config → Option Config))
unfolding string_value non_empty_value bool_value int64_of optional_bool_value id_map_list_value
fields m =
    (codes "socket_path", set_with string_value (λ v c. record c { socket_path = v }))
    ∷ (codes "default_image", set_with string_value (λ v c. record c { default_image = v }))
    ∷ (codes "network_name", set_with string_value (λ v c. record c { network_name = v }))
    ∷ (codes "host_gateway_ip", set_with string_value (λ v c. record c { host_gateway_ip = v }))
    ∷ (codes "guest_tls_ca", set_with string_value (λ v c. record c { guest_tls_ca = v }))
    ∷ (codes "guest_tls_cert", set_with string_value (λ v c. record c { guest_tls_cert = v }))
    ∷ (codes "guest_tls_key", set_with string_value (λ v c. record c { guest_tls_key = v }))
    ∷ (codes "https_proxy", set_with non_empty_value (λ v c. record c { https_proxy = v }))
    ∷ (codes "no_proxy", set_with non_empty_value (λ v c. record c { no_proxy = v }))
    ∷ (codes "proxy_auth_file", set_with non_empty_value (λ v c. record c { proxy_auth_file = v }))
    ∷ (
      codes "proxy_auth_allow_insecure",
      set_with optional_bool_value (λ v c. record c { proxy_auth_allow_insecure = v }),
    )
    ∷ (
      codes "proxy_connect_by_hostname",
      set_with optional_bool_value (λ v c. record c { proxy_connect_by_hostname = v }),
    )
    ∷ (codes "proxy_ca_bundle", set_with non_empty_value (λ v c. record c { proxy_ca_bundle = v }))
    ∷ (
      codes "registry_auth_file",
      set_with string_value (λ v c. record c { registry_auth_file = v }),
    )
    ∷ (codes "egress_ca_bundle", set_with string_value (λ v c. record c { egress_ca_bundle = v }))
    ∷ (
      codes "reconcile_data_ownership",
      set_with bool_value (λ v c. record c { reconcile_data_ownership = v }),
    )
    ∷ (codes "image_pull_policy", set_with string_value (λ v c. record c { image_pull_policy = v }))
    ∷ (
      codes "provider_spiffe_workload_api_socket",
      set_with string_value (λ v c. record c { provider_spiffe_workload_api_socket = v }),
    )
    ∷ (codes "grpc_endpoint", set_with string_value (λ v c. record c { gateway_grpc_endpoint = v }))
    ∷ (
      codes "sandbox_ssh_socket_path",
      set_with string_value (λ v c. record c { sandbox_ssh_socket_path = v }),
    )
    ∷ (codes "stop_timeout_secs", set_with (int64_of m) (λ v c. record c { stop_timeout_secs = v }))
    ∷ (codes "gateway_port", set_with (int64_of m) (λ v c. record c { gateway_grpc_port = v }))
    ∷ (codes "sandbox_pids_limit", set_with (int64_of m) (λ v c. record c { pids_limit = v }))
    ∷ (codes "enable_bind_mounts", set_with bool_value (λ v c. record c { enable_bind_mounts = v }))
    ∷ (
      codes "health_check_interval_secs",
      set_with (int64_of m) (λ v c. record c { health_check_interval_secs = v }),
    )
    ∷ (codes "userns", set_with string_value (λ v c. record c { userns_mode = v }))
    ∷ (codes "uidmap", set_with id_map_list_value (λ v c. record c { uid_map = v }))
    ∷ (codes "gidmap", set_with id_map_list_value (λ v c. record c { gid_map = v }))
    ∷ []

abbrev or_unsupported :
    Str → Option (Value → Config → Option Config) → Value → Config → Result ConfigError Config
or_unsupported key none v cfg = err (ConfigError.unsupported_field key)
or_unsupported key (some assign) v cfg = elim (assign v cfg) [
  | none ↦ err (ConfigError.invalid_field key)
  | some cfg' ↦ ok cfg'
]

-- The loop over the map, in the order that the iteration gives.
unfoldable pub decode : Machine → List (Str × Value) → Config → Result ConfigError Config
unfolding fields find
decode m [] cfg = ok cfg
decode m ((key, v) ∷ rest) cfg = or_unsupported key (find key (fields m)) v cfg >>= decode m rest

abbrev pub usable : Option FileInfo → Bool
usable none = false
usable (some info) = info.is_regular && leb info.size (2 ^ 20)

abbrev is_missing : Option FileInfo → Bool
is_missing none = true
is_missing (some info) = false

-- validateRegistryAuthFile of internal/podman/registry_auth.go
unfoldable pub validate_registry_auth_file : Machine → Str → Result ConfigError (Unit {0})
unfolding trim_space is_unclean
validate_registry_auth_file m path = if is_nil (trim_space path) then ok tt else do
  reject_if (is_unclean path) ConfigError.registry_auth_file
  reject_if (not (usable (m.host.stat path))) ConfigError.registry_auth_file
  reject_if (is_missing (m.host.open_file path)) ConfigError.registry_auth_file

abbrev pub is_given : Option Bool → Bool
is_given none = false
is_given (some b) = true

abbrev pub is_true : Option Bool → Bool
is_true none = false
is_true (some b) = b

abbrev pub upstream : Config → Upstream
upstream c = record {
  url = c.https_proxy;
  no_proxy = c.no_proxy;
  auth_file = c.proxy_auth_file;
  insecure_given = is_given c.proxy_auth_allow_insecure;
  insecure = is_true c.proxy_auth_allow_insecure;
  connect_given = is_given c.proxy_connect_by_hostname;
  ca_bundle = c.proxy_ca_bundle;
}

abbrev pub canonical : Str → Result ConfigError Str
canonical s = elim (canonical_userns_mode s) [
  | err why ↦ err ConfigError.userns
  | ok mode ↦ ok mode
]

abbrev pub is_private : Str → Bool
is_private mode = equal_fold mode (codes "private")

-- The checks of the files, the addresses and the proxy.
unfoldable pub check_files : Machine → Config → Result ConfigError (Unit {0})
check_files m c = do
  validate_guest_tls_paths c.guest_tls_ca c.guest_tls_cert c.guest_tls_key
  validate_registry_auth_file m c.registry_auth_file
  validate_egress_ca_bundle m c.egress_ca_bundle
  validate_proxy_config m (upstream c)

abbrev pub is_bad_ip : Machine → Str → Bool
is_bad_ip m ip = not (is_nil ip) && not (m.is_ip ip)

-- The bounds: the interval is later counted in nanoseconds, in 64 bits.
abbrev pub is_out_of_range : Config → Bool
is_out_of_range c =
    ltb_ℤ c.stop_timeout_secs (pos 0)
    || (ltb_ℤ c.pids_limit (pos 0)
        || (ltb_ℤ c.gateway_grpc_port (pos 0)
            || (ltb_ℤ (pos 65535) c.gateway_grpc_port
                || (ltb_ℤ c.health_check_interval_secs (pos 0)
                    || ltb_ℤ (pos ((2 ^ 63 - 1) / 1000000000)) c.health_check_interval_secs))))

-- What follows the loop.
unfoldable pub check_config : Machine → Config → Result ConfigError Config
unfolding equal_fold
check_config m c = do
  reject_if (is_bad_ip m c.host_gateway_ip) ConfigError.host_gateway_ip
  check_files m c
  reject_if (is_out_of_range c) ConfigError.out_of_range
  policy ← normalize_image_pull_policy c.image_pull_policy
  mode ← canonical c.userns_mode
  reject_if (is_private mode && (is_nil c.uid_map || is_nil c.gid_map))
      ConfigError.private_without_maps
  reject_if (not (is_private mode) && (not (is_nil c.uid_map) || not (is_nil c.gid_map)))
      ConfigError.maps_without_private
  ok (record c { image_pull_policy = policy; userns_mode = mode })

-- ConfigFromMap
unfoldable pub config_from_map : Machine → List (Str × Value) → Result ConfigError Config
unfolding decode check_config
config_from_map m values = decode m values initial >>= check_config m
