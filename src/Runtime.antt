-- ===== src/Runtime.antt =====
-- `RuntimeConfig` of internal/docker/docker.go, with internal/docker/runtime_config.go.
pub mod Quote
use whaleshell_driver.Base.{
  ℕ, Str, codes, ◌==◌, trim_space, trim_prefix, cut, eqb, is_nil, Bool, true, false, not, ◌&&◌,
  ◌||◌, List, [], ◌∷◌, ◌++◌, if◌then◌else◌, Option, none, some, Result, ok, err, ℤ, pos, ltb_ℤ,
}
use whaleshell_driver.Defaults.{Defaults, Host}
use whaleshell_driver.GoPath.{is_abs, clean}
use whaleshell_driver.Engine.{Daemon}
use whaleshell_driver.Errors.{Error}
use whaleshell_driver.Limits.{or_default}

-- The default CPU, a float, is in billionths of a CPU. A callback of the backend is only known to
-- be set or not: what it answers is the daemon's part.
pub record RuntimeConfig : Type 0 where
  pub runtime_context : Str
  pub enable_bind_mounts : Bool
  pub default_image : Str
  pub network_name : Str
  pub host_gateway_ip : Str
  pub image_pull_policy : Str
  pub stop_timeout_secs : ℤ
  pub pids_limit : ℤ
  pub provider_spiffe_workload_api_socket : Str
  pub gateway_grpc_endpoint : Str
  pub gateway_grpc_port : ℤ
  pub sandbox_ssh_socket_path : Str
  pub health_check_interval_secs : ℤ
  pub userns_mode : Str
  pub sandbox_namespace : Str
  pub default_cpu_nanos : ℤ
  pub default_memory_bytes : ℤ
  pub guest_tls_ca : Str
  pub guest_tls_cert : Str
  pub guest_tls_key : Str
  pub upstream_proxy_url : Str
  pub upstream_proxy_no_proxy : Str
  pub upstream_proxy_auth_file : Str
  pub upstream_proxy_auth_allow_insecure : Bool
  pub upstream_proxy_ca_bundle : Str
  pub upstream_proxy_connect_by_hostname : Bool
  pub egress_ca_bundle : Str
  pub reconcile_data_ownership : Bool
  pub capabilities : List Str
  pub native_container_create : Bool
  pub native_network_create : Bool
  pub native_network_verify : Bool

-- The host's terminal.
pub record Terminal : Type 0 where
  pub stdin_is_terminal : Bool
  pub stdout_is_terminal : Bool
  -- width and height, `none` where the call fails or one of them is not positive
  pub size : Option (ℕ × ℕ)
  pub raw_mode : Bool

-- A `Driver` and what it runs on. A wait for readiness makes `rounds` attempts before its deadline;
-- `cancelled n` says that the context ends in the round with n more to go.
pub record Driver : Type 0 where
  pub initialized : Bool
  pub runtime_config : RuntimeConfig
  pub daemon : Daemon
  pub defaults : Defaults
  pub host : Host
  pub terminal : Terminal
  pub rounds : ℕ
  pub cancelled : ℕ → Bool
  -- net.ParseIP succeeds
  pub is_ip : Str → Bool

-- Go's `d == nil` is `initialized` being false.
unfoldable pub host_gateway_extra_hosts : Defaults → List Str
host_gateway_extra_hosts d =
    (d.host_internal ++ codes ":host-gateway") ∷ codes "host.docker.internal:host-gateway" ∷ []

unfoldable pub gateway_hosts : Driver → List Str
unfolding host_gateway_extra_hosts trim_space
gateway_hosts d =
    let ip = trim_space d.runtime_config.host_gateway_ip in
    if d.is_ip ip
    then (codes "host.cauteum.internal:" ++ ip) ∷ (codes "host.docker.internal:" ++ ip) ∷ []
    else host_gateway_extra_hosts d.defaults

unfoldable pub sandbox_ssh_socket_path : Driver → Str
unfolding trim_space
sandbox_ssh_socket_path d =
    or_default (trim_space d.runtime_config.sandbox_ssh_socket_path) d.defaults.guest_ssh_socket

abbrev bool_text : Bool → Str
bool_text true = codes "true"
bool_text false = codes "false"

abbrev entry_if : Bool → Str → List Str
entry_if true e = e ∷ []
entry_if false e = []

unfoldable pub upstream_proxy_env : Driver → List Str
unfolding trim_space
upstream_proxy_env d =
    let cfg = d.runtime_config in
    let url = cfg.upstream_proxy_url in
    let bypass = cfg.upstream_proxy_no_proxy in
    if not d.initialized || is_nil (trim_space url)
    then []
    else (codes "HTTPS_PROXY=" ++ url)
      ∷ (codes "https_proxy=" ++ url)
      ∷ (codes "HTTP_PROXY=" ++ url)
      ∷ (codes "http_proxy=" ++ url)
      ∷ (codes "NO_PROXY=" ++ bypass)
      ∷ (codes "no_proxy=" ++ bypass)
      ∷ (codes "CAUTEUM_PROXY_CONNECT_BY_HOSTNAME="
          ++ bool_text cfg.upstream_proxy_connect_by_hostname)
      ∷ (entry_if (not (is_nil cfg.upstream_proxy_auth_file))
            (codes "CAUTEUM_PROXY_AUTH_FILE=/run/cauteum/upstream-proxy/auth")
          ++ entry_if (not (is_nil cfg.upstream_proxy_ca_bundle))
              (codes "CAUTEUM_PROXY_CA_BUNDLE=/run/cauteum/upstream-proxy/ca.pem"))

unfoldable pub egress_trust_env : Driver → List Str
unfolding trim_space
egress_trust_env d =
    if not d.initialized || is_nil (trim_space d.runtime_config.egress_ca_bundle)
    then []
    else codes "CAUTEUM_EGRESS_CA_BUNDLE=/run/cauteum/egress-ca/ca.pem" ∷ []

-- The checks of one socket path.
check_socket : Host → Str → Result Error Str
unfolding is_abs clean
check_socket host value =
    if is_nil value || not (is_abs value) || not (clean value == value)
    then err Error.spiffe_socket
    else elim (host.stat value) [
      | none ↦ err Error.spiffe_socket
      | some info ↦ if info.is_socket then ok value else err Error.spiffe_socket
    ]

socket_entry : Host → Option (Str × Str) → Result Error Str → Result Error Str
unfolding check_socket trim_space trim_prefix
socket_entry host none rest = rest
socket_entry host (some (key, value)) rest =
    if key == codes "CAUTEUM_PROVIDER_SPIFFE_WORKLOAD_API_SOCKET"
    then check_socket host (trim_space (trim_prefix value (codes "unix://")))
    else rest

-- The first entry of the variable decides; empty where there is none.
unfoldable pub provider_workload_socket : Host → List Str → Result Error Str
unfolding socket_entry cut
provider_workload_socket host [] = ok []
provider_workload_socket host (entry ∷ env) =
    socket_entry host (cut entry b'=') (provider_workload_socket host env)

-- `'\''` for each quote.
unfoldable pub quote_body : Str → Str
quote_body [] = []
quote_body (c ∷ s) =
    let rest = quote_body s in
    if eqb c b'\'' then b'\'' ∷ b'\\' ∷ b'\'' ∷ b'\'' ∷ rest else c ∷ rest

unfoldable pub shell_quote : Str → Str
unfolding quote_body
shell_quote value = b'\'' ∷ (quote_body value ++ b'\'' ∷ [])
