-- ===== src/Docker/Proxy.antt =====
-- `createProxySidecar` and `removeProxySidecar` of internal/docker/docker.go.
mod Files
pub mod Within
use whaleshell_driver.Base.{
  Result, ok, err, ℕ, Str, codes, trim_space, is_nil, leb, Bool, true, false, not, ◌&&◌, List, [],
  ◌∷◌, ◌++◌, if◌then◌else◌, Option, none, some, ℤ, pos, negsuc, ltb_ℤ,
}
use whaleshell_driver.Base.Decimal.{show_ℤ}
use whaleshell_driver.Docker.Exec.{wait_proxy_ca, wait_proxy_listening, label_role}
use whaleshell_driver.Engine.{
  log, Request, CreateOptions, ContainerConfig, HostConfig, M, World, pure, fail, lift, send,
  demand, require, make, try, ◌>>=◌, ◌>>◌,
}
use whaleshell_driver.Env.{merge_env}
use whaleshell_driver.Errors.{Error}
use whaleshell_driver.GoPath.{dir, join}
use whaleshell_driver.Limits.{sandbox_log_config, resolve_pids_limit, configured_pids_limit}
use whaleshell_driver.Runtime.{
  Driver, RuntimeConfig, gateway_hosts, sandbox_ssh_socket_path, upstream_proxy_env,
  egress_trust_env, provider_workload_socket,
}
use Files.{sidecar_binds}

-- The arguments of `createProxySidecar`.
pub record ProxyArgs : Type 0 where
  pub name : Str
  pub net : Str
  pub image : Str
  pub bin_path : Str
  pub policy_path : Str
  pub port : ℤ
  pub ca_vol : Str
  pub ssh_vol : Str
  pub tcp_dial_socket : Str
  pub proxy_env : List Str
  pub pids_limit : ℤ

-- A number that `network.ParsePort` takes.
unfoldable pub port_number : ℤ → Option ℕ
port_number (pos n) = if leb n 65535 then some n else none
port_number (negsuc n) = none

abbrev pub supervisor_control_socket : Driver → Str
supervisor_control_socket d =
    join (dir (sandbox_ssh_socket_path d) ∷ codes "supervisor-control.sock" ∷ [])

-- `mergeEnv` under a test.
abbrev pub merge_if : Bool → List Str → List Str → List Str
merge_if false env extra = env
merge_if true env extra = merge_env env extra

-- The environment up to the test of the SPIFFE socket.
unfoldable pub sidecar_env : Driver → ProxyArgs → List Str
unfolding upstream_proxy_env egress_trust_env merge_env
sidecar_env d a =
    let cfg = d.runtime_config in
    let env = merge_env (merge_env a.proxy_env (upstream_proxy_env d)) (egress_trust_env d) in
    let tls = merge_if (not (is_nil cfg.guest_tls_ca)) env (
      codes "CAUTEUM_GUEST_TLS_CA=/run/cauteum/gateway-tls/ca.pem"
      ∷ codes "CAUTEUM_GUEST_TLS_CERT=/run/cauteum/gateway-tls/cert.pem"
      ∷ codes "CAUTEUM_GUEST_TLS_KEY=/run/cauteum/gateway-tls/key.pem"
      ∷ []) in
    let spiffe = merge_if (not (is_nil cfg.provider_spiffe_workload_api_socket)) tls (
      (codes "CAUTEUM_PROVIDER_SPIFFE_WORKLOAD_API_SOCKET="
        ++ cfg.provider_spiffe_workload_api_socket)
      ∷ []) in
    let endpoint =
      merge_if (not (is_nil cfg.gateway_grpc_endpoint)) spiffe
        ((codes "CAUTEUM_GATEWAY_GRPC_ENDPOINT=" ++ cfg.gateway_grpc_endpoint) ∷ []) in
    merge_if (ltb_ℤ (pos 0) cfg.gateway_grpc_port) endpoint
      ((codes "CAUTEUM_GATEWAY_GRPC_PORT=" ++ show_ℤ cfg.gateway_grpc_port) ∷ [])

-- The entries for the relay over the shared SSH volume.
unfoldable pub relay_env : Driver → ProxyArgs → List Str → List Str
unfolding sandbox_ssh_socket_path merge_env trim_space
relay_env d a env =
    let socket = merge_env env (
      (codes "CAUTEUM_SSH_SOCKET=" ++ sandbox_ssh_socket_path d)
      ∷ (codes "CAUTEUM_SANDBOX=" ++ a.name)
      ∷ []) in
    let control =
      merge_if (not (is_nil (trim_space d.runtime_config.gateway_grpc_endpoint))) socket
        ((codes "CAUTEUM_SUPERVISOR_CONTROL_SOCKET=" ++ supervisor_control_socket d) ∷ []) in
    merge_if (not (is_nil a.tcp_dial_socket)) control
      ((codes "CAUTEUM_TCP_DIAL_SOCKET=" ++ a.tcp_dial_socket) ∷ [])

abbrev or_given : Str → Option Str → Str
or_given s none = s
or_given s (some t) = t

unfoldable pub sidecar_options : Driver → ProxyArgs → ℕ → List Str → Str → CreateOptions
unfolding sidecar_env relay_env gateway_hosts sandbox_log_config resolve_pids_limit
    configured_pids_limit
sidecar_options d a port binds socket_path =
    let env = sidecar_env d a in
    let with_ssh = not (is_nil a.ssh_vol) in
    let ctr_name = codes "cauteum-proxy-" ++ a.name in
    record {
      config = record {
        image = a.image;
        entrypoint = codes "/cauteum/cauteum" ∷ [];
        cmd =
            codes "proxy"
            ∷ codes "--listen"
            ∷ (codes "0.0.0.0:" ++ show_ℤ a.port)
            ∷ codes "--policy"
            ∷ codes "/cauteum/policy.yaml"
            ∷ (if is_nil a.ca_vol then [] else codes "--ca-out" ∷ codes "/cauteum/ca/ca.pem" ∷ []);
        env = if with_ssh then relay_env d a env else env;
        labels =
            (codes "cauteum.sandbox", codes "1")
            ∷ (codes "cauteum.name", a.name)
            ∷ (codes "cauteum.network", a.net)
            ∷ (label_role, codes "proxy")
            ∷ (codes "cauteum.policy_path", or_given a.policy_path (d.host.abs a.policy_path))
            ∷ [];
        working_dir = [];
        user = [];
        exposed_ports = port ∷ [];
        tty = false;
        open_stdin = false;
        healthcheck = none;
      };
      host = record {
        binds =
            binds
            ++ ((if is_nil socket_path
                  then []
                  else (socket_path ++ (codes ":" ++ socket_path)) ∷ [])
                ++ (if with_ssh
                    then (a.ssh_vol
                        ++ (codes ":" ++ (dir (sandbox_ssh_socket_path d) ++ codes ":rw")))
                      ∷ []
                    else []));
        mounts = [];
        network_mode = a.net;
        security_opt = [];
        cap_drop = [];
        extra_hosts = gateway_hosts d;
        log_config = sandbox_log_config d.host;
        pids_limit =
            resolve_pids_limit d.defaults d.host
              (configured_pids_limit d.runtime_config.pids_limit a.pids_limit);
        nano_cpus = pos 0;
        memory = pos 0;
        userns_mode = [];
        device_requests = [];
        port_bindings = [];
        shm_size = 0;
        privileged = false;
        devices = [];
        volumes_from = [];
        cap_add = [];
        tmpfs = [];
      };
      endpoints = (a.net, codes "cauteum-proxy" ∷ ctr_name ∷ []) ∷ [];
      name = ctr_name;
    }

-- The error of a wait that the end of the context cut off.
abbrev pub is_cancelled : Error → Bool
is_cancelled Error.cancelled = true
is_cancelled _ = false

-- A call under the caller's context: where that is over, it fails and nothing is sent.
unfoldable pub send_within : Driver → Bool → Request → M (Option (Unit {0}))
send_within d true req w = (ok none, log req false [] w)
send_within d false req w = send d.daemon req w

-- On an error: remove the container, and return the error.
unfoldable pub after_failure :
    Driver → Str → Result Error (Unit {0}) × World → Result Error (Unit {0}) × World
unfolding send_within
after_failure d id (ok u, w) = (ok u, w)
after_failure d id (err e, w) =
    (send_within d (is_cancelled e) (Request.container_remove id) >> fail e) w

unfoldable pub removing : Driver → Str → M (Unit {0}) → M (Unit {0})
unfolding after_failure
removing d id m w = after_failure d id (m w)

-- What follows the creation of the sidecar's container; each error removes it.
unfoldable pub launch_sidecar : Driver → ProxyArgs → Str → M (Unit {0})
launch_sidecar d a id = do
  demand d.daemon (Request.network_connect (codes "bridge") id) Error.proxy_connect_failed
  demand d.daemon (Request.container_start id) Error.proxy_start_failed
  (if is_nil a.ca_vol then pure tt else wait_proxy_ca d id)
  wait_proxy_listening d id a.port

unfoldable pub with_port : Driver → ProxyArgs → Option ℕ → M (Unit {0})
unfolding sidecar_options sidecar_binds provider_workload_socket sidecar_env
with_port d a none = fail Error.proxy_port
with_port d a (some port) = do
  binds ← lift (sidecar_binds d a.bin_path a.policy_path a.ca_vol)
  socket_path ← lift (provider_workload_socket d.host (sidecar_env d a))
  id ←
      make d.daemon (Request.container_create (sidecar_options d a port binds socket_path))
        Error.proxy_create_failed
  removing d id (launch_sidecar d a id)

unfoldable pub create_proxy_sidecar : Driver → ProxyArgs → M (Unit {0})
unfolding port_number
create_proxy_sidecar d a = with_port d a (port_number a.port)

unfoldable pub remove_proxy_sidecar : Driver → Str → M (Option (Unit {0}))
remove_proxy_sidecar d name =
    send d.daemon (Request.container_remove (codes "cauteum-proxy-" ++ name))
