-- ===== src/Docker/Create/Container/Environment.antt =====
-- The environment of the sandbox container in internal/docker/docker.go.
use whaleshell_driver.Base.{
  Str, codes, trim_space, is_nil, Bool, true, false, not, ◌&&◌, List, [], ◌∷◌, ◌++◌,
}
use whaleshell_driver.Base.Decimal.{show}
use whaleshell_driver.Docker.Create.Naming.{proxy_name}
use whaleshell_driver.Env.{merge_env, filter_identity_env}
use whaleshell_driver.GoPath.{dir, join}
use whaleshell_driver.Limits.{or_default}
use whaleshell_driver.Runtime.{Driver, sandbox_ssh_socket_path}
use whaleshell_driver.Sidecar.{proxy_env, ca_bundle_env}
use whaleshell_driver.Spec.{Spec}
use whaleshell_driver.Docker.Create.Container.Settings.{
  Plan, is_set, hardened, displays, effective_port,
}

-- `mergeEnv` under a test.
abbrev pub merge_if : Bool → List Str → List Str → List Str
merge_if false env extra = env
merge_if true env extra = merge_env env extra

-- The environment entries that each feature adds, in the order in which `Create` merges them.
unfoldable pub added_env : Driver → Spec → Plan → List (Bool × List Str)
unfolding proxy_env ca_bundle_env sandbox_ssh_socket_path show
added_env d spec plan =
    let with_proxy = is_set spec.proxy_bin in
    let with_ssh = with_proxy && spec.enable_ssh in
    let dflt = d.defaults in
    (with_proxy, proxy_env dflt (proxy_name plan.name) (effective_port d spec))
    ∷ (with_proxy, ca_bundle_env dflt dflt.guest_ca_file)
    ∷ (
      spec.persist_volume,
      (codes "CAUTEUM_DATA=" ++ dflt.guest_data)
          ∷ (codes "HOME=" ++ dflt.guest_home)
          ∷ (codes "PATH=" ++ dflt.guest_path)
          ∷ [],
    )
    ∷ (
      spec.persist_volume && d.runtime_config.reconcile_data_ownership,
      codes "CAUTEUM_RECONCILE_DATA_OWNERSHIP=1" ∷ [],
    )
    ∷ (
      hardened spec && not (is_nil spec.policy_path),
      codes "CAUTEUM_POLICY=/cauteum/policy.yaml" ∷ [],
    )
    ∷ (
      with_ssh && not (is_nil plan.tcp_dial_socket),
      (codes "CAUTEUM_RELAY_TARGET_SOCKET=" ++ plan.tcp_dial_socket) ∷ [],
    )
    ∷ (
      with_ssh && is_set spec.supervisor_bin && is_set d.runtime_config.gateway_grpc_endpoint,
      (codes "CAUTEUM_SUPERVISOR_CONTROL_SOCKET="
            ++ join (dir (sandbox_ssh_socket_path d) ∷ codes "supervisor-control.sock" ∷ []))
          ∷ [],
    )
    ∷ (
      displays spec,
      codes "DISPLAY_MODE=novnc"
          ∷ codes "DISPLAY=:99"
          ∷ (codes "CAUTEUM_VNC_PASSWORD="
              ++ or_default (trim_space spec.display_password) (codes "cauteum"))
          ∷ (codes "CAUTEUM_NOVNC_PORT=" ++ show dflt.no_vnc_port)
          ∷ [],
    )
    ∷ []

unfoldable pub merge_added : List Str → List (Bool × List Str) → List Str
merge_added env [] = env
merge_added env ((wanted, extra) ∷ rest) = merge_added (merge_if wanted env extra) rest

unfoldable pub sandbox_env : Driver → Spec → Plan → List Str
unfolding added_env merge_added
sandbox_env d spec plan =
    merge_added
      (merge_env (filter_identity_env spec.env)
        ((codes "OPENSHELL_OCI_IMAGE_USER=" ++ plan.image_user) ∷ []))
      (added_env d spec plan)
