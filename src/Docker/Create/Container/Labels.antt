-- ===== src/Docker/Create/Container/Labels.antt =====
-- The binds and the labels of the sandbox container in internal/docker/docker.go.
use whaleshell_driver.Base.{
  Str, codes, trim_space, is_nil, Bool, true, false, not, ◌&&◌, List, [], ◌∷◌, ◌++◌, Option, none,
  some,
}
use whaleshell_driver.Base.Assoc.{insert}
use whaleshell_driver.Base.Decimal.{show_ℤ}
use whaleshell_driver.Docker.Create.Naming.{ca_volume, ssh_volume, data_volume}
use whaleshell_driver.GoPath.{dir}
use whaleshell_driver.Gpu.{device_requests_for_gpu}
use whaleshell_driver.Runtime.{Driver, sandbox_ssh_socket_path}
use whaleshell_driver.Spec.{Spec}
use whaleshell_driver.Docker.Create.Container.Settings.{
  Plan, is_set, hardened, displays, display_port,
}

abbrev bind_if : Bool → Str → List Str
bind_if true b = b ∷ []
bind_if false b = []

unfoldable pub sandbox_binds : Driver → Spec → Plan → List Str → List Str
unfolding sandbox_ssh_socket_path
sandbox_binds d spec plan driver_binds =
    let with_proxy = is_set spec.proxy_bin in
    let with_ssh = with_proxy && spec.enable_ssh in
    let dflt = d.defaults in
    ((plan.workspace ++ (codes ":" ++ (dflt.guest_workspace ++ codes ":rw"))) ∷ driver_binds)
    ++ (bind_if with_proxy
          (ca_volume plan.name ++ (codes ":" ++ (dflt.guest_ca_dir ++ codes ":ro")))
        ++ (bind_if spec.persist_volume
              (data_volume plan.name ++ (codes ":" ++ (dflt.guest_data ++ codes ":rw")))
            ++ (bind_if (hardened spec) (spec.init_bin ++ codes ":/cauteum-haven/cauteum-init:ro")
                ++ (bind_if (hardened spec && not (is_nil spec.policy_path))
                      (spec.policy_path ++ codes ":/cauteum/policy.yaml:ro")
                    ++ (bind_if (is_set spec.supervisor_bin)
                          (spec.supervisor_bin ++ codes ":/cauteum-haven/cauteum-supervisor:ro")
                        ++ (bind_if with_ssh
                              (spec.ssh_bin ++ (codes ":" ++ (dflt.guest_sshd ++ codes ":ro")))
                            ++ bind_if with_ssh (
                                ssh_volume plan.name
                                ++ (codes ":"
                                    ++ (dir (sandbox_ssh_socket_path d) ++ codes ":rw")))))))))

abbrev put_if : Bool → Str → Str → List (Str × Str) → List (Str × Str)
put_if false k v m = m
put_if true k v m = insert k v m

-- The caller's labels, over those that are there.
unfoldable pub put_labels : List (Str × Str) → List (Str × Str) → List (Str × Str)
unfolding insert trim_space
put_labels m [] = m
put_labels m ((k, v) ∷ rest) = put_labels (put_if (is_set k) (trim_space k) v m) rest

abbrev or_given : Str → Option Str → Str
or_given s none = s
or_given s (some t) = t

unfoldable pub sandbox_labels : Driver → Spec → Plan → List (Str × Str)
unfolding insert put_labels trim_space show_ℤ device_requests_for_gpu
sandbox_labels d spec plan =
    let with_proxy = is_set spec.proxy_bin in
    let with_ssh = with_proxy && spec.enable_ssh in
    let start =
      (codes "cauteum.sandbox", codes "1")
      ∷ (codes "cauteum.name", plan.name)
      ∷ (codes "cauteum.network", plan.net)
      ∷ (codes "cauteum.role", codes "sandbox")
      ∷ [] in
    let ca = put_if with_proxy (codes "cauteum.ca_volume") (ca_volume plan.name) start in
    let user = put_labels ca spec.labels in
    let namespace =
      put_if (is_set d.runtime_config.sandbox_namespace) (codes "openshell.ai/sandbox-namespace")
        (trim_space d.runtime_config.sandbox_namespace) user in
    let volumes =
      put_if spec.persist_volume (codes "cauteum.volume") (data_volume plan.name) namespace in
    let policy =
      put_if (hardened spec && not (is_nil spec.policy_path)) (codes "cauteum.policy_path")
        (or_given spec.policy_path (d.host.abs spec.policy_path)) volumes in
    let init = put_if (hardened spec) (codes "cauteum.init") (codes "1") policy in
    let supervisor =
      put_if (is_set spec.supervisor_bin) (codes "cauteum.supervisor") (codes "go") init in
    let ssh = put_if with_ssh (codes "cauteum.ssh") (codes "1") supervisor in
    let volume = put_if with_ssh (codes "cauteum.ssh_volume") (ssh_volume plan.name) ssh in
    let display = put_if (displays spec) (codes "cauteum.display") (codes "novnc") volume in
    let port =
      put_if (displays spec) (codes "cauteum.display.port") (show_ℤ (display_port d spec))
        display in
    put_if (not (is_nil (device_requests_for_gpu d.host spec))) (codes "cauteum.gpu") (codes "1")
      port
