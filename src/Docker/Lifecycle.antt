-- ===== src/Docker/Lifecycle.antt =====
-- Stop, Delete, List, Inspect, ContainerIP and EnsureSSHDaemon of internal/docker/docker.go.
pub mod Removal
pub mod Lookup
use whaleshell_driver.Base.{
  ℕ, Str, codes, ◌==◌, trim_space, trim_prefix, has_prefix, is_nil, eqb, Bool, true, false, not,
  ◌&&◌, ◌||◌, List, [], ◌∷◌, ◌++◌, if◌then◌else◌, Option, none, some, ℤ, pos, negsuc, Result, ok,
  err,
}
use whaleshell_driver.Base.Assoc.{find, get}
use whaleshell_driver.Defaults.{Defaults}
use whaleshell_driver.Docker.Exec.{raw_exec, poll, label_role}
use whaleshell_driver.Docker.Proxy.{remove_proxy_sidecar}
use whaleshell_driver.Engine.{
  Request, ExecOptions, Inspected, InspectedConfig, InspectedState, Summary, M, World, pure, fail,
  attempt, call, send, demand, require, make, try, or_fail, inspect_container, find_container,
  ◌>>=◌, ◌>>◌,
}
use whaleshell_driver.Errors.{Error}
use whaleshell_driver.Limits.{or_default, stop_timeout_secs}
use whaleshell_driver.Name.{sanitize_name}
use whaleshell_driver.Runtime.{Driver, sandbox_ssh_socket_path, shell_quote}
use whaleshell_driver.Spec.{Info}

abbrev pub label_sandbox : Str
label_sandbox = codes "cauteum.sandbox"

abbrev pub label_name : Str
label_name = codes "cauteum.name"

abbrev pub label_network : Str
label_network = codes "cauteum.network"

abbrev pub label_volume : Str
label_volume = codes "cauteum.volume"

abbrev pub label_policy : Str
label_policy = codes "cauteum.policy_path"

-- A send under a test.
unfoldable pub send_if : Driver → Bool → Request → M (Option (Unit {0}))
send_if d false req = pure none
send_if d true req = send d.daemon req

-- The labels that `Delete` reads; a missing one is empty.
abbrev pub labels_of : Option InspectedConfig → List (Str × Str)
labels_of none = []
labels_of (some cfg) = cfg.labels

unfoldable pub remove_resources : Driver → Str → List (Str × Str) → M (Unit {0})
unfolding get
remove_resources d id labels = do
  let name = get label_name labels
  let net = get label_network labels
  let volume = get label_volume labels
  let ca = get (codes "cauteum.ca_volume") labels
  let ssh = get (codes "cauteum.ssh_volume") labels
  send d.daemon (Request.container_remove id)
  send_if d (not (is_nil name)) (Request.container_remove (codes "cauteum-proxy-" ++ name))
  send_if d (not (is_nil net)) (Request.network_remove net)
  send_if d (not (is_nil volume)) (Request.volume_remove volume)
  send_if d (not (is_nil ca)) (Request.volume_remove ca)
  send_if d (not (is_nil ssh)) (Request.volume_remove ssh)
  pure tt

-- `Config` is read without a test for nil.
unfoldable pub delete_inspected : Driver → Str → Option InspectedConfig → M (Unit {0})
delete_inspected d id none = fail Error.nil_dereference
delete_inspected d id (some cfg) = remove_resources d id cfg.labels

unfoldable pub delete : Driver → Str → M (Unit {0})
unfolding delete_inspected
delete d id = do
  info ← inspect_container d.daemon id Error.delete_inspect_failed
  delete_inspected d id info.config

unfoldable pub stop : Driver → Str → M (Unit {0})
stop d id = demand d.daemon (Request.container_stop id) Error.stop_failed

first_name : List Str → Str
unfolding trim_prefix
first_name [] = []
first_name (n ∷ ns) = trim_prefix n (codes "/")

info_of : Summary → Info
unfolding get first_name
info_of c = record {
  id = c.id;
  name = or_default (get label_name c.labels) (first_name c.names);
  network = get label_network c.labels;
  image = c.image;
  status = c.status;
}

unfoldable pub sandbox_rows : List Summary → List Info
unfolding info_of get
sandbox_rows [] = []
sandbox_rows (c ∷ cs) =
    let rest = sandbox_rows cs in
    if get label_role c.labels == codes "proxy" then rest else info_of c ∷ rest

unfoldable pub list : Driver → M (List Info)
unfolding sandbox_rows
list d = do
  let filter = (label_sandbox, codes "1") ∷ []
  items ←
      call (Request.container_list filter) (λ events. d.daemon.list events filter)
        (Error.list_failed [])
  pure (sandbox_rows items)

abbrev status_of : Option InspectedState → Str
status_of none = []
status_of (some s) = s.status

abbrev config_image : Option InspectedConfig → Str
config_image none = []
config_image (some cfg) = cfg.image

-- The name without Docker's slash and the prefix of the driver.
abbrev pub short_name : Str → Str
short_name name = trim_prefix (trim_prefix name (codes "/")) (codes "cauteum-")

abbrev pub is_managed : Inspected → Bool
is_managed c =
    get label_sandbox (labels_of c.config) == codes "1"
    || has_prefix (trim_prefix c.name (codes "/")) (codes "cauteum-")

inspected_info : Inspected → Info
unfolding get trim_prefix
inspected_info c = record {
  id = c.id;
  name = or_default (get label_name (labels_of c.config)) (short_name c.name);
  network = get label_network (labels_of c.config);
  image = config_image c.config;
  status = status_of c.state;
}

abbrev managed : Option Inspected → Option Inspected
managed none = none
managed (some c) = if is_managed c then some c else none

-- The loop over the candidates.
unfoldable pub inspect_first : Driver → Str → List Str → M Info
unfolding inspected_info
inspect_first d name [] = fail (Error.sandbox_not_found name)
inspect_first d name (id ∷ ids) = do
  let rest = inspect_first d name ids
  found ← find_container d.daemon id
  elim (managed found) [ none ↦ rest | some c ↦ pure (inspected_info c) ]

unfoldable pub inspect : Driver → Str → M Info
unfolding trim_space
inspect d name_or_id = do
  let name = trim_space name_or_id
  require (not (is_nil name)) Error.inspect_empty_name
  inspect_first d name (name ∷ (codes "cauteum-" ++ name) ∷ [])

unfoldable pub first_address : List (Str × Str) → Option Str
first_address [] = none
first_address ((net, ip) ∷ rest) =
    let later = first_address rest in if is_nil ip then later else some ip

abbrev pub valid_address : Option Str → Option Str
valid_address none = none
valid_address (some ip) = if is_nil ip then none else some ip

abbrev pub address_on : Str → List (Str × Str) → Option Str
address_on net networks = if is_nil net then none else valid_address (find net networks)

-- The networks stand in the order of the iteration over the map.
unfoldable pub pick_address : Str → List (Str × Str) → Option Str
unfolding first_address find
pick_address net networks = elim (address_on net networks) [
  | some ip ↦ some ip
  | none ↦ first_address networks
]

unfoldable pub container_ip : Driver → Str → Str → M Str
unfolding pick_address get
container_ip d id network_name = do
  require d.initialized Error.client_not_initialized
  c ← inspect_container d.daemon id Error.inspect_failed
  let net = if is_nil network_name then get label_network (labels_of c.config) else network_name
  or_fail (Error.no_container_ip net) (pick_address net c.networks)

abbrev is_running : Option InspectedState → Bool
is_running none = false
is_running (some s) = s.running

sshd_options : Driver → ExecOptions
unfolding shell_quote sandbox_ssh_socket_path
sshd_options d = record {
  cmd =
      codes "/bin/sh"
      ∷ codes "-c"
      ∷ (codes "exec "
          ++ (d.defaults.guest_sshd
              ++ (codes " --socket "
                  ++ (shell_quote (sandbox_ssh_socket_path d)
                      ++ (codes " >>" ++ (d.defaults.guest_ssh_log ++ codes " 2>&1"))))))
      ∷ [];
  env = [];
  user = codes "0";
  attach_output = false;
  attach_stdin = false;
  tty = false;
  working_dir = codes "/";
  console_size = none;
}

unfoldable pub ensure_ssh_daemon : Driver → Str → M (Unit {0})
unfolding sshd_options get
ensure_ssh_daemon d id = do
  info ← inspect_container d.daemon id Error.inspect_failed
  require (get (codes "cauteum.ssh") (labels_of info.config) == codes "1") Error.ssh_disabled
  require (is_running info.state) Error.not_running
  exec_id ← make d.daemon (Request.exec_create id (sshd_options d)) Error.sshd_create_failed
  demand d.daemon (Request.exec_start exec_id) Error.sshd_start_failed
  poll d (raw_exec d id (codes "test" ∷ codes "-S" ∷ sandbox_ssh_socket_path d ∷ []))
      (fail Error.sshd_timeout) d.rounds
