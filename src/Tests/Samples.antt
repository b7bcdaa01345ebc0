-- ===== src/Tests/Samples.antt =====
-- A host, a daemon and a request for a sandbox, on which the theorems are tried.
use whaleshell_driver.Base.{
  Str, codes, ◌==◌, Bool, true, false, [], ◌∷◌, Option, none, some, if◌then◌else◌, pos,
}
use whaleshell_driver.Defaults.{Defaults, FileInfo, Host}
use whaleshell_driver.Engine.{Request, Daemon, World, Inspected, InspectedConfig}
use whaleshell_driver.Runtime.{RuntimeConfig, Driver}
use whaleshell_driver.Spec.{Spec}

abbrev pub sample_defaults : Defaults
sample_defaults = record {
  image_debian = codes "debian";
  image_local = codes "cauteum-sandbox:local";
  image_gui = codes "cauteum-sandbox:gui";
  image_gpu = codes "cauteum-sandbox:gpu";
  image_proxy = codes "debian";
  proxy_port = 3128;
  no_vnc_port = 6080;
  sandbox_pids_limit = 512;
  guest_root = codes "/cauteum";
  guest_etc_osg = codes "/etc/cauteum";
  guest_workspace = codes "/workspace";
  guest_data = codes "/cauteum/data";
  guest_home = codes "/cauteum/data/home";
  guest_bin = codes "/cauteum/bin";
  guest_path = codes "/usr/bin";
  guest_ca_file = codes "/cauteum/ca/ca.pem";
  guest_ca_dir = codes "/cauteum/ca";
  guest_sshd = codes "/cauteum/bin/sshd";
  guest_ssh_log = codes "/tmp/ssh.log";
  guest_ssh_socket = codes "/cauteum/ssh/sshd.sock";
  host_internal = codes "host.cauteum.internal";
  no_proxy_value = codes "localhost";
  env_image_pull = codes "CAUTEUM_IMAGE_PULL";
  published_image = λ image. none;
}

abbrev pub a_file : FileInfo
a_file = record {
  is_dir = false;
  is_regular = true;
  is_socket = false;
  is_executable = true;
  size = 10;
}

abbrev pub a_directory : FileInfo
a_directory = record {
  is_dir = true;
  is_regular = false;
  is_socket = false;
  is_executable = true;
  size = 0;
}

abbrev pub sample_host : Host
sample_host = record {
  getenv = λ name. [];
  user_home_dir = some (codes "/home/ann");
  abs = some;
  eval_symlinks = some;
  stat = λ path. if path == codes "/srv/work" then some a_directory else some a_file;
  open_file = λ path. some a_file;
  read_file = λ path. none;
  read_dir = λ path. none;
}

abbrev pub sample_config : RuntimeConfig
sample_config = record {
  default_image = [];
  network_name = [];
  host_gateway_ip = [];
  image_pull_policy = [];
  stop_timeout_secs = pos 0;
  pids_limit = pos 0;
  provider_spiffe_workload_api_socket = [];
  gateway_grpc_endpoint = [];
  gateway_grpc_port = pos 0;
  sandbox_ssh_socket_path = [];
  health_check_interval_secs = pos 0;
  userns_mode = [];
  sandbox_namespace = [];
  default_cpu_nanos = pos 0;
  default_memory_bytes = pos 0;
  guest_tls_ca = [];
  guest_tls_cert = [];
  guest_tls_key = [];
  upstream_proxy_url = [];
  upstream_proxy_no_proxy = [];
  upstream_proxy_auth_file = [];
  upstream_proxy_ca_bundle = [];
  upstream_proxy_connect_by_hostname = false;
  egress_ca_bundle = [];
  reconcile_data_ownership = false;
  native_container_create = false;
  native_network_create = false;
  native_network_verify = false;
  runtime_context = [];
  enable_bind_mounts = false;
  upstream_proxy_auth_allow_insecure = false;
  capabilities = [];
}

-- The labels and the environment of an inspected sandbox called `dev`.
abbrev pub dev_config : InspectedConfig
dev_config = record {
  image = codes "debian";
  env = codes "HOME=/root" ∷ [];
  labels =
      (codes "cauteum.name", codes "dev")
      ∷ (codes "cauteum.network", codes "cauteum-net-dev")
      ∷ (codes "cauteum.ca_volume", codes "cauteum-ca-dev")
      ∷ [];
}

abbrev pub dev_container : Inspected
dev_container = record {
  id = codes "c1";
  name = codes "/cauteum-dev";
  config = some dev_config;
  state = none;
  mounts = [];
  networks = (codes "bridge", []) ∷ (codes "cauteum-net-dev", codes "10.0.0.2") ∷ [];
}

-- A daemon that does all it is asked, and makes containers only if `makes` holds; a volume or a
-- network is never there before.
abbrev makes_id : Bool → Request → Option Str
makes_id makes (Request.container_create options) = if makes then some (codes "c1") else none
makes_id makes (Request.exec_create id options) = some (codes "e1")
makes_id makes _ = none

abbrev accepts_request : Request → Bool
accepts_request (Request.volume_inspect v) = false
accepts_request _ = true

abbrev pub sample_daemon : Bool → Daemon
sample_daemon makes = record {
  list = λ events filter. some [];
  inspect = λ events id. some dev_container;
  image = λ events image. some (record { id = codes "sha256:1"; user = codes "agent" });
  network = λ events net. none;
  created = λ events req. makes_id makes req;
  undelivered = λ events options. none;
  exit_code = λ events id. some (pos 0);
  done = λ events req. accepts_request req;
  registry_auth = λ image. some [];
}

abbrev pub sample_driver : Bool → Driver
sample_driver makes = record {
  initialized = true;
  runtime_config = sample_config;
  daemon = sample_daemon makes;
  defaults = sample_defaults;
  host = sample_host;
  terminal = record {
    stdin_is_terminal = false;
    stdout_is_terminal = false;
    size = none;
    raw_mode = true;
  };
  rounds = 3;
  cancelled = λ n. false;
  is_ip = λ text. false;
}

abbrev pub sample_spec : Spec
sample_spec = record {
  name = codes "dev";
  image = codes "debian";
  workspace = codes "/srv/work";
  command = [];
  env = codes "OPENSHELL_SANDBOX_UID=0" ∷ codes "EDITOR=vi" ∷ [];
  i_know = false;
  proxy_bin = codes "/opt/cauteum";
  policy_path = codes "/opt/policy.yaml";
  proxy_port = pos 0;
  proxy_env = [];
  init_bin = [];
  no_harden = false;
  supervisor_bin = [];
  display_mode = [];
  display_port = pos 0;
  display_password = [];
  labels = [];
  extra_hosts = [];
  gateway_url = [];
  persist_volume = true;
  enable_ssh = false;
  ssh_bin = [];
  gpu = false;
  gpu_count = pos 0;
  cdi_devices = [];
  cpu_nanos = pos 0;
  memory_bytes = pos 0;
  pids_limit = pos 0;
  proxy_image = [];
  publish_ports = [];
}

-- No request yet.
abbrev pub no_requests : World
no_requests = record {
  events = [];
  network_created = false;
  proxy_created = false;
  created_volumes = [];
}
