-- ===== src/Tests/Sandboxes.antt =====
-- A sandbox called `dev`: its creation, a failure that rolls back, its removal, and a command in it.
use whaleshell_driver.Base.{
  if◌then◌else◌, split, err, Str, codes, equal_fold, true, false, [], ◌∷◌, ◌++◌, none, some, ◌≡◌,
  refl, Result, ok, ◌⊎◌,
}
use whaleshell_driver.Docker.Create.{
  SandboxConfig, create, gpu_checked, with_cdi_devices, named, refuse_existing, ports_in_range,
  choose_image, workspace_of, checked, inspect_pulled, prepare_proxy_image, with_clean_up,
  provision, start_proxy, tracked_volume, note_volume, persist, create_container, native_made,
  create_native_container, create_error, remove_volumes, when, clean_up, finish, mark_proxy,
}
use whaleshell_driver.Docker.Create.Container.{Plan, sandbox_env, create_options}
use whaleshell_driver.Docker.Create.Container.Identity.{sandbox_env-identity}
use whaleshell_driver.Docker.Create.Naming.{data_volume, network_name}
use whaleshell_driver.Docker.Create.Rollback.{
  Provisioned, IsNative, create-rolls_back, create-makes,
}
use whaleshell_driver.Docker.Exec.{poll, exit_code, exec, request_of, wait_proxy_ca}
use whaleshell_driver.Docker.Exec.Waiting.{IsReady, wait_proxy_ca-IsReady}
use whaleshell_driver.Docker.Lifecycle.{ensure_ssh_daemon}
use whaleshell_driver.Docker.Network.{
  ensure_network, network_found, create_missing, create_engine, mark_created,
}
use whaleshell_driver.Docker.Start.{start, ensure_guest_layout}
use whaleshell_driver.Docker.Start.Outcome.{reported, reported_unless_disabled, start-outcome}
use whaleshell_driver.Docker.Create.Refusal.{name_filter, create-refuses}
use whaleshell_driver.Docker.Volume.{ensure_volume, volume_found, create_volume}
use whaleshell_driver.Docker.Image.{ensure_image, inspect_image, ensure_missing}
use whaleshell_driver.Docker.Proxy.{
  create_proxy_sidecar, with_port, removing, remove_proxy_sidecar, send_within, after_failure,
}
use whaleshell_driver.Engine.{
  try, inspect_container, Request, Summary, log, World, demand, call, attempt, send, make, require,
  pure, fail, lift, ◌>>=◌,
}
use whaleshell_driver.Engine.Leftovers.{Leaves}
use whaleshell_driver.Engine.Resources.{Lives, live_volumes, live_networks, live_containers}
use whaleshell_driver.Env.Merge.{entry_of}
use whaleshell_driver.Errors.{Error}
use whaleshell_driver.GoPath.{base, join}
use whaleshell_driver.Gpu.{validate_gpu_request, normalized_cdi_devices, env_cdi_devices}
use whaleshell_driver.Name.{sanitize_name}
use whaleshell_driver.Runtime.{Driver}
use whaleshell_driver.Spec.{Spec, Handle, ExecRequest}
use whaleshell_driver.Tests.Samples.{sample_daemon, sample_driver, sample_spec, no_requests}

abbrev no_config : Result Error SandboxConfig
no_config = ok (record { cdi_devices = []; has_cdi_devices = false; mounts = []; binds = [] })

-- Where the daemon makes no container, the creation fails after its network and a volume were made.
abbrev failed : World
failed = (create (sample_driver false) no_config sample_spec no_requests).1

abbrev IsData : Str → Type 0
IsData v = v ≡ data_volume (sanitize_name (codes "dev"))

nothing-Lives : Lives IsData (λ _. ⊥) (λ _. ⊥) no_requests.events
unfolding live_volumes live_networks live_containers
nothing-Lives = record { volumes = tt; networks = tt; containers = tt }

create-rolls_back_example :
    Leaves IsData
      (λ _. ⊥)
      (λ c. ⊥ ⊎ IsNative (sample_driver false) (sanitize_name (codes "dev")) c)
      failed.events
unfolding create gpu_checked with_cdi_devices named refuse_existing ports_in_range choose_image
    workspace_of checked ensure_image inspect_image ensure_missing inspect_pulled
    prepare_proxy_image ensure_network network_found create_missing create_engine mark_created
    with_clean_up provision start_proxy tracked_volume ensure_volume volume_found create_volume
    note_volume create_proxy_sidecar with_port removing send_within after_failure persist
    create_container native_made create_native_container create_error create_options remove_volumes
    when clean_up finish remove_proxy_sidecar mark_proxy network_name demand call attempt send make
    require pure fail lift ◌>>=◌ validate_gpu_request normalized_cdi_devices env_cdi_devices
    equal_fold base join
create-rolls_back_example =
    create-rolls_back IsData (λ _. ⊥) (λ _. ⊥) (sample_driver false) no_config sample_spec refl
      no_requests failed Error.proxy_create_failed nothing-Lives refl

abbrev quiet_spec : Spec
quiet_spec = record sample_spec { proxy_bin = [] }

abbrev created : World
created = (create (sample_driver true) no_config quiet_spec no_requests).1

abbrev handle : Handle
handle = record {
  id = codes "c1";
  name = codes "dev";
  network = codes "cauteum-net-dev";
  image = codes "debian";
}

create-makes_example :
    Provisioned IsData
      (λ _. ⊥)
      (λ _. ⊥)
      (sanitize_name (codes "dev"))
      (network_name (sample_driver true) (sanitize_name (codes "dev")))
      handle
      created
unfolding create gpu_checked with_cdi_devices named refuse_existing ports_in_range choose_image
    workspace_of checked ensure_image inspect_image ensure_missing inspect_pulled
    prepare_proxy_image ensure_network network_found create_missing create_engine mark_created
    with_clean_up provision start_proxy tracked_volume ensure_volume volume_found create_volume
    note_volume create_proxy_sidecar with_port removing send_within after_failure persist
    create_container native_made create_native_container create_error create_options remove_volumes
    when clean_up finish remove_proxy_sidecar mark_proxy network_name demand call attempt send make
    require pure fail lift ◌>>=◌ validate_gpu_request normalized_cdi_devices env_cdi_devices
    equal_fold base join
create-makes_example =
    create-makes IsData (λ _. ⊥) (λ _. ⊥) (sample_driver true) no_config quiet_spec refl no_requests
      created handle nothing-Lives refl

abbrev after_network : World
after_network = (ensure_network (sample_driver true) (codes "net") (codes "dev") true no_requests).1

abbrev plan : Plan
plan = record {
  name = codes "dev";
  net = codes "net";
  image = codes "debian";
  image_id = codes "sha256:1";
  image_user = codes "agent";
  workspace = codes "/srv/work";
  proxy_image = codes "debian";
  tcp_dial_socket = [];
}

sandbox_env-identity_example :
    (entry_of (codes "OPENSHELL_OCI_IMAGE_USER") (sandbox_env (sample_driver true) sample_spec plan)
      ≡ some (codes "OPENSHELL_OCI_IMAGE_USER=" ++ plan.image_user))
    × (entry_of (codes "OPENSHELL_SANDBOX_UID") (sandbox_env (sample_driver true) sample_spec plan)
        ≡ none)
    × (entry_of (codes "OPENSHELL_SANDBOX_GID") (sandbox_env (sample_driver true) sample_spec plan)
        ≡ none)
sandbox_env-identity_example = sandbox_env-identity (sample_driver true) sample_spec plan

abbrev after_wait : World
after_wait = (wait_proxy_ca (sample_driver true) (codes "c1") no_requests).1

wait_proxy_ca-IsReady_example :
    IsReady
      (exec
        (sample_driver true)
        (codes "c1")
        (request_of (codes "test" ∷ codes "-s" ∷ codes "/cauteum/ca/ca.pem" ∷ [])))
      after_wait
unfolding wait_proxy_ca poll try exec exit_code inspect_container make demand call attempt require
    pure ◌>>=◌
wait_proxy_ca-IsReady_example =
    wait_proxy_ca-IsReady (sample_driver true) (codes "c1") no_requests after_wait refl

abbrev shell_request : ExecRequest
shell_request = record {
  argv = codes "env" ∷ [];
  tty = false;
  env = codes "HOME=/work" ∷ [];
  work_dir = [];
}

abbrev started : World
started = log (Request.container_start (codes "c1")) true [] no_requests

start-outcome_example : start (sample_driver true) (codes "c1") no_requests ≡ (
    if (sample_daemon true).done no_requests.events (Request.container_start (codes "c1"))
    then (
      ok tt,
      reported_unless_disabled (sample_driver true) (codes "c1") (
          ensure_ssh_daemon (sample_driver true) (codes "c1") (
            reported
              (sample_driver true)
              (codes "c1")
              (ensure_guest_layout (sample_driver true) (codes "c1") started))),
    )
    else (err Error.start_failed, log (Request.container_start (codes "c1")) false [] no_requests))
start-outcome_example = start-outcome (sample_driver true) (codes "c1") no_requests

abbrev dev_summary : Summary
dev_summary = record {
  id = codes "c1";
  names = [];
  image = codes "debian";
  status = codes "running";
  labels = [];
}

-- A daemon that has the sandbox already.
abbrev busy_driver : Driver
busy_driver = record (sample_driver true) {
  daemon = record (sample_daemon true) { list = λ events filter. some (dev_summary ∷ []) };
}

create-refuses_example : create busy_driver no_config sample_spec no_requests ≡ (
  err (Error.already_exists (sanitize_name (codes "dev"))),
  log (Request.container_list (name_filter (sanitize_name (codes "dev")))) true [] no_requests,
)
unfolding validate_gpu_request normalized_cdi_devices env_cdi_devices sanitize_name split
create-refuses_example =
    create-refuses busy_driver sample_spec
      (record { cdi_devices = []; has_cdi_devices = false; mounts = []; binds = [] }) dev_summary []
      no_requests refl refl (λ e. cc e) refl

-- The sidecar answers at once.
abbrev created_with_proxy : World
created_with_proxy = (create (sample_driver true) no_config sample_spec no_requests).1
