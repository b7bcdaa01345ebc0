-- ===== src/Docker/Create.antt =====
-- `Create` of internal/docker/docker.go. What the sandbox's own `driver_config` decodes to is an
-- argument.
pub mod Container
pub mod Naming
pub mod Native
pub mod Rollback
pub mod Isolation
pub mod Refusal
use whaleshell_driver.Base.{
  ℕ, Str, codes, ◌==◌, trim_space, lower, is_nil, leb, ltb, Bool, true, false, not, ◌&&◌, ◌||◌,
  List, [], ◌∷◌, ◌++◌, if◌then◌else◌, Option, none, some, Result, ok, err, ℤ, pos, negsuc, ltb_ℤ,
}
use whaleshell_driver.Defaults.{Host, FileInfo}
use whaleshell_driver.Docker.Image.{ensure_image, default_sandbox_image, image_has_gui}
use whaleshell_driver.Docker.Network.{ensure_network}
use whaleshell_driver.Docker.Volume.{ensure_volume}
use whaleshell_driver.Docker.Proxy.{create_proxy_sidecar, remove_proxy_sidecar, ProxyArgs}
use whaleshell_driver.Engine.{
  Request, ImageInfo, Mount, CreateOptions, M, World, Daemon, Summary, log, pure, fail, lift,
  lift_as, call, send, demand, require, make, attempt, ◌>>=◌, ◌>>◌,
}
use whaleshell_driver.Errors.{Error}
use whaleshell_driver.GoPath.{dir, join}
use whaleshell_driver.Gpu.{validate_gpu_request, DeviceRequest}
use whaleshell_driver.Limits.{resolve_proxy_image, or_default}
use whaleshell_driver.Mounts.Workspace.{resolve_workspace}
use whaleshell_driver.Name.{sanitize_name}
use whaleshell_driver.Runtime.{Driver, sandbox_ssh_socket_path}
use whaleshell_driver.Spec.{Spec, Handle, PortPublish}
use Container.{Plan, create_options, is_set, hardened, displays, effective_port}
use Naming.{network_name, container_name, proxy_name, ca_volume, ssh_volume, data_volume}

-- The result of `parseDockerSandboxDriverConfig`.
pub record SandboxConfig : Type 0 where
  pub cdi_devices : List Str
  pub has_cdi_devices : Bool
  pub mounts : List Mount
  pub binds : List Str

unfoldable pub gpu_checked : Driver → Spec → M (Unit {0})
gpu_checked d spec = lift_as Error.gpu (validate_gpu_request d.host spec)

unfoldable pub with_cdi_devices : Spec → SandboxConfig → Spec
with_cdi_devices spec config =
    if config.has_cdi_devices then record spec { cdi_devices = config.cdi_devices } else spec

abbrev in_port_range : ℤ → Bool
in_port_range p = ltb_ℤ (pos 0) p && ltb_ℤ p (pos 65536)

abbrev published_in_range : List PortPublish → Bool
published_in_range [] = true
published_in_range (p ∷ ports) =
    in_port_range p.guest && in_port_range p.host && published_in_range ports

unfoldable pub ports_in_range : Spec → Bool
ports_in_range spec = ltb_ℤ spec.proxy_port (pos 65536) && ltb_ℤ spec.display_port (pos 65536)

-- A container of the name is there already.
unfoldable pub refuse_existing : Driver → Str → M (Unit {0})
refuse_existing d name = do
  let filter = (codes "cauteum.sandbox", codes "1") ∷ (codes "cauteum.name", name) ∷ []
  existing ←
      call (Request.container_list filter) (λ events. d.daemon.list events filter)
        (Error.list_failed name)
  require (is_nil existing) (Error.already_exists name)

-- `d.defaultSandboxImage`, where neither the spec nor the configuration names an image.
unfoldable pub choose_image : Driver → Spec → M Str
choose_image d spec =
    let named = or_default (trim_space spec.image) (trim_space d.runtime_config.default_image) in
    if is_nil named then default_sandbox_image d spec.display_mode spec.gpu else pure named

unfoldable pub workspace_of : Driver → Spec → M Str
unfolding resolve_workspace
workspace_of d spec = lift_as Error.workspace (resolve_workspace d.host spec.workspace spec.i_know)

abbrev is_there : Option FileInfo → Bool
is_there none = false
is_there (some info) = true

abbrev is_supervisor : Option FileInfo → Bool
is_supervisor none = false
is_supervisor (some info) = info.is_regular && info.is_executable

unfoldable pub check_supervisor : Driver → Spec → M (Unit {0})
check_supervisor d spec = do
  require (is_set spec.init_bin && not (is_nil spec.policy_path))
      Error.supervisor_needs_init_and_policy
  require (is_supervisor (d.host.stat spec.supervisor_bin)) Error.supervisor_binary_unavailable

unfoldable pub check_ssh : Driver → Spec → M (Unit {0})
check_ssh d spec = do
  require (is_set spec.proxy_bin) Error.ssh_needs_proxy
  require (is_set spec.ssh_bin) Error.ssh_bin_required
  require (is_there (d.host.stat spec.ssh_bin)) Error.ssh_bin_missing

abbrev tcp_dial_socket : Driver → Spec → Str
tcp_dial_socket d spec =
    if spec.enable_ssh && is_set spec.supervisor_bin
    then join (dir (sandbox_ssh_socket_path d) ∷ codes "tcp-forward.sock" ∷ [])
    else []

unfoldable pub inspect_pulled : Driver → Str → M ImageInfo
inspect_pulled d img = do
  info ←
      call (Request.image_inspect img) (λ events. d.daemon.image events img)
        (Error.image_inspect_failed img)
  require (is_set info.id) (Error.image_without_id img)
  pure info

-- The image of the sidecar, empty where there is none.
unfoldable pub prepare_proxy_image : Driver → Spec → Str → M Str
unfolding resolve_proxy_image
prepare_proxy_image d spec img =
    let proxy_img = resolve_proxy_image d.defaults d.host spec.proxy_image in
    if is_set spec.proxy_bin
    then (if proxy_img == img then pure proxy_img else (ensure_image d proxy_img >> pure proxy_img))
    else pure []

-- `createdVolumes[v] = true`, if the volume is new
unfoldable pub note_volume : Str → Bool → M (Unit {0})
note_volume v false w = (ok tt, w)
note_volume v true w = (ok tt, record w { created_volumes = v ∷ w.created_volumes })

unfoldable pub tracked_volume : Driver → Str → M (Unit {0})
unfolding note_volume
tracked_volume d v = ensure_volume d v >>= note_volume v

unfoldable pub mark_proxy : M (Unit {0})
mark_proxy w = (ok tt, record w { proxy_created = true })

unfoldable pub proxy_args : Driver → Spec → Str → Str → Str → ProxyArgs
proxy_args d spec name net proxy_img = record {
  name = name;
  net = net;
  image = proxy_img;
  bin_path = spec.proxy_bin;
  policy_path = spec.policy_path;
  port = effective_port d spec;
  ca_vol = ca_volume name;
  ssh_vol = if spec.enable_ssh then ssh_volume name else [];
  tcp_dial_socket = tcp_dial_socket d spec;
  proxy_env = spec.proxy_env;
  pids_limit = spec.pids_limit;
}

unfoldable pub start_proxy : Driver → Spec → Str → Str → Str → M (Unit {0})
unfolding proxy_args mark_proxy
start_proxy d spec name net proxy_img = do
  tracked_volume d (ca_volume name)
  (if spec.enable_ssh then tracked_volume d (ssh_volume name) else pure tt)
  create_proxy_sidecar d (proxy_args d spec name net proxy_img)
  mark_proxy

-- The volume of the data, which the clean-up does not know.
unfoldable pub persist : Driver → Str → M (Unit {0})
persist d name = ensure_volume d (data_volume name) >> pure tt

-- The native callback's answer, and the container that was made though it fails.
unfoldable pub native_made : Request → Error → Option Str → Option Str → M Str
native_made req e (some id) lost w = (ok id, log req true id w)
native_made req e none (some id) w = (err e, log req true id w)
native_made req e none none w = (err e, log req false [] w)

unfoldable pub create_native_container : Driver → CreateOptions → Error → M Str
unfolding native_made
create_native_container d options e w =
    native_made (Request.native_container_create options) e
      (d.daemon.created w.events (Request.native_container_create options))
      (d.daemon.undelivered w.events options) w

unfoldable pub create_container : Driver → CreateOptions → Error → M Str
unfolding create_native_container
create_container d options e =
    if d.runtime_config.native_container_create
    then create_native_container d options e
    else make d.daemon (Request.container_create options) e

unfoldable pub create_error : CreateOptions → Error
create_error options =
    if is_nil options.host.device_requests
    then Error.create_failed options.name
    else Error.create_with_gpu_failed options.name

-- What runs under the deferred clean-up.
unfoldable pub provision : Driver → Spec → SandboxConfig → Plan → M Handle
unfolding create_error
provision d spec config plan = do
  (if is_set spec.proxy_bin
      then start_proxy d spec plan.name plan.net plan.proxy_image
      else pure tt)
  (if spec.persist_volume then persist d plan.name else pure tt)
  require (not (hardened spec) || is_there (d.host.stat spec.init_bin)) Error.init_bin_missing
  require (not (displays spec) || image_has_gui d.defaults plan.image)
      (Error.display_image_without_gui plan.image)
  let options = create_options d spec config.mounts config.binds plan
  id ← create_container d options (create_error options)
  pure (record { id = id; name = plan.name; network = plan.net; image = plan.image })

unfoldable pub remove_volumes : Driver → List Str → M (Unit {0})
remove_volumes d [] = pure tt
remove_volumes d (v ∷ vs) = send d.daemon (Request.volume_remove v) >> remove_volumes d vs

unfoldable pub when : Bool → M (Unit {0}) → M (Unit {0})
when false m = pure tt
when true m = m

-- The deferred function, where `resourcesCommitted` is false. The volumes, a map in the source, are
-- removed in the order of the list.
unfoldable pub clean_up : Driver → Str → Str → M (Unit {0})
clean_up d name net w =
    (do
      when w.proxy_created (remove_proxy_sidecar d name >> pure tt)
      remove_volumes d w.created_volumes
      when w.network_created (send d.daemon (Request.network_remove net) >> pure tt))
      w

unfoldable pub finish :
    Driver → Str → Str → Result Error Handle × World → Result Error Handle × World
finish d name net (ok handle, w) = (ok handle, w)
finish d name net (err e, w) = (err e, (clean_up d name net w).1)

-- The body from `ensureNetwork` on. An error of `ensureNetwork` itself leaves nothing to clean up,
-- since the flags of the world are not set.
unfoldable pub with_clean_up : Driver → Str → Str → M Handle → M Handle
unfolding finish
with_clean_up d name net body w = finish d name net (body w)

unfoldable pub checked : Driver → Spec → M (Unit {0})
checked d spec = do
  (if is_set spec.supervisor_bin then check_supervisor d spec else pure tt)
  (if spec.enable_ssh then check_ssh d spec else pure tt)

unfoldable pub named : Driver → Spec → SandboxConfig → Str → M Handle
named d spec config name = do
  require (not (is_nil name)) Error.name_required
  refuse_existing d name
  require (ports_in_range spec) Error.port_range
  require (published_in_range spec.publish_ports) Error.published_port_range
  img ← choose_image d spec
  ws ← workspace_of d spec
  checked d spec
  ensure_image d img
  info ← inspect_pulled d img
  proxy_img ← prepare_proxy_image d spec img
  let net = network_name d name
  ensure_network d net name (is_set spec.proxy_bin)
  let plan : Plan = record {
    name = name;
    net = net;
    image = img;
    image_id = info.id;
    image_user = info.user;
    workspace = ws;
    proxy_image = proxy_img;
    tcp_dial_socket = tcp_dial_socket d spec;
  }
  with_clean_up d name net (provision d spec config plan)

-- The sandbox's configuration comes decoded, or with the error of its decoding.
unfoldable pub create : Driver → Result Error SandboxConfig → Spec → M Handle
unfolding with_cdi_devices sanitize_name
create d parsed spec = do
  require d.initialized Error.client_not_initialized
  gpu_checked d spec
  config ← lift parsed
  named d (with_cdi_devices spec config) config (sanitize_name spec.name)
