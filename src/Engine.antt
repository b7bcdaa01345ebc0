-- ===== src/Engine.antt =====
-- What the drivers exchange with a Docker-compatible Engine: the types of its requests, and a monad
-- that records every request and asks the daemon, which is a parameter, for the answer.
pub mod Keeps
pub mod Resources
pub mod Leftovers
use whaleshell_driver.Base.{
  ℕ, Str, Bool, true, false, List, [], ◌∷◌, Option, none, some, Result, ok, err, ℤ,
}
use whaleshell_driver.Gpu.{DeviceRequest}
use whaleshell_driver.Limits.{LogConfig}
use whaleshell_driver.Errors.{Error}

-- mount.Mount
pub data MountType : Type 0 where
  bind volume tmpfs image cluster : MountType

pub record BindOptions : Type 0 where
  pub propagation : Str
  pub non_recursive : Bool
  pub create_mountpoint : Bool
  pub read_only_non_recursive : Bool
  pub read_only_force_recursive : Bool

pub record VolumeOptions : Type 0 where
  pub subpath : Str
  pub no_copy : Bool
  pub has_labels : Bool
  pub has_driver_config : Bool

pub record TmpfsOptions : Type 0 where
  pub options : List (List Str)
  pub size_bytes : ℤ
  pub mode : ℤ

pub record Mount : Type 0 where
  pub type : MountType
  pub source : Str
  pub target : Str
  pub read_only : Bool
  pub bind_options : Option BindOptions
  pub volume_options : Option VolumeOptions
  pub tmpfs_options : Option TmpfsOptions

pub record HealthConfig : Type 0 where
  pub test : List Str
  pub interval_secs : ℤ
  pub timeout_secs : ℕ
  pub retries : ℕ
  pub start_period_secs : ℕ

pub record PortBinding : Type 0 where
  pub host_ip : Str
  pub host_port : Str

-- container.Config
pub record ContainerConfig : Type 0 where
  pub image : Str
  pub entrypoint : List Str
  pub cmd : List Str
  pub env : List Str
  pub labels : List (Str × Str)
  pub working_dir : Str
  pub user : Str
  pub exposed_ports : List ℕ
  pub tty : Bool
  pub open_stdin : Bool
  pub healthcheck : Option HealthConfig

-- container.HostConfig
pub record HostConfig : Type 0 where
  pub binds : List Str
  pub mounts : List Mount
  pub network_mode : Str
  pub security_opt : List Str
  pub cap_drop : List Str
  pub extra_hosts : List Str
  pub log_config : LogConfig
  pub pids_limit : Option ℕ
  pub nano_cpus : ℤ
  pub memory : ℤ
  pub userns_mode : Str
  pub device_requests : List DeviceRequest
  pub port_bindings : List (ℕ × PortBinding)
  pub shm_size : ℕ
  -- what the docker driver leaves at its zero value
  pub privileged : Bool
  pub devices : List Str
  pub volumes_from : List Str
  pub cap_add : List Str
  pub tmpfs : List (Str × Str)

-- client.ContainerCreateOptions; the endpoints with their aliases.
pub record CreateOptions : Type 0 where
  pub config : ContainerConfig
  pub host : HostConfig
  pub endpoints : List (Str × List Str)
  pub name : Str

pub record NetworkSpec : Type 0 where
  pub name : Str
  pub internal : Bool
  pub options : List (Str × Str)
  pub labels : List (Str × Str)

-- client.ExecCreateOptions
pub record ExecOptions : Type 0 where
  pub cmd : List Str
  pub env : List Str
  pub user : Str
  pub attach_output : Bool
  pub attach_stdin : Bool
  pub tty : Bool
  pub working_dir : Str
  pub console_size : Option (ℕ × ℕ)

pub data Request : Type 0 where
  container_list : List (Str × Str) → Request
  container_inspect container_start container_stop container_remove container_logs : Str → Request
  container_create native_container_create : CreateOptions → Request
  image_inspect : Str → Request
  image_pull image_tag : Str → Str → Request
  volume_inspect volume_create volume_remove : Str → Request
  network_inspect network_remove : Str → Request
  network_create : NetworkSpec → Request
  network_connect : Str → Str → Request
  native_network_create : NetworkSpec → Request
  native_network_verify : Str → Request
  exec_create : Str → ExecOptions → Request
  exec_attach exec_start exec_inspect : Str → Request
  exec_resize : Str → ℕ × ℕ → Request

-- A call of the client: its request, whether it succeeded, and the ID of what it made. A call that
-- failed was refused by the daemon, or never reached it, as where its context was over.
pub record Event : Type 0 where
  pub request : Request
  pub accepted : Bool
  pub made : Str

-- What a container inspection shows. `config` is nil where the daemon sends none.
pub record InspectedConfig : Type 0 where
  pub image : Str
  pub env : List Str
  pub labels : List (Str × Str)

pub record InspectedState : Type 0 where
  pub running : Bool
  pub status : Str

pub record Inspected : Type 0 where
  pub id : Str
  pub name : Str
  pub config : Option InspectedConfig
  pub state : Option InspectedState
  -- destination and source of each mount
  pub mounts : List (Str × Str)
  -- networks with the address on each, empty where it is not valid
  pub networks : List (Str × Str)

pub record Summary : Type 0 where
  pub id : Str
  pub names : List Str
  pub image : Str
  pub status : Str
  pub labels : List (Str × Str)

pub record ImageInfo : Type 0 where
  pub id : Str
  -- `Config.User`, empty where there is no config
  pub user : Str

pub record NetworkInfo : Type 0 where
  pub internal : Bool
  pub options : List (Str × Str)

-- The daemon: its answer to a request may depend on all that came before, newest first.
pub record Daemon : Type 0 where
  pub list : List Event → List (Str × Str) → Option (List Summary)
  pub inspect : List Event → Str → Option Inspected
  pub image : List Event → Str → Option ImageInfo
  pub network : List Event → Str → Option NetworkInfo
  -- the ID of a container or of an exec
  pub created : List Event → Request → Option Str
  -- where a native creation fails: the container that the service has made all the same, since what
  -- failed was reading its answer
  pub undelivered : List Event → CreateOptions → Option Str
  pub exit_code : List Event → Str → Option ℤ
  -- of the requests that return nothing
  pub done : List Event → Request → Bool
  -- the credentials of the registry of an image
  pub registry_auth : Str → Option Str

-- The events so far, newest first, and the variables that the clean-up of `Create` reads.
pub record World : Type 0 where
  pub events : List Event
  pub network_created : Bool
  pub proxy_created : Bool
  pub created_volumes : List Str

abbrev pub M : Type 0 → Type 0
M A = World → Result Error A × World

abbrev pub log : Request → Bool → Str → World → World
log req accepted made w = record w {
  events = record { request = req; accepted = accepted; made = made } ∷ w.events;
}

abbrev pub accepts : {A : Type 0} → Option A → Bool
accepts none = false
accepts (some a) = true

module _ {A : Type 0} where
  unfoldable pub pure : A → M A
  pure a w = (ok a, w)

  unfoldable pub fail : Error → M A
  fail e w = (err e, w)

  unfoldable pub lift : Result Error A → M A
  lift r w = (r, w)

  -- A request whose failure is looked at: `none` is the error.
  unfoldable pub attempt : Request → (List Event → Option A) → M (Option A)
  attempt req answer w = (ok (answer w.events), log req (accepts (answer w.events)) [] w)

module _ {A B : Type 0} where
  abbrev pub continue : Result Error A → (A → M B) → M B
  continue (ok a) f w = f a w
  continue (err e) f w = (err e, w)

  infixl 5 ◌>>=◌ ◌>>◌
  unfoldable pub ◌>>=◌ : M A → (A → M B) → M B
  ◌>>=◌ m f w = let (r, w') = m w in continue r f w'

  abbrev pub ◌>>◌ : M A → M B → M B
  m >> k = m >>= λ _. k

abbrev pub or_fail : {A : Type 0} → Error → Option A → M A
or_fail e none = fail e
or_fail e (some a) = pure a

-- A failure of a component, as an error of the driver.
abbrev pub lift_as : {A E : Type 0} → (E → Error) → Result E A → M A
lift_as f (ok a) = pure a
lift_as f (err e) = fail (f e)

-- A request whose failure is returned as an error.
unfoldable pub call : {A : Type 0} → Request → (List Event → Option A) → Error → M A
unfolding attempt ◌>>=◌
call req answer e = attempt req answer >>= or_fail e

abbrev pub as_unit : Bool → Option (Unit {0})
as_unit true = some tt
as_unit false = none

-- `_, _ = …`: a request whose result is dropped.
unfoldable pub send : Daemon → Request → M (Option (Unit {0}))
unfolding attempt
send dm req = attempt req λ events. as_unit (dm.done events req)

unfoldable pub demand : Daemon → Request → Error → M (Unit {0})
unfolding call
demand dm req e = call req (λ events. as_unit (dm.done events req)) e

unfoldable pub require : Bool → Error → M (Unit {0})
unfolding pure fail
require true e = pure tt
require false e = fail e

-- The error of a call that is looked at and dropped.
abbrev pub settle : {A : Type 0} → Result Error A × World → Result Error (Option A) × World
settle (ok a, w) = (ok (some a), w)
settle (err e, w) = (ok none, w)

unfoldable pub try : {A : Type 0} → M A → M (Option A)
try m w = settle (m w)

unfoldable pub made_by : Request → Error → Option Str → M Str
made_by req e none w = (err e, log req false [] w)
made_by req e (some id) w = (ok id, log req true id w)

-- A request that makes a container or an exec, with its ID.
unfoldable pub make : Daemon → Request → Error → M Str
unfolding made_by
make dm req e w = made_by req e (dm.created w.events req) w

unfoldable pub inspect_container : Daemon → Str → Error → M Inspected
unfolding call
inspect_container dm id e = call (Request.container_inspect id) (λ events. dm.inspect events id) e

unfoldable pub find_container : Daemon → Str → M (Option Inspected)
unfolding attempt
find_container dm id = attempt (Request.container_inspect id) (λ events. dm.inspect events id)
