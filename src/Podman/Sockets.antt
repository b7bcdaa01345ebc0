-- ===== src/Podman/Sockets.antt =====
-- The discovery of the API socket in internal/podman/podman.go.
use whaleshell_driver.Base.{
  Str, codes, ◌==◌, trim_space, trim_prefix, has_prefix, is_nil, any, Bool, true, false, List, [],
  ◌∷◌, ◌++◌, if◌then◌else◌, Option, none, some,
}
use whaleshell_driver.Defaults.{Host}
use whaleshell_driver.GoPath.{join}

-- What the discovery asks the process and the system.
pub record System : Type 0 where
  pub host : Host
  -- user.Current's ID
  pub uid : Option Str
  -- a connection to the socket succeeds within the time limit
  pub dials : Str → Bool
  -- the remote socket's path in the output of `podman info`, none where it fails or does not decode
  pub podman_info : Option Str

abbrev is_there : {A : Type 0} → Option A → Bool
is_there none = false
is_there (some a) = true

-- socketAlive: a path that is no socket is dialled too.
unfoldable pub socket_alive : System → Str → Bool
socket_alive sys path = if is_there (sys.host.stat path) then sys.dials path else false

-- The closure `add`
unfoldable pub add_candidate : Str → List Str → List Str
unfolding trim_space
add_candidate p out =
    let path = trim_space p in
    if is_nil path then out else if any (λ q. q == path) out then out else out ++ path ∷ []

abbrev machine_sockets : Option Str → List Str
machine_sockets none = []
machine_sockets (some home) =
    join (home ∷ codes ".local/share/containers/podman/machine/podman.sock" ∷ [])
    ∷ join (home ∷ codes ".local/share/containers/podman/machine/machine.sock" ∷ [])
    ∷ []

abbrev user_socket : Option Str → List Str
user_socket none = []
user_socket (some uid) =
    if is_nil uid
    then []
    else join (codes "/run/user" ∷ uid ∷ codes "podman" ∷ codes "podman.sock" ∷ []) ∷ []

abbrev session_socket : Str → List Str
session_socket xdg =
    if is_nil xdg then [] else join (xdg ∷ codes "podman" ∷ codes "podman.sock" ∷ []) ∷ []

unfoldable pub add_candidates : List Str → List Str → List Str
unfolding add_candidate
add_candidates out [] = out
add_candidates out (p ∷ rest) = add_candidates (add_candidate p out) rest

-- socketCandidates
unfoldable pub socket_candidates : System → List Str
unfolding add_candidates join
socket_candidates sys = add_candidates [] (
    sys.host.getenv (codes "CAUTEUM_PODMAN_SOCKET")
    ∷ (session_socket (sys.host.getenv (codes "XDG_RUNTIME_DIR"))
        ++ (user_socket sys.uid ++ machine_sockets sys.host.user_home_dir)))

unfoldable pub first_alive : System → List Str → Option Str
unfolding socket_alive
first_alive sys [] = none
first_alive sys (p ∷ rest) =
    let later = first_alive sys rest in if socket_alive sys p then some p else later

abbrev alive_or_none : System → Str → Option Str
alive_or_none sys p = if socket_alive sys p then some p else none

abbrev from_info : System → Option Str → Option Str
from_info sys none = none
from_info sys (some raw) =
    let p = trim_space raw in
    if is_nil p then none else alive_or_none sys (trim_prefix p (codes "unix://"))

-- socketFromPodmanInfo
unfoldable pub socket_from_podman_info : System → Option Str
unfolding trim_space trim_prefix socket_alive
socket_from_podman_info sys = from_info sys sys.podman_info

abbrev or_else : Option Str → Option Str → Option Str
or_else (some p) q = some p
or_else none q = q

-- DiscoverSocket
unfoldable pub discover_socket : System → Option Str
unfolding first_alive socket_candidates socket_from_podman_info
discover_socket sys =
    or_else (first_alive sys (socket_candidates sys)) (socket_from_podman_info sys)

abbrev as_url : Option Str → Option Str
as_url none = none
as_url (some sock) = some (codes "unix://" ++ sock)

-- ResolveHost
unfoldable pub resolve_host : System → Option Str
unfolding discover_socket trim_space
resolve_host sys =
    let docker = trim_space (sys.host.getenv (codes "DOCKER_HOST")) in
    let container = trim_space (sys.host.getenv (codes "CONTAINER_HOST")) in
    if is_nil docker
    then (if is_nil container then as_url (discover_socket sys) else some container)
    else some docker

-- podmanRuntimeContext
unfoldable pub podman_runtime_context : Str → Str
unfolding has_prefix trim_prefix
podman_runtime_context host =
    if has_prefix host (codes "unix://")
    then codes "socket " ++ trim_prefix host (codes "unix://")
    else codes "remote endpoint"
