-- ===== src/Docker/Network.antt =====
-- `ensureNetwork` of internal/docker/docker.go.
pub mod Isolation
use whaleshell_driver.Base.{
  Str, codes, ◌==◌, Bool, true, false, not, ◌&&◌, ◌||◌, List, [], ◌∷◌, if◌then◌else◌, Option, none,
  some,
}
use whaleshell_driver.Base.Assoc.{get}
use whaleshell_driver.Engine.{
  Request, NetworkSpec, NetworkInfo, M, World, pure, fail, attempt, call, send, demand, require,
  ◌>>=◌, ◌>>◌,
}
use whaleshell_driver.Errors.{Error}
use whaleshell_driver.Runtime.{Driver}

abbrev pub gateway_mode_ipv4 : Str
gateway_mode_ipv4 = codes "com.docker.network.bridge.gateway_mode_ipv4"

abbrev pub gateway_mode_ipv6 : Str
gateway_mode_ipv6 = codes "com.docker.network.bridge.gateway_mode_ipv6"

unfoldable pub is_isolated : NetworkInfo → Bool
unfolding get
is_isolated n =
    get gateway_mode_ipv4 n.options == codes "isolated"
    && get gateway_mode_ipv6 n.options == codes "isolated"

-- The world's flag is set where the network was made by this call.
unfoldable pub mark_created : Bool → M (Unit {0})
mark_created created w = pure tt (record w { network_created = created })

abbrev pub sandbox_labels : Str → List (Str × Str)
sandbox_labels name = (codes "cauteum.sandbox", codes "1") ∷ (codes "cauteum.name", name) ∷ []

unfoldable pub verify_native : Driver → Str → M (Unit {0})
verify_native d net =
    demand d.daemon (Request.native_network_verify net) (Error.network_not_verified net)

-- A network of that name is there.
unfoldable pub accept_existing : Driver → Str → Bool → NetworkInfo → M (Unit {0})
unfolding is_isolated
accept_existing d net internal info = do
  require (not (internal && not info.internal)) (Error.network_not_internal net)
  require (not (internal && not d.runtime_config.native_network_verify && not (is_isolated info)))
      (Error.network_not_isolated net)
  (if internal && d.runtime_config.native_network_verify then verify_native d net else pure tt)

unfoldable pub remove_and_fail : Driver → Str → Option (Unit {0}) → M (Unit {0})
remove_and_fail d net (some _) = pure tt
remove_and_fail d net none = do
  send d.daemon (Request.network_remove net)
  fail (Error.network_not_verified net)

unfoldable pub create_native : Driver → Str → Str → Bool → M (Unit {0})
create_native d net name internal = do
  demand d.daemon
      (Request.native_network_create
        (record { name = net; internal = internal; options = []; labels = sandbox_labels name }))
      (Error.network_create_failed net)
  (if internal && d.runtime_config.native_network_verify
      then send d.daemon (Request.native_network_verify net) >>= remove_and_fail d net
      else pure tt)

unfoldable pub isolated_options : Bool → List (Str × Str)
isolated_options true =
    (gateway_mode_ipv4, codes "isolated") ∷ (gateway_mode_ipv6, codes "isolated") ∷ []
isolated_options false = []

unfoldable pub create_engine : Driver → Str → Str → Bool → M (Unit {0})
unfolding isolated_options
create_engine d net name internal =
    demand d.daemon
      (Request.network_create (record {
        name = net;
        internal = internal;
        options = isolated_options internal;
        labels = sandbox_labels name;
      }))
      (Error.network_create_failed net)

unfoldable pub create_missing : Driver → Str → Str → Bool → M (Unit {0})
create_missing d net name internal =
    if d.runtime_config.native_network_create
    then create_native d net name internal
    else create_engine d net name internal

unfoldable pub network_found : Driver → Str → Str → Bool → Option NetworkInfo → M (Unit {0})
network_found d net name internal (some info) = do
  accept_existing d net internal info
  mark_created false
network_found d net name internal none = do create_missing d net name internal; mark_created true

-- The result of the source, whether the network is new, is the world's flag.
unfoldable pub ensure_network : Driver → Str → Str → Bool → M (Unit {0})
ensure_network d net name internal = do
  require
      (not (
        internal
        && d.runtime_config.native_network_create
        && not d.runtime_config.native_network_verify))
      (Error.network_unverifiable net)
  found ← attempt (Request.network_inspect net) (λ events. d.daemon.network events net)
  network_found d net name internal found
