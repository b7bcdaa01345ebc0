-- ===== src/Docker/Create/Isolation.antt =====
-- A sandbox with a proxy that `Create` of internal/docker/docker.go makes stands on a network that was seen
-- to be cut off.
use whaleshell_driver.Base.{Str, List, ◌∷◌}
use whaleshell_driver.Docker.Network.Isolation.{IsCutOff}
use whaleshell_driver.Engine.{Event, World}
use whaleshell_driver.Engine.Keeps.{Keeps}
use whaleshell_driver.Runtime.{Driver}
use whaleshell_driver.Spec.{Spec}

-- Some point of the history showed that the network is cut off.
pub data WasCutOff (d : Driver) (net : Str) : List Event → Type 0 where
  at_once : {es : List Event} → IsCutOff d net es → WasCutOff d net es
  before : {e : Event} {es : List Event} → WasCutOff d net es → WasCutOff d net (e ∷ es)

module _ (d : Driver) (net : Str) where
  abbrev Seen : World → Type 0
  Seen w = WasCutOff d net w.events
