-- ===== src/Docker/DriverConfig/Accepted.antt =====
-- What `parseDockerSandboxDriverConfig` of internal/docker/driver_config.go hands to the container.
use whaleshell_driver.Base.{Str, Bool, false, List, [], ◌∷◌, ◌≡◌, All}
use whaleshell_driver.Defaults.{Defaults}
use whaleshell_driver.Docker.Create.{SandboxConfig}
use whaleshell_driver.Docker.DriverConfig.Targets.{IsSafe, NoRepeat}
use whaleshell_driver.Engine.{Mount}
use whaleshell_driver.Json.{Json}

abbrev pub targets : List Mount → List Str
targets [] = []
targets (m ∷ ms) = m.target ∷ targets ms

-- What holds of an accepted driver_config.
pub record IsAccepted (d : Defaults) (enabled : Bool) (c : SandboxConfig) : Type 0 where
  pub safe : All (IsSafe d) (targets c.mounts)
  pub distinct : NoRepeat (targets c.mounts)
  pub no_binds : enabled ≡ false → c.binds ≡ []
