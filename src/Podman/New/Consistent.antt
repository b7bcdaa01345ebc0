-- ===== src/Podman/New/Consistent.antt =====
-- What holds of a configuration that `ConfigFromMap` of internal/podman/config.go accepts.
use whaleshell_driver.Base.{ℕ, codes, true, [], ◌*◌, pos, ◌≡◌, ◌≢◌, ◌<◌, ◌^◌, ◌⊎◌}
use whaleshell_driver.Config.{Machine}
use whaleshell_driver.Podman.Config.{Config, upstream}
use whaleshell_driver.Podman.New.Accepted.{IsPolicy}
use whaleshell_driver.Podman.New.Files.{IsCleanPath, IsBlank, UpTo, IsFileOf, IsTls, IsSmallFile}
use whaleshell_driver.Podman.New.Proxy.{NoProxy, ViaProxy}
use whaleshell_driver.Podman.Userns.Modes.{IsCanonical}

-- The conditions on a configuration, in the words of its values.
pub record IsConsistent (m : Machine) (c : Config) : Type 0 where
  pub address : (c.host_gateway_ip ≡ []) ⊎ (m.is_ip c.host_gateway_ip ≡ true)
  pub stop_timeout : (n : ℕ) × (c.stop_timeout_secs ≡ pos n)
  pub pids_limit : (n : ℕ) × (c.pids_limit ≡ pos n)
  pub port : UpTo 65535 c.gateway_grpc_port
  pub health_interval : (n : ℕ) × (c.health_check_interval_secs ≡ pos n) × (n * 1000000000 < 2 ^ 63)
  pub tls : IsTls c.guest_tls_ca c.guest_tls_cert c.guest_tls_key
  pub registry_auth :
      IsBlank c.registry_auth_file
      ⊎ (IsCleanPath c.registry_auth_file × IsSmallFile (m.host.stat c.registry_auth_file))
  pub egress_ca_bundle : (c.egress_ca_bundle ≡ []) ⊎ IsFileOf m m.is_bundle c.egress_ca_bundle
  pub proxy : NoProxy (upstream c) ⊎ ViaProxy m (upstream c)
  pub policy : IsPolicy c.image_pull_policy
  pub mode : IsCanonical c.userns_mode
  pub maps :
      ((c.userns_mode ≡ codes "private") × (c.uid_map ≢ []) × (c.gid_map ≢ []))
      ⊎ ((c.userns_mode ≢ codes "private") × (c.uid_map ≡ []) × (c.gid_map ≡ []))
