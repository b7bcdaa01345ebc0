-- ===== src/Docker/Proxy/Files.antt =====
-- The files that the egress sidecar mounts, as `createProxySidecar` of internal/docker/docker.go
-- checks them.
use whaleshell_driver.Base.{
  Str, codes, is_nil, List, [], ◌∷◌, ◌++◌, if◌then◌else◌, Option, none, some, Result, ok, err,
  reject_if, ◌>>=◌, ◌>>◌,
}
use whaleshell_driver.Defaults.{Host, FileInfo}
use whaleshell_driver.Errors.{Error}
use whaleshell_driver.Runtime.{Driver, RuntimeConfig}

abbrev readable : Error → Option FileInfo → Result Error (Unit {0})
readable e none = err e
readable e (some info) = if info.is_regular then ok tt else err e

-- One entry of the table of optional files.
mount_file : Host → Str → Str → Result Error (List Str)
mount_file host source target =
    if is_nil source
    then ok []
    else readable Error.proxy_file_unavailable (host.open_file source) >>= λ _.
        ok ((source ++ (codes ":" ++ (target ++ codes ":ro"))) ∷ [])

guest_tls_binds : Host → RuntimeConfig → Result Error (List Str)
guest_tls_binds host cfg = if is_nil cfg.guest_tls_ca then ok [] else do
  readable Error.guest_tls_unavailable (host.open_file cfg.guest_tls_ca)
  readable Error.guest_tls_unavailable (host.open_file cfg.guest_tls_cert)
  readable Error.guest_tls_unavailable (host.open_file cfg.guest_tls_key)
  ok (
      (cfg.guest_tls_ca ++ codes ":/run/cauteum/gateway-tls/ca.pem:ro")
      ∷ (cfg.guest_tls_cert ++ codes ":/run/cauteum/gateway-tls/cert.pem:ro")
      ∷ (cfg.guest_tls_key ++ codes ":/run/cauteum/gateway-tls/key.pem:ro")
      ∷ [])

abbrev present : Error → Option FileInfo → Result Error (Unit {0})
present e none = err e
present e (some info) = ok tt

-- The checks of the binary and the policy, then the binds of the sidecar.
unfoldable pub sidecar_binds : Driver → Str → Str → Str → Result Error (List Str)
unfolding mount_file guest_tls_binds
sidecar_binds d bin_path policy_path ca_vol = do
  let cfg = d.runtime_config
  present Error.proxy_bin_missing (d.host.stat bin_path)
  reject_if (is_nil policy_path) Error.proxy_policy_required
  present Error.proxy_policy_missing (d.host.stat policy_path)
  auth ← mount_file d.host cfg.upstream_proxy_auth_file (codes "/run/cauteum/upstream-proxy/auth")
  ca ← mount_file d.host cfg.upstream_proxy_ca_bundle (codes "/run/cauteum/upstream-proxy/ca.pem")
  egress ← mount_file d.host cfg.egress_ca_bundle (codes "/run/cauteum/egress-ca/ca.pem")
  tls ← guest_tls_binds d.host cfg
  let ca_bind = if is_nil ca_vol then [] else (ca_vol ++ codes ":/cauteum/ca:rw") ∷ []
  ok (
      (bin_path ++ codes ":/cauteum/cauteum:ro")
      ∷ (policy_path ++ codes ":/cauteum/policy.yaml:ro")
      ∷ (auth ++ (ca ++ (egress ++ (tls ++ ca_bind)))))
