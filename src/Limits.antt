-- ===== src/Limits.antt =====
-- internal/docker/resources.go, logconfig.go and the limits of runtime_config.go: defaults that the
-- process environment overrides.
pub mod Laws
use whaleshell_driver.Base.{
  ℕ, Str, codes, ◌==◌, trim_space, lower, is_nil, ltb, Bool, true, false, ◌||◌, List, [], ◌∷◌,
  if◌then◌else◌, Option, none, some, ℤ, pos, negsuc, ltb_ℤ,
}
use whaleshell_driver.Base.Decimal.{parse_int}
use whaleshell_driver.Defaults.{Defaults, Host}

-- The first text if it is not empty.
abbrev pub or_default : Str → Str → Str
or_default [] t = t
or_default (c ∷ s) t = c ∷ s

unfoldable pub resolve_proxy_image : Defaults → Host → Str → Str
resolve_proxy_image d host explicit =
    or_default (trim_space explicit)
      (or_default (trim_space (host.getenv (codes "CAUTEUM_PROXY_IMAGE"))) d.image_proxy)

-- The variable's value as a limit; `some none` is the nil pointer, no limit.
limit_of : Defaults → Option ℤ → Option ℕ
limit_of d none = some d.sandbox_pids_limit
limit_of d (some (negsuc n)) = some d.sandbox_pids_limit
limit_of d (some (pos n)) = if ltb 0 n then some n else none

-- `none` is the nil pointer: no limit.
unfoldable pub resolve_pids_limit : Defaults → Host → ℤ → Option ℕ
unfolding limit_of
resolve_pids_limit d host (negsuc n) = none
resolve_pids_limit d host (pos n) =
    let raw = trim_space (host.getenv (codes "CAUTEUM_SANDBOX_PIDS_LIMIT")) in
    if ltb 0 n
    then some n
    else if is_nil raw
    then some d.sandbox_pids_limit
    else limit_of d (parse_int raw)

-- `configuredPidsLimit`, over the backend's own limit.
unfoldable pub configured_pids_limit : ℤ → ℤ → ℤ
configured_pids_limit configured (pos n) = if ltb 0 n then pos n else configured
configured_pids_limit configured (negsuc n) = negsuc n

unfoldable pub stop_timeout_secs : ℤ → ℤ
stop_timeout_secs configured = if ltb_ℤ (pos 0) configured then configured else pos 10

pub record LogConfig : Type 0 where
  pub type : Str
  pub config : List (Str × Str)

abbrev json_file : Str → Str → LogConfig
json_file size files = record {
  type = codes "json-file";
  config = (codes "max-size", size) ∷ (codes "max-file", files) ∷ [];
}

-- strconv.Atoi fails, or the number is below one.
abbrev pub below_one : Option ℤ → Bool
below_one none = true
below_one (some n) = ltb_ℤ n (pos 1)

unfoldable pub sandbox_log_config : Host → LogConfig
sandbox_log_config host =
    let driver =
      or_default (lower (trim_space (host.getenv (codes "CAUTEUM_DOCKER_LOG_DRIVER"))))
        (codes "json-file") in
    let max_size =
      or_default (trim_space (host.getenv (codes "CAUTEUM_DOCKER_LOG_MAX_SIZE"))) (codes "10m") in
    let max_file =
      or_default (trim_space (host.getenv (codes "CAUTEUM_DOCKER_LOG_MAX_FILE"))) (codes "3") in
    if driver == codes "none"
    then record { type = codes "none"; config = [] }
    else if driver == codes "json-file"
    then json_file max_size (if below_one (parse_int max_file) then codes "3" else max_file)
    else json_file (codes "10m") (codes "3")
