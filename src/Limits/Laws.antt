-- ===== src/Limits/Laws.antt =====
-- Bounds on the process count and on the logs.
use whaleshell_driver.Base.{
  ℕ, suc, ◌<◌, Str, codes, ◌==◌, trim_space, Bool, true, false, List, [], ◌∷◌, if◌then◌else◌,
  Option, none, some, ℤ, pos, negsuc, ◌≡◌, ◌≢◌, ◌⊎◌, inl, inr, refl, arith, Bool-cases,
}
use whaleshell_driver.Base.Decimal.{parse_int}
use whaleshell_driver.Defaults.{Defaults, Host}
use whaleshell_driver.Limits.{
  resolve_pids_limit, limit_of, configured_pids_limit, sandbox_log_config, LogConfig, below_one,
  json_file, or_default,
}

limit_of_positive :
    (d : Defaults) (o : Option ℤ) (n : ℕ) → 0 < d.sandbox_pids_limit → limit_of d o ≡ some n → 0 < n
unfolding limit_of
limit_of_positive d none n h e = ground arith
limit_of_positive d (some (negsuc k)) n h e = ground arith
limit_of_positive d (some (pos k)) n h e = ground arith

-- With a positive default, the limit that the Engine is given is positive: a request, the backend's
-- configuration or the environment can lift the limit, and can set no limit of zero processes.
pub resolve_pids_limit_positive :
    (d : Defaults) (host : Host) (configured spec : ℤ) (n : ℕ)
    → 0 < d.sandbox_pids_limit
    → resolve_pids_limit d host (configured_pids_limit configured spec) ≡ some n
    → 0 < n
unfolding resolve_pids_limit
resolve_pids_limit_positive d host configured spec n h e =
    positive (configured_pids_limit configured spec) e
  where
    positive : (l : ℤ) → resolve_pids_limit d host l ≡ some n → 0 < n
    positive (negsuc k) e' = absurd (cc e')
    positive (pos k) e' = ground (
      arith,
      limit_of_positive d
          (parse_int (trim_space (host.getenv (codes "CAUTEUM_SANDBOX_PIDS_LIMIT")))) n h,
    )

-- A positive limit of the request has precedence over the backend's, and a positive one of the backend over
-- the environment; a negative limit of the request is no limit.
resolve_pids_limit_order :
    (d : Defaults) (host : Host) (m n : ℕ) (configured : ℤ)
    → (resolve_pids_limit d host (configured_pids_limit configured (pos (suc n))) ≡ some (suc n))
      × (resolve_pids_limit d host (configured_pids_limit (pos (suc m)) (pos 0)) ≡ some (suc m))
      × (resolve_pids_limit d host (configured_pids_limit configured (negsuc n)) ≡ none)
unfolding resolve_pids_limit configured_pids_limit
resolve_pids_limit_order d host m n configured = (ground arith, ground arith, refl)

abbrev pub config_of : Str → List (Str × Str) → Option Str
config_of k [] = none
config_of k ((j, v) ∷ rest) = if j == k then some v else config_of k rest

-- No log, or json-file logs with a size and with a number of files that is at least one.
abbrev pub IsBounded : LogConfig → Type 0
IsBounded c =
    (c.type ≡ codes "none")
    ⊎ ((c.type ≡ codes "json-file")
        × (config_of (codes "max-size") c.config ≢ none)
        × ((files : Str) × (config_of (codes "max-file") c.config ≡ some files)
            × (below_one (parse_int files) ≡ false)))

json_file-IsBounded :
    (size files : Str) → below_one (parse_int files) ≡ false → IsBounded (json_file size files)
json_file-IsBounded size files h = inr (refl, (λ e. cc e), (files, refl, h))

if-IsBounded :
    (b : Bool) (x y : LogConfig) → IsBounded x → IsBounded y → IsBounded (if b then x else y)
if-IsBounded true x y hx hy = hx
if-IsBounded false x y hx hy = hy

repaired :
    (files : Str)
    → below_one (parse_int (if below_one (parse_int files) then codes "3" else files)) ≡ false
repaired files = elim (Bool-cases (below_one (parse_int files))) [
  | inl bad ↦ rw bad (unfold parse_int in refl)
  | inr good ↦ rw good good
]

-- Whatever the environment says, logs are off, or are json-file logs with a rotation: a size, and
-- a number of files that reads as a number of at least one.
sandbox_log_config-IsBounded : (host : Host) → IsBounded (sandbox_log_config host)
unfolding sandbox_log_config
sandbox_log_config-IsBounded host =
    let files =
      or_default (trim_space (host.getenv (codes "CAUTEUM_DOCKER_LOG_MAX_FILE"))) (codes "3") in
    if-IsBounded _ _ _ (inl refl) (
      if-IsBounded _ _ _ (json_file-IsBounded _ _ (repaired files))
        (json_file-IsBounded _ (codes "3") (unfold parse_int in refl)))
