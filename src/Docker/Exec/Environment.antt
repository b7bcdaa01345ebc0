-- ===== src/Docker/Exec/Environment.antt =====
-- The environment of a command that `Exec` of internal/docker/docker.go runs.
use whaleshell_driver.Base.{Str, codes, trim_space, List, [], ◌∷◌, ◌++◌}
use whaleshell_driver.Defaults.{Host}
use whaleshell_driver.Docker.Exec.{guest_term}
use whaleshell_driver.Env.{merge_env}

-- The list before COLORTERM is considered.
abbrev with_term : Host → List Str → List Str
with_term host base =
    merge_env base ((codes "TERM=" ++ guest_term (trim_space (host.getenv (codes "TERM")))) ∷ [])
