-- ===== src/Docker/Create/Refusal.antt =====
-- `Create` of internal/docker/docker.go where containers of the same name are there.
use whaleshell_driver.Base.{Str, codes, true, List, [], ◌∷◌, some, ok, err, ◌≡◌, ◌≢◌, refl}
use whaleshell_driver.Docker.Create.{
  SandboxConfig, gpu_checked, with_cdi_devices, refuse_existing, named, create,
}
use whaleshell_driver.Engine.{
  Request, Summary, World, log, pure, fail, lift, lift_as, call, attempt, require, ◌>>=◌,
}
use whaleshell_driver.Errors.{Error}
use whaleshell_driver.Gpu.{validate_gpu_request}
use whaleshell_driver.Name.{sanitize_name}
use whaleshell_driver.Runtime.{Driver}
use whaleshell_driver.Spec.{Spec}

-- The labels by which `Create` looks for containers of the sandbox.
abbrev pub name_filter : Str → List (Str × Str)
name_filter name = (codes "cauteum.sandbox", codes "1") ∷ (codes "cauteum.name", name) ∷ []

named-refuses :
    (d : Driver) (spec : Spec) (config : SandboxConfig) (name : Str) (c : Summary)
    (cs : List Summary) (w : World)
    → name ≢ []
    → d.daemon.list w.events (name_filter name) ≡ some (c ∷ cs)
    → named d spec config name w
      ≡ (err (Error.already_exists name), log (Request.container_list (name_filter name)) true [] w)
unfolding named refuse_existing call attempt require pure fail ◌>>=◌
named-refuses d spec config [] c cs w given there = absurd (given refl)
named-refuses d spec config (n ∷ name) c cs w given there = rw there refl

-- Where the daemon lists a container with the sandbox's name, `Create` returns an error after that one
-- request: it does not touch the live sandbox, its sidecar or its network. The driver is initialized,
-- the GPU request is valid, the configuration decodes and the name is not empty.
pub create-refuses :
    (d : Driver) (spec : Spec) (config : SandboxConfig) (c : Summary) (cs : List Summary)
    (w : World)
    → d.initialized ≡ true
    → validate_gpu_request d.host spec ≡ ok tt
    → sanitize_name spec.name ≢ []
    → d.daemon.list w.events (name_filter (sanitize_name spec.name)) ≡ some (c ∷ cs)
    → create d (ok config) spec w ≡ (
      err (Error.already_exists (sanitize_name spec.name)),
      log (Request.container_list (name_filter (sanitize_name spec.name))) true [] w,
    )
unfolding create gpu_checked require pure lift ◌>>=◌
create-refuses d spec config c cs w initialized valid given there =
    simp (initialized, valid, lift_as)
      (named-refuses d (with_cdi_devices spec config) config (sanitize_name spec.name) c cs w given
        there)
