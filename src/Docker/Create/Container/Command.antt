-- ===== src/Docker/Create/Container/Command.antt =====
-- Entry point, command and user of the sandbox container in internal/docker/docker.go.
use whaleshell_driver.Base.{Str, codes, ◌==◌, is_nil, not, ◌&&◌, ◌||◌, List, [], ◌∷◌, if◌then◌else◌}
use whaleshell_driver.Docker.Image.{uses_embedded_init}
use whaleshell_driver.Runtime.{Driver}
use whaleshell_driver.Spec.{Spec}
use whaleshell_driver.Docker.Create.Container.Settings.{Plan, is_set, hardened, displays}

unfoldable pub default_command : Driver → Spec → Plan → List Str
default_command d spec plan =
    if displays spec && uses_embedded_init d.defaults plan.image
    then codes "--" ∷ codes "/usr/local/bin/cauteum-gui-boot" ∷ []
    else if uses_embedded_init d.defaults plan.image
    then codes "--" ∷ codes "sleep" ∷ codes "infinity" ∷ []
    else if displays spec
    then codes "/usr/local/bin/cauteum-gui-boot" ∷ []
    else codes "sleep" ∷ codes "infinity" ∷ []

unfoldable pub command : Driver → Spec → Plan → List Str
unfolding default_command
command d spec plan = if is_nil spec.command then default_command d spec plan else spec.command

abbrev strip_separator : List Str → List Str
strip_separator [] = []
strip_separator (c ∷ cmd) = if c == codes "--" then cmd else c ∷ cmd

unfoldable pub entrypoint : Spec → List Str
entrypoint spec =
    if is_set spec.supervisor_bin
    then codes "/cauteum-haven/cauteum-supervisor" ∷ []
    else if hardened spec
    then codes "/cauteum-haven/cauteum-init" ∷ []
    else []

hardened_cmd : Driver → Spec → Plan → List Str
unfolding command
hardened_cmd d spec plan =
    if is_nil spec.command && not (uses_embedded_init d.defaults plan.image)
    then (if displays spec
        then codes "--" ∷ codes "/usr/local/bin/cauteum-gui-boot" ∷ []
        else codes "--" ∷ command d spec plan)
    else command d spec plan

unfoldable pub container_cmd : Driver → Spec → Plan → List Str
unfolding hardened_cmd command
container_cmd d spec plan =
    if is_set spec.supervisor_bin
    then codes "--"
      ∷ codes "/cauteum-haven/cauteum-init"
      ∷ codes "--policy"
      ∷ codes "/cauteum/policy.yaml"
      ∷ codes "--"
      ∷ strip_separator (command d spec plan)
    else if hardened spec
    then hardened_cmd d spec plan
    else command d spec plan

unfoldable pub container_user : Driver → Spec → Plan → Str
container_user d spec plan =
    if is_set spec.supervisor_bin
      || (not spec.no_harden && (is_set spec.init_bin || uses_embedded_init d.defaults plan.image))
    then codes "0"
    else []
