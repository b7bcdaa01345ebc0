-- ===== src/Docker/PolicyPath.antt =====
-- PolicyHostPath of internal/docker/policy_path.go.
use whaleshell_driver.Base.{
  Str, codes, ◌==◌, trim_space, is_nil, not, ◌&&◌, List, [], ◌∷◌, ◌++◌, if◌then◌else◌, Option, none,
  some,
}
use whaleshell_driver.Base.Assoc.{get}
use whaleshell_driver.Docker.Lifecycle.{label_sandbox, label_name, label_policy, labels_of}
use whaleshell_driver.Engine.{
  Request, Inspected, Summary, M, pure, call, require, or_fail, find_container, ◌>>=◌, ◌>>◌,
}
use whaleshell_driver.Errors.{Error}
use whaleshell_driver.Name.{sanitize_name}
use whaleshell_driver.Runtime.{Driver}

policy_mount : List (Str × Str) → Option Str
policy_mount [] = none
policy_mount ((destination, source) ∷ rest) =
    let later = policy_mount rest in
    if destination == codes "/cauteum/policy.yaml" && not (is_nil source)
    then some source
    else later

-- The label, else the bind of the policy.
policy_of : Option Inspected → Option Str
unfolding policy_mount get trim_space
policy_of none = none
policy_of (some c) =
    let p = trim_space (get label_policy (labels_of c.config)) in
    if is_nil p then policy_mount c.mounts else some p

listed_policy : List Summary → Option Str
unfolding get trim_space
listed_policy [] = none
listed_policy (c ∷ cs) =
    let later = listed_policy cs in
    if is_nil (trim_space (get label_policy c.labels))
    then later
    else some (trim_space (get label_policy c.labels))

unfoldable pub policy_from_list : Driver → Str → Str → M Str
unfolding listed_policy
policy_from_list d asked name = do
  let filter = (label_sandbox, codes "1") ∷ (label_name, name) ∷ []
  items ←
      call (Request.container_list filter) (λ events. d.daemon.list events filter)
        (Error.policy_path_failed asked)
  or_fail (Error.no_policy_bind asked) (listed_policy items)

unfoldable pub policy_from : Driver → Str → Str → List Str → M Str
unfolding policy_of
policy_from d asked name [] = policy_from_list d asked name
policy_from d asked name (ctr ∷ ctrs) = do
  let rest = policy_from d asked name ctrs
  found ← find_container d.daemon ctr
  elim (policy_of found) [ none ↦ rest | some p ↦ pure p ]

unfoldable pub policy_host_path : Driver → Str → M Str
unfolding sanitize_name
policy_host_path d name_or_id = do
  require d.initialized Error.client_not_initialized
  let name = sanitize_name name_or_id
  policy_from d name_or_id name ((codes "cauteum-proxy-" ++ name) ∷ (codes "cauteum-" ++ name) ∷ [])
