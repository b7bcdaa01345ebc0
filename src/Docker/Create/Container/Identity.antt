-- ===== src/Docker/Create/Container/Identity.antt =====
-- The identity variables of the container that `Create` of internal/docker/docker.go asks for.
use whaleshell_driver.Base.{
  Str, codes, Bool, true, false, List, [], ◌∷◌, ◌++◌, none, some, ◌≡◌, refl, ◌∙◌, All,
}
use whaleshell_driver.Docker.Create.Container.{Plan, added_env, merge_added, sandbox_env}
use whaleshell_driver.Env.{key?, is_reserved, filter_identity_env, merge_env}
use whaleshell_driver.Env.Identity.{last_entry-filter_identity_env}
use whaleshell_driver.Env.Keys.{entry_of-merge_other}
use whaleshell_driver.Env.Merge.{
  has_key, entry_of, last_entry, last_entry-append, entry_of-merge_env, IsProper,
  merge_env-IsProper, or,
}
use whaleshell_driver.Runtime.{Driver}
use whaleshell_driver.Spec.{Spec}

entry_of-merge_added :
    (k : Str) (env : List Str) (added : List (Bool × List Str))
    → IsProper env
    → All (λ p. last_entry k p.1 ≡ none) added
    → entry_of k (merge_added env added) ≡ entry_of k env
unfolding merge_added
entry_of-merge_added k env [] h lacks = refl
entry_of-merge_added k env ((true, extra) ∷ added) h (lacks, rest) =
    entry_of-merge_added k (merge_env env extra) added (merge_env-IsProper env extra) rest
    ∙ entry_of-merge_other k env extra h lacks
entry_of-merge_added k env ((false, extra) ∷ added) h (lacks, rest) =
    entry_of-merge_added k env added h rest

-- What `Create` merges after the image's user, for a key that no feature sets.
kept_by_features :
    (k : Str) (d : Driver) (spec : Spec) (plan : Plan)
    → All (λ p. last_entry k p.1 ≡ none) (added_env d spec plan)
    → entry_of k (sandbox_env d spec plan)
      ≡ or
          (last_entry k ((codes "OPENSHELL_OCI_IMAGE_USER=" ++ plan.image_user) ∷ []))
          (last_entry k (filter_identity_env spec.env))
unfolding sandbox_env
kept_by_features k d spec plan lacks =
    entry_of-merge_added k _ (added_env d spec plan) (merge_env-IsProper _ _) lacks
    ∙ (entry_of-merge_env _ _ k ∙ last_entry-append (filter_identity_env spec.env) _ k)

module _ (d : Driver) (spec : Spec) (plan : Plan) where
  -- The container finds the user of the image under OPENSHELL_OCI_IMAGE_USER, and nothing under the two
  -- other identity variables, whatever the environment of the spec says.
  pub sandbox_env-identity :
      (entry_of (codes "OPENSHELL_OCI_IMAGE_USER") (sandbox_env d spec plan)
        ≡ some (codes "OPENSHELL_OCI_IMAGE_USER=" ++ plan.image_user))
      × (entry_of (codes "OPENSHELL_SANDBOX_UID") (sandbox_env d spec plan) ≡ none)
      × (entry_of (codes "OPENSHELL_SANDBOX_GID") (sandbox_env d spec plan) ≡ none)
  unfolding added_env last_entry has_key key? is_reserved
  sandbox_env-identity = (
    kept_by_features _ d spec plan
        (refl, (refl, (refl, (refl, (refl, (refl, (refl, (refl, tt)))))))),
    kept_by_features _ d spec plan
          (refl, (refl, (refl, (refl, (refl, (refl, (refl, (refl, tt))))))))
        ∙ last_entry-filter_identity_env (codes "OPENSHELL_SANDBOX_UID") spec.env refl,
    kept_by_features _ d spec plan
          (refl, (refl, (refl, (refl, (refl, (refl, (refl, (refl, tt))))))))
        ∙ last_entry-filter_identity_env (codes "OPENSHELL_SANDBOX_GID") spec.env refl,
  )
