-- ===== src/Docker/Image.antt =====
-- Images in internal/docker/docker.go: `ensureImage`, the pulls, and the tests on image names.
use whaleshell_driver.Base.{
  Result, ok, err, Str, codes, ◌==◌, lower, trim_space, equal_fold, has_prefix, contains, Bool, not,
  ◌||◌, if◌then◌else◌, Option, none, some,
}
use whaleshell_driver.Defaults.{Defaults}
use whaleshell_driver.Engine.{
  or_fail, Request, ImageInfo, M, World, pure, fail, attempt, demand, ◌>>=◌, ◌>>◌,
}
use whaleshell_driver.Errors.{Error}
use whaleshell_driver.Runtime.{Driver}

unfoldable pub registry_auth : Driver → Str → M Str
registry_auth d ref = or_fail (Error.registry_auth_failed ref) (d.daemon.registry_auth ref)

-- The copy of the daemon's progress stream is a part of the answer.
unfoldable pub pull_image : Driver → Str → M (Unit {0})
pull_image d ref = do
  auth ← registry_auth d ref
  demand d.daemon (Request.image_pull ref auth) (Error.pull_failed ref)

unfoldable pub pull_as : Driver → Str → Str → M (Unit {0})
pull_as d remote local = do
  auth ← registry_auth d remote
  demand d.daemon (Request.image_pull remote auth) (Error.pull_as_failed remote)
  demand d.daemon (Request.image_tag remote local) (Error.pull_as_failed remote)

-- The names of images that are built locally.
unfoldable pub is_local_image : Defaults → Str → Bool
unfolding has_prefix
is_local_image d low =
    low == d.image_local
    || low == d.image_gui
    || low == d.image_gpu
    || has_prefix low (codes "cauteum-sandbox:")

-- An error of `pull_as` and the end of the function both return an error with a hint.
unfoldable pub not_found_error :
    Str → Result Error (Unit {0}) × World → Result Error (Unit {0}) × World
not_found_error ref (ok u, w) = (ok u, w)
not_found_error ref (err e, w) = (err (Error.image_not_found ref), w)

unfoldable pub or_not_found : Str → M (Unit {0}) → M (Unit {0})
unfolding not_found_error
or_not_found ref pull w = not_found_error ref (pull w)

unfoldable pub ensure_local : Driver → Str → Option Str → M (Unit {0})
unfolding equal_fold
ensure_local d ref none = fail (Error.image_not_found ref)
ensure_local d ref (some remote) =
    if equal_fold (d.host.getenv d.defaults.env_image_pull) (codes "never")
    then fail (Error.image_not_found ref)
    else or_not_found ref (pull_as d remote ref)

unfoldable pub ensure_missing : Driver → Str → Str → Option ImageInfo → M (Unit {0})
unfolding is_local_image lower
ensure_missing d policy ref (some info) = pure tt
ensure_missing d policy ref none =
    if policy == codes "never"
    then fail (Error.image_never_pulled ref)
    else if is_local_image d.defaults (lower ref)
    then ensure_local d ref (d.defaults.published_image (lower ref))
    else pull_image d ref

unfoldable pub inspect_image : Driver → Str → M (Option ImageInfo)
inspect_image d ref = attempt (Request.image_inspect ref) (λ events. d.daemon.image events ref)

unfoldable pub ensure_image : Driver → Str → M (Unit {0})
unfolding lower trim_space
ensure_image d ref =
    let policy = lower (trim_space d.runtime_config.image_pull_policy) in
    if policy == codes "always" || policy == codes "newer"
    then pull_image d ref
    else inspect_image d ref >>= ensure_missing d policy ref

unfoldable pub pick_local : Driver → Option ImageInfo → M Str
pick_local d none = pure d.defaults.image_debian
pick_local d (some info) = pure d.defaults.image_local

-- The image whether it is there or not; of the two inspections the second asks the same.
unfoldable pub inspected_as : Driver → Str → M Str
inspected_as d img = inspect_image d img >> pure img

unfoldable pub default_sandbox_image : Driver → Str → Bool → M Str
unfolding equal_fold trim_space
default_sandbox_image d display_mode gpu =
    if not d.initialized
    then pure d.defaults.image_debian
    else if equal_fold (trim_space display_mode) (codes "novnc")
    then inspected_as d d.defaults.image_gui
    else if gpu
    then inspected_as d d.defaults.image_gpu
    else inspect_image d d.defaults.image_local >>= pick_local d

unfoldable pub uses_embedded_init : Defaults → Str → Bool
unfolding lower trim_space has_prefix
uses_embedded_init d img =
    let i = trim_space (lower img) in
    i == d.image_local || i == d.image_gui || has_prefix i (codes "cauteum-sandbox:")

unfoldable pub image_has_gui : Defaults → Str → Bool
unfolding lower trim_space contains
image_has_gui d img =
    let i = trim_space (lower img) in i == d.image_gui || contains i (codes ":gui")
