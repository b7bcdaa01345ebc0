-- ===== src/Podman/Container/Sandbox.antt =====
-- The sandbox container of internal/docker/docker.go, as internal/podman/libpod_create.go asks for it.
use whaleshell_driver.Base.{Str, codes, List, [], ◌∷◌, ◌+◌, ◌≡◌, true, ok, All, length}
use whaleshell_driver.Base.Assoc.{find}
use whaleshell_driver.Docker.Create.Container.{Plan, create_options, sandbox_env, sandbox_binds}
use whaleshell_driver.Engine.{Mount}
use whaleshell_driver.Podman.Container.{NativeSpec}
use whaleshell_driver.Podman.Container.Build.{build_native_spec}
use whaleshell_driver.Podman.Container.Faithful.{InRange, last_value, build_native_spec-IsFaithful}
use whaleshell_driver.Podman.Container.Kept.{Sent, IsBindOf, IsMountOf}
use whaleshell_driver.Podman.Userns.{IdMapping}
use whaleshell_driver.Runtime.{Driver}
use whaleshell_driver.Spec.{Spec}

-- A native request for a sandbox container: it forbids new privileges, drops NET_RAW and adds no
-- capability, joins the network of the sandbox and no other, gives each variable the value of its last
-- entry in the sandbox's environment, and has, for each bind of the sandbox and each mount of its
-- driver_config, the mount or the volume with its source, its target and its options, and no more of
-- them than there are of these. The entries of the ID maps are in range.
pub record IsSandbox (d : Driver) (spec : Spec) (mounts : List Mount) (binds : List Str)
    (plan : Plan) (uids gids : List IdMapping) (s : NativeSpec) : Type 0 where
  pub hardened : s.no_new_privileges ≡ true
  pub dropped : s.cap_drop ≡ codes "NET_RAW" ∷ []
  pub added : s.cap_add ≡ []
  pub attached : s.networks ≡ (plan.net, []) ∷ []
  pub env : (k : Str) → find k s.env ≡ last_value k (sandbox_env d spec plan)
  pub storage :
      length s.mounts + length s.volumes
      ≡ length (sandbox_binds d spec plan binds) + (length mounts + 0)
  pub bound : All (λ b. Sent (IsBindOf b) s.mounts s.volumes) (sandbox_binds d spec plan binds)
  pub mounted : All (λ m. Sent (IsMountOf m) s.mounts s.volumes) mounts
  pub uids_in_range : All InRange uids
  pub gids_in_range : All InRange gids

pub build_native_spec-IsSandbox :
    (d : Driver) (spec : Spec) (mounts : List Mount) (binds : List Str) (plan : Plan) (userns : Str)
    (uids gids : List IdMapping) {s : NativeSpec}
    → build_native_spec (create_options d spec mounts binds plan) userns uids gids ≡ ok s
    → IsSandbox d spec mounts binds plan uids gids s
unfolding create_options
build_native_spec-IsSandbox d spec mounts binds plan userns uids gids h =
    let f =
      build_native_spec-IsFaithful (create_options d spec mounts binds plan) userns uids gids h in
    record {
      hardened = f.hardened;
      dropped = f.capabilities.0;
      added = f.capabilities.1;
      attached = f.attached;
      env = f.env;
      storage = f.storage;
      bound = f.binds;
      mounted = f.mounted;
      uids_in_range = f.uids_in_range;
      gids_in_range = f.gids_in_range;
    }
