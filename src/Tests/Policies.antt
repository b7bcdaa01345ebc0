-- ===== src/Tests/Policies.antt =====
-- Paths, limits, GPU requests and the registry of the backends.
use whaleshell_driver.Base.{
  false, Exists, ℕ, Str, codes, trim_space, split, has_prefix, equal_fold, is_nil, true, not, ◌||◌,
  List, [], ◌∷◌, some, ◌≡◌, refl, ◌⊎◌, ok, pos, ◌<◌, if◌then◌else◌, arith,
}
use whaleshell_driver.GoPath.{render, clean, base, join}
use whaleshell_driver.Gpu.{
  validate_gpu_request, device_requests_for_gpu, normalized_cdi_devices, env_cdi_devices,
  default_cdi_device,
}
use whaleshell_driver.Gpu.Request.{device_count, device_count-validated, blank_devices_give_all}
use whaleshell_driver.Limits.{resolve_pids_limit, configured_pids_limit}
use whaleshell_driver.Limits.Laws.{resolve_pids_limit_positive}
use whaleshell_driver.Mounts.{
  paths_overlap, reserved_roots, normalize_absolute_container_path, validate_container_mount_target,
  validate_upload_dest,
}
use whaleshell_driver.Mounts.Overlap.{Segments, holds, paths_overlap-render}
use whaleshell_driver.Mounts.Reserved.{
  validate_container_mount_target_sound, validate_upload_dest_sound,
}
use whaleshell_driver.Mounts.Reserved.Normal.{Plain, IsNormal, normalize-IsNormal}
use whaleshell_driver.Mounts.Workspace.{resolve_workspace}
use whaleshell_driver.Mounts.Workspace.Denied.{IsSafe, resolve_workspace_sound}
use whaleshell_driver.Registry.{OpenError, Registry, register, run_factory, open_driver}
use whaleshell_driver.Registry.Dispatch.{same_kind, open_driver-register}
use whaleshell_driver.Spec.{Spec}
use whaleshell_driver.Tests.Samples.{sample_defaults, sample_host, sample_spec}

run_and_cauteum :
    Segments (codes "run" ∷ codes "cauteum" ∷ []) × Segments (codes "run" ∷ codes "cauteum2" ∷ [])
run_and_cauteum = ground arith

paths_overlap-render_example :
    paths_overlap
      (render (codes "run" ∷ codes "cauteum" ∷ []))
      (render (codes "run" ∷ codes "cauteum2" ∷ []))
    ≡ (holds (codes "run" ∷ codes "cauteum" ∷ []) (codes "run" ∷ codes "cauteum2" ∷ [])
        || holds (codes "run" ∷ codes "cauteum2" ∷ []) (codes "run" ∷ codes "cauteum" ∷ []))
paths_overlap-render_example =
    paths_overlap-render (codes "run") (codes "run") (codes "cauteum" ∷ []) (codes "cauteum2" ∷ [])
      run_and_cauteum.0 run_and_cauteum.1

proc_is_reserved : Exists (λ r. r ≡ codes "/proc") (reserved_roots sample_defaults)
proc_is_reserved =
    Exists.there
      (Exists.there (Exists.there (Exists.there (Exists.there (Exists.there (Exists.here refl))))))

validate_container_mount_target_sound_example :
    (y : Str) × (ys : List Str) × Plain (y ∷ ys)
    × (normalize_absolute_container_path (codes "/data/set") ≡ ok (render (y ∷ ys)))
    × ((holds (y ∷ ys) (codes "proc" ∷ []) || holds (codes "proc" ∷ []) (y ∷ ys)) ≡ false)
unfolding validate_container_mount_target clean render
validate_container_mount_target_sound_example =
    validate_container_mount_target_sound sample_defaults (codes "/data/set") (codes "/proc")
      (codes "proc") [] proc_is_reserved (ground arith) refl refl

validate_upload_dest_sound_example :
    (y : Str) × (ys : List Str) × Plain (y ∷ ys)
    × (normalize_absolute_container_path (codes "/workspace/in") ≡ ok (render (y ∷ ys)))
    × ((holds (codes "workspace" ∷ []) (y ∷ ys) ≡ true)
        ⊎ ((holds (y ∷ ys) (codes "proc" ∷ []) || holds (codes "proc" ∷ []) (y ∷ ys)) ≡ false))
unfolding validate_upload_dest clean render has_prefix
validate_upload_dest_sound_example =
    validate_upload_dest_sound sample_defaults (codes "/workspace/in") (codes "workspace") []
      (codes "/proc") (codes "proc") [] (ground arith) refl proc_is_reserved (ground arith) refl
      refl

normalize-IsNormal_example : IsNormal (codes "/data/set")
unfolding normalize_absolute_container_path
normalize-IsNormal_example = normalize-IsNormal (codes " /data/set/ ") (codes "/data/set") refl

resolve_workspace_sound_example : IsSafe sample_host (codes "/srv/work")
unfolding resolve_workspace clean equal_fold base join has_prefix
resolve_workspace_sound_example =
    resolve_workspace_sound sample_host (codes "/srv/work") (codes "/srv/work") refl

abbrev two_gpus : Spec
two_gpus = record sample_spec {
  gpu = true;
  gpu_count = pos 2;
  cdi_devices = codes "a=0" ∷ codes "a=1" ∷ [];
}

device_count-validated_example :
    device_count (device_requests_for_gpu sample_host two_gpus)
    ≡ (if two_gpus.gpu || not (is_nil two_gpus.cdi_devices) then 2 else 0)
unfolding validate_gpu_request normalized_cdi_devices trim_space
device_count-validated_example = device_count-validated sample_host two_gpus 1 refl refl

abbrev blank_gpus : Spec
blank_gpus = record sample_spec { cdi_devices = codes " " ∷ [] }

blank_devices_give_all_example :
    (validate_gpu_request sample_host blank_gpus ≡ ok tt)
    × (device_requests_for_gpu sample_host blank_gpus
        ≡ record { driver = codes "cdi"; device_ids = default_cdi_device ∷ [] } ∷ [])
unfolding normalized_cdi_devices env_cdi_devices trim_space split
blank_devices_give_all_example =
    blank_devices_give_all sample_host blank_gpus refl refl (λ e. cc e) refl refl

resolve_pids_limit_positive_example : 0 < 512
unfolding resolve_pids_limit configured_pids_limit trim_space
resolve_pids_limit_positive_example =
    resolve_pids_limit_positive sample_defaults sample_host (pos 0) (pos 0) 512 (omega arith) refl

-- Drivers and engines are numbers here, and errors are texts.
abbrev registry : Registry ℕ ℕ ℕ Str
registry = record {
  openers = (codes "docker", ok 1) ∷ [];
  engine_openers = [];
  engine_config_openers = (codes "podman", λ config. ok 2) ∷ [];
}

open_driver-register_example :
    open_driver (register registry (codes "K8s") (ok 3)) (codes " kubernetes ") ≡ (
      if same_kind (codes "K8s") (codes " kubernetes ")
      then run_factory (OpenError.unknown_kind (codes " kubernetes ")) (some (ok 3))
      else open_driver registry (codes " kubernetes "))
open_driver-register_example =
    open_driver-register registry (codes "K8s") (codes " kubernetes ") (ok 3)
