-- ===== src/Podman/Create.antt =====
-- `nativeCreate` of internal/podman/libpod_create.go: the container is asked for over Libpod's API.
pub mod Request
pub mod Sandbox
use whaleshell_driver.Base.{Str, is_nil, List, Option, none, some, Result, ok, err, if◌then◌else◌}
use whaleshell_driver.Engine.{CreateOptions}
use whaleshell_driver.Podman.Container.{NativeSpec, SpecError}
use whaleshell_driver.Podman.Container.Build.{build_native_spec}
use whaleshell_driver.Podman.Network.{complaint_of, message_of}
use whaleshell_driver.Podman.Service.{
  Service, Call, CreateReply, Failure, M, lift, connect, perform, is_success, ◌>>=◌, ◌>>◌,
}
use whaleshell_driver.Podman.Userns.{IdMapping}

abbrev pub as_failure : Result SpecError NativeSpec → Result Failure NativeSpec
as_failure (ok s) = ok s
as_failure (err why) = err (Failure.bad_spec why)

-- The identifier, under one of its two names.
abbrev pub id_of : Option (Str × Str) → Result Failure Str
id_of none = err Failure.undecodable
id_of (some (upper, lower)) =
    let id = if is_nil upper then lower else upper in
    if is_nil id then err Failure.no_container_id else ok id

abbrev pub created_id : CreateReply → Result Failure Str
created_id r =
    if is_success r.code
    then id_of r.ids
    else err (Failure.refused r.code (message_of (complaint_of r.complaint)))

-- The callback that nativeCreate returns
unfoldable pub native_create :
    Service → Str → Str → List IdMapping → List IdMapping → CreateOptions → M Str
unfolding build_native_spec connect perform lift ◌>>=◌
native_create svc host userns uids gids options = do
  s ← lift (as_failure (build_native_spec options userns uids gids))
  connect svc host
  reply ← perform (Call.create_container s) (λ calls. svc.containers calls s)
  lift (created_id reply)
