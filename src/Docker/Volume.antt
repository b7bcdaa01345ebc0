-- ===== src/Docker/Volume.antt =====
-- `ensureVolume` of internal/docker/docker.go.
use whaleshell_driver.Base.{Str, Bool, true, false, Option, none, some}
use whaleshell_driver.Engine.{Request, M, pure, send, demand, ◌>>=◌, ◌>>◌}
use whaleshell_driver.Errors.{Error}
use whaleshell_driver.Runtime.{Driver}

unfoldable pub create_volume : Driver → Str → M Bool
create_volume d name = do
  demand d.daemon (Request.volume_create name) (Error.volume_create_failed name)
  pure true

unfoldable pub volume_found : Driver → Str → Option (Unit {0}) → M Bool
volume_found d name (some _) = pure false
volume_found d name none = create_volume d name

-- Whether the volume is new.
unfoldable pub ensure_volume : Driver → Str → M Bool
ensure_volume d name = send d.daemon (Request.volume_inspect name) >>= volume_found d name
