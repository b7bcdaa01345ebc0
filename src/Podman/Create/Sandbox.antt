-- ===== src/Podman/Create/Sandbox.antt =====
-- The container of a sandbox, created by nativeCreate of internal/podman/libpod_create.go.
use whaleshell_driver.Podman.Service.{Service}
use whaleshell_driver.Spec.{Spec}
