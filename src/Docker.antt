-- ===== src/Docker.antt =====
-- internal/docker/docker.go: the driver over a Docker-compatible Engine.
pub mod Config
pub mod Copy
pub mod DriverConfig
pub mod Keeping
pub mod Network
pub mod Volume
pub mod Image
pub mod Exec
pub mod Proxy
pub mod Lifecycle
pub mod PolicyPath
pub mod Start
pub mod Create
