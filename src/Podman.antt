-- ===== src/Podman.antt =====
-- The podman backend, internal/podman.
pub mod Address
pub mod Service
pub mod Network
pub mod Userns
pub mod Container
pub mod Config
pub mod Sockets
pub mod New
pub mod Create
pub mod Credentials
