-- ===== src/Builder.antt =====
-- The builders and the list builders that work on podman's engine.
pub mod Podman
pub mod Engine
pub mod Local
pub mod LocalList
pub mod Remote
pub mod Docker
pub mod Requests
pub mod Contract
pub mod FileList
pub mod Examples
