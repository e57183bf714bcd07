-- ===== src/Server.antt =====
-- The server's components: server/src.
pub mod Registry
pub mod Tracker
pub mod Endpoint
pub mod Publication
pub mod Component
pub mod ManifestConfig
