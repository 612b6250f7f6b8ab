-- ===== src/Archive.antt =====
-- server/src/archive: the capabilities by which released media are fetched.
pub mod Capabilities
