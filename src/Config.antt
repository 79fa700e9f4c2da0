-- ===== src/Config.antt =====
-- The check of a listener's `Config` against the schema of its protocol
-- (backend/internal/mihomo/config).
pub mod Schema
pub mod Registry
pub mod Validate
pub mod Conforms
pub mod Reserved
pub mod Paths
