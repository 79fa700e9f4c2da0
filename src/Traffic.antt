-- ===== src/Traffic.antt =====
-- The traffic accounting of the panel (backend/internal/traffic).
pub mod Samples
pub mod Rate
pub mod Collector
pub mod Enforcer
pub mod Cycles
pub mod Monthly
pub mod IpLimit
