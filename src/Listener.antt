-- ===== src/Listener.antt =====
-- Listeners (backend/internal/listener): their ports and their addresses.
pub mod Ports
pub mod Address
pub mod Endpoint
pub mod Service
