-- ===== src/Net.antt =====
-- Outgoing connections and host names (backend/internal/netutil).
pub mod Ip
pub mod Ssrf
pub mod Networks
pub mod Dial
pub mod Host
pub mod Bracket
