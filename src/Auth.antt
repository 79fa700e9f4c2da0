-- ===== src/Auth.antt =====
-- The attempt limiters of the panel's login (backend/internal/auth/api.go) and the one-time
-- passwords (backend/internal/totp).
pub mod Limiter
pub mod Totp
