-- ===== src/Protocol.antt =====
-- Compiling a listener's row to an entry of the core's configuration
-- (backend/internal/protocol): the fields the panel owns, the listener's own `Config`, its users.
pub mod Input
pub mod Users
pub mod Tokens
pub mod Compile
pub mod Keep
pub mod Fixed
pub mod Passthrough
pub mod Passwords
pub mod Auth
pub mod Access
pub mod Node
pub mod Agree
pub mod Legacy
