-- ===== src/User.antt =====
-- The proxy users of the panel (backend/internal/user): when a credential is active, the stamp of
-- the first use, and the debounced reload that every change of a user schedules.
pub mod Active
pub mod FirstUse
pub mod Reload
pub mod Ids
pub mod Bind
pub mod Batch
pub mod Delete
pub mod SubToken
pub mod Safe
pub mod Telegram
pub mod Crud
pub mod Creds
