-- ===== src/Tests.antt =====
-- The theorems at work on concrete tables.
pub mod Data
pub mod Users
pub mod Batches
pub mod Traffic
pub mod Cycles
pub mod Creds
pub mod Devices
pub mod Logins
pub mod Ports
pub mod Accounts
pub mod Nodes
pub mod Schemas
pub mod Outgoing
pub mod Services
