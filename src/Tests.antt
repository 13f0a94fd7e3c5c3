-- ===== src/Tests.antt =====
-- Runs of the theorems at concrete inputs, with a toy hash and a store that is a function.
pub mod Setting
pub mod Store
pub mod Trees
pub mod Data
pub mod Relay
pub mod Sync
pub mod Full
pub mod Shelves
pub mod Configured
pub mod Reported
pub mod Started
pub mod Metered
pub mod Chains
pub mod Scans
