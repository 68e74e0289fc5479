-- ===== src/Tests.antt =====
-- Runs of the modelled code, and the theorems at concrete inputs.
pub mod Databases
pub mod Lists
pub mod Queues
pub mod Reopenings
pub mod Logs
pub mod Snapshots
pub mod Structures
pub mod Tables
