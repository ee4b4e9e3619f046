-- ===== src/Sync.antt =====
-- The synchronisation component: src/sync.rs and the modules of src/sync.
pub mod Model
pub mod Paths
pub mod Order
pub mod Manifest
pub mod Plan
pub mod Disk
pub mod Transaction
pub mod Rollback
pub mod Sessions
pub mod Commit
