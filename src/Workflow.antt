-- ===== src/Workflow.antt =====
-- The workflow component, src/workflow.rs: one client's run from the first push to the last pull.
pub mod Model
pub mod Registry
pub mod Cleanup
pub mod Sections
pub mod Machine
pub mod Services
pub mod Handlers
pub mod Keeps
pub mod Closed
pub mod Prune
pub mod Steps
pub mod Lifetime
pub mod Worker
pub mod Excludes
mod Examples
pub mod Slot
