-- ===== src/Recovery.antt =====
-- internal/recovery: checkpoints, the dispatcher, its runner and the run-owned lease.
pub mod Errors
pub mod Checkpoint
pub mod World
pub mod Endings
pub mod Dispatcher
pub mod Cancellation
pub mod Protocol
pub mod Outcomes
pub mod Runner
pub mod Command
pub mod Lease
pub mod Store
pub mod Artifacts
pub mod Status
pub mod Client
pub mod Linked
