-- ===== src/Control.antt =====
-- internal/workforce/control: the documents of a run and the checks that accept them.
pub mod Types
pub mod Checks
pub mod Paths
pub mod Loopback
pub mod Manifest
pub mod RunSpec
pub mod Worktree
pub mod Discovery
pub mod Doctor
pub mod Attempt
pub mod GitWorktrees
pub mod Attach
pub mod Status
pub mod Coworkers
