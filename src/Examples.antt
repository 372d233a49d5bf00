-- ===== src/Examples.antt =====
-- Concrete runs of the models, and the theorems at inputs that meet their hypotheses.
mod Samples
mod Delivery
mod Leases
mod Clients
mod Documents
mod Specs
mod Worktrees
mod Doctors
mod Attaching
mod Parser
mod Commands
mod Stores
mod Linking
mod Reports
