-- ===== src/Examples.antt =====
-- Runs of the theorems on small inputs.
pub mod Tasks
pub mod Slots
pub mod Locks
pub mod Sessions
pub mod Pruning
pub mod Streams
pub mod Proxying
pub mod Workspace
pub mod Lineages
pub mod Shells
