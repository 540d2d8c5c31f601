-- ===== src/Task.antt =====
-- src/task/: liveness of processes, the task registry, the slot semaphore, the status server.
pub mod Liveness
pub mod Records
pub mod Leases
pub mod Registry
pub mod Semaphore
pub mod Status
pub mod Worker
