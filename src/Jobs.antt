-- ===== src/Jobs.antt =====
-- server/src/jobs: the film of a cycle, its workers' claims, and the pages of the queue.
pub mod Inputs
pub mod Compilation
pub mod Reconcile
pub mod Claims
pub mod Reports
pub mod Lease
pub mod Clips
pub mod Queue
