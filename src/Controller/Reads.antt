-- ===== src/Controller/Reads.antt =====
-- The parts of a reconcile that only read: they store no status and change nothing in the cluster.
pub mod Targets
pub mod Plan
pub mod Checks
