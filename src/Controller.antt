-- ===== src/Controller.antt =====
-- internal/controller: the reconcilers.
pub mod Config
pub mod World
pub mod Delays
pub mod Nodes
pub mod NodeState
pub mod Drain
pub mod Replace
pub mod Step
pub mod Loop
pub mod Release
pub mod Finish
pub mod Targets
pub mod Phases
pub mod Reconcile
pub mod Reads
pub mod Stores
pub mod Policies
