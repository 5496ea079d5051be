-- ===== src/Planner.antt =====
-- internal/planner/planner.go: the ordered batches of a plan, and its risk score.
pub mod Score
pub mod Batches
pub mod Chunks
pub mod Groups
pub mod Coverage
pub mod Build
