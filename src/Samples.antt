-- ===== src/Samples.antt =====
-- Concrete inputs, and the theorems applied to them.
pub mod Data
pub mod Rules
pub mod Settings
pub mod Plans
pub mod Runs
pub mod Windows
pub mod Requests
pub mod Checks
