-- ===== src/Preflight.antt =====
-- internal/preflight/preflight.go: the checks of a request before its plan.
pub mod Codes
pub mod Results
pub mod Pods
pub mod Checks
pub mod Run
pub mod Truncation
pub mod Failures
pub mod Headroom
pub mod Guardrails
