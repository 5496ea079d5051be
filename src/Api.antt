-- ===== src/Api.antt =====
-- The types of api/v1alpha1: what a user writes (`Request`, `Policy`) and what the controller
-- records (`Status`).
pub mod Enums
pub mod Spec
pub mod Status
pub mod Request
