-- ===== src/Api/Request.antt =====
-- A MaintenanceRequest and a MaintenancePolicy as they are stored (api/v1alpha1/maintenancerequest_types.go
-- and maintenancepolicy_types.go): their metadata as far as the controllers read it, spec and status.
use maintenance_orchestrator.Prelude.{ℕ, ℤ, Bool, List, Option, String}
use maintenance_orchestrator.Api.Enums.{Strategy, CheckStatus, Gate, Phase}
use maintenance_orchestrator.Api.Spec.{MaintenanceSpec, MaintenancePolicySpec}
use maintenance_orchestrator.Api.Status.{
  Batch, RiskFactor, ImpactEstimate, NodeExecutionStatus, ProgressSummary,
}

pub record PreflightCheckResult : Type 0 where
  pub code : String
  pub node : String
  pub status : CheckStatus
  pub message : String
  pub details : List (String × String)
  pub time : ℕ

pub record ExecutionPlan : Type 0 where
  pub strategy : Strategy
  pub batches : List Batch
  pub total_nodes : ℕ
  pub max_concurrent : ℤ
  pub risk_score : ℤ
  pub risk_factors : List RiskFactor
  pub impact : ImpactEstimate
  pub generated_at : ℕ

-- A status condition of apimachinery (metav1.Condition).
pub record Condition : Type 0 where
  pub type : String
  pub status : Bool
  pub reason : String
  pub message : String
  pub observed_generation : ℤ
  pub last_transition_time : ℕ

pub record MaintenanceStatus : Type 0 where
  pub phase : Phase
  pub conditions : List Condition
  pub start_time : Option ℕ
  pub completion_time : Option ℕ
  pub approval_gate : Gate
  pub preflight : List PreflightCheckResult
  pub plan : Option ExecutionPlan
  pub nodes : List NodeExecutionStatus
  pub summary : ProgressSummary
  pub message : String
  pub last_error : String

pub record MaintenanceRequest : Type 0 where
  pub name : String
  pub generation : ℤ
  pub deletion_timestamp : Option ℕ
  pub spec : MaintenanceSpec
  pub status : MaintenanceStatus

pub record MaintenancePolicyStatus : Type 0 where
  pub conditions : List Condition
  pub observed_generation : ℤ

pub record MaintenancePolicy : Type 0 where
  pub name : String
  pub generation : ℤ
  pub spec : MaintenancePolicySpec
  pub status : MaintenancePolicyStatus
