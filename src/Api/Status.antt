-- ===== src/Api/Status.antt =====
-- What the controller records in `.status` (api/v1alpha1/shared_types.go and
-- maintenancerequest_types.go). The int32 fields that only count the elements of a list, or index
-- one, are ℕ; `evicted_pods`, which adds up over rounds, is an int32.
use maintenance_orchestrator.Prelude.{ℕ, ℤ, List, Option, String}
use maintenance_orchestrator.Api.Enums.{NodePhase, BlockReason}

pub record Batch : Type 0 where
  pub index : ℕ
  pub group : String
  pub nodes : List String

pub record ImpactEstimate : Type 0 where
  pub pods_to_evict : ℤ
  pub apps_affected : ℤ
  pub single_replica_workloads : ℤ
  pub empty_dir_pods : ℤ

-- A risk factor stands for its text, with the number that the text shows.
pub data RiskFactor : Type 0 where
  control_plane_nodes : RiskFactor
  single_replica empty_dir concurrent_drains nodes_in_scope pods_to_evict : ℤ → RiskFactor

pub record NodeExecutionStatus : Type 0 where
  pub node : String
  pub phase : NodePhase
  pub batch : ℕ
  pub start_time : Option ℕ
  pub end_time : Option ℕ
  pub total_pods : ℕ
  pub evicted_pods : ℤ
  pub remaining_pods : ℕ
  pub replacement_baseline : ℕ
  pub block_reason : BlockReason
  pub message : String

pub record ProgressSummary : Type 0 where
  pub total : ℕ
  pub pending : ℕ
  pub in_progress : ℕ
  pub completed : ℕ
  pub blocked : ℕ
  pub failed : ℕ
  pub skipped : ℕ
