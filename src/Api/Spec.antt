-- ===== src/Api/Spec.antt =====
-- What a user writes: the spec of a MaintenanceRequest (api/v1alpha1/maintenancerequest_types.go),
-- of a MaintenancePolicy (maintenancepolicy_types.go), and the types that both share
-- (shared_types.go). An int32 is a ℤ, a duration a ℤ of nanoseconds, a time an ℕ of nanoseconds.
use maintenance_orchestrator.Prelude.{ℕ, ℤ, Bool, true, false, List, Option, none, some, String}
use maintenance_orchestrator.Api.Enums.{
  Mode, Strategy, TargetType, ApprovalPolicy, Gate, Decision, UpgradeStrategy, MachineApi,
}

-- A label selector of the Kubernetes API (apimachinery's metav1.LabelSelector).
pub record Requirement : Type 0 where
  pub key : String
  pub operator : String
  pub values : List String

pub record LabelSelector : Type 0 where
  pub match_labels : List (String × String)
  pub match_expressions : List Requirement

pub record TargetRef : Type 0 where
  pub type : TargetType
  pub node_names : List String
  pub selector : Option LabelSelector
  pub pool_key : String
  pub pool_value : String

pub record UpgradeSpec : Type 0 where
  pub strategy : UpgradeStrategy
  pub machine_api : MachineApi
  pub target_kubelet_version : String
  pub replacement_timeout : ℤ

pub record Window : Type 0 where
  pub cron : String
  pub duration : ℤ
  pub time_zone : String

pub record GateDecision : Type 0 where
  pub gate : Gate
  pub decision : Decision
  pub approved_by : String
  pub reason : String
  pub time : Option ℕ

pub record ApprovalSpec : Type 0 where
  pub policy : ApprovalPolicy
  pub gates : List GateDecision

pub record MaintenanceSpec : Type 0 where
  pub mode : Mode
  pub reason : String
  pub requested_by : String
  pub target : TargetRef
  pub strategy : Strategy
  pub max_concurrent : ℤ
  pub batch_size : ℤ
  pub drain_timeout : ℤ
  pub global_timeout : ℤ
  pub uncordon_after : Bool
  pub maintenance_window : Option Window
  pub approval : ApprovalSpec
  pub pause : Bool
  pub cancel : Bool
  pub policy_ref : Option String
  pub allow_control_plane : Bool
  pub force : Bool
  pub upgrade : Option UpgradeSpec

replaces : UpgradeStrategy → Bool
replaces UpgradeStrategy.unset = true
replaces UpgradeStrategy.replace_node = true
replaces (UpgradeStrategy.other s) = false

-- Whether the request replaces its nodes instead of returning them to service.
unfoldable pub replace_nodes : MaintenanceSpec → Bool
unfolding replaces
replace_nodes s = elim s.upgrade [ none ↦ false | some u ↦ replaces u.strategy ]

or_auto : MachineApi → MachineApi
or_auto MachineApi.unset = MachineApi.auto
or_auto api = api

unfoldable pub effective_machine_api : MaintenanceSpec → MachineApi
unfolding or_auto
effective_machine_api s = elim s.upgrade [ none ↦ MachineApi.auto | some u ↦ or_auto u.machine_api ]

pub record MaintenancePolicySpec : Type 0 where
  pub protect_control_plane : Bool
  pub control_plane_node_labels : List String
  pub max_concurrent_drains : ℤ
  pub max_unavailable_nodes : ℤ
  pub max_unavailable_percent : ℤ
  pub reserved_node_labels : List String
  pub reserved_taints : List String
  pub min_capacity_headroom_percent : ℤ
  pub allow_force_eviction : Bool
  pub allow_node_replacement : Bool
  pub default_approval_policy : ApprovalPolicy
  pub allowed_windows : List Window
  pub failure_threshold : ℤ
  pub node_selector : Option LabelSelector
