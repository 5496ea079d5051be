-- ===== src/Api/Enums.antt =====
-- The named constants of api/v1alpha1/shared_types.go. Each Go string type has a constructor for
-- each constant, `unset` for "" where the code tests it, and `other` for any further text; Mode,
-- which the API server validates, and the parts of a status but its phase have the constants only.
use maintenance_orchestrator.Prelude.{String}

pub data Mode : Type 0 where
  dry_run advisory execute : Mode

pub data Strategy : Type 0 where
  unset serial batched by_zone by_pool : Strategy
  other : String → Strategy

pub data TargetType : Type 0 where
  node node_selector pool : TargetType
  other : String → TargetType

pub data ApprovalPolicy : Type 0 where
  unset auto manual_before_drain manual_before_uncordon manual_before_both : ApprovalPolicy
  other : String → ApprovalPolicy

pub data Gate : Type 0 where
  unset drain uncordon : Gate
  other : String → Gate

pub data Decision : Type 0 where
  approved rejected : Decision
  other : String → Decision

pub data CheckStatus : Type 0 where
  pass warn fail : CheckStatus

-- The phase of a request.
pub data Phase : Type 0 where
  unset : Phase
  pending validating awaiting_approval planned executing paused blocked : Phase
  completed failed cancelled : Phase
  other : String → Phase

-- The phase of one node of a request.
pub data NodePhase : Type 0 where
  pending cordoning draining post_check uncordoning replacing awaiting_replacement : NodePhase
  completed blocked failed skipped : NodePhase

pub data UpgradeStrategy : Type 0 where
  unset replace_node : UpgradeStrategy
  other : String → UpgradeStrategy

pub data MachineApi : Type 0 where
  unset auto cluster_api open_shift : MachineApi
  other : String → MachineApi

-- Why a node is not progressing; `no_reason` is "".
pub data BlockReason : Type 0 where
  no_reason pdb finalizer stuck_termination capacity daemon_set_ignored : BlockReason
  local_storage_risk eviction_error timeout machine_not_found : BlockReason
  replacement_timeout : BlockReason
