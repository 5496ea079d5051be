-- ===== src/Policy.antt =====
-- internal/policy/policy.go: the effective policy of a request and its guardrails.
pub mod Limits
pub mod Resolve
use maintenance_orchestrator.Prelude.{
  ℕ, ◌/◌, ℤ, pos, negsuc, ◌+ℤ◌, ◌-ℤ◌, ◌*ℤ◌, ltb_ℤ, quot, int32, Bool, true, false, not, ◌&&◌, ◌||◌,
  Option, none, some, List, [], ◌∷◌, String, if◌then◌else◌, any, has, has_key,
}
use maintenance_orchestrator.Api.Enums.{ApprovalPolicy}
use maintenance_orchestrator.Api.Spec.{MaintenancePolicySpec}
use maintenance_orchestrator.Approval.{effective_policy}
use maintenance_orchestrator.Kube.Objects.{Node, Taint}
use maintenance_orchestrator.Kube.Nodes.{is_control_plane}

abbrev pub default_max_concurrent_drains : ℤ
default_max_concurrent_drains = pos 1

abbrev pub default_failure_threshold : ℤ
default_failure_threshold = pos 1

abbrev pub default_max_unavailable_percent : ℤ
default_max_unavailable_percent = pos 33

abbrev pub default_control_plane_labels : List String
default_control_plane_labels =
    "node-role.kubernetes.io/control-plane" ∷ "node-role.kubernetes.io/master" ∷ []

unfoldable pub default_spec : MaintenancePolicySpec
default_spec = record {
  protect_control_plane = true;
  control_plane_node_labels = default_control_plane_labels;
  max_concurrent_drains = default_max_concurrent_drains;
  max_unavailable_nodes = pos 0;
  max_unavailable_percent = default_max_unavailable_percent;
  reserved_node_labels = [];
  reserved_taints = [];
  min_capacity_headroom_percent = pos 0;
  allow_force_eviction = false;
  allow_node_replacement = false;
  default_approval_policy = ApprovalPolicy.auto;
  allowed_windows = [];
  failure_threshold = default_failure_threshold;
  node_selector = none;
}

abbrev labels_or : List String → List String → List String
labels_or [] d = d
labels_or (k ∷ ks) d = k ∷ ks

abbrev at_least_one_or : ℤ → ℤ → ℤ
at_least_one_or n d = if ltb_ℤ n (pos 1) then d else n

abbrev approval_or : ApprovalPolicy → ApprovalPolicy → ApprovalPolicy
approval_or ApprovalPolicy.unset d = d
approval_or p d = p

unfoldable pub with_defaults : MaintenancePolicySpec → MaintenancePolicySpec
unfolding default_spec
with_defaults spec = record spec {
  control_plane_node_labels =
      labels_or spec.control_plane_node_labels default_spec.control_plane_node_labels;
  max_concurrent_drains =
      at_least_one_or spec.max_concurrent_drains default_spec.max_concurrent_drains;
  failure_threshold = at_least_one_or spec.failure_threshold default_spec.failure_threshold;
  default_approval_policy =
      approval_or spec.default_approval_policy default_spec.default_approval_policy;
}

pub record Effective : Type 0 where
  pub spec : MaintenancePolicySpec
  pub name : String
  pub found : Bool

module _ (e : Effective) where
  unfoldable pub is_control_plane_node : Node → Bool
  unfolding is_control_plane
  is_control_plane_node node = is_control_plane node e.spec.control_plane_node_labels

  unfoldable pub control_plane_blocked : Bool → Bool
  control_plane_blocked allow_control_plane =
      e.spec.protect_control_plane || not allow_control_plane

  -- The absolute and the percentage cap combined; a cap of 0 is off, and the result is at least 1.
  unfoldable pub max_unavailable : ℤ → ℤ
  unfolding int32
  max_unavailable total_matched =
      let absolute = e.spec.max_unavailable_nodes in
      let percent = e.spec.max_unavailable_percent in
      let limit =
        if ltb_ℤ (pos 0) absolute && ltb_ℤ absolute total_matched
        then absolute
        else total_matched in
      let share = quot (int32 (total_matched *ℤ percent)) 100 in
      let pct = if ltb_ℤ share (pos 1) then pos 1 else share in
      let limit' = if ltb_ℤ (pos 0) percent && ltb_ℤ pct limit then pct else limit in
      if ltb_ℤ limit' (pos 1) then pos 1 else limit'

  unfoldable pub unavailability_capped : Bool
  unavailability_capped =
      ltb_ℤ (pos 0) e.spec.max_unavailable_nodes || ltb_ℤ (pos 0) e.spec.max_unavailable_percent

  -- The drains of one batch that may run at the same time.
  unfoldable pub concurrency : ℤ → ℤ
  concurrency requested =
      let c = if ltb_ℤ requested (pos 1) then pos 1 else requested in
      let cap = e.spec.max_concurrent_drains in if ltb_ℤ (pos 0) cap && ltb_ℤ cap c then cap else c

  unfoldable pub force_allowed : Bool → Bool
  force_allowed request_force = request_force && e.spec.allow_force_eviction

  unfoldable pub replacement_allowed : Bool
  replacement_allowed = e.spec.allow_node_replacement

  unfoldable pub approval_policy : ApprovalPolicy → ApprovalPolicy
  unfolding effective_policy
  approval_policy req_policy = effective_policy req_policy e.spec.default_approval_policy

-- The first of the keys that the node carries as a label.
first_label : Node → List String → Option String
first_label node [] = none
first_label node (k ∷ ks) = if has_key k node.labels then some k else first_label node ks

unfoldable pub reserved_label : Effective → Node → Option String
unfolding first_label
reserved_label e node = first_label node e.spec.reserved_node_labels

-- The first taint of the node whose key is among the keys.
first_taint : List Taint → List String → Option String
first_taint [] keys = none
first_taint (t ∷ ts) keys = if has t.key keys then some t.key else first_taint ts keys

unfoldable pub reserved_taint : Effective → Node → Option String
unfolding first_taint
reserved_taint e node = first_taint node.taints e.spec.reserved_taints
