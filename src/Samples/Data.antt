-- ===== src/Samples/Data.antt =====
-- A cluster with two worker nodes, two pods and one Machine, and a request for it.
use maintenance_orchestrator.Prelude.{
  pos, true, false, none, some, List, [], ◌∷◌, String, if◌then◌else◌, str_eq,
}
use maintenance_orchestrator.Api.Enums.{
  Mode, Strategy, TargetType, ApprovalPolicy, Gate, Decision, NodePhase,
}
use maintenance_orchestrator.Api.Spec.{ApprovalSpec, MaintenanceSpec}
use maintenance_orchestrator.Api.Status.{NodeExecutionStatus}
use maintenance_orchestrator.Kube.Objects.{Node, Pod}
use maintenance_orchestrator.Kube.Cluster.{Env, ok, err, Error}
use maintenance_orchestrator.Policy.{Effective, default_spec}
use maintenance_orchestrator.Settings.{Config, defaults}
use maintenance_orchestrator.Controller.Nodes.{new_status}

abbrev worker : (name zone : String) → Node
worker name zone = record {
  name = name;
  labels = ("topology.kubernetes.io/zone", zone) ∷ ("pool", "workers") ∷ [];
  annotations = [];
  unschedulable = false;
  taints = [];
  provider_id = "";
  conditions = record { type = "Ready"; status = "True" } ∷ [];
  kubelet_version = "v1.31.0";
  allocatable_cpu = pos 4000000000;
  allocatable_memory = pos 8000000000;
}

abbrev pub node_a : Node
node_a = worker "node-a" "z1"

abbrev pub node_b : Node
node_b = worker "node-b" "z2"

abbrev pod_owned_by : (name kind : String) → Pod
pod_owned_by name kind = record {
  namespace = "shop";
  name = name;
  node_name = "node-a";
  containers = record { cpu = pos 500000000; memory = pos 1000000000 } ∷ [];
  labels = [];
  annotations = [];
  controller = some (record { kind = kind; name = "owner"; uid = "7" });
  volumes = [];
  phase = "Running";
  deletion_timestamp = none;
  deletion_grace_period_seconds = none;
}

-- A pod to evict, and one of a DaemonSet, which stays.
abbrev pub two_pods : List Pod
two_pods = pod_owned_by "web-1" "ReplicaSet" ∷ pod_owned_by "agent-1" "DaemonSet" ∷ []

-- Every call succeeds; each node runs the same two pods; no Machines.
abbrev pub env : Env
env = record {
  get_node = λ t name. if str_eq name "node-a" then ok node_a else ok node_b;
  patch_unschedulable = λ t name b. ok tt;
  list_nodes = λ t. ok (node_a ∷ node_b ∷ []);
  list_pods = λ t name. ok two_pods;
  evict = λ t pod grace. err Error.too_many_requests;
  delete_pod = λ t pod grace. ok tt;
  list_machines = λ t gvk. ok [];
  delete_machine = λ t ref. ok tt;
  get_request = λ t name. err Error.not_found;
  update_status = λ t name status. ok tt;
  list_requests = λ t. ok [];
  get_policy = λ t name. err Error.not_found;
  update_policy = λ t name status. ok tt;
  list_matching_nodes = λ t selector. ok (node_a ∷ node_b ∷ []);
  list_all_pods = λ t. ok two_pods;
  list_budgets = λ t namespace. ok [];
  get_replica_set = λ t namespace name. err Error.not_found;
  get_deployment = λ t namespace name. err Error.not_found;
  get_stateful_set = λ t namespace name. err Error.not_found;
  now = λ t. 100;
}

abbrev pub approval : ApprovalSpec
approval = record {
  policy = ApprovalPolicy.manual_before_both;
  gates =
      record {
        gate = Gate.drain;
        decision = Decision.rejected;
        approved_by = "ann";
        reason = "";
        time = some 3;
      }
      ∷ record {
        gate = Gate.drain;
        decision = Decision.approved;
        approved_by = "bob";
        reason = "";
        time = some 5;
      }
      ∷ [];
}

abbrev pub spec : MaintenanceSpec
spec = record {
  mode = Mode.execute;
  reason = "kernel update";
  requested_by = "ann";
  target = record {
    type = TargetType.node;
    node_names = "node-a" ∷ "node-b" ∷ [];
    selector = none;
    pool_key = "";
    pool_value = "";
  };
  strategy = Strategy.serial;
  max_concurrent = pos 2;
  batch_size = pos 0;
  drain_timeout = pos 0;
  global_timeout = pos 0;
  uncordon_after = true;
  maintenance_window = none;
  approval = approval;
  pause = false;
  cancel = false;
  policy_ref = none;
  allow_control_plane = false;
  force = true;
  upgrade = none;
}

-- A policy that allows two drains at a time, half of the nodes unavailable, and no force.
abbrev pub policy : Effective
policy = record {
  spec = record default_spec { max_concurrent_drains = pos 2; max_unavailable_percent = pos 50 };
  name = "strict";
  found = true;
}

abbrev pub config : Config
config = record defaults {
  default_drain_timeout = pos 600000000000;
  default_global_timeout = pos 3600000000000;
  default_replacement_timeout = pos 900000000000;
  default_policy_name = "default";
  default_pool_keys = "pool" ∷ [];
}

-- `node-a` is being drained, `node-b` has not started.
abbrev pub draining_a : NodeExecutionStatus
draining_a = record (new_status 0 "node-a") { phase = NodePhase.draining; start_time = some 40 }

abbrev pub statuses : List NodeExecutionStatus
statuses = draining_a ∷ new_status 0 "node-b" ∷ []
