-- ===== src/Planner/Build.antt =====
-- `Build` and `analyze` of planner.go. The counters of `analyze` count pods of lists, so they are ℕ;
-- a set of texts is a list without repetitions.
use Prim.Native.String.{◌++◌}
use maintenance_orchestrator.Prelude.{
  ℕ, ◌+◌, pos, leb_ℤ, Bool, false, not, ◌&&◌, ◌||◌, List, [], ◌∷◌, String, if◌then◌else◌, length,
  has, str_eq,
}
use maintenance_orchestrator.Api.Enums.{Strategy}
use maintenance_orchestrator.Api.Spec.{MaintenanceSpec}
use maintenance_orchestrator.Api.Status.{ImpactEstimate}
use maintenance_orchestrator.Api.Request.{ExecutionPlan}
use maintenance_orchestrator.Kube.Objects.{Node, Pod}
use maintenance_orchestrator.Kube.Pods.{is_evictable, has_empty_dir}
use maintenance_orchestrator.Kube.Cluster.{Env, M, ◌>>=◌, pure, Result, ok, err}
use maintenance_orchestrator.Kube.Calls.{list_pods_on_node, clock}
use maintenance_orchestrator.Kube.Workloads.{Workload, resolve_workload}
use maintenance_orchestrator.Policy.{Effective, concurrency, is_control_plane_node}
use maintenance_orchestrator.Planner.Batches.{build_batches}
use maintenance_orchestrator.Planner.Score.{score}

-- `set.Insert(k)`
abbrev pub insert : String → List String → List String
insert k set = if has k set then set else k ∷ set

-- The variables of `analyze`.
pub record Analysis : Type 0 where
  pub pods_to_evict : ℕ
  pub empty_dir_pods : ℕ
  pub workloads : List String
  pub single : List String
  pub control_plane : Bool

abbrev pub nothing_seen : Analysis
nothing_seen = record {
  pods_to_evict = 0;
  empty_dir_pods = 0;
  workloads = [];
  single = [];
  control_plane = false;
}

abbrev pub workload_key : Workload → String
workload_key wl = wl.kind ++ ("/" ++ (wl.namespace ++ ("/" ++ wl.name)))

-- `wl.Kind != "DaemonSet" && (!wl.IsController || wl.Replicas <= 1)`
abbrev pub is_single : Workload → Bool
is_single wl =
    not (str_eq wl.kind "DaemonSet") && (not wl.is_controller || leb_ℤ wl.replicas (pos 1))

-- What an evictable pod of the workload adds.
unfoldable pub count_pod : Analysis → Pod → Workload → Analysis
count_pod a pod wl =
    let key = workload_key wl in
    record a {
      pods_to_evict = a.pods_to_evict + 1;
      empty_dir_pods = if has_empty_dir pod then a.empty_dir_pods + 1 else a.empty_dir_pods;
      workloads = insert key a.workloads;
      single = if is_single wl then insert key a.single else a.single;
    }

module _ (env : Env) where
  unfoldable pub analyze_pod : Analysis → Pod → M (Result Analysis)
  analyze_pod a pod = if not (is_evictable pod) then pure (ok a) else (do
    r ← resolve_workload env pod
    pure (elim r [ ok wl ↦ ok (count_pod a pod wl) | err e ↦ err e ]))

  unfoldable pub analyze_pods : Analysis → List Pod → M (Result Analysis)
  analyze_pods a [] = pure (ok a)
  analyze_pods a (pod ∷ pods) = do
    r ← analyze_pod a pod
    elim r [ ok a' ↦ analyze_pods a' pods | err e ↦ pure (err e) ]

  unfoldable pub analyze_node : Effective → Analysis → Node → M (Result Analysis)
  analyze_node pol a node = do
    r ← list_pods_on_node env node.name
    elim r [
      | err e ↦ pure (err e)
      | ok pods ↦
          analyze_pods
            (record a { control_plane = is_control_plane_node pol node || a.control_plane }) pods
    ]

  unfoldable pub analyze_nodes : Effective → Analysis → List Node → M (Result Analysis)
  analyze_nodes pol a [] = pure (ok a)
  analyze_nodes pol a (node ∷ nodes) = do
    r ← analyze_node pol a node
    elim r [ ok a' ↦ analyze_nodes pol a' nodes | err e ↦ pure (err e) ]

  abbrev pub impact_of : Analysis → ImpactEstimate
  impact_of a = record {
    pods_to_evict = pos a.pods_to_evict;
    apps_affected = pos (length a.workloads);
    single_replica_workloads = pos (length a.single);
    empty_dir_pods = pos a.empty_dir_pods;
  }

  abbrev or_serial : Strategy → Strategy
  or_serial Strategy.unset = Strategy.serial
  or_serial strategy = strategy

  -- The plan for the analysis and the time.
  unfoldable pub plan_of :
      (pool_keys : List String)
      → MaintenanceSpec
      → Effective
      → List Node
      → Analysis
      → ℕ
      → ExecutionPlan
  plan_of pool_keys spec pol nodes a now =
      let strategy = or_serial spec.strategy in
      let c = concurrency pol spec.max_concurrent in
      let total = length nodes in
      let (risk, factors) = score (pos total) (impact_of a) a.control_plane c in
      record {
        strategy = strategy;
        batches = build_batches strategy nodes spec.batch_size c pool_keys;
        total_nodes = total;
        max_concurrent = c;
        risk_score = risk;
        risk_factors = factors;
        impact = impact_of a;
        generated_at = now;
      }

  -- The controller always passes a policy, and the zero time.
  unfoldable pub build :
      (pool_keys : List String) → MaintenanceSpec → Effective → List Node → M (Result ExecutionPlan)
  build pool_keys spec pol nodes = do
    r ← analyze_nodes pol nothing_seen nodes
    elim r [
      | err e ↦ pure (err e)
      | ok a ↦ do now ← clock env; pure (ok (plan_of pool_keys spec pol nodes a now))
    ]
