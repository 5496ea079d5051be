-- ===== src/Preflight/Pods.antt =====
-- `checkPods`: the risks of the pods on a node. The checks are threaded through the loops with the
-- sets of the workloads and budgets that were reported.
use Prim.Native.String.{◌++◌}
use maintenance_orchestrator.Prelude.{
  ℕ, ◌+◌, pos, leb_ℤ, not, ◌&&◌, List, [], ◌∷◌, Option, none, some, String, if◌then◌else◌, has,
  str_eq, ◌==◌,
}
use mathlib.Core.List
use maintenance_orchestrator.Api.Enums.{CheckStatus}
use maintenance_orchestrator.Api.Request.{PreflightCheckResult}
use maintenance_orchestrator.Kube.Objects.{Pod, PodDisruptionBudget}
use maintenance_orchestrator.Kube.Pods.{
  is_daemon_set_pod, is_mirror_pod, is_terminated, has_empty_dir, has_host_path,
}
use maintenance_orchestrator.Kube.Cluster.{M, ◌>>=◌, pure, ok, err}
use maintenance_orchestrator.Kube.Workloads.{Workload, resolve_workload, pdb_for_pod, pdb_is_tight}
use maintenance_orchestrator.Planner.Build.{workload_key}
use maintenance_orchestrator.Preflight.Codes.{
  code_empty_dir, code_local_storage, code_pdb_blocks, code_single_replica, code_static_pod,
  code_daemon_set_pods,
}
use maintenance_orchestrator.Controller.World.{World, itoa}

-- The results so far, and `seenSingle`, `seenPDB` and `dsCount`.
pub record Checks : Type 0 where
  pub time : ℕ
  pub out : List PreflightCheckResult
  pub seen_single : List String
  pub seen_pdb : List String
  pub daemon_set_pods : ℕ

-- `add`
abbrev pub add :
    Checks
    → (code node : String) → CheckStatus
    → (msg : String) → (details : List (String × String)) → Checks
add c code node status msg details = record c {
  out = List.◌++◌ c.out (
      record {
        code = code;
        node = node;
        status = status;
        message = msg;
        details = details;
        time = c.time;
      }
      ∷ []);
}

abbrev pub pod_key : Pod → String
pod_key pod = pod.namespace ++ ("/" ++ pod.name)

abbrev warn_pod : Checks → (code node msg : String) → Pod → Checks
warn_pod c code node msg pod = add c code node CheckStatus.warn msg (("pod", pod_key pod) ∷ [])

-- The warnings on a pod's volumes.
unfoldable pub check_volumes : String → Pod → Checks → Checks
unfolding has_empty_dir has_host_path
check_volumes node pod c =
    let c1 =
      if has_empty_dir pod
      then warn_pod c code_empty_dir node
          "pod uses an emptyDir volume; its data is lost on eviction" pod
      else c in
    if has_host_path pod
    then warn_pod c1 code_local_storage node "pod uses a hostPath volume (node-local storage)" pod
    else c1

-- The warning on a tight budget, once for each budget.
unfoldable pub check_budget : String → Option PodDisruptionBudget → Checks → Checks
unfolding pdb_is_tight
check_budget node none c = c
check_budget node (some pdb) c =
    let key = pdb.namespace ++ ("/" ++ pdb.name) in
    if pdb_is_tight pdb && not (has key c.seen_pdb)
    then add (record c { seen_pdb = key ∷ c.seen_pdb }) code_pdb_blocks node CheckStatus.warn
        "a PodDisruptionBudget currently allows no voluntary disruptions" (("pdb", key) ∷ [])
    else c

-- The warning on a workload without a second replica, once for each workload.
unfoldable pub check_workload : String → Pod → Workload → Checks → Checks
check_workload node pod wl c =
    let key = workload_key wl in
    let seen = record c { seen_single = key ∷ c.seen_single } in
    if has key c.seen_single
    then c
    else if not wl.is_controller
    then warn_pod seen code_single_replica node
        "unmanaged (naked) pod will not be rescheduled after eviction" pod
    else if not (str_eq wl.kind "DaemonSet") && leb_ℤ wl.replicas (pos 1)
    then add seen code_single_replica node CheckStatus.warn
        "workload has a single replica; eviction causes downtime" (("workload", key) ∷ [])
    else c

module _ (w : World) (node : String) where
  -- The checks that ask the cluster; an error of a call drops its check.
  unfoldable pub check_controllers : Pod → Checks → M Checks
  check_controllers pod c = do
    p ← pdb_for_pod w.selector_matches w.env pod
    let c1 : Checks = elim p [ ok pdb ↦ check_budget node pdb c | err e ↦ c ]
    r ← resolve_workload w.env pod
    pure (elim r [ ok wl ↦ check_workload node pod wl c1 | err e ↦ c1 ])

  unfoldable pub check_pod : Pod → Checks → M Checks
  check_pod pod c =
      if is_daemon_set_pod pod
      then pure (record c { daemon_set_pods = c.daemon_set_pods + 1 })
      else if is_mirror_pod pod
      then pure (
          warn_pod c code_static_pod node "static/mirror pod cannot be evicted and will be ignored"
            pod)
      else if is_terminated pod
      then pure c
      else check_controllers pod (check_volumes node pod c)

  unfoldable pub check_each : List Pod → Checks → M Checks
  check_each [] c = pure c
  check_each (pod ∷ pods) c = do c' ← check_pod pod c; check_each pods c'

  abbrev report_daemon_sets : Checks → Checks
  report_daemon_sets c =
      if c.daemon_set_pods == 0
      then c
      else add c code_daemon_set_pods node CheckStatus.pass
          "DaemonSet pods will be ignored, as kubectl drain does"
          (("count", itoa (pos c.daemon_set_pods)) ∷ [])

  unfoldable pub check_pods : List Pod → Checks → M Checks
  check_pods pods c = do
    c' ← check_each pods (record c { daemon_set_pods = 0 })
    pure (report_daemon_sets c')
