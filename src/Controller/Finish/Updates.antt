-- ===== src/Controller/Finish/Updates.antt =====
-- Which statuses the life-cycle helpers store. A trace is measured, as in Kube.Traces, by its calls
-- that satisfy a test.
use maintenance_orchestrator.Prelude.{
  ◌+◌, ◌≤◌, ◌≡◌, refl, ◌⊎◌, inl, inr, Bool, true, false, not, List, [], ◌∷◌, Option, String, arith,
}
use maintenance_orchestrator.Api.Enums.{Phase, Gate}
use maintenance_orchestrator.Api.Spec.{MaintenanceSpec}
use maintenance_orchestrator.Api.Status.{NodeExecutionStatus}
use maintenance_orchestrator.Api.Request.{ExecutionPlan, MaintenanceStatus, MaintenanceRequest}
use maintenance_orchestrator.Kube.Cluster
use maintenance_orchestrator.Kube.Cluster.{Env, Trace, Call, M}
use maintenance_orchestrator.Kube.Traces.{count_calls, is_update}
use maintenance_orchestrator.Executor.{uncordon}
use maintenance_orchestrator.Controller.World.{World}
use maintenance_orchestrator.Controller.Nodes.{nodes_to_release, releasable}
use maintenance_orchestrator.Controller.Release.{
  release_node, release_nodes, release_cordoned_nodes,
}
use maintenance_orchestrator.Controller.Finish.{complete, fail, cancel, pause}

-- What the properties of a stored status look at.
pub record Core : Type 0 where
  pub phase : Phase
  pub gate : Gate
  pub plan : Option ExecutionPlan
  pub nodes : List NodeExecutionStatus

abbrev pub core : MaintenanceStatus → Core
core st = record { phase = st.phase; gate = st.approval_gate; plan = st.plan; nodes = st.nodes }

-- The core of a status, in another phase.
abbrev pub moved : MaintenanceStatus → Phase → Core
moved st p = record (core st) { phase = p }

-- What a run may do: which statuses it may store, and whether it may change nodes, pods and Machines.
pub record Rule : Type 0 where
  pub stored : Core → Bool
  pub mutations : Bool

-- A call that the rule forbids.
abbrev pub violates : Rule → Call → Bool
violates P (Cluster.Call.update_status name st) = not (P.stored (core st))
violates P (Cluster.Call.patch_unschedulable name b) = not P.mutations
violates P (Cluster.Call.evict pod grace) = not P.mutations
violates P (Cluster.Call.delete_pod pod grace) = not P.mutations
violates P (Cluster.Call.delete_machine ref) = not P.mutations
violates P _ = false

-- From the trace `t` to the trace `u` no call violates the rule, and the status was stored at most
-- once.
pub record Stores (P : Rule) (t u : Trace) : Type 0 where
  pub fitting : count_calls (violates P) u ≡ count_calls (violates P) t
  pub once : count_calls is_update u ≤ count_calls is_update t + 1

-- No call violates the rule, and no status was stored.
pub record Silent (P : Rule) (t u : Trace) : Type 0 where
  pub fitting : count_calls (violates P) u ≡ count_calls (violates P) t
  pub none_stored : count_calls is_update u ≡ count_calls is_update t

pub Silent-refl : (P : Rule) (t : Trace) → Silent P t t
Silent-refl P t = record { fitting = refl; none_stored = refl }

pub Silent-trans : (P : Rule) (t u v : Trace) → Silent P t u → Silent P u v → Silent P t v
Silent-trans P t u v first second = ground arith

-- A rule that forbids mutations is kept by the release of no nodes.
abbrev pub MayRelease : Rule → List NodeExecutionStatus → Type 0
MayRelease P nodes = (P.mutations ≡ true) ⊎ (nodes ≡ [])

module _ (w : World) (P : Rule) where
  release_node-Silent :
      (name : String) (t : Trace) → P.mutations ≡ true → Silent P t (release_node w.env name t).1
  unfolding release_node uncordon
  release_node-Silent name t may = ground arith

  release_nodes-Silent :
      (names : List String) (t : Trace)
      → P.mutations ≡ true
      → Silent P t (release_nodes w.env names t).1
  unfolding release_nodes
  release_nodes-Silent [] t may = ground arith
  release_nodes-Silent (n ∷ names) t may = ground (
    arith,
    release_node-Silent n t may,
    release_nodes-Silent names (release_node w.env n t).1 may,
  )

  release_none-Silent :
      (spec : MaintenanceSpec) (t : Trace) → Silent P t (release_cordoned_nodes w.env spec [] t).1
  unfolding release_cordoned_nodes nodes_to_release releasable release_nodes
  release_none-Silent spec t = ground arith

  pub release_cordoned_nodes-Silent :
      (spec : MaintenanceSpec) (nodes : List NodeExecutionStatus) (t : Trace)
      → MayRelease P nodes
      → Silent P t (release_cordoned_nodes w.env spec nodes t).1
  unfolding release_cordoned_nodes
  release_cordoned_nodes-Silent spec nodes t (inl may) =
      release_nodes-Silent (nodes_to_release spec nodes) t may
  release_cordoned_nodes-Silent spec nodes t (inr e) = rw e (release_none-Silent spec t)

  pub complete-Stores :
      (mr : MaintenanceRequest) (msg : String) (t : Trace)
      → P.stored (moved mr.status Phase.completed) ≡ true
      → Stores P t (complete w mr msg t).1
  unfolding complete
  complete-Stores mr msg t h = ground arith

  pub fail-Stores :
      (mr : MaintenanceRequest) (reason msg : String) (t : Trace)
      → P.stored (moved mr.status Phase.failed) ≡ true
      → MayRelease P mr.status.nodes
      → Stores P t (fail w mr reason msg t).1
  unfolding fail
  fail-Stores mr reason msg t h may =
      ground (arith, release_cordoned_nodes-Silent mr.spec mr.status.nodes t may)

  pub cancel-Stores :
      (mr : MaintenanceRequest) (msg : String) (release : Bool) (t : Trace)
      → P.stored (moved mr.status Phase.cancelled) ≡ true
      → MayRelease P mr.status.nodes
      → Stores P t (cancel w mr msg release t).1
  unfolding cancel
  cancel-Stores mr msg release t h may =
      ground (arith, release_cordoned_nodes-Silent mr.spec mr.status.nodes t may)

  pub pause-Stores :
      (mr : MaintenanceRequest) (t : Trace)
      → P.stored (moved mr.status Phase.paused) ≡ true
      → Stores P t (pause w mr t).1
  unfolding pause
  pause-Stores mr t h = ground arith

  -- A request that fails or is cancelled is stored exactly once.
  pub fail-once :
      (mr : MaintenanceRequest) (reason msg : String) (t : Trace)
      → P.mutations ≡ true
      → count_calls is_update (fail w mr reason msg t).1 ≡ count_calls is_update t + 1
  unfolding fail
  fail-once mr reason msg t may =
      ground (arith, release_cordoned_nodes-Silent mr.spec mr.status.nodes t (inl may))

  pub cancel-once :
      (mr : MaintenanceRequest) (msg : String) (release : Bool) (t : Trace)
      → P.mutations ≡ true
      → count_calls is_update (cancel w mr msg release t).1 ≡ count_calls is_update t + 1
  unfolding cancel
  cancel-once mr msg release t may =
      ground (arith, release_cordoned_nodes-Silent mr.spec mr.status.nodes t (inl may))
