-- ===== src/Controller/Reads/Plan.antt =====
-- The planner only reads.
use maintenance_orchestrator.Prelude.{inl, inr, ◌||◌, List, [], ◌∷◌, String, arith}
use maintenance_orchestrator.Api.Spec.{MaintenanceSpec}
use maintenance_orchestrator.Kube.Objects.{Node, Pod}
use maintenance_orchestrator.Kube.Cluster
use maintenance_orchestrator.Kube.Calls
use maintenance_orchestrator.Kube.Cluster.{Env, Trace, Result-cases}
use maintenance_orchestrator.Policy.{Effective, is_control_plane_node}
use maintenance_orchestrator.Planner.Build.{
  Analysis, nothing_seen, analyze_pod, analyze_pods, analyze_node, analyze_nodes, build,
}
use maintenance_orchestrator.Controller.Finish.Updates.{Rule, Silent, Silent-refl}
use maintenance_orchestrator.Controller.Reads.Targets.{resolve_workload-Silent}

module _ (env : Env) (P : Rule) where
  analyze_pod-Silent :
      (a : Analysis) (pod : Pod) (t : Trace) → Silent P t (analyze_pod env a pod t).1
  unfolding analyze_pod
  analyze_pod-Silent a pod t = ground (arith, resolve_workload-Silent env P pod t)

  analyze_pods-Silent :
      (a : Analysis) (pods : List Pod) (t : Trace) → Silent P t (analyze_pods env a pods t).1
  unfolding analyze_pods
  analyze_pods-Silent a [] t = Silent-refl P t
  analyze_pods-Silent a (pod ∷ pods) t = elim (Result-cases (analyze_pod env a pod t).0) [
    | inl (a', e) ↦ ground (
      arith,
      e,
      analyze_pod-Silent a pod t,
      analyze_pods-Silent a' pods (analyze_pod env a pod t).1,
    )
    | inr (failure, e) ↦ ground (arith, e, analyze_pod-Silent a pod t)
  ]

  analyze_node-Silent :
      (pol : Effective) (a : Analysis) (node : Node) (t : Trace)
      → Silent P t (analyze_node env pol a node t).1
  unfolding analyze_node Calls.list_pods_on_node
  analyze_node-Silent pol a node t =
      let a' : Analysis = record a {
        control_plane = is_control_plane_node pol node || a.control_plane;
      } in
      elim (Result-cases (env.list_pods t node.name)) [
        | inl (pods, e) ↦
            ground (arith, e, analyze_pods-Silent a' pods (Cluster.Call.list_pods node.name ∷ t))
        | inr (failure, e) ↦ ground (arith, e)
      ]

  analyze_nodes-Silent :
      (pol : Effective) (a : Analysis) (nodes : List Node) (t : Trace)
      → Silent P t (analyze_nodes env pol a nodes t).1
  unfolding analyze_nodes
  analyze_nodes-Silent pol a [] t = Silent-refl P t
  analyze_nodes-Silent pol a (node ∷ nodes) t =
      elim (Result-cases (analyze_node env pol a node t).0) [
        | inl (a', e) ↦ ground (
          arith,
          e,
          analyze_node-Silent pol a node t,
          analyze_nodes-Silent pol a' nodes (analyze_node env pol a node t).1,
        )
        | inr (failure, e) ↦ ground (arith, e, analyze_node-Silent pol a node t)
      ]

  -- The planner stores no status and changes nothing in the cluster.
  pub build-Silent :
      (pool_keys : List String) (spec : MaintenanceSpec) (pol : Effective) (nodes : List Node)
      (t : Trace)
      → Silent P t (build env pool_keys spec pol nodes t).1
  unfolding build Calls.clock
  build-Silent pool_keys spec pol nodes t =
      ground (arith, analyze_nodes-Silent pol nothing_seen nodes t)
