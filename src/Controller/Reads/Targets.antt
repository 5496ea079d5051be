-- ===== src/Controller/Reads/Targets.antt =====
-- Target resolution, policy resolution and the resolution of workloads only read.
use maintenance_orchestrator.Prelude.{
  inl, inr, Bool, List, [], ◌∷◌, Option, none, some, String, arith, Option-cases,
}
use maintenance_orchestrator.Api.Spec.{TargetRef, MaintenanceSpec, LabelSelector}
use maintenance_orchestrator.Kube.Objects.{Pod, ReplicatedObject, OwnerReference}
use maintenance_orchestrator.Kube.Cluster
use maintenance_orchestrator.Kube.Cluster.{Env, Trace, Result-cases}
use maintenance_orchestrator.Kube.Workloads.{
  list_nodes, resolve_workload, resolve_replica_set, resolve_stateful_set, resolve_deployment,
  pdb_for_pod,
}
use maintenance_orchestrator.Policy.Resolve.{read_policy, resolve}
use maintenance_orchestrator.Controller.World.{World}
use maintenance_orchestrator.Controller.Finish.Updates.{Rule, Silent, Silent-refl}
use maintenance_orchestrator.Controller.Targets.{
  find_nodes, resolve_node_names, select_nodes, resolve_selector, resolve_pool, resolve_target,
}

module _ (w : World) (P : Rule) where
  read_policy-Silent :
      (explicit : Bool) (name : String) (t : Trace) → Silent P t (read_policy w explicit name t).1
  unfolding read_policy
  read_policy-Silent explicit name t = ground arith

  pub resolve-Silent :
      (spec : MaintenanceSpec) (name : String) (t : Trace) → Silent P t (resolve w spec name t).1
  unfolding resolve
  resolve-Silent spec name t = ground arith

  list_nodes-Silent : (sel : LabelSelector) (t : Trace) → Silent P t (list_nodes w.env sel t).1
  unfolding list_nodes
  list_nodes-Silent sel t = ground arith

  find_nodes-Silent : (names : List String) (t : Trace) → Silent P t (find_nodes w names t).1
  unfolding find_nodes
  find_nodes-Silent [] t = Silent-refl P t
  find_nodes-Silent (name ∷ names) t =
      ground (arith, find_nodes-Silent names (Cluster.Call.get_node name ∷ t))

  resolve_node_names-Silent :
      (names : List String) (t : Trace) → Silent P t (resolve_node_names w names t).1
  unfolding resolve_node_names
  resolve_node_names-Silent [] t = Silent-refl P t
  resolve_node_names-Silent (name ∷ names) t = ground (arith, find_nodes-Silent (name ∷ names) t)

  select_nodes-Silent : (sel : LabelSelector) (t : Trace) → Silent P t (select_nodes w sel t).1
  unfolding select_nodes
  select_nodes-Silent sel t = ground (arith, list_nodes-Silent sel t)

  resolve_selector-Silent :
      (sel : Option LabelSelector) (t : Trace) → Silent P t (resolve_selector w sel t).1
  unfolding resolve_selector
  resolve_selector-Silent none t = Silent-refl P t
  resolve_selector-Silent (some sel) t = ground (arith, select_nodes-Silent sel t)

  resolve_pool-Silent : (key value : String) (t : Trace) → Silent P t (resolve_pool w key value t).1
  unfolding resolve_pool
  resolve_pool-Silent key value t = ground (
    arith,
    select_nodes-Silent (record { match_labels = (key, value) ∷ []; match_expressions = [] }) t,
  )

  -- The resolution of a target stores no status and changes nothing in the cluster.
  pub resolve_target-Silent :
      (target : TargetRef) (t : Trace) → Silent P t (resolve_target w target t).1
  unfolding resolve_target
  resolve_target-Silent target t = ground (
    arith,
    resolve_node_names-Silent target.node_names t,
    resolve_selector-Silent target.selector t,
    resolve_pool-Silent target.pool_key target.pool_value t,
  )

module _ (env : Env) (P : Rule) where
  resolve_deployment-Silent :
      (pod : Pod) (rs : ReplicatedObject) (t : Trace)
      → Silent P t (resolve_deployment env pod rs t).1
  unfolding resolve_deployment
  resolve_deployment-Silent pod rs t = ground arith

  resolve_replica_set-Silent :
      (pod : Pod) (ctrl : OwnerReference) (t : Trace)
      → Silent P t (resolve_replica_set env pod ctrl t).1
  unfolding resolve_replica_set
  resolve_replica_set-Silent pod ctrl t =
      elim (Result-cases (env.get_replica_set t pod.namespace ctrl.name)) [
        | inl (rs, e) ↦ rw e (
            ground (
              arith,
              resolve_deployment-Silent pod rs
                  (Cluster.Call.get_replica_set pod.namespace ctrl.name ∷ t),
            ))
        | inr (failure, e) ↦ rw e (ground arith)
      ]

  resolve_stateful_set-Silent :
      (pod : Pod) (ctrl : OwnerReference) (t : Trace)
      → Silent P t (resolve_stateful_set env pod ctrl t).1
  unfolding resolve_stateful_set
  resolve_stateful_set-Silent pod ctrl t = ground arith

  pub resolve_workload-Silent : (pod : Pod) (t : Trace) → Silent P t (resolve_workload env pod t).1
  unfolding resolve_workload
  resolve_workload-Silent pod t = elim (Option-cases pod.controller) [
    | inl e ↦ rw e (ground arith)
    | inr (ctrl, e) ↦ rw e (
        ground
          (arith, resolve_replica_set-Silent pod ctrl t, resolve_stateful_set-Silent pod ctrl t))
  ]

  pub pdb_for_pod-Silent :
      (m : LabelSelector → Option (List (String × String) → Bool)) (pod : Pod) (t : Trace)
      → Silent P t (pdb_for_pod m env pod t).1
  unfolding pdb_for_pod
  pdb_for_pod-Silent m pod t = ground arith
