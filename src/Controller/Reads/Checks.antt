-- ===== src/Controller/Reads/Checks.antt =====
-- The preflight checks only read.
use maintenance_orchestrator.Prelude.{
  inl, inr, Bool, List, [], ◌∷◌, map, Option, String, arith, Option-cases,
}
use maintenance_orchestrator.Api.Enums.{MachineApi}
use maintenance_orchestrator.Api.Spec.{effective_machine_api}
use maintenance_orchestrator.Kube.Objects.{Node, Pod}
use maintenance_orchestrator.Kube.Cluster
use maintenance_orchestrator.Kube.Cluster.{Env, Trace, Result-cases}
use maintenance_orchestrator.Kube.Calls
use maintenance_orchestrator.Kube.Calls.{find_machine}
use maintenance_orchestrator.Kube.Capacity.{compute_headroom}
use maintenance_orchestrator.Kube.Workloads.{pdb_for_pod}
use maintenance_orchestrator.Controller.World.{World}
use maintenance_orchestrator.Controller.Finish.Updates.{Rule, Silent, Silent-refl, Silent-trans}
use maintenance_orchestrator.Controller.Reads.Targets.{resolve_workload-Silent, pdb_for_pod-Silent}
use maintenance_orchestrator.Preflight.Pods.{
  Checks, check_controllers, check_pod, check_each, check_pods, check_volumes,
}
use maintenance_orchestrator.Preflight.Checks.{
  Input, check_node, check_missing, check_capacity, check_headroom, check_machines, scope_selector,
  warn_version, fail_machine, check_replacement, check_window, check_unavailability,
}
use maintenance_orchestrator.Preflight.Run.{check_nodes, check_scope, no_checks, run}

find_machine-Silent :
    (env : Env) (P : Rule) (node : Node) (pref : MachineApi) (t : Trace)
    → Silent P t (find_machine env node pref t).1
unfolding find_machine
find_machine-Silent env P node pref t = ground arith

module _ (w : World) (P : Rule) where
  check_controllers-Silent :
      (node : String) (pod : Pod) (c : Checks) (t : Trace)
      → Silent P t (check_controllers w node pod c t).1
  unfolding check_controllers
  check_controllers-Silent node pod c t =
      Silent-trans P _ _ _ (pdb_for_pod-Silent w.env P w.selector_matches pod t)
        (resolve_workload-Silent w.env P pod (pdb_for_pod w.selector_matches w.env pod t).1)

  check_pod-Silent :
      (node : String) (pod : Pod) (c : Checks) (t : Trace) → Silent P t (check_pod w node pod c t).1
  unfolding check_pod
  check_pod-Silent node pod c t =
      ground (arith, check_controllers-Silent node pod (check_volumes node pod c) t)

  check_each-Silent :
      (node : String) (pods : List Pod) (c : Checks) (t : Trace)
      → Silent P t (check_each w node pods c t).1
  unfolding check_each
  check_each-Silent node [] c t = Silent-refl P t
  check_each-Silent node (pod ∷ pods) c t =
      let (c', t') = check_pod w node pod c t in
      Silent-trans P _ _ _ (check_pod-Silent node pod c t) (check_each-Silent node pods c' t')

  check_pods-Silent :
      (node : String) (pods : List Pod) (c : Checks) (t : Trace)
      → Silent P t (check_pods w node pods c t).1
  unfolding check_pods
  check_pods-Silent node pods c t = check_each-Silent node pods (record c { daemon_set_pods = 0 }) t

  compute_headroom-Silent :
      (removal : List String) (matches : Option (List (String × String) → Bool)) (t : Trace)
      → Silent P t (compute_headroom w.quantities w.env removal matches t).1
  unfolding compute_headroom
  compute_headroom-Silent removal matches t = ground arith

  check_headroom-Silent :
      (in_ : Input) (matches : Option (List (String × String) → Bool)) (c : Checks) (t : Trace)
      → Silent P t (check_headroom w in_ matches c t).1
  unfolding check_headroom
  check_headroom-Silent in_ matches c t =
      compute_headroom-Silent (map (λ n. n.name) in_.nodes) matches t

  check_capacity-Silent :
      (in_ : Input) (c : Checks) (t : Trace) → Silent P t (check_capacity w in_ c t).1
  unfolding check_capacity
  check_capacity-Silent in_ c t = elim (Option-cases (scope_selector w in_.policy)) [
    | inl e ↦ ground (arith, e)
    | inr (matches, e) ↦ ground (arith, e, check_headroom-Silent in_ matches c t)
  ]

  check_machines-Silent :
      (in_ : Input) (nodes : List Node) (c : Checks) (t : Trace)
      → Silent P t (check_machines w in_ nodes c t).1
  unfolding check_machines
  check_machines-Silent in_ [] c t = Silent-refl P t
  check_machines-Silent in_ (node ∷ nodes) c t =
      let (found, u) = find_machine w.env node (effective_machine_api in_.spec) t in
      ground (
        arith,
        find_machine-Silent w.env P node (effective_machine_api in_.spec) t,
        check_machines-Silent in_ nodes (warn_version w in_ node c) t,
        check_machines-Silent in_ nodes c u,
        check_machines-Silent in_ nodes (fail_machine w node c) u,
      )

  check_replacement-Silent :
      (in_ : Input) (c : Checks) (t : Trace) → Silent P t (check_replacement w in_ c t).1
  unfolding check_replacement
  check_replacement-Silent in_ c t = ground (arith, check_machines-Silent in_ in_.nodes c t)

  check_nodes-Silent :
      (in_ : Input) (nodes : List Node) (c : Checks) (t : Trace)
      → Silent P t (check_nodes w in_ nodes c t).1
  unfolding check_nodes Calls.list_pods_on_node
  check_nodes-Silent in_ [] c t = Silent-refl P t
  check_nodes-Silent in_ (node ∷ nodes) c t = elim (Result-cases (w.env.list_pods t node.name)) [
    | inl (pods, e) ↦
        let u : Trace = Cluster.Call.list_pods node.name ∷ t in
        let (c', v) = check_pods w node.name pods (check_node in_ node c) u in
        ground (
          arith,
          e,
          check_pods-Silent node.name pods (check_node in_ node c) u,
          check_nodes-Silent in_ nodes c' v,
        )
    | inr (failure, e) ↦ ground (arith, e)
  ]

  check_scope-Silent : (in_ : Input) (c : Checks) (t : Trace) → Silent P t (check_scope w in_ c t).1
  unfolding check_scope
  check_scope-Silent in_ c t =
      let (c', t') = check_capacity w in_ c t in
      Silent-trans P _ _ _ (check_capacity-Silent in_ c t)
        (check_replacement-Silent in_ (check_window w in_ (check_unavailability in_ c')) t')

  -- The preflight checks store no status and change nothing in the cluster.
  pub run-Silent : (in_ : Input) (t : Trace) → Silent P t (run w in_ t).1
  unfolding run
  run-Silent in_ t =
      let first = check_missing in_.missing_nodes (no_checks in_.now) in
      let u : Trace = (check_nodes w in_ in_.nodes first t).1 in
      elim (Result-cases (check_nodes w in_ in_.nodes first t).0) [
        | inl (c, e) ↦
            ground (arith, e, check_nodes-Silent in_ in_.nodes first t, check_scope-Silent in_ c u)
        | inr (failure, e) ↦ ground (arith, e, check_nodes-Silent in_ in_.nodes first t)
      ]
