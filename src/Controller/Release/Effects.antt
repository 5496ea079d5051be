-- ===== src/Controller/Release/Effects.antt =====
-- Which nodes an aborted request gives back, and that it changes nothing else.
use maintenance_orchestrator.Prelude.{
  ◌≡◌, refl, sym, inl, inr, ◌++◌, Bool, false, Bool-cases, not, ◌&&◌, ◌||◌, List, [], ◌∷◌, String,
  length, if◌then◌else◌, arith,
}
use mathlib.Core.List.{append_assoc}
use maintenance_orchestrator.Api.Enums.{NodePhase}
use maintenance_orchestrator.Api.Spec.{MaintenanceSpec, replace_nodes}
use maintenance_orchestrator.Api.Status.{NodeExecutionStatus}
use maintenance_orchestrator.Kube.Objects.{Node}
use maintenance_orchestrator.Kube.Cluster
use maintenance_orchestrator.Kube.Cluster.{Env, Trace, Call, Result, ok, err, Result-cases}
use maintenance_orchestrator.Executor.Effects.{Mutates}
use maintenance_orchestrator.Controller.Nodes.{
  should_release_node, releasable, nodes_to_release, node_phase_eq, is_in_progress,
}
use maintenance_orchestrator.Controller.Release.{
  release_node, release_nodes, release_cordoned_nodes,
}

-- The nodes that were looked up, the latest first.
abbrev pub looked_up : Trace → List String
looked_up [] = []
looked_up (Cluster.Call.get_node name ∷ t) = name ∷ looked_up t
looked_up (c ∷ t) = looked_up t

-- The names one after the other in front of the list.
abbrev pub rev_onto : List String → List String → List String
rev_onto [] acc = acc
rev_onto (x ∷ xs) acc = rev_onto xs (x ∷ acc)

-- The nodes for which an uncordon was asked, the latest first.
abbrev pub uncordoned : Trace → List String
uncordoned [] = []
uncordoned (Cluster.Call.patch_unschedulable name false ∷ t) = name ∷ uncordoned t
uncordoned (c ∷ t) = uncordoned t

-- The node that the answer to a lookup shows to be cordoned, in front of the list.
abbrev pub if_cordoned : Result Node → List String → List String
if_cordoned (ok node) names = if node.unschedulable then node.name ∷ names else names
if_cordoned (err e) names = names

module _ (env : Env) where
  -- The nodes that were looked up and found cordoned, the latest first.
  abbrev pub found_cordoned : Trace → List String
  found_cordoned [] = []
  found_cordoned (Cluster.Call.get_node name ∷ t) =
      if_cordoned (env.get_node t name) (found_cordoned t)
  found_cordoned (c ∷ t) = found_cordoned t

  -- From the trace `t` to the trace `u`, an uncordon was asked for each node that was found cordoned,
  -- in that order, and for no other.
  abbrev pub Uncordons : (t u : Trace) → Type 0
  Uncordons t u =
      (names : List String) × (found_cordoned u ≡ names ++ found_cordoned t)
      × (uncordoned u ≡ names ++ uncordoned t)

  Uncordons-trans : (t u v : Trace) → Uncordons t u → Uncordons u v → Uncordons t v
  Uncordons-trans t u v (xs, found, asked) (ys, found', asked') = (
    ys ++ xs,
    rw (found', found) (sym (append_assoc ys xs (found_cordoned t))),
    rw (asked', asked) (sym (append_assoc ys xs (uncordoned t))),
  )

  release_node-Uncordons : (name : String) (t : Trace) → Uncordons t (release_node env name t).1
  unfolding release_node
  release_node-Uncordons name t = elim (Result-cases (env.get_node t name)) [
    | inr (failure, e) ↦ ([], ground (arith, e), ground (arith, e))
    | inl (node, e) ↦ elim (Bool-cases node.unschedulable) [
      | inl h ↦ (node.name ∷ [], ground (arith, e, h), ground (arith, e, h))
      | inr h ↦ ([], ground (arith, e, h), ground (arith, e, h))
    ]
  ]

  release_node-Mutates :
      (name : String) (t : Trace) → Mutates 0 0 0 1 0 t (release_node env name t).1
  unfolding release_node
  release_node-Mutates name t = ground arith

  release_node-looked_up :
      (name : String) (t : Trace) → looked_up (release_node env name t).1 ≡ name ∷ looked_up t
  unfolding release_node
  release_node-looked_up name t = ground arith

  release_nodes-lem :
      (names : List String) (t : Trace)
      → (looked_up (release_nodes env names t).1 ≡ rev_onto names (looked_up t))
        × Uncordons t (release_nodes env names t).1
        × Mutates 0 0 0 (length names) 0 t (release_nodes env names t).1
  unfolding release_nodes
  release_nodes-lem [] t = (refl, ([], refl, refl), ground arith)
  release_nodes-lem (name ∷ names) t =
      let u = (release_node env name t).1 in
      let (order, asked, mutates) = release_nodes-lem names u in
      let first = release_node-Mutates name t in
      (
        rw (← release_node-looked_up name t) order,
        Uncordons-trans t u (release_nodes env names u).1 (release_node-Uncordons name t) asked,
        record {
          evicted = omega (arith, first.evicted, mutates.evicted);
          deleted = omega (arith, first.deleted, mutates.deleted);
          cordoned = omega (arith, first.cordoned, mutates.cordoned);
          uncordoned = omega (arith, first.uncordoned, mutates.uncordoned);
          replaced = omega (arith, first.replaced, mutates.replaced);
        },
      )

-- The phases of a node that has been cordoned, is still there, and is not done; a blocked one is done
-- but stays cordoned.
abbrev pub was_cordoned : NodePhase → Bool
was_cordoned p =
    node_phase_eq p NodePhase.blocked
    || is_in_progress p
      && not (node_phase_eq p NodePhase.replacing || node_phase_eq p NodePhase.awaiting_replacement)

-- Their names, in order.
abbrev pub cordoned_names : List NodeExecutionStatus → List String
cordoned_names [] = []
cordoned_names (ns ∷ rest) =
    if was_cordoned ns.phase then ns.node ∷ cordoned_names rest else cordoned_names rest

releasable-cordoned_names :
    (nodes : List NodeExecutionStatus) → releasable nodes ≡ cordoned_names nodes
unfolding releasable should_release_node node_phase_eq is_in_progress
releasable-cordoned_names [] = refl
releasable-cordoned_names (ns ∷ rest) = ground (arith, releasable-cordoned_names rest)

abbrev pub given_back : MaintenanceSpec → List NodeExecutionStatus → List String
given_back spec nodes =
    if spec.uncordon_after && not (replace_nodes spec) then cordoned_names nodes else []

nodes_to_release-given_back :
    (spec : MaintenanceSpec) (nodes : List NodeExecutionStatus)
    → nodes_to_release spec nodes ≡ given_back spec nodes
unfolding nodes_to_release
nodes_to_release-given_back spec nodes = ground (arith, releasable-cordoned_names nodes)

-- Whatever the cluster answers, an aborted request looks up, in order, the nodes that it has cordoned
-- and not replaced, finished or failed, and none where it was not to return its nodes or replaces
-- them. It asks for the uncordon of each node that it finds cordoned, and of no other, and for no
-- further change.
pub release_cordoned_nodes_lem :
    (env : Env) (spec : MaintenanceSpec) (nodes : List NodeExecutionStatus) (t : Trace)
    → let u = (release_cordoned_nodes env spec nodes t).1 in
      (looked_up u ≡ rev_onto (given_back spec nodes) (looked_up t))
      × Uncordons env t u
      × Mutates 0 0 0 (length (given_back spec nodes)) 0 t u
unfolding release_cordoned_nodes
release_cordoned_nodes_lem env spec nodes t =
    rw nodes_to_release-given_back (release_nodes-lem env (given_back spec nodes) t)
