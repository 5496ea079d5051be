-- ===== src/Preflight/Failures.antt =====
-- Which checks can fail, and what a failed check depends on.
use maintenance_orchestrator.Prelude.{
  ◌≡◌, refl, ◌∙◌, inl, inr, pos, ltb_ℤ, Bool, true, false, not, ◌&&◌, ◌||◌, any, length, List, [],
  ◌∷◌, Option, none, some, String, arith,
}
use maintenance_orchestrator.Api.Enums.{CheckStatus}
use maintenance_orchestrator.Api.Spec.{replace_nodes, effective_machine_api}
use maintenance_orchestrator.Kube.Objects.{Node, Pod, PodDisruptionBudget}
use maintenance_orchestrator.Kube.Cluster.{Trace, Result, ok, err, Result-cases}
use maintenance_orchestrator.Kube.Cluster
use maintenance_orchestrator.Kube.Calls
use maintenance_orchestrator.Kube.Calls.{find_machine}
use maintenance_orchestrator.Kube.Workloads.{Workload, pdb_for_pod, resolve_workload}
use maintenance_orchestrator.Policy.{
  reserved_label, reserved_taint, unavailability_capped, max_unavailable, replacement_allowed,
}
use maintenance_orchestrator.Controller.World.{World}
use maintenance_orchestrator.Controller.Nodes.{target_version}
use maintenance_orchestrator.Preflight.Codes.{
  code_already_at_version, code_machine_not_found, code_replacement_denied,
}
use maintenance_orchestrator.Preflight.Results.{has_fail}
use maintenance_orchestrator.Preflight.Truncation.{has_fail-append}
use maintenance_orchestrator.Preflight.Pods.{
  Checks, add, check_volumes, check_budget, check_workload, check_controllers, check_pod,
  check_each, check_pods,
}
use maintenance_orchestrator.Preflight.Checks.{
  Input, is_protected, check_node, check_missing, scope_of, unavailable_at_once,
  check_unavailability, check_window, warn_version, fail_machine, check_machines, check_replacement,
}
use maintenance_orchestrator.Preflight.Run.{check_nodes}

abbrev pub fails : Checks → Bool
fails c = has_fail c.out

abbrev is_failing : CheckStatus → Bool
is_failing CheckStatus.fail = true
is_failing s = false

pub fails-add :
    (c : Checks) (code node : String) (s : CheckStatus) (msg : String)
    (details : List (String × String))
    → fails (add c code node s msg details) ≡ (fails c || is_failing s)
unfolding has_fail
fails-add c code node CheckStatus.pass msg details = has_fail-append c.out _
fails-add c code node CheckStatus.warn msg details = has_fail-append c.out _
fails-add c code node CheckStatus.fail msg details = has_fail-append c.out _

-- The checks of pods fail nothing.
check_volumes-fails :
    (node : String) (pod : Pod) (c : Checks) → fails (check_volumes node pod c) ≡ fails c
unfolding check_volumes
check_volumes-fails node pod c = grind (arith, fails-add)

check_budget-fails :
    (node : String) (pdb : Option PodDisruptionBudget) (c : Checks)
    → fails (check_budget node pdb c) ≡ fails c
unfolding check_budget
check_budget-fails node none c = refl
check_budget-fails node (some pdb) c = grind (arith, fails-add)

check_workload-fails :
    (node : String) (pod : Pod) (wl : Workload) (c : Checks)
    → fails (check_workload node pod wl c) ≡ fails c
unfolding check_workload
check_workload-fails node pod wl c = grind (arith, fails-add)

-- The guardrails of a node.
abbrev pub is_some {ℓ} : {A : Type ℓ} → Option A → Bool
is_some none = false
is_some (some a) = true

abbrev pub is_forbidden : Input → Node → Bool
is_forbidden in_ node =
    is_protected in_ node
    || (is_some (reserved_label in_.policy node) || is_some (reserved_taint in_.policy node))

check_node-fails :
    (in_ : Input) (node : Node) (c : Checks)
    → fails (check_node in_ node c) ≡ (fails c || is_forbidden in_ node)
unfolding check_node
check_node-fails in_ node c = grind (arith, fails-add)

abbrev pub is_nil {ℓ} : {A : Type ℓ} → List A → Bool
is_nil [] = true
is_nil (x ∷ xs) = false

pub check_missing-fails :
    (names : List String) (c : Checks)
    → fails (check_missing names c) ≡ (fails c || not (is_nil names))
unfolding check_missing
check_missing-fails [] c = ground arith
check_missing-fails (name ∷ names) c = grind (arith, fails-add, check_missing-fails names)

-- The limit on the unavailable nodes is exceeded.
abbrev pub is_too_many : Input → Bool
is_too_many in_ =
    unavailability_capped in_.policy
    && ltb_ℤ (max_unavailable in_.policy (pos (length (scope_of in_)))) (unavailable_at_once in_)

pub check_unavailability-fails :
    (in_ : Input) (c : Checks) → fails (check_unavailability in_ c) ≡ (fails c || is_too_many in_)
unfolding check_unavailability
check_unavailability-fails in_ c = grind (arith, fails-add)

-- A replacement that the policy does not permit.
abbrev pub is_denied : Input → Bool
is_denied in_ = replace_nodes in_.spec && not (replacement_allowed in_.policy)

module _ (w : World) where
  check_controllers-fails :
      (node : String) (pod : Pod) (c : Checks) (t : Trace)
      → fails (check_controllers w node pod c t).0 ≡ fails c
  unfolding check_controllers
  check_controllers-fails node pod c t =
      let (p, u) = pdb_for_pod w.selector_matches w.env pod t in
      elim (Result-cases p) [
        | inl (pdb, e) ↦ elim (Result-cases (resolve_workload w.env pod u).0) [
          | inl (wl, e') ↦ ground (
            arith,
            e,
            e',
            check_workload-fails node pod wl (check_budget node pdb c),
            check_budget-fails node pdb c,
          )
          | inr (failure, e') ↦ ground (arith, e, e', check_budget-fails node pdb c)
        ]
        | inr (failure, e) ↦ elim (Result-cases (resolve_workload w.env pod u).0) [
          | inl (wl, e') ↦ ground (arith, e, e', check_workload-fails node pod wl c)
          | inr (failure', e') ↦ ground (arith, e, e')
        ]
      ]

  check_pod-fails :
      (node : String) (pod : Pod) (c : Checks) (t : Trace)
      → fails (check_pod w node pod c t).0 ≡ fails c
  unfolding check_pod
  check_pod-fails node pod c t = grind (
    arith,
    fails-add,
    check_volumes-fails,
    check_controllers-fails node pod (check_volumes node pod c) t,
  )

  check_each-fails :
      (node : String) (pods : List Pod) (c : Checks) (t : Trace)
      → fails (check_each w node pods c t).0 ≡ fails c
  unfolding check_each
  check_each-fails node [] c t = refl
  check_each-fails node (pod ∷ pods) c t =
      let (c', t') = check_pod w node pod c t in
      check_each-fails node pods c' t' ∙ check_pod-fails node pod c t

  check_pods-fails :
      (node : String) (pods : List Pod) (c : Checks) (t : Trace)
      → fails (check_pods w node pods c t).0 ≡ fails c
  unfolding check_pods
  check_pods-fails node pods c t =
      grind (arith, fails-add, check_each-fails node pods (record c { daemon_set_pods = 0 }) t)

  pub check_window-fails : (in_ : Input) (c : Checks) → fails (check_window w in_ c) ≡ fails c
  unfolding check_window
  check_window-fails in_ c = grind (arith, fails-add)

  check_machines-fails :
      (in_ : Input) (nodes : List Node) (c c' : Checks) (t : Trace)
      → (check_machines w in_ nodes c t).0 ≡ ok c'
      → fails c' ≡ false
      → fails c ≡ false
  unfolding check_machines
  check_machines-fails in_ [] c c' t e h = ground (arith, e, h)
  check_machines-fails in_ (node ∷ nodes) c c' t e h =
      let (found, u) = find_machine w.env node (effective_machine_api in_.spec) t in
      ground (
        arith,
        e,
        h,
        fails-add c code_already_at_version node.name CheckStatus.warn
            "node already reports the target version; it will be skipped"
            (("version", target_version in_.spec) ∷ []),
        fails-add c code_machine_not_found node.name CheckStatus.fail
            "no Machine (Cluster API / OpenShift) backs this node, so it cannot be replaced" [],
        λ (x : (check_machines w in_ nodes (warn_version w in_ node c) t).0 ≡ ok c').
            check_machines-fails in_ nodes (warn_version w in_ node c) c' t x h,
        λ (x : (check_machines w in_ nodes c u).0 ≡ ok c').
            check_machines-fails in_ nodes c c' u x h,
        λ (x : (check_machines w in_ nodes (fail_machine w node c) u).0 ≡ ok c').
            check_machines-fails in_ nodes (fail_machine w node c) c' u x h,
      )

  pub check_replacement-fails :
      (in_ : Input) (c c' : Checks) (t : Trace)
      → (check_replacement w in_ c t).0 ≡ ok c'
      → fails c' ≡ false
      → (fails c ≡ false) × (is_denied in_ ≡ false)
  unfolding check_replacement
  check_replacement-fails in_ c c' t e h =
      let msg : String =
        "node replacement is not permitted; set allowNodeReplacement: true in the MaintenancePolicy" in
      ground (
        arith,
        e,
        h,
        fails-add c code_replacement_denied "" CheckStatus.fail msg [],
        λ (x : (check_machines w in_ in_.nodes c t).0 ≡ ok c').
            check_machines-fails in_ in_.nodes c c' t x h,
      )

  pub check_nodes-fails :
      (in_ : Input) (nodes : List Node) (c c' : Checks) (t : Trace)
      → (check_nodes w in_ nodes c t).0 ≡ ok c'
      → fails c' ≡ (fails c || any (is_forbidden in_) nodes)
  unfolding check_nodes Calls.list_pods_on_node
  check_nodes-fails in_ [] c c' t e = ground (arith, e)
  check_nodes-fails in_ (node ∷ nodes) c c' t e =
      elim (Result-cases (w.env.list_pods t node.name)) [
        | inl (pods, e') ↦
            let checked = check_node in_ node c in
            let u : Trace = Cluster.Call.list_pods node.name ∷ t in
            let (c1, v) = check_pods w node.name pods checked u in
            ground (
              arith,
              e,
              e',
              check_pods-fails node.name pods checked u,
              check_node-fails in_ node c,
              λ (x : (check_nodes w in_ nodes c1 v).0 ≡ ok c').
                  check_nodes-fails in_ nodes c1 c' v x,
            )
        | inr (failure, e') ↦ absurd (ground (arith, e, e'))
      ]
