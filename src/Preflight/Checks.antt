-- ===== src/Preflight/Checks.antt =====
-- The checks of a node, of the scope and of the window, and `checkReplacement`. Each adds its results
-- to those so far. `fmt.Sprintf` and the errors' texts of libraries are written by `itoa` and `text`.
use Prim.Native.String.{◌++◌}
use maintenance_orchestrator.Prelude.{
  ℕ, suc, ℤ, pos, ◌+ℤ◌, leb_ℤ, ltb_ℤ, int32, Bool, true, false, not, ◌&&◌, List, [], ◌∷◌, map,
  Option, none, some, String, if◌then◌else◌, length, is_empty, str_eq,
}
use maintenance_orchestrator.Api.Enums.{CheckStatus}
use maintenance_orchestrator.Api.Spec.{MaintenanceSpec, replace_nodes, effective_machine_api}
use maintenance_orchestrator.Kube.Objects.{Node}
use maintenance_orchestrator.Kube.Nodes.{is_ready, is_mco_managed, kubelet_version}
use maintenance_orchestrator.Kube.Cluster.{M, ◌>>=◌, pure, Result, ok, err}
use maintenance_orchestrator.Kube.Calls.{find_machine}
use maintenance_orchestrator.Kube.Workloads.{selects_all}
use maintenance_orchestrator.Kube.Capacity.{compute_headroom}
use maintenance_orchestrator.Policy.{
  Effective, is_control_plane_node, control_plane_blocked, reserved_label, reserved_taint,
  max_unavailable, unavailability_capped, concurrency, replacement_allowed,
}
use maintenance_orchestrator.Window.Openings.{answer, refused, windows_open}
use maintenance_orchestrator.Controller.Nodes.{target_version}
use maintenance_orchestrator.Controller.World.{World, api, window, invalid_selector, itoa}
use maintenance_orchestrator.Preflight.Codes.{
  code_node_not_found, code_node_not_ready, code_already_cordoned, code_control_plane,
  code_reserved_label, code_reserved_taint, code_insufficient_cap, code_too_many_unavailable,
  code_window_closed, code_mco_managed, code_machine_not_found, code_already_at_version,
  code_replacement_denied,
}
use maintenance_orchestrator.Preflight.Pods.{Checks, add}

-- The request is its spec here.
pub record Input : Type 0 where
  pub spec : MaintenanceSpec
  pub policy : Effective
  pub nodes : List Node
  pub universe : List Node
  pub missing_nodes : List String
  pub now : ℕ

abbrev add_if : Bool → Checks → (code node : String) → CheckStatus → (msg : String) → Checks
add_if true c code node status msg = add c code node status msg []
add_if false c code node status msg = c

abbrev add_key : Option String → Checks → (code node field msg : String) → Checks
add_key none c code node field msg = c
add_key (some k) c code node field msg = add c code node CheckStatus.fail msg ((field, k) ∷ [])

-- The checks of `Run` on a node, without those of its pods.
module _ (in_ : Input) (node : Node) where
  abbrev pub is_protected : Bool
  is_protected =
      is_control_plane_node in_.policy node
      && control_plane_blocked in_.policy in_.spec.allow_control_plane

  unfoldable pub check_node : Checks → Checks
  check_node c =
      let c1 =
        add_if (not (is_ready node)) c code_node_not_ready node.name CheckStatus.warn
          "node is not Ready" in
      let c2 =
        add_if node.unschedulable c1 code_already_cordoned node.name CheckStatus.warn
          "node is already cordoned" in
      let c3 =
        add_if is_protected c2 code_control_plane node.name CheckStatus.fail
          "control-plane node is protected by policy; set spec.allowControlPlane and a permissive policy to override" in
      let c4 =
        add_key (reserved_label in_.policy node) c3 code_reserved_label node.name "label"
          "node carries a reserved label" in
      let c5 =
        add_key (reserved_taint in_.policy node) c4 code_reserved_taint node.name "taint"
          "node carries a reserved taint" in
      add_if (is_mco_managed node) c5 code_mco_managed node.name CheckStatus.warn
        "node is being reconfigured by the Machine Config Operator and will be skipped"

-- The loop over the nodes that do not exist.
unfoldable pub check_missing : List String → Checks → Checks
check_missing [] c = c
check_missing (name ∷ names) c =
    check_missing names
      (add c code_node_not_found name CheckStatus.fail "node does not exist in the cluster" [])

unfoldable pub count_cordoned : List Node → ℕ
count_cordoned [] = 0
count_cordoned (n ∷ ns) = let rest = count_cordoned ns in if n.unschedulable then suc rest else rest

unfoldable pub count_schedulable : List Node → ℕ
count_schedulable [] = 0
count_schedulable (n ∷ ns) =
    let rest = count_schedulable ns in if n.unschedulable then rest else suc rest

abbrev pub scope_of : Input → List Node
scope_of in_ = elim in_.universe [ [] ↦ in_.nodes | n ∷ ns ↦ n ∷ ns ]

-- The nodes that the request leaves unavailable at the same time.
unfoldable pub peak : Input → ℤ
peak in_ =
    let will_add = pos (count_schedulable in_.nodes) in
    let c = concurrency in_.policy in_.spec.max_concurrent in
    if in_.spec.uncordon_after && ltb_ℤ c will_add then c else will_add

-- `already+peak`, an int32.
unfoldable pub unavailable_at_once : Input → ℤ
unavailable_at_once in_ = int32 (pos (count_cordoned (scope_of in_)) +ℤ peak in_)

abbrev unavailability_message : Input → (limit : ℤ) → String
unavailability_message in_ limit =
    "this request would leave up to "
    ++ (itoa (unavailable_at_once in_)
        ++ ("/"
            ++ (itoa (pos (length (scope_of in_)))
                ++ (" node(s) unavailable at once ("
                    ++ (itoa (pos (count_cordoned (scope_of in_)))
                        ++ (" already cordoned), exceeding the limit of " ++ itoa limit))))))

unfoldable pub check_unavailability : Input → Checks → Checks
check_unavailability in_ c =
    let limit = max_unavailable in_.policy (pos (length (scope_of in_))) in
    if not (unavailability_capped in_.policy)
    then c
    else if ltb_ℤ limit (unavailable_at_once in_)
    then add c code_too_many_unavailable "" CheckStatus.fail (unavailability_message in_ limit) (
        ("alreadyUnavailable", itoa (pos (count_cordoned (scope_of in_))))
        ∷ ("peakConcurrent", itoa (peak in_))
        ∷ ("targeted", itoa (pos (count_schedulable in_.nodes)))
        ∷ ("total", itoa (pos (length (scope_of in_))))
        ∷ ("limit", itoa limit)
        ∷ [])
    else c

module _ (w : World) where
  unfoldable pub check_window : Input → Checks → Checks
  check_window in_ c = elim (windows_open w.zones in_.spec in_.policy.spec in_.now) [
    | refused e ↦
        add c code_window_closed "" CheckStatus.warn
          ("invalid maintenance window: " ++ w.text (window e)) []
    | answer is ↦
        add_if (not is) c code_window_closed "" CheckStatus.warn
          "request is currently outside its maintenance window"
  ]

  abbrev warn_capacity : Checks → String → Checks
  warn_capacity c msg = add c code_insufficient_cap "" CheckStatus.warn msg []

  -- The result for a headroom.
  unfoldable pub compare_headroom : (required headroom : ℤ) → Checks → Checks
  compare_headroom required headroom c =
      if ltb_ℤ headroom required
      then add c code_insufficient_cap "" CheckStatus.fail
          ("estimated cluster headroom "
            ++ (itoa headroom ++ ("% is below the required " ++ (itoa required ++ "%"))))
          (("headroomPercent", itoa headroom) ∷ ("requiredPercent", itoa required) ∷ [])
      else c

  -- The check in a scope that is none for every node.
  unfoldable pub check_headroom : Input → Option (List (String × String) → Bool) → Checks → M Checks
  check_headroom in_ matches c = do
    r ← compute_headroom w.quantities w.env (map (λ n. n.name) in_.nodes) matches
    pure (elim r [
      | err e ↦ warn_capacity c ("capacity check failed: " ++ w.text (api e))
      | ok headroom ↦ compare_headroom in_.policy.spec.min_capacity_headroom_percent headroom c
    ])

  -- `ScopeSelector`, none for a selector that is not valid.
  unfoldable pub scope_selector : Effective → Option (Option (List (String × String) → Bool))
  scope_selector pol = elim pol.spec.node_selector [
    | none ↦ some none
    | some sel ↦ elim (w.selector_matches sel) [
      | none ↦ none
      | some m ↦ some (if selects_all sel then none else some m)
    ]
  ]

  unfoldable pub check_capacity : Input → Checks → M Checks
  check_capacity in_ c =
      if leb_ℤ in_.policy.spec.min_capacity_headroom_percent (pos 0)
      then pure c
      else elim (scope_selector in_.policy) [
        | none ↦
            pure (warn_capacity c ("invalid policy node selector: " ++ w.text invalid_selector))
        | some matches ↦ check_headroom in_ matches c
      ]

  abbrev pub at_target : Input → Node → Bool
  at_target in_ node =
      not (is_empty (target_version in_.spec))
      && str_eq (kubelet_version node) (target_version in_.spec)

  abbrev pub warn_version : Input → Node → Checks → Checks
  warn_version in_ node c =
      add c code_already_at_version node.name CheckStatus.warn
        "node already reports the target version; it will be skipped"
        (("version", target_version in_.spec) ∷ [])

  abbrev pub fail_machine : Node → Checks → Checks
  fail_machine node c =
      add c code_machine_not_found node.name CheckStatus.fail
        "no Machine (Cluster API / OpenShift) backs this node, so it cannot be replaced" []

  -- The loop of `checkReplacement`.
  unfoldable pub check_machines : Input → List Node → Checks → M (Result Checks)
  check_machines in_ [] c = pure (ok c)
  check_machines in_ (node ∷ nodes) c =
      let continue = check_machines in_ nodes in
      if at_target in_ node then continue (warn_version in_ node c) else (do
        r ← find_machine w.env node (effective_machine_api in_.spec)
        elim r [
          | err e ↦ pure (err e)
          | ok found ↦ elim found [ some ref ↦ continue c | none ↦ continue (fail_machine node c) ]
        ])

  unfoldable pub check_replacement : Input → Checks → M (Result Checks)
  check_replacement in_ c =
      if not (replace_nodes in_.spec)
      then pure (ok c)
      else if not (replacement_allowed in_.policy)
      then pure (
          ok (
            add c code_replacement_denied "" CheckStatus.fail
              "node replacement is not permitted; set allowNodeReplacement: true in the MaintenancePolicy"
              []))
      else check_machines in_ in_.nodes c
