-- ===== src/Samples/Checks.antt =====
-- Runs of the preflight checks, and a validated policy.
use maintenance_orchestrator.Prelude.{
  ◌≤◌, ◌≡◌, refl, pos, Bool, true, false, any, none, some, List, [], ◌∷◌, length,
}
use Prim.Native.Nat.{max}
use maintenance_orchestrator.Api.Enums.{CheckStatus}
use maintenance_orchestrator.Api.Request.{PreflightCheckResult}
use maintenance_orchestrator.Kube.Cluster.{ok}
use maintenance_orchestrator.Kube.Capacity.{compute_headroom, headroom}
use maintenance_orchestrator.Kube.Objects.{Pod, PodDisruptionBudget}
use maintenance_orchestrator.Kube.Workloads.{budget_loop}
use maintenance_orchestrator.Kube.Budgets.{is_tight, blocks, budget_loop_lem}
use maintenance_orchestrator.Window.Openings.{windows_open, answer, is_open, any_open}
use maintenance_orchestrator.Api.Spec.{Window, MaintenancePolicySpec, replace_nodes}
use maintenance_orchestrator.Controller.Policies.{
  is_no_percentage, window_problems, validate_policy_spec,
}
use maintenance_orchestrator.Controller.Policies.Validation.{validate_policy_spec_lem}
use maintenance_orchestrator.Policy.{
  default_spec, unavailability_capped, max_unavailable, concurrency, is_control_plane_node,
  reserved_label, reserved_taint,
}
use maintenance_orchestrator.Controller.World.{World}
use maintenance_orchestrator.Preflight.Results.{max_results, has_fail, fails_of, truncate}
use maintenance_orchestrator.Preflight.Truncation.{truncate_lem}
use maintenance_orchestrator.Preflight.Checks.{
  Input, check_missing, check_node, check_replacement, check_window, check_unavailability,
  check_capacity, check_headroom, compare_headroom, scope_selector, unavailable_at_once, peak,
  count_cordoned, count_schedulable,
}
use maintenance_orchestrator.Preflight.Pods.{check_pods, check_each}
use maintenance_orchestrator.Kube.Calls
use maintenance_orchestrator.Kube.Nodes.{is_ready, is_mco_managed}
use maintenance_orchestrator.Preflight.Run.{run, no_checks, check_nodes, check_scope}
use maintenance_orchestrator.Preflight.Headroom.{HasHeadroom}
use maintenance_orchestrator.Preflight.Failures.{is_forbidden, is_nil, is_too_many, is_denied}
use maintenance_orchestrator.Preflight.Guardrails.{run_guardrails}
use maintenance_orchestrator.Samples.Data.{env, spec, policy, node_a, node_b}
use maintenance_orchestrator.Samples.Requests.{world}

abbrev input : Input
input = record {
  spec = spec;
  policy = policy;
  nodes = node_a ∷ node_b ∷ [];
  universe = node_a ∷ node_b ∷ [];
  missing_nodes = [];
  now = 100;
}

abbrev result_of : CheckStatus → PreflightCheckResult
result_of s = record { code = "CODE"; node = ""; status = s; message = ""; details = []; time = 0 }

truncate_lem_example :
    let rs = result_of CheckStatus.warn ∷ result_of CheckStatus.fail ∷ [] in
    (fails_of (truncate rs) ≡ fails_of rs)
    × (length (truncate rs) ≤ max max_results (length (fails_of rs)))
truncate_lem_example = truncate_lem (result_of CheckStatus.warn ∷ result_of CheckStatus.fail ∷ [])

abbrev budgets : List PodDisruptionBudget
budgets =
    record { namespace = "shop"; name = "loose"; selector = none; disruptions_allowed = pos 1 }
    ∷ record {
      namespace = "shop";
      name = "tight";
      selector = some (record { match_labels = []; match_expressions = [] });
      disruptions_allowed = pos 0;
    }
    ∷ []

abbrev naked_pod : Pod
naked_pod = record {
  namespace = "shop";
  name = "job-1";
  node_name = "node-a";
  containers = [];
  labels = [];
  annotations = [];
  controller = none;
  volumes = [];
  phase = "Running";
  deletion_timestamp = none;
  deletion_grace_period_seconds = none;
}

budget_loop_lem_example :
    is_tight (budget_loop world.selector_matches naked_pod none budgets)
    ≡ any (blocks world.selector_matches naked_pod) budgets
budget_loop_lem_example = budget_loop_lem world.selector_matches naked_pod budgets

abbrev nightly : Window
nightly = record { cron = "30 2 * * *"; duration = pos 3600000000000; time_zone = "" }

abbrev nightly_spec : MaintenancePolicySpec
nightly_spec = record default_spec { allowed_windows = nightly ∷ [] }

nightly_spec-IsValid : validate_policy_spec world 100 nightly_spec ≡ []
unfolding validate_policy_spec window_problems is_open default_spec
nightly_spec-IsValid = refl

validate_policy_spec_lem_example :
    (is_no_percentage nightly_spec.max_unavailable_percent ≡ false)
    × (is_no_percentage nightly_spec.min_capacity_headroom_percent ≡ false)
    × ((b : Bool) × (any_open world.zones nightly_spec.allowed_windows 200 ≡ answer b))
validate_policy_spec_lem_example =
    validate_policy_spec_lem world nightly_spec 100 200 nightly_spec-IsValid

-- The nodes run no pods.
abbrev empty_world : World
empty_world = record world { env = record env { list_pods = λ t name. ok [] } }

-- At most one node may be unavailable, and a tenth of the capacity stays free.
abbrev capped : Input
capped = record input {
  policy = record policy {
    spec = record policy.spec {
      max_unavailable_nodes = pos 1;
      min_capacity_headroom_percent = pos 10;
    };
  };
  nodes = node_a ∷ [];
}

run_passes : (run empty_world capped []).0 ≡ ok []
unfolding run check_missing check_nodes Calls.list_pods_on_node check_pods check_each check_node
    is_ready check_scope check_replacement replace_nodes truncate check_window windows_open
    default_spec check_unavailability unavailability_capped check_capacity is_control_plane_node
    reserved_label reserved_taint is_mco_managed check_headroom scope_selector compute_headroom
    compare_headroom max_unavailable unavailable_at_once peak count_cordoned count_schedulable
    Calls.list_all_nodes headroom concurrency
run_passes = refl

run_guardrails_example :
    let checked = check_nodes empty_world capped (node_a ∷ []) (check_missing [] (no_checks 100)) in
    (is_nil capped.missing_nodes ≡ true)
    × (any (is_forbidden capped) capped.nodes ≡ false)
    × (is_too_many capped ≡ false)
    × (is_denied capped ≡ false)
    × HasHeadroom empty_world capped (checked []).1
unfolding has_fail
run_guardrails_example = run_guardrails empty_world capped [] [] run_passes refl
