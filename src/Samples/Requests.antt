-- ===== src/Samples/Requests.antt =====
-- Reconciles of requests in the sample cluster.
use maintenance_orchestrator.Prelude.{◌+◌, ◌≤◌, ◌≡◌, refl, pos, ◌+ℤ◌, true, none, some, [], ◌∷◌}
use maintenance_orchestrator.Api.Enums.{Phase, Mode, Gate, NodePhase}
use maintenance_orchestrator.Api.Request.{MaintenanceStatus, MaintenanceRequest}
use maintenance_orchestrator.StateMachine.{is_terminal}
use maintenance_orchestrator.Kube.Traces.{count_calls, is_update}
use maintenance_orchestrator.Kube.Capacity.{Quantities}
use maintenance_orchestrator.Window.Openings.{Zones}
use maintenance_orchestrator.Controller.Nodes.{
  recompute_summary, count_in_flight, count_node_phase, new_status,
}
use maintenance_orchestrator.Controller.World.{World}
use maintenance_orchestrator.Controller.Finish.Updates.{violates}
use maintenance_orchestrator.Controller.Phases.{can_pause}
use maintenance_orchestrator.Controller.Phases.Waiting.{reconcile_paused, retry_nodes}
use maintenance_orchestrator.Controller.Phases.Retry.{retry_nodes_lem}
use maintenance_orchestrator.Controller.Reconcile.{reconcile_request}
use maintenance_orchestrator.Controller.Reconcile.Lifecycle.{lifecycle_rule, reconcile_lifecycle}
use maintenance_orchestrator.Controller.Reconcile.Advice.{harmless_rule, reconcile_harmless}
use maintenance_orchestrator.Controller.Reconcile.Consistency.{
  consistent_rule, reconcile_consistent,
}
use maintenance_orchestrator.Controller.Reconcile.Pausing.{last_stored, reconcile_paused-pause}
use maintenance_orchestrator.Controller.Reconcile.Ended.{
  cancelled_rule, failed_rule, reconcile_cancel, reconcile_missing_policy,
}
use maintenance_orchestrator.Samples.Data.{env, spec, config, statuses}

-- A clock that is stuck at the zero time.
abbrev zones : Zones
zones = record {
  utc = λ m. record { minute = 0; hour = 0; day = 1; month = 1; weekday = 1 };
  load = λ tz. none;
}

abbrev quantities : Quantities
quantities = record { add = λ a b. a +ℤ b; milli_value = λ a. a; value = λ a. a }

abbrev pub world : World
world = record {
  env = env;
  config = config;
  zones = zones;
  quantities = quantities;
  text = λ f. "error";
  set_status_condition = λ cs c. (c ∷ cs, true);
  selector_matches = λ sel. some (λ labels. true);
}

abbrev status_in : Phase → MaintenanceStatus
status_in p = record {
  phase = p;
  conditions = [];
  start_time = none;
  completion_time = none;
  approval_gate = Gate.unset;
  preflight = [];
  plan = none;
  nodes = [];
  summary = recompute_summary [];
  message = "";
  last_error = "";
}

abbrev request_in : Mode → Phase → MaintenanceRequest
request_in mode p = record {
  name = "kernel-update";
  generation = pos 1;
  deletion_timestamp = none;
  spec = record spec { mode = mode };
  status = status_in p;
}

reconcile_lifecycle_example :
    let u = (reconcile_request world (request_in Mode.execute Phase.pending) []).1 in
    let forbidden = violates (lifecycle_rule Phase.pending) in
    (count_calls forbidden u ≡ 0) × (count_calls is_update u ≤ 1)
reconcile_lifecycle_example =
    reconcile_lifecycle world (request_in Mode.execute Phase.pending) [] refl

reconcile_harmless_example :
    let u = (reconcile_request world (request_in Mode.advisory Phase.planned) []).1 in
    count_calls (violates (harmless_rule Mode.advisory)) u ≡ 0
reconcile_harmless_example =
    reconcile_harmless world (request_in Mode.advisory Phase.planned) [] refl

reconcile_consistent_example :
    let u = (reconcile_request world (request_in Mode.execute Phase.pending) []).1 in
    count_calls (violates consistent_rule) u ≡ 0
reconcile_consistent_example =
    reconcile_consistent world (request_in Mode.execute Phase.pending) [] refl

-- A request that waits for the uncordon gate.
abbrev waiting : MaintenanceStatus
waiting = record (status_in Phase.awaiting_approval) {
  approval_gate = Gate.uncordon;
  nodes = statuses;
  plan = some (record {
    strategy = spec.strategy;
    batches = [];
    total_nodes = 2;
    max_concurrent = pos 1;
    risk_score = pos 0;
    risk_factors = [];
    impact = record {
      pods_to_evict = pos 0;
      apps_affected = pos 0;
      single_replica_workloads = pos 0;
      empty_dir_pods = pos 0;
    };
    generated_at = 7;
  });
}

-- It is asked to pause.
abbrev to_pause : MaintenanceRequest
to_pause = record (request_in Mode.execute Phase.awaiting_approval) {
  spec = record spec { pause = true };
  status = waiting;
}

reconcile_paused-pause_example :
    (st st' : MaintenanceStatus) × (last_stored (reconcile_request world to_pause []).1 ≡ some st)
    × (st.phase ≡ Phase.paused)
    × (last_stored (reconcile_paused world (record to_pause { spec = spec; status = st }) []).1
        ≡ some st')
    × (st'.phase ≡ Phase.awaiting_approval)
    × (st'.approval_gate ≡ Gate.uncordon)
    × (st'.plan ≡ waiting.plan)
    × (st'.nodes ≡ statuses)
unfolding can_pause
reconcile_paused-pause_example =
    reconcile_paused-pause world to_pause spec [] [] refl refl refl refl refl refl

abbrev cancelled : MaintenanceRequest
cancelled = record (request_in Mode.execute Phase.executing) {
  spec = record spec { cancel = true };
  status = record (status_in Phase.executing) { nodes = statuses };
}

reconcile_cancel_example :
    let u = (reconcile_request world cancelled []).1 in
    (count_calls (violates cancelled_rule) u ≡ 0) × (count_calls is_update u ≡ 1)
unfolding is_terminal
reconcile_cancel_example = reconcile_cancel world cancelled [] refl refl refl refl

abbrev stray : MaintenanceRequest
stray = record (request_in Mode.execute Phase.planned) {
  spec = record spec { policy_ref = some "none-such" };
}

reconcile_missing_policy_example :
    let u = (reconcile_request world stray []).1 in
    (count_calls (violates failed_rule) u ≡ 0) × (count_calls is_update u ≡ 1)
unfolding is_terminal
reconcile_missing_policy_example =
    reconcile_missing_policy world stray "none-such" [] refl refl refl refl refl refl refl

retry_nodes_lem_example :
    let nodes = record (new_status 0 "node-a") { phase = NodePhase.blocked } ∷ statuses in
    (count_in_flight (retry_nodes 9 nodes)
      ≡ count_in_flight nodes + count_node_phase nodes NodePhase.blocked)
    × (count_node_phase (retry_nodes 9 nodes) NodePhase.blocked ≡ 0)
retry_nodes_lem_example =
    retry_nodes_lem 9 (record (new_status 0 "node-a") { phase = NodePhase.blocked } ∷ statuses)
