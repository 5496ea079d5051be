-- ===== src/Controller/Phases/Planning.antt =====
-- The phases before an execution: `reconcileValidating` and `reconcilePlanned` of
-- internal/controller/phases.go.
use Prim.Native.String.{◌++◌}
use maintenance_orchestrator.Prelude.{
  ℕ, pos, Bool, true, false, not, ◌&&◌, List, [], ◌∷◌, some, String, if◌then◌else◌, ◌==◌,
}
use maintenance_orchestrator.Api.Enums.{Phase, Mode, Gate}
use maintenance_orchestrator.Api.Request.{
  PreflightCheckResult, ExecutionPlan, MaintenanceStatus, MaintenanceRequest,
}
use maintenance_orchestrator.Approval
use maintenance_orchestrator.Approval.{evaluate, requires_gate}
use maintenance_orchestrator.Policy.{Effective, approval_policy}
use maintenance_orchestrator.Policy.Resolve.{resolved, failed}
use maintenance_orchestrator.Kube.Cluster
use maintenance_orchestrator.Kube.Cluster.{M, ◌>>=◌, ◌>>◌, pure, tell, ok, err, Action, Metric}
use maintenance_orchestrator.Kube.Calls.{clock}
use maintenance_orchestrator.Planner.Build.{build}
use maintenance_orchestrator.Window.Openings.{answer, refused, windows_open}
use maintenance_orchestrator.Preflight.Results.{fail_codes, has_fail}
use maintenance_orchestrator.Preflight.Checks.{Input}
use maintenance_orchestrator.Preflight.Run.{run}
use maintenance_orchestrator.Controller.Nodes.{init_node_statuses, recompute_summary}
use maintenance_orchestrator.Controller.NodeState.{now_or}
use maintenance_orchestrator.Controller.Targets.{ResolvedTarget, resolve_target}
use maintenance_orchestrator.Controller.World.{
  World, Outcome, requeue_now, error, api, window, requeue, itoa,
}
use maintenance_orchestrator.Controller.Finish.{
  with_status, set_condition, update_then, refresh_then, complete, fail, cancel,
}
use maintenance_orchestrator.Controller.Phases.{record_decision, has_nodes}

-- The metric of the failed checks.
unfoldable pub count_failures : List String → M (Unit {0})
count_failures [] = pure tt
count_failures (code ∷ codes) = do
  tell (Cluster.Call.metric (Metric.preflight_failures code))
  count_failures codes

abbrev pub is_dry_run : Mode → Bool
is_dry_run Mode.dry_run = true
is_dry_run mode = false

abbrev pub is_advisory : Mode → Bool
is_advisory Mode.advisory = true
is_advisory mode = false

-- `if len(mr.Status.Nodes) == 0 { mr.Status.Nodes = initNodeStatuses(plan) }`, and the start time.
abbrev pub started : MaintenanceStatus → ExecutionPlan → (now : ℕ) → MaintenanceStatus
started st plan now = record st {
  nodes = if has_nodes st.nodes then st.nodes else init_node_statuses plan.batches;
  start_time = now_or st.start_time now;
  phase = Phase.executing;
  message = "executing";
}

abbrev pub plan_message : ExecutionPlan → String
plan_message plan =
    "plan: "
    ++ (itoa (pos plan.total_nodes) ++ (" node(s), risk " ++ (itoa plan.risk_score ++ "/100")))

module _ (w : World) where
  -- `return r.requeue(r.Config.GlobalRequeueInterval.Duration), nil`
  abbrev wait : Outcome
  wait = requeue w.config w.config.global_requeue_interval

  -- A check has failed.
  unfoldable pub block_validation : MaintenanceRequest → M Outcome
  block_validation mr = do
    mr1 ←
        set_condition w mr "GuardrailViolation" true "PreflightFailed"
          "one or more preflight checks failed"
    mr2 ←
        set_condition w mr1 "Validated" false "PreflightFailed" "blocked by failed preflight checks"
    tell (Cluster.Call.metric Metric.blocked_by_preflight)
    tell (Cluster.Call.audit Action.blocked "")
    update_then w
        (with_status mr2 (record mr2.status {
          phase = Phase.blocked;
          message = "blocked by failed preflight checks";
        }))
        (refresh_then w wait)

  unfoldable pub await_drain_approval : MaintenanceRequest → M Outcome
  await_drain_approval mr = do
    mr' ←
        set_condition w
          (with_status mr (record mr.status {
            approval_gate = Gate.drain;
            phase = Phase.awaiting_approval;
            message = "awaiting drain approval";
          }))
          "Approved" false "AwaitingApproval" "drain gate pending"
    tell (Cluster.Call.audit Action.approval_requested "")
    update_then w mr' (refresh_then w wait)

  unfoldable pub become_planned : MaintenanceRequest → M Outcome
  become_planned mr =
      update_then w
        (with_status mr
          (record mr.status { phase = Phase.planned; message = "validated; planning" }))
        (pure requeue_now)

  -- The drain gate.
  unfoldable pub pass_drain_gate : MaintenanceRequest → Effective → M Outcome
  pass_drain_gate mr pol =
      let policy = approval_policy pol mr.spec.approval.policy in
      let (res, decision) = evaluate policy mr.spec.approval Gate.drain in
      if not (requires_gate policy Gate.drain) then become_planned mr else elim res [
        | Approval.rejected ↦ do
          record_decision decision Action.approval_denied
          cancel w mr "drain rejected at approval gate" false
        | Approval.approved ↦ do
          record_decision decision Action.approval_granted
          mr' ← set_condition w mr "Approved" true "Approved" "drain gate approved"
          become_planned mr'
        | _ ↦ await_drain_approval mr
      ]

  -- A plan is there; for a dry run it is the result.
  unfoldable pub accept_plan : MaintenanceRequest → Effective → ExecutionPlan → M Outcome
  accept_plan mr pol plan = do
    tell (Cluster.Call.audit Action.plan_generated "")
    let mr1 = with_status mr (record mr.status { plan = some plan })
    (if is_dry_run mr.spec.mode
        then (do
          mr2 ← set_condition w mr1 "Planned" true "DryRun" "dry-run plan generated"
          complete w mr2 "dry-run completed")
        else pass_drain_gate mr1 pol)

  -- The results of the checks are stored.
  unfoldable pub accept_checks :
      MaintenanceRequest → Effective → ResolvedTarget → List PreflightCheckResult → M Outcome
  accept_checks mr pol target results = do
    let mr1 = with_status mr (record mr.status { preflight = results })
    count_failures (fail_codes results)
    tell (Cluster.Call.audit Action.preflight_completed "")
    (if has_fail results then block_validation mr1 else (do
      mr2 ← set_condition w mr1 "Validated" true "Validated" "preflight checks passed"
      r ← build w.env w.config.default_pool_keys mr.spec pol target.nodes
      elim r [ err e ↦ pure (error (api e)) | ok plan ↦ accept_plan mr2 pol plan ]))

  abbrev pub input_of : MaintenanceRequest → Effective → ResolvedTarget → (now : ℕ) → Input
  input_of mr pol target now = record {
    spec = mr.spec;
    policy = pol;
    nodes = target.nodes;
    universe = target.universe;
    missing_nodes = target.missing;
    now = now;
  }

  unfoldable pub validate_target : MaintenanceRequest → Effective → ResolvedTarget → M Outcome
  validate_target mr pol target =
      if not (has_nodes target.nodes) && not (has_nodes target.missing)
      then (do
        mr' ← set_condition w mr "Validated" true "NoTargets" "no nodes matched the target"
        complete w mr' "no matching nodes; nothing to do")
      else (do
        now ← clock w.env
        r ← run w (input_of mr pol target now)
        elim r [ err e ↦ pure (error (api e)) | ok results ↦ accept_checks mr pol target results ])

  unfoldable pub reconcile_validating : MaintenanceRequest → Effective → M Outcome
  reconcile_validating mr pol = do
    let mr1 = with_status mr (record mr.status { phase = Phase.validating })
    r ← resolve_target w mr.spec.target
    elim r [
      | failed f ↦ fail w mr1 "TargetResolution" (w.text f)
      | resolved target ↦ validate_target mr1 pol target
    ]

  -- The plan is stored again, and the request waits.
  unfoldable pub store_and_wait : MaintenanceRequest → (msg : String) → M Outcome
  store_and_wait mr msg =
      update_then w (with_status mr (record mr.status { message = msg })) (pure wait)

  -- The window is open.
  unfoldable pub start_execution : MaintenanceRequest → ExecutionPlan → M Outcome
  start_execution mr plan = do
    mr1 ← set_condition w mr "WindowOpen" true "WindowOpen" "within maintenance window"
    now ← clock w.env
    let mr2 = with_status mr1 (started mr1.status plan now)
    mr3 ← set_condition w mr2 "Executing" true "Executing" "draining nodes"
    update_then w
        (with_status mr3 (record mr3.status { summary = recompute_summary mr3.status.nodes }))
        (refresh_then w requeue_now)

  unfoldable pub enter_window : MaintenanceRequest → Effective → ExecutionPlan → M Outcome
  enter_window mr pol plan = do
    now ← clock w.env
    elim (windows_open w.zones mr.spec pol.spec now) [
      | refused e ↦ fail w mr "InvalidWindow" (w.text (window e))
      | answer is ↦ if is then start_execution mr plan else (do
        mr' ← set_condition w mr "WindowOpen" false "WindowClosed" "outside maintenance window"
        store_and_wait mr' "waiting for maintenance window")
    ]

  unfoldable pub execute_plan : MaintenanceRequest → Effective → ExecutionPlan → M Outcome
  execute_plan mr pol plan = do
    mr' ←
        set_condition w (with_status mr (record mr.status { plan = some plan })) "Planned" true
          "Planned" (plan_message plan)
    (if is_advisory mr.spec.mode
        then store_and_wait mr' "advisory: plan refreshed (no mutation)"
        else if plan.total_nodes == 0
        then complete w mr' "no matching nodes; nothing to do"
        else enter_window mr' pol plan)

  unfoldable pub reconcile_planned : MaintenanceRequest → Effective → M Outcome
  reconcile_planned mr pol = do
    r ← resolve_target w mr.spec.target
    elim r [
      | failed f ↦ fail w mr "TargetResolution" (w.text f)
      | resolved target ↦ do
        b ← build w.env w.config.default_pool_keys mr.spec pol target.nodes
        elim b [ err e ↦ pure (error (api e)) | ok plan ↦ execute_plan mr pol plan ]
    ]
