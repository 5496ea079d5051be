-- ===== src/Controller/Phases/Executing.antt =====
-- `reconcileExecuting` and `completeExecution` of internal/controller/execute.go.
use Prim.Native.String.{◌++◌}
use maintenance_orchestrator.Prelude.{
  ℕ, ℤ, pos, ltb_ℤ, leb_ℤ, Bool, true, false, not, ◌&&◌, ltb, List, none, some, String,
  if◌then◌else◌,
}
use maintenance_orchestrator.Api.Enums.{Phase, NodePhase, Gate}
use maintenance_orchestrator.Api.Spec.{replace_nodes}
use maintenance_orchestrator.Api.Status.{NodeExecutionStatus}
use maintenance_orchestrator.Api.Request.{MaintenanceRequest}
use maintenance_orchestrator.Approval.{requires_gate}
use maintenance_orchestrator.Policy.{Effective, approval_policy}
use maintenance_orchestrator.Kube.Cluster
use maintenance_orchestrator.Kube.Cluster.{M, ◌>>=◌, ◌>>◌, pure, ask, tell, Error, Action}
use maintenance_orchestrator.Kube.Calls.{clock}
use maintenance_orchestrator.Window.Openings.{Answer, answer, refused, windows_open}
use maintenance_orchestrator.Controller.Config.{global_timed_out}
use maintenance_orchestrator.Controller.Nodes.{
  recompute_summary, current_batch, count_in_flight, count_node_phase, any_node_at_post_check,
  uncordon_approved,
}
use maintenance_orchestrator.Controller.Step.{Setting}
use maintenance_orchestrator.Controller.Loop.{
  global_drains_in_flight_except, drain_budget, Round, step_batch,
}
use maintenance_orchestrator.Controller.World.{World, Outcome, error, api, requeue, itoa}
use maintenance_orchestrator.Controller.Finish.{
  with_status, update_status, set_condition, update_then, refresh_then, complete, fail,
}

-- The nodes of a request, with their summary.
abbrev pub with_nodes : MaintenanceRequest → List NodeExecutionStatus → MaintenanceRequest
with_nodes mr nodes =
    with_status mr (record mr.status { nodes = nodes; summary = recompute_summary nodes })

abbrev pub threshold : Effective → ℤ
threshold pol =
    if ltb_ℤ pol.spec.failure_threshold (pos 1) then pos 1 else pol.spec.failure_threshold

abbrev pub threshold_message : Effective → (failures : ℕ) → String
threshold_message pol failures =
    itoa (pos failures) ++ (" node failure(s) reached threshold " ++ itoa (threshold pol))

-- A window that cannot be read counts as closed; the log of its error is left out.
abbrev pub is_yes : Answer Bool → Bool
is_yes (answer is) = is
is_yes (refused e) = false

module _ (w : World) where
  abbrev wait : Outcome
  wait = requeue w.config w.config.global_requeue_interval

  -- `completeExecution`, for blocked nodes.
  unfoldable pub block_execution : MaintenanceRequest → (blocked : ℕ) → M Outcome
  block_execution mr blocked = do
    let msg = itoa (pos blocked) ++ " node(s) blocked"
    mr1 ← set_condition w mr "Executing" false "Blocked" "execution halted by blocked nodes"
    mr2 ← set_condition w mr1 "Blocked" true "NodesBlocked" msg
    tell (Cluster.Call.audit Action.blocked "")
    update_then w (with_status mr2 (record mr2.status { phase = Phase.blocked; message = msg }))
        (refresh_then w wait)

  unfoldable pub complete_execution : MaintenanceRequest → M Outcome
  complete_execution mr =
      let failed = count_node_phase mr.status.nodes NodePhase.failed in
      let blocked = count_node_phase mr.status.nodes NodePhase.blocked in
      let mr' = with_nodes mr mr.status.nodes in
      if ltb 0 failed
      then fail w mr' "NodeFailures" (itoa (pos failed) ++ " node(s) failed")
      else if ltb 0 blocked
      then block_execution mr' blocked
      else complete w mr' "all nodes completed"

  -- The uncordon gate holds the request.
  unfoldable pub await_uncordon_approval : MaintenanceRequest → M Outcome
  await_uncordon_approval mr = do
    mr' ←
        set_condition w
          (with_status mr (record mr.status {
            approval_gate = Gate.uncordon;
            phase = Phase.awaiting_approval;
            message = "awaiting uncordon approval";
          }))
          "Approved" false "AwaitingApproval" "uncordon gate pending"
    tell (Cluster.Call.audit Action.approval_requested "")
    update_then w mr' (refresh_then w wait)

  -- The end of a round. An error is returned after the nodes are stored, whether or not that succeeds.
  unfoldable pub store_round : MaintenanceRequest → Round → M Outcome
  store_round mr r =
      let mr' = with_nodes mr r.nodes in
      elim r.error [
        | some e ↦ do update_status w mr'; pure (error (api e))
        | none ↦ elim (current_batch r.nodes) [
          | none ↦ complete_execution (with_status mr (record mr.status { nodes = r.nodes }))
          | some batch ↦ update_then w mr' (pure (requeue w.config w.config.eviction_poll_interval))
        ]
      ]

  -- The drains of the other requests are asked for where the policy has a cap.
  unfoldable pub drains_of_others : MaintenanceRequest → Effective → M ℕ
  drains_of_others mr pol =
      if ltb_ℤ (pos 0) pol.spec.max_concurrent_drains
      then (do
        r ← ask Cluster.Call.list_requests (λ t. w.env.list_requests t)
        pure (global_drains_in_flight_except mr.name r))
      else pure 0

  abbrev pub setting_of :
      MaintenanceRequest → Effective → (others : ℕ) → (window_open gated : Bool) → Setting
  setting_of mr pol others window_open gated = record {
    config = w.config;
    spec = mr.spec;
    policy = pol;
    concurrency = drain_budget pol mr.spec.max_concurrent others;
    window_open = window_open;
    uncordon_gated = gated;
  }

  -- A round over the nodes of the batch.
  unfoldable pub run_batch :
      MaintenanceRequest → Effective → (window_open gated : Bool) → (batch : ℕ) → M Outcome
  run_batch mr pol window_open gated batch = do
    others ← drains_of_others mr pol
    r ←
        step_batch w.env (setting_of mr pol others window_open gated) batch mr.status.nodes
          (pos (count_in_flight mr.status.nodes))
    store_round mr r

  unfoldable pub advance : MaintenanceRequest → Effective → (gated : Bool) → M Outcome
  advance mr pol gated = do
    now ← clock w.env
    let window_open = is_yes (windows_open w.zones mr.spec pol.spec now)
    elim (current_batch mr.status.nodes) [
      | none ↦ complete_execution mr
      | some batch ↦ run_batch mr pol window_open gated batch
    ]

  abbrev pub is_gated : MaintenanceRequest → Effective → Bool
  is_gated mr pol =
      requires_gate (approval_policy pol mr.spec.approval.policy) Gate.uncordon
      && not (replace_nodes mr.spec)

  -- With a plan: the failure threshold, the uncordon gate, then the nodes.
  unfoldable pub execute : MaintenanceRequest → Effective → M Outcome
  execute mr pol =
      let failures = count_node_phase mr.status.nodes NodePhase.failed in
      let held =
        is_gated mr pol
        && not (uncordon_approved mr.spec pol)
        && any_node_at_post_check mr.status.nodes in
      if leb_ℤ (threshold pol) (pos failures)
      then fail w mr "FailureThreshold" (threshold_message pol failures)
      else if held
      then await_uncordon_approval mr
      else advance mr pol (is_gated mr pol)

  unfoldable pub reconcile_executing : MaintenanceRequest → Effective → M Outcome
  reconcile_executing mr pol = do
    late ← global_timed_out w.env w.config mr.spec mr.status.start_time
    (if late then fail w mr "Timeout" "global timeout exceeded" else elim mr.status.plan [
      | none ↦ fail w mr "NoPlan" "execution plan missing"
      | some plan ↦ execute mr pol
    ])
