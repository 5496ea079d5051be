-- ===== src/Controller/Finish.antt =====
-- The status and life-cycle helpers of internal/controller/maintenancerequest_controller.go. A helper
-- that changes the request in place returns the changed request.
pub mod Updates
use maintenance_orchestrator.Prelude.{
  ℕ, suc, ℤ, pos, Bool, true, false, not, List, [], ◌∷◌, Option, none, some, String, if◌then◌else◌,
}
use maintenance_orchestrator.Api.Enums.{Phase}
use maintenance_orchestrator.Api.Request.{Condition, MaintenanceStatus, MaintenanceRequest}
use maintenance_orchestrator.StateMachine.{is_active, phase_eq}
use maintenance_orchestrator.Kube.Cluster
use maintenance_orchestrator.Kube.Cluster.{
  Env, M, ◌>>=◌, ◌>>◌, pure, ask, tell, Result, ok, err, Action, Metric,
}
use maintenance_orchestrator.Kube.Calls
use maintenance_orchestrator.Kube.Calls.{clock}
use maintenance_orchestrator.Controller.World.{World, Outcome, finished, error, api, requeue}
use maintenance_orchestrator.Controller.NodeState.{now_or}
use maintenance_orchestrator.Controller.Release.{release_cordoned_nodes}

abbrev pub with_status : MaintenanceRequest → MaintenanceStatus → MaintenanceRequest
with_status mr st = record mr { status = st }

-- The list walked by `refreshActiveGauge`.
unfoldable pub count_active : List MaintenanceRequest → ℕ
unfolding is_active
count_active [] = 0
count_active (it ∷ rest) =
    let n = count_active rest in if is_active it.status.phase then suc n else n

module _ (w : World) where
  unfoldable pub update_status : MaintenanceRequest → M (Result (Unit {0}))
  update_status mr =
      ask (Cluster.Call.update_status mr.name mr.status)
        (λ t. w.env.update_status t mr.name mr.status)

  unfoldable pub set_condition :
      MaintenanceRequest
      → (type : String) → (status : Bool) → (reason msg : String) → M MaintenanceRequest
  unfolding Calls.clock
  set_condition mr type status reason msg = do
    now ← clock w.env
    let c : Condition = record {
      type = type;
      status = status;
      reason = reason;
      message = msg;
      observed_generation = mr.generation;
      last_transition_time = now;
    }
    pure (
        with_status mr
          (record mr.status { conditions = (w.set_status_condition mr.status.conditions c).0 }))

  -- A list that fails leaves the gauge as it is.
  unfoldable pub refresh_active_gauge : M (Unit {0})
  unfolding count_active
  refresh_active_gauge = do
    r ← ask Cluster.Call.list_requests (λ t. w.env.list_requests t)
    elim r [
      | err e ↦ pure tt
      | ok items ↦ tell (Cluster.Call.metric (Metric.active_maintenances (count_active items)))
    ]

  -- `if err := r.updateStatus(ctx, mr); err != nil { return ctrl.Result{}, err }`, and what follows.
  unfoldable pub update_then : MaintenanceRequest → M Outcome → M Outcome
  unfolding update_status
  update_then mr rest = do
    r ← update_status mr
    elim r [ err e ↦ pure (error (api e)) | ok _ ↦ rest ]

  -- The usual end: the gauge, then the result.
  unfoldable pub refresh_then : Outcome → M Outcome
  unfolding refresh_active_gauge
  refresh_then o = do refresh_active_gauge; pure o

  -- The status of a request that ends in the phase `p`.
  abbrev pub ended : MaintenanceRequest → Phase → String → ℕ → MaintenanceRequest
  ended mr p msg now = with_status mr (record mr.status {
    phase = p;
    message = msg;
    completion_time = now_or mr.status.completion_time now;
  })

  unfoldable pub complete : MaintenanceRequest → String → M Outcome
  unfolding Calls.clock set_condition update_then refresh_then
  complete mr msg = do
    now ← clock w.env
    mr1 ←
        set_condition (ended mr Phase.completed msg now) "Executing" false "Completed"
          "execution finished"
    mr2 ← set_condition mr1 "Completed" true "Completed" msg
    update_then mr2 (do
      tell (Cluster.Call.metric Metric.success)
      tell (Cluster.Call.audit Action.completed "")
      refresh_then finished)

  unfoldable pub fail : MaintenanceRequest → (reason msg : String) → M Outcome
  unfolding release_cordoned_nodes Calls.clock set_condition update_then refresh_then
  fail mr reason msg = do
    release_cordoned_nodes w.env mr.spec mr.status.nodes
    now ← clock w.env
    let mr1 = ended mr Phase.failed msg now
    mr2 ←
        set_condition (with_status mr1 (record mr1.status { last_error = msg })) "Failed" true
          reason msg
    update_then mr2 (do
      tell (Cluster.Call.metric (Metric.failure reason))
      tell (Cluster.Call.audit Action.failed "")
      refresh_then finished)

  unfoldable pub cancel : MaintenanceRequest → (msg : String) → (release : Bool) → M Outcome
  unfolding release_cordoned_nodes Calls.clock set_condition update_then refresh_then
  cancel mr msg release = do
    (if release then release_cordoned_nodes w.env mr.spec mr.status.nodes else pure tt)
    now ← clock w.env
    mr1 ← set_condition (ended mr Phase.cancelled msg now) "Executing" false "Cancelled" msg
    update_then mr1 (do tell (Cluster.Call.audit Action.cancelled ""); refresh_then finished)

  unfoldable pub pause : MaintenanceRequest → M Outcome
  unfolding update_then refresh_then phase_eq requeue
  pause mr = do
    (if phase_eq mr.status.phase Phase.paused
        then pure tt
        else tell (Cluster.Call.audit Action.paused ""))
    update_then (with_status mr (record mr.status { phase = Phase.paused; message = "paused" }))
        (refresh_then (requeue w.config w.config.global_requeue_interval))
