-- ===== src/Controller/Reconcile.antt =====
-- `Reconcile` of internal/controller/maintenancerequest_controller.go.
pub mod Effects
pub mod Lifecycle
pub mod Advice
pub mod Ended
pub mod Consistency
pub mod Pausing
use maintenance_orchestrator.Prelude.{
  ℕ, Bool, true, false, ◌&&◌, Option, none, some, String, if◌then◌else◌,
}
use maintenance_orchestrator.Api.Enums.{Phase}
use maintenance_orchestrator.Api.Request.{MaintenanceStatus, MaintenanceRequest}
use maintenance_orchestrator.StateMachine.{initial_phase, is_terminal}
use maintenance_orchestrator.Policy.{Effective}
use maintenance_orchestrator.Policy.Resolve.{resolve, resolved, failed}
use maintenance_orchestrator.Kube.Cluster
use maintenance_orchestrator.Kube.Cluster.{
  M, ◌>>=◌, ◌>>◌, pure, ask, tell, Error, ok, err, Action, Metric,
}
use maintenance_orchestrator.Controller.World.{World, Outcome, finished, requeue_now, error, api}
use maintenance_orchestrator.Controller.Finish.{
  with_status, set_condition, update_then, refresh_then, fail, cancel, pause,
}
use maintenance_orchestrator.Controller.Phases.{can_pause}
use maintenance_orchestrator.Controller.Phases.Waiting.{
  reconcile_awaiting_approval, reconcile_paused, reconcile_blocked,
}
use maintenance_orchestrator.Controller.Phases.Planning.{reconcile_validating, reconcile_planned}
use maintenance_orchestrator.Controller.Phases.Executing.{reconcile_executing}

module _ (w : World) where
  -- The first observation of a request.
  unfoldable pub accept : MaintenanceRequest → M Outcome
  accept mr = do
    mr' ←
        set_condition w
          (with_status mr
            (record mr.status { phase = initial_phase; message = "request accepted" }))
          "Validated" false "Pending" "request accepted"
    update_then w mr' (do
      tell (Cluster.Call.audit Action.created "")
      tell (Cluster.Call.metric (Metric.requests mr.spec.mode mr.spec.target.type))
      refresh_then w requeue_now)

  -- The switch on the phase.
  unfoldable pub dispatch : MaintenanceRequest → Effective → M Outcome
  dispatch mr pol = elim mr.status.phase [
    | Phase.pending ↦ reconcile_validating w mr pol
    | Phase.validating ↦ reconcile_validating w mr pol
    | Phase.awaiting_approval ↦ reconcile_awaiting_approval w mr pol
    | Phase.planned ↦ reconcile_planned w mr pol
    | Phase.executing ↦ reconcile_executing w mr pol
    | Phase.paused ↦ reconcile_paused w mr
    | Phase.blocked ↦ reconcile_blocked w mr
    | _ ↦ pure finished
  ]

  -- The handler of the phase, under the policy of the request.
  unfoldable pub advance_phase : MaintenanceRequest → M Outcome
  advance_phase mr = do
    r ← resolve w mr.spec w.config.default_policy_name
    elim r [ failed f ↦ fail w mr "PolicyResolution" (w.text f) | resolved pol ↦ dispatch mr pol ]

  -- A request that has been seen before.
  unfoldable pub continue_request : MaintenanceRequest → M Outcome
  continue_request mr =
      if is_terminal mr.status.phase
      then pure finished
      else if mr.spec.cancel
      then cancel w mr "cancelled by user" true
      else if mr.spec.pause && can_pause mr.status.phase
      then pause w mr
      else advance_phase mr

  unfoldable pub reconcile_request : MaintenanceRequest → M Outcome
  reconcile_request mr = elim mr.deletion_timestamp [
    | some deleted ↦ pure finished
    | none ↦ elim mr.status.phase [ Phase.unset ↦ accept mr | _ ↦ continue_request mr ]
  ]

  unfoldable pub reconcile : (name : String) → M Outcome
  reconcile name = do
    r ← ask (Cluster.Call.get_request name) (λ t. w.env.get_request t name)
    elim r [
      | ok mr ↦ reconcile_request mr
      | err e ↦ elim e [ Error.not_found ↦ pure finished | failure ↦ pure (error (api failure)) ]
    ]
