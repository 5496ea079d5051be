-- ===== src/Controller/Reconcile/Pausing.antt =====
-- A request that is paused, and resumed by a later reconcile.
use maintenance_orchestrator.Prelude.{
  ◌≡◌, refl, Bool, true, false, Option, none, some, [], ◌∷◌, arith,
}
use maintenance_orchestrator.Api.Enums.{Phase, Gate}
use maintenance_orchestrator.Api.Spec.{MaintenanceSpec}
use maintenance_orchestrator.Api.Request.{ExecutionPlan, MaintenanceStatus, MaintenanceRequest}
use maintenance_orchestrator.StateMachine.{is_terminal}
use maintenance_orchestrator.Kube.Cluster
use maintenance_orchestrator.Kube.Cluster.{Trace, ok, err, Result-cases}
use maintenance_orchestrator.Controller.World.{World}
use maintenance_orchestrator.Controller.Finish.{update_then, refresh_then, pause}
use maintenance_orchestrator.Controller.Finish.Updates.{core}
use maintenance_orchestrator.Controller.Phases.{resume_with, resume_phase, can_pause, has_nodes}
use maintenance_orchestrator.Controller.Phases.Waiting.{has_plan, reconcile_paused}
use maintenance_orchestrator.Controller.Reconcile.{reconcile_request, continue_request}
use maintenance_orchestrator.Controller.Reconcile.Consistency.{is_consistent, is_consistent_in}
use maintenance_orchestrator.Controller.Reconcile.Ended.{is_deleted}

-- The last status that was stored.
abbrev pub last_stored : Trace → Option MaintenanceStatus
last_stored [] = none
last_stored (Cluster.Call.update_status name st ∷ t) = some st
last_stored (c ∷ t) = last_stored t

-- An execution goes on where it has nodes.
abbrev execution : (has_nodes : Bool) → Phase
execution true = Phase.executing
execution false = Phase.planned

-- The phase in which a request goes on that is paused in the phase `p`. A blocked request goes back to
-- its execution or, without a plan, to its validation.
abbrev pub goes_on : (p : Phase) → (has_plan has_nodes : Bool) → Phase
goes_on Phase.executing plan nodes = execution nodes
goes_on Phase.blocked true nodes = execution nodes
goes_on Phase.blocked false nodes = Phase.validating
goes_on p plan nodes = p

resume_with-goes_on :
    (p : Phase) (st : MaintenanceStatus) (g : Gate) (plan : Option ExecutionPlan) (b : Bool)
    → st.approval_gate ≡ g
    → st.plan ≡ plan
    → has_nodes st.nodes ≡ b
    → is_consistent_in p (core st) ≡ true
    → can_pause p ≡ true
    → resume_with g plan b ≡ goes_on p (has_plan plan) b
unfolding resume_with can_pause
resume_with-goes_on p st Gate.unset none b eg ep eb h pause = ground (arith, eg, ep, eb, h, pause)
resume_with-goes_on p st Gate.unset (some plan) true eg ep eb h pause =
    ground (arith, eg, ep, eb, h, pause)
resume_with-goes_on p st Gate.unset (some plan) false eg ep eb h pause =
    ground (arith, eg, ep, eb, h, pause)
resume_with-goes_on p st Gate.drain plan b eg ep eb h pause = ground (arith, eg, ep, eb, h, pause)
resume_with-goes_on p st Gate.uncordon plan b eg ep eb h pause =
    ground (arith, eg, ep, eb, h, pause)
resume_with-goes_on p st (Gate.other s) plan b eg ep eb h pause =
    ground (arith, eg, ep, eb, h, pause)

abbrev paused : MaintenanceStatus → MaintenanceStatus
paused st = record st { phase = Phase.paused; message = "paused" }

abbrev resumed : MaintenanceStatus → MaintenanceStatus
resumed st = record st { phase = resume_phase st; message = "resumed" }

-- What a request stores that is paused.
pause-last_stored :
    (w : World) (mr : MaintenanceRequest) (t : Trace)
    → last_stored (pause w mr t).1 ≡ some (paused mr.status)
unfolding pause update_then refresh_then
pause-last_stored w mr t = ground arith

reconcile_paused-last_stored :
    (w : World) (mr : MaintenanceRequest) (t : Trace)
    → mr.spec.pause ≡ false
    → last_stored (reconcile_paused w mr t).1 ≡ some (resumed mr.status)
unfolding reconcile_paused update_then refresh_then
reconcile_paused-last_stored w mr t h = ground (arith, h)

can_pause-is_terminal : (p : Phase) → can_pause p ≡ true → is_terminal p ≡ false
unfolding can_pause is_terminal
can_pause-is_terminal p h = ground (arith, h)

-- A request with `spec.pause` that is not cancelled and may be paused is.
reconcile_request-pause :
    (w : World) (mr : MaintenanceRequest) (t : Trace)
    → is_deleted mr ≡ false
    → mr.spec.cancel ≡ false
    → mr.spec.pause ≡ true
    → can_pause mr.status.phase ≡ true
    → reconcile_request w mr t ≡ pause w mr t
unfolding reconcile_request continue_request can_pause
reconcile_request-pause w mr t exists going wanted h =
    let running = can_pause-is_terminal mr.status.phase h in
    ground (arith, exists, going, wanted, h, running)

resume_phase-paused :
    (st : MaintenanceStatus)
    → is_consistent (core st) ≡ true
    → can_pause st.phase ≡ true
    → resume_phase (paused st) ≡ goes_on st.phase (has_plan st.plan) (has_nodes st.nodes)
unfolding resume_phase
resume_phase-paused st h may =
    resume_with-goes_on st.phase st st.approval_gate st.plan (has_nodes st.nodes) refl refl refl h
      may

-- A consistent request in a phase that may be paused, with `spec.pause` and neither deleted nor
-- cancelled: the reconcile stores a paused status, and with this status and a spec without `pause` the
-- handler of the paused phase stores one with the same gate, plan and nodes. That one is again
-- AwaitingApproval or Planned where the request was; Executing where it was Executing, or Blocked under
-- a plan, with at least one node, and Planned without nodes; and Validating where it was Blocked
-- without a plan.
pub reconcile_paused-pause :
    (w : World) (mr : MaintenanceRequest) (later : MaintenanceSpec) (t t' : Trace)
    → is_consistent (core mr.status) ≡ true
    → is_deleted mr ≡ false
    → mr.spec.cancel ≡ false
    → mr.spec.pause ≡ true
    → can_pause mr.status.phase ≡ true
    → later.pause ≡ false
    → (st st' : MaintenanceStatus) × (last_stored (reconcile_request w mr t).1 ≡ some st)
      × (st.phase ≡ Phase.paused)
      × (last_stored (reconcile_paused w (record mr { spec = later; status = st }) t').1 ≡ some st')
      × (st'.phase ≡ goes_on mr.status.phase (has_plan mr.status.plan) (has_nodes mr.status.nodes))
      × (st'.approval_gate ≡ mr.status.approval_gate)
      × (st'.plan ≡ mr.status.plan)
      × (st'.nodes ≡ mr.status.nodes)
reconcile_paused-pause w mr later t t' h exists going wanted may unpaused =
    let st = paused mr.status in
    (
      st,
      resumed st,
      rw (reconcile_request-pause w mr t exists going wanted may) (pause-last_stored w mr t),
      refl,
      reconcile_paused-last_stored w (record mr { spec = later; status = st }) t' unpaused,
      resume_phase-paused mr.status h may,
      refl,
      refl,
      refl,
    )
