-- ===== src/Controller/Stores/Waiting.antt =====
-- The rules that the handlers of the waiting phases keep.
use Prim.Native.String.{◌++◌}
use maintenance_orchestrator.Prelude.{
  ℕ, ◌≡◌, inl, inr, true, false, ◌&&◌, String, arith, Bool-cases,
}
use maintenance_orchestrator.Api.Enums.{Phase, Gate}
use maintenance_orchestrator.Api.Request.{MaintenanceStatus, MaintenanceRequest}
use maintenance_orchestrator.Approval.{evaluate}
use maintenance_orchestrator.Policy.{Effective, approval_policy}
use maintenance_orchestrator.Kube.Cluster.{Trace, Action}
use maintenance_orchestrator.Kube.Calls
use maintenance_orchestrator.Controller.Config.{global_timed_out}
use maintenance_orchestrator.Controller.World.{World}
use maintenance_orchestrator.Controller.Finish.{set_condition, update_then, refresh_then}
use maintenance_orchestrator.Controller.Finish.Updates.{
  Core, core, moved, Rule, MayRelease, Stores, fail-Stores, cancel-Stores,
}
use maintenance_orchestrator.Controller.Stores.Steps.{global_timed_out-Silent}
use maintenance_orchestrator.Controller.Phases.{
  resume_phase, next_phase_after_gate, gate_text, record_decision, has_nodes,
}
use maintenance_orchestrator.Controller.Phases.Waiting.{
  waiting_for, has_plan, retry_nodes, pass_gate, reconcile_awaiting_approval, reconcile_paused,
  retry, revalidate, reconcile_blocked,
}

-- The core of a status once its gate is open.
abbrev pub passed : MaintenanceStatus → Gate → Core
passed st gate = record (core st) { gate = Gate.unset; phase = next_phase_after_gate gate }

module _ (w : World) (P : Rule) (mr : MaintenanceRequest) where
  pass_gate-Stores :
      (mr' : MaintenanceRequest) (gate : Gate) (msg : String) (t : Trace)
      → P.stored (passed mr'.status gate) ≡ true
      → Stores P t (pass_gate w mr' gate msg t).1
  unfolding pass_gate update_then
  pass_gate-Stores mr' gate msg t h = ground arith

  pub reconcile_awaiting_approval-Stores :
      (pol : Effective) (t : Trace)
      → P.stored (passed mr.status (waiting_for mr.status.approval_gate)) ≡ true
      → P.stored (moved mr.status Phase.cancelled) ≡ true
      → MayRelease P mr.status.nodes
      → Stores P t (reconcile_awaiting_approval w mr pol t).1
  unfolding reconcile_awaiting_approval record_decision set_condition Calls.clock pass_gate
      update_then
  reconcile_awaiting_approval-Stores pol t pass cancelled may =
      let gate = waiting_for mr.status.approval_gate in
      let (res, decision) =
        evaluate (approval_policy pol mr.spec.approval.policy) mr.spec.approval gate in
      ground (
        arith,
        pass,
        may,
        cancel-Stores w P mr (gate_text gate ++ " rejected at approval gate") false
            (record_decision decision Action.approval_denied t).1 cancelled may,
      )

  pub reconcile_paused-Stores :
      (t : Trace)
      → P.stored (moved mr.status (resume_phase mr.status)) ≡ true
      → Stores P t (reconcile_paused w mr t).1
  unfolding reconcile_paused update_then refresh_then
  reconcile_paused-Stores t h = ground arith

  retry-Stores :
      (t : Trace)
      → P.stored (record (core mr.status) {
        nodes = retry_nodes (w.env.now t) mr.status.nodes;
        phase = Phase.executing;
      })
        ≡ true
      → Stores P t (retry w mr t).1
  unfolding retry Calls.clock update_then set_condition
  retry-Stores t h = ground arith

  revalidate-Stores :
      (t : Trace)
      → P.stored (moved mr.status Phase.validating) ≡ true
      → Stores P t (revalidate w mr t).1
  unfolding revalidate update_then
  revalidate-Stores t h = ground arith

  pub reconcile_blocked-Stores :
      (t : Trace)
      → (has_nodes mr.status.nodes ≡ true
          → (now : ℕ)
          → P.stored (record (core mr.status) {
            nodes = retry_nodes now mr.status.nodes;
            phase = Phase.executing;
          })
            ≡ true)
      → ((has_plan mr.status.plan && has_nodes mr.status.nodes) ≡ false
          → P.stored (moved mr.status Phase.validating) ≡ true)
      → P.stored (moved mr.status Phase.failed) ≡ true
      → MayRelease P mr.status.nodes
      → Stores P t (reconcile_blocked w mr t).1
  unfolding reconcile_blocked
  reconcile_blocked-Stores t again validating failed may =
      let u : Trace = (global_timed_out w.env w.config mr.spec mr.status.start_time t).1 in
      let clock = global_timed_out-Silent w.env P w.config mr.spec mr.status.start_time t in
      let late =
        fail-Stores w P mr "Timeout" "global timeout exceeded while blocked" u failed may in
      elim (Bool-cases (has_plan mr.status.plan && has_nodes mr.status.nodes)) [
        | inl e ↦
            let some_node : has_nodes mr.status.nodes ≡ true = ground (arith, e) in
            let retried = retry-Stores u (again some_node (w.env.now u)) in
            ground (arith, e, clock, late, retried)
        | inr e ↦ ground (arith, e, clock, late, revalidate-Stores u (validating e))
      ]
