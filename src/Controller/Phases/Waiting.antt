-- ===== src/Controller/Phases/Waiting.antt =====
-- The phases in which a request waits: `reconcileAwaitingApproval`, `reconcilePaused` and
-- `reconcileBlocked` of internal/controller/phases.go.
use Prim.Native.String.{◌++◌}
use maintenance_orchestrator.Prelude.{
  ℕ, pos, Bool, true, false, ◌&&◌, List, [], ◌∷◌, Option, none, some, String, if◌then◌else◌, ◌==◌,
}
use maintenance_orchestrator.Api.Enums.{Phase, NodePhase, Gate, BlockReason}
use maintenance_orchestrator.Api.Status.{NodeExecutionStatus}
use maintenance_orchestrator.Api.Request.{MaintenanceRequest}
use maintenance_orchestrator.Approval
use maintenance_orchestrator.Approval.{evaluate}
use maintenance_orchestrator.Policy.{Effective, approval_policy}
use maintenance_orchestrator.Kube.Cluster
use maintenance_orchestrator.Kube.Cluster.{M, ◌>>=◌, ◌>>◌, pure, tell, Action}
use maintenance_orchestrator.Kube.Calls.{clock}
use maintenance_orchestrator.Controller.Config.{global_timed_out}
use maintenance_orchestrator.Controller.Nodes.{recompute_summary, node_phase_eq, count_node_phase}
use maintenance_orchestrator.Controller.World.{World, Outcome, requeue_now, requeue, itoa}
use maintenance_orchestrator.Controller.Finish.{
  with_status, set_condition, update_then, refresh_then, fail, cancel,
}
use maintenance_orchestrator.Controller.Phases.{
  resume_phase, next_phase_after_gate, gate_text, record_decision, has_nodes,
}

-- `status.approvalGate`, a request without one waiting for the first.
abbrev pub waiting_for : Gate → Gate
waiting_for Gate.unset = Gate.drain
waiting_for gate = gate

-- A blocked node is tried again.
abbrev retried : ℕ → NodeExecutionStatus → NodeExecutionStatus
retried now ns = record ns {
  phase = NodePhase.draining;
  block_reason = BlockReason.no_reason;
  message = "retrying after block";
  start_time = some now;
  end_time = none;
}

-- The loop of `reconcileBlocked`.
unfoldable pub retry_nodes : ℕ → List NodeExecutionStatus → List NodeExecutionStatus
retry_nodes now [] = []
retry_nodes now (ns ∷ rest) =
    (if node_phase_eq ns.phase NodePhase.blocked then retried now ns else ns) ∷ retry_nodes now rest

abbrev pub has_plan {ℓ} : {A : Type ℓ} → Option A → Bool
has_plan none = false
has_plan (some p) = true

module _ (w : World) where
  -- The wait for the next reconcile.
  abbrev pub wait : Outcome
  wait = requeue w.config w.config.global_requeue_interval

  -- The gate is open: the request goes on.
  unfoldable pub pass_gate : MaintenanceRequest → Gate → (msg : String) → M Outcome
  pass_gate mr gate msg =
      update_then w
        (with_status mr (record mr.status {
          approval_gate = Gate.unset;
          phase = next_phase_after_gate gate;
          message = msg;
        }))
        (pure requeue_now)

  unfoldable pub reconcile_awaiting_approval : MaintenanceRequest → Effective → M Outcome
  reconcile_awaiting_approval mr pol =
      let gate = waiting_for mr.status.approval_gate in
      let policy = approval_policy pol mr.spec.approval.policy in
      let (res, decision) = evaluate policy mr.spec.approval gate in
      elim res [
        | Approval.approved ↦ do
          record_decision decision Action.approval_granted
          mr' ← set_condition w mr "Approved" true "Approved" (gate_text gate ++ " gate approved")
          pass_gate mr' gate (gate_text gate ++ " approved; proceeding")
        | Approval.rejected ↦ do
          record_decision decision Action.approval_denied
          cancel w mr (gate_text gate ++ " rejected at approval gate") false
        | Approval.not_required ↦ pass_gate mr gate "approval no longer required; proceeding"
        | Approval.pending ↦ pure wait
      ]

  unfoldable pub reconcile_paused : MaintenanceRequest → M Outcome
  reconcile_paused mr = if mr.spec.pause then pure wait else (do
    tell (Cluster.Call.audit Action.resumed "")
    update_then w
        (with_status mr (record mr.status { phase = resume_phase mr.status; message = "resumed" }))
        (refresh_then w requeue_now))

  -- The nodes of an execution are tried again, where one is blocked.
  unfoldable pub retry : MaintenanceRequest → M Outcome
  retry mr = do
    now ← clock w.env
    let count = count_node_phase mr.status.nodes NodePhase.blocked
    let msg = "retrying " ++ (itoa (pos count) ++ " blocked node(s)")
    let nodes = retry_nodes now mr.status.nodes
    (if count == 0 then pure wait else (do
      mr' ←
          set_condition w
            (with_status mr
              (record mr.status { nodes = nodes; phase = Phase.executing; message = msg }))
            "Blocked" false "Retrying" msg
      update_then w (with_status mr' (record mr'.status { summary = recompute_summary nodes }))
          (pure (requeue w.config w.config.eviction_poll_interval))))

  -- A request that was blocked before its plan is validated again.
  unfoldable pub revalidate : MaintenanceRequest → M Outcome
  revalidate mr =
      update_then w
        (with_status mr
          (record mr.status { phase = Phase.validating; message = "re-validating after block" }))
        (pure wait)

  unfoldable pub reconcile_blocked : MaintenanceRequest → M Outcome
  reconcile_blocked mr = do
    late ← global_timed_out w.env w.config mr.spec mr.status.start_time
    (if late
        then fail w mr "Timeout" "global timeout exceeded while blocked"
        else if has_plan mr.status.plan && has_nodes mr.status.nodes
        then retry mr
        else revalidate mr)
