-- ===== src/Controller/Stores/Executing.antt =====
-- The rules that the handler of an execution keeps.
use Prim.Native.String.{◌++◌}
use maintenance_orchestrator.Prelude.{
  ℕ, ◌≡◌, inl, inr, pos, Bool, true, List, String, arith, Option-cases,
}
use maintenance_orchestrator.Api.Enums.{Phase, NodePhase, Gate}
use maintenance_orchestrator.Api.Status.{NodeExecutionStatus}
use maintenance_orchestrator.Api.Request.{MaintenanceRequest}
use maintenance_orchestrator.Policy.{Effective}
use maintenance_orchestrator.Kube.Cluster.{Trace}
use maintenance_orchestrator.Kube.Calls
use maintenance_orchestrator.Window.Openings.{windows_open}
use maintenance_orchestrator.Controller.Config.{global_timed_out}
use maintenance_orchestrator.Controller.Nodes.{count_node_phase, count_in_flight, current_batch}
use maintenance_orchestrator.Controller.Loop.{Round, step_batch}
use maintenance_orchestrator.Controller.World.{World, itoa}
use maintenance_orchestrator.Controller.Finish.{
  with_status, set_condition, update_status, update_then, refresh_then,
}
use maintenance_orchestrator.Controller.Finish.Updates.{
  core, moved, Rule, Stores, Silent, complete-Stores, fail-Stores,
}
use maintenance_orchestrator.Controller.Stores.Steps.{global_timed_out-Silent, step_batch-Silent}
use maintenance_orchestrator.Controller.Phases.Executing.{
  threshold_message, is_yes, is_gated, with_nodes, block_execution, complete_execution,
  await_uncordon_approval, store_round, drains_of_others, setting_of, run_batch, advance, execute,
  reconcile_executing,
}

-- What the rule permits: mutations, and a status with any nodes in the phases that end a round.
pub record Executes (P : Rule) (mr : MaintenanceRequest) : Type 0 where
  pub may : P.mutations ≡ true
  pub executing :
      (nodes : List NodeExecutionStatus)
      → P.stored (record (core mr.status) { nodes = nodes }) ≡ true
  pub ended :
      (nodes : List NodeExecutionStatus)
      → (P.stored (record (core mr.status) { nodes = nodes; phase = Phase.failed }) ≡ true)
        × (P.stored (record (core mr.status) { nodes = nodes; phase = Phase.blocked }) ≡ true)
        × (P.stored (record (core mr.status) { nodes = nodes; phase = Phase.completed }) ≡ true)
  pub held :
      P.stored (record (core mr.status) { gate = Gate.uncordon; phase = Phase.awaiting_approval })
      ≡ true

module _ (w : World) (P : Rule) where
  block_execution-Stores :
      (mr : MaintenanceRequest) (blocked : ℕ) (t : Trace)
      → P.stored (moved mr.status Phase.blocked) ≡ true
      → Stores P t (block_execution w mr blocked t).1
  unfolding block_execution set_condition Calls.clock update_then refresh_then
  block_execution-Stores mr blocked t h = ground arith

  complete_execution-Stores :
      (mr : MaintenanceRequest) (t : Trace)
      → P.mutations ≡ true
      → P.stored (moved mr.status Phase.failed) ≡ true
      → P.stored (moved mr.status Phase.blocked) ≡ true
      → P.stored (moved mr.status Phase.completed) ≡ true
      → Stores P t (complete_execution w mr t).1
  unfolding complete_execution
  complete_execution-Stores mr t may failed blocked completed =
      let mr' = with_nodes mr mr.status.nodes in
      let n = count_node_phase mr.status.nodes NodePhase.failed in
      let m = count_node_phase mr.status.nodes NodePhase.blocked in
      ground (
        arith,
        fail-Stores w P mr' "NodeFailures" (itoa (pos n) ++ " node(s) failed") t failed (inl may),
        block_execution-Stores mr' m t blocked,
        complete-Stores w P mr' "all nodes completed" t completed,
      )

  await_uncordon_approval-Stores :
      (mr : MaintenanceRequest) (t : Trace)
      → P.stored (record (core mr.status) { gate = Gate.uncordon; phase = Phase.awaiting_approval })
        ≡ true
      → Stores P t (await_uncordon_approval w mr t).1
  unfolding await_uncordon_approval set_condition Calls.clock update_then refresh_then
  await_uncordon_approval-Stores mr t h = ground arith

  module _ (mr : MaintenanceRequest) (x : Executes P mr) where
    complete_round-Stores :
        (nodes : List NodeExecutionStatus) (t : Trace)
        → Stores P t
            (complete_execution w (with_status mr (record mr.status { nodes = nodes })) t).1
    complete_round-Stores nodes t =
        let (failed, blocked, completed) = x.ended nodes in
        complete_execution-Stores (with_status mr (record mr.status { nodes = nodes })) t x.may
          failed blocked completed

    store_round-Stores : (r : Round) (t : Trace) → Stores P t (store_round w mr r t).1
    unfolding store_round update_then update_status
    store_round-Stores r t =
        let stored = x.executing r.nodes in
        let ended = complete_round-Stores r.nodes t in ground (arith, stored, ended)

    drains_of_others-Silent :
        (pol : Effective) (t : Trace) → Silent P t (drains_of_others w mr pol t).1
    unfolding drains_of_others
    drains_of_others-Silent pol t = ground arith

    run_batch-Stores :
        (pol : Effective) (window_open gated : Bool) (batch : ℕ) (t : Trace)
        → Stores P t (run_batch w mr pol window_open gated batch t).1
    unfolding run_batch
    run_batch-Stores pol window_open gated batch t =
        let (others, u) = drains_of_others w mr pol t in
        let setting = setting_of w mr pol others window_open gated in
        let in_flight = pos (count_in_flight mr.status.nodes) in
        let (r, v) = step_batch w.env setting batch mr.status.nodes in_flight u in
        ground (
          arith,
          drains_of_others-Silent pol t,
          step_batch-Silent w.env P x.may setting batch mr.status.nodes in_flight u,
          store_round-Stores r v,
        )

    advance-Stores :
        (pol : Effective) (gated : Bool) (t : Trace) → Stores P t (advance w mr pol gated t).1
    unfolding advance Calls.clock
    advance-Stores pol gated t =
        let u : Trace = (Calls.clock w.env t).1 in
        let window_open = is_yes (windows_open w.zones mr.spec pol.spec (w.env.now t)) in
        elim (Option-cases (current_batch mr.status.nodes)) [
          | inl e ↦ ground (arith, e, complete_round-Stores mr.status.nodes u)
          | inr (batch, e) ↦ ground (arith, e, run_batch-Stores pol window_open gated batch u)
        ]

    execute-Stores : (pol : Effective) (t : Trace) → Stores P t (execute w mr pol t).1
    unfolding execute
    execute-Stores pol t =
        let failures = count_node_phase mr.status.nodes NodePhase.failed in
        let (failed, blocked, completed) = x.ended mr.status.nodes in
        ground (
          arith,
          fail-Stores w P mr "FailureThreshold" (threshold_message pol failures) t failed
              (inl x.may),
          await_uncordon_approval-Stores mr t x.held,
          advance-Stores pol (is_gated w mr pol) t,
        )

    -- The handler of an execution keeps a rule that permits it.
    pub reconcile_executing-Stores :
        (pol : Effective) (t : Trace) → Stores P t (reconcile_executing w mr pol t).1
    unfolding reconcile_executing
    reconcile_executing-Stores pol t =
        let (late, u) = global_timed_out w.env w.config mr.spec mr.status.start_time t in
        let (failed, blocked, completed) = x.ended mr.status.nodes in
        let fails = λ (reason msg : String). fail-Stores w P mr reason msg u failed (inl x.may) in
        elim (Option-cases mr.status.plan) [
          | inl e ↦ ground (
            arith,
            e,
            global_timed_out-Silent w.env P w.config mr.spec mr.status.start_time t,
            fails "Timeout" "global timeout exceeded",
            fails "NoPlan" "execution plan missing",
          )
          | inr (plan, e) ↦ ground (
            arith,
            e,
            global_timed_out-Silent w.env P w.config mr.spec mr.status.start_time t,
            fails "Timeout" "global timeout exceeded",
            execute-Stores pol u,
          )
        ]
