-- ===== src/Controller/Stores/Starting.antt =====
-- The rules that the handler of a planned request keeps.
use maintenance_orchestrator.Prelude.{
  ◌≡◌, inl, inr, Bool, true, false, List, if◌then◌else◌, some, String, arith, Bool-cases,
}
use maintenance_orchestrator.Api.Enums.{Phase}
use maintenance_orchestrator.Api.Status.{NodeExecutionStatus}
use maintenance_orchestrator.Api.Request.{ExecutionPlan, MaintenanceRequest}
use maintenance_orchestrator.Policy.{Effective}
use maintenance_orchestrator.Policy.Resolve.{Resolved-cases}
use maintenance_orchestrator.Planner.Build.{build}
use maintenance_orchestrator.Kube.Cluster.{Trace, Result-cases}
use maintenance_orchestrator.Kube.Calls
use maintenance_orchestrator.Window.Openings.{Answer-cases, windows_open}
use maintenance_orchestrator.Controller.World.{World, window}
use maintenance_orchestrator.Controller.Targets.{resolve_target}
use maintenance_orchestrator.Controller.Finish.{
  complete, with_status, set_condition, update_then, refresh_then,
}
use maintenance_orchestrator.Controller.Finish.Updates.{
  Core, core, moved, Rule, MayRelease, Stores, complete-Stores, fail-Stores,
}
use maintenance_orchestrator.Controller.Reads.Targets.{resolve_target-Silent}
use maintenance_orchestrator.Controller.Reads.Plan.{build-Silent}
use maintenance_orchestrator.Controller.Stores.Planning.{at_phase}
use maintenance_orchestrator.Controller.Phases.{has_nodes}
use maintenance_orchestrator.Controller.Nodes.{init_node_statuses}
use maintenance_orchestrator.Controller.Phases.Planning.{
  plan_message, is_advisory, store_and_wait, start_execution, enter_window, execute_plan,
  reconcile_planned,
}

-- What the rule permits a planned request: `advisory` says that it only advises.
pub record Plans (P : Rule) (c : Core) (advisory : Bool) : Type 0 where
  pub may : MayRelease P c.nodes
  pub failed : P.stored (at_phase c Phase.failed) ≡ true
  pub kept :
      (plan : ExecutionPlan)
      → (P.stored (record c { plan = some plan }) ≡ true)
        × (P.stored (record (at_phase c Phase.completed) { plan = some plan }) ≡ true)
        × (P.stored (record (at_phase c Phase.failed) { plan = some plan }) ≡ true)
  pub executing :
      advisory ≡ false
      → (plan : ExecutionPlan) (nodes : List NodeExecutionStatus)
      → P.stored (record (at_phase c Phase.executing) { plan = some plan; nodes = nodes }) ≡ true

module _ (w : World) (P : Rule) where
  abbrev Planned : MaintenanceRequest → Type 0
  Planned mr = Plans P (core mr.status) (is_advisory mr.spec.mode)

  store_and_wait-Stores :
      (mr : MaintenanceRequest) (msg : String) (t : Trace)
      → P.stored (core mr.status) ≡ true
      → Stores P t (store_and_wait w mr msg t).1
  unfolding store_and_wait update_then
  store_and_wait-Stores mr msg t h = ground arith

  start_execution-Stores :
      (mr : MaintenanceRequest) (plan : ExecutionPlan) (t : Trace)
      → ((nodes : List NodeExecutionStatus)
          → P.stored (record (moved mr.status Phase.executing) { nodes = nodes }) ≡ true)
      → Stores P t (start_execution w mr plan t).1
  unfolding start_execution set_condition Calls.clock update_then refresh_then
  start_execution-Stores mr plan t h =
      let stored =
        h (
          if has_nodes mr.status.nodes then mr.status.nodes else init_node_statuses plan.batches) in
      ground (arith, stored)

  enter_window-Stores :
      (mr : MaintenanceRequest) (pol : Effective) (plan : ExecutionPlan) (t : Trace)
      → P.stored (core mr.status) ≡ true
      → P.stored (moved mr.status Phase.failed) ≡ true
      → MayRelease P mr.status.nodes
      → ((nodes : List NodeExecutionStatus)
          → P.stored (record (moved mr.status Phase.executing) { nodes = nodes }) ≡ true)
      → Stores P t (enter_window w mr pol plan t).1
  unfolding enter_window set_condition Calls.clock
  enter_window-Stores mr pol plan t kept fails may executing =
      let u : Trace = (Calls.clock w.env t).1 in
      let (mr1, v) =
        set_condition w mr "WindowOpen" false "WindowClosed" "outside maintenance window" u in
      elim (Answer-cases (windows_open w.zones mr.spec pol.spec (w.env.now t))) [
        | inl (is, e) ↦ ground (
          arith,
          e,
          start_execution-Stores mr plan u executing,
          store_and_wait-Stores mr1 "waiting for maintenance window" v kept,
        )
        | inr (failure, e) ↦
            ground
              (arith, e, fail-Stores w P mr "InvalidWindow" (w.text (window failure)) u fails may)
      ]

  execute_plan-Stores :
      (mr : MaintenanceRequest) (pol : Effective) (plan : ExecutionPlan) (t : Trace)
      → Planned mr
      → Stores P t (execute_plan w mr pol plan t).1
  unfolding execute_plan set_condition Calls.clock
  execute_plan-Stores mr pol plan t x =
      let (kept, completed, fails) = x.kept plan in
      let (mr1, u) =
        set_condition w (with_status mr (record mr.status { plan = some plan })) "Planned" true
          "Planned" (plan_message plan) t in
      let advised : Stores P u (store_and_wait w mr1 "advisory: plan refreshed (no mutation)" u).1 =
        store_and_wait-Stores mr1 "advisory: plan refreshed (no mutation)" u kept in
      let nothing : Stores P u (complete w mr1 "no matching nodes; nothing to do" u).1 =
        complete-Stores w P mr1 "no matching nodes; nothing to do" u completed in
      elim (Bool-cases (is_advisory mr.spec.mode)) [
        | inl e ↦ ground (arith, e, advised)
        | inr e ↦ ground (
          arith,
          e,
          nothing,
          enter_window-Stores mr1 pol plan u kept fails x.may (x.executing e plan),
        )
      ]

  -- The handler of a planned request keeps a rule that permits it.
  pub reconcile_planned-Stores :
      (mr : MaintenanceRequest) (pol : Effective) (t : Trace)
      → Planned mr
      → Stores P t (reconcile_planned w mr pol t).1
  unfolding reconcile_planned
  reconcile_planned-Stores mr pol t x =
      let (r, u) = resolve_target w mr.spec.target t in
      let reads = resolve_target-Silent w P mr.spec.target t in
      elim (Resolved-cases r) [
        | inl (target, e) ↦
            let (b, v) = build w.env w.config.default_pool_keys mr.spec pol target.nodes u in
            let plans =
              build-Silent w.env P w.config.default_pool_keys mr.spec pol target.nodes u in
            elim (Result-cases b) [
              | inl (plan, e') ↦
                  ground (arith, e, e', reads, plans, execute_plan-Stores mr pol plan v x)
              | inr (failure, e') ↦ ground (arith, e, e', reads, plans)
            ]
        | inr (f, e) ↦
            ground
              (arith, e, reads, fail-Stores w P mr "TargetResolution" (w.text f) u x.failed x.may)
      ]
