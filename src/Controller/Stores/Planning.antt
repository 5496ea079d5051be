-- ===== src/Controller/Stores/Planning.antt =====
-- The rules that the handlers before an execution keep.
use maintenance_orchestrator.Prelude.{
  ◌≡◌, inl, inr, Bool, true, false, List, [], ◌∷◌, some, String, arith, Bool-cases,
}
use maintenance_orchestrator.Api.Enums.{Phase, Gate}
use maintenance_orchestrator.Api.Request.{PreflightCheckResult, ExecutionPlan, MaintenanceRequest}
use maintenance_orchestrator.Approval.{evaluate}
use maintenance_orchestrator.Policy.{Effective, approval_policy}
use maintenance_orchestrator.Policy.Resolve.{Resolved-cases}
use maintenance_orchestrator.Planner.Build.{build}
use maintenance_orchestrator.Kube.Cluster.{Trace, Action, Result-cases}
use maintenance_orchestrator.Kube.Cluster
use maintenance_orchestrator.Kube.Calls
use maintenance_orchestrator.Preflight.Results.{fail_codes, has_fail}
use maintenance_orchestrator.Preflight.Run.{run}
use maintenance_orchestrator.Controller.World.{World}
use maintenance_orchestrator.Controller.Targets.{ResolvedTarget, resolve_target}
use maintenance_orchestrator.Controller.Finish.{
  complete, with_status, set_condition, update_then, refresh_then,
}
use maintenance_orchestrator.Controller.Finish.Updates.{
  Core, core, moved, Rule, MayRelease, Stores, Silent, Silent-refl, complete-Stores, fail-Stores,
  cancel-Stores,
}
use maintenance_orchestrator.Controller.Reads.Targets.{resolve_target-Silent}
use maintenance_orchestrator.Controller.Reads.Plan.{build-Silent}
use maintenance_orchestrator.Controller.Reads.Checks.{run-Silent}
use maintenance_orchestrator.Controller.Phases.{record_decision}
use maintenance_orchestrator.Controller.Phases.Planning.{
  count_failures, is_dry_run, input_of, block_validation, await_drain_approval, become_planned,
  pass_drain_gate, accept_plan, accept_checks, validate_target, reconcile_validating,
}

-- A core in another phase.
abbrev pub at_phase : Core → Phase → Core
at_phase c p = record c { phase = p }

-- What the rule permits a request that is validated: `dry` says that it is a dry run.
pub record Validates (P : Rule) (c : Core) (dry : Bool) : Type 0 where
  pub may : MayRelease P c.nodes
  pub failed : P.stored (at_phase c Phase.failed) ≡ true
  pub completed : P.stored (at_phase c Phase.completed) ≡ true
  pub blocked : P.stored (at_phase c Phase.blocked) ≡ true
  pub finished :
      (plan : ExecutionPlan)
      → P.stored (record (at_phase c Phase.completed) { plan = some plan }) ≡ true
  pub planned :
      dry ≡ false
      → (plan : ExecutionPlan)
      → (P.stored (record (at_phase c Phase.planned) { plan = some plan }) ≡ true)
        × (P.stored (record (at_phase c Phase.cancelled) { plan = some plan }) ≡ true)
        × (P.stored
              (record (at_phase c Phase.awaiting_approval) { plan = some plan; gate = Gate.drain })
            ≡ true)

module _ (w : World) (P : Rule) where
  pub set_condition-Silent :
      (mr : MaintenanceRequest) (type : String) (status : Bool) (reason msg : String) (t : Trace)
      → Silent P t (set_condition w mr type status reason msg t).1
  unfolding set_condition Calls.clock
  set_condition-Silent mr type status reason msg t = ground arith

  block_validation-Stores :
      (mr : MaintenanceRequest) (t : Trace)
      → P.stored (moved mr.status Phase.blocked) ≡ true
      → Stores P t (block_validation w mr t).1
  unfolding block_validation set_condition Calls.clock update_then refresh_then
  block_validation-Stores mr t h = ground arith

  await_drain_approval-Stores :
      (mr : MaintenanceRequest) (t : Trace)
      → P.stored (record (core mr.status) { gate = Gate.drain; phase = Phase.awaiting_approval })
        ≡ true
      → Stores P t (await_drain_approval w mr t).1
  unfolding await_drain_approval set_condition Calls.clock update_then refresh_then
  await_drain_approval-Stores mr t h = ground arith

  become_planned-Stores :
      (mr : MaintenanceRequest) (t : Trace)
      → P.stored (moved mr.status Phase.planned) ≡ true
      → Stores P t (become_planned w mr t).1
  unfolding become_planned update_then
  become_planned-Stores mr t h = ground arith

  pass_drain_gate-Stores :
      (mr : MaintenanceRequest) (pol : Effective) (t : Trace)
      → P.stored (moved mr.status Phase.planned) ≡ true
      → P.stored (moved mr.status Phase.cancelled) ≡ true
      → P.stored (record (core mr.status) { gate = Gate.drain; phase = Phase.awaiting_approval })
        ≡ true
      → MayRelease P mr.status.nodes
      → Stores P t (pass_drain_gate w mr pol t).1
  unfolding pass_drain_gate record_decision set_condition Calls.clock become_planned update_then
  pass_drain_gate-Stores mr pol t planned cancelled awaiting may =
      let (res, decision) =
        evaluate (approval_policy pol mr.spec.approval.policy) mr.spec.approval Gate.drain in
      ground (
        arith,
        planned,
        await_drain_approval-Stores mr t awaiting,
        cancel-Stores w P mr "drain rejected at approval gate" false
            (record_decision decision Action.approval_denied t).1 cancelled may,
      )

  count_failures-Silent : (codes : List String) (t : Trace) → Silent P t (count_failures codes t).1
  unfolding count_failures
  count_failures-Silent [] t = Silent-refl P t
  count_failures-Silent (code ∷ codes) t = ground (
    arith,
    count_failures-Silent codes (Cluster.Call.metric (Cluster.Metric.preflight_failures code) ∷ t),
  )

  -- The request may carry further results and conditions.
  abbrev Valid : MaintenanceRequest → Type 0
  Valid mr = Validates P (core mr.status) (is_dry_run mr.spec.mode)

  accept_plan-Stores :
      (mr : MaintenanceRequest) (pol : Effective) (plan : ExecutionPlan) (t : Trace)
      → Valid mr
      → Stores P t (accept_plan w mr pol plan t).1
  unfolding accept_plan set_condition Calls.clock
  accept_plan-Stores mr pol plan t x =
      let u : Trace = Cluster.Call.audit Action.plan_generated "" ∷ t in
      let mr1 = with_status mr (record mr.status { plan = some plan }) in
      let (mr2, v) = set_condition w mr1 "Planned" true "DryRun" "dry-run plan generated" u in
      elim (Bool-cases (is_dry_run mr.spec.mode)) [
        | inl e ↦ ground (
          arith,
          e,
          set_condition-Silent mr1 "Planned" true "DryRun" "dry-run plan generated" u,
          complete-Stores w P mr2 "dry-run completed" v (x.finished plan),
        )
        | inr e ↦
            let (planned, cancelled, awaiting) = x.planned e plan in
            ground (arith, e, pass_drain_gate-Stores mr1 pol u planned cancelled awaiting x.may)
      ]

  accept_checks-Stores :
      (mr : MaintenanceRequest) (pol : Effective) (target : ResolvedTarget)
      (results : List PreflightCheckResult) (t : Trace)
      → Valid mr
      → Stores P t (accept_checks w mr pol target results t).1
  unfolding accept_checks set_condition Calls.clock
  accept_checks-Stores mr pol target results t x =
      let mr1 = with_status mr (record mr.status { preflight = results }) in
      let codes = count_failures-Silent (fail_codes results) t in
      let u : Trace =
        Cluster.Call.audit Action.preflight_completed ""
        ∷ (count_failures (fail_codes results) t).1 in
      let (mr2, v) = set_condition w mr1 "Validated" true "Validated" "preflight checks passed" u in
      let (b, v') = build w.env w.config.default_pool_keys mr.spec pol target.nodes v in
      let plans = build-Silent w.env P w.config.default_pool_keys mr.spec pol target.nodes v in
      elim (Bool-cases (has_fail results)) [
        | inl e ↦ ground (arith, e, codes, block_validation-Stores mr1 u x.blocked)
        | inr e ↦ elim (Result-cases b) [
          | inl (plan, e') ↦
              let accepted : Stores P v' (accept_plan w mr2 pol plan v').1 =
                accept_plan-Stores mr2 pol plan v' x in
              ground (arith, e, e', codes, plans, accepted)
          | inr (failure, e') ↦ ground (arith, e, e', codes, plans)
        ]
      ]

  validate_target-Stores :
      (mr : MaintenanceRequest) (pol : Effective) (target : ResolvedTarget) (t : Trace)
      → Valid mr
      → Stores P t (validate_target w mr pol target t).1
  unfolding validate_target set_condition Calls.clock
  validate_target-Stores mr pol target t x =
      let (mr1, u) =
        set_condition w mr "Validated" true "NoTargets" "no nodes matched the target" t in
      let none_found : Stores P u (complete w mr1 "no matching nodes; nothing to do" u).1 =
        complete-Stores w P mr1 "no matching nodes; nothing to do" u x.completed in
      let v : Trace = (Calls.clock w.env t).1 in
      let in_ = input_of w mr pol target (w.env.now t) in
      let (r, v') = run w in_ v in
      elim (Result-cases r) [
        | inl (results, e) ↦ ground (
          arith,
          e,
          none_found,
          run-Silent w P in_ v,
          accept_checks-Stores mr pol target results v' x,
        )
        | inr (failure, e) ↦ ground (arith, e, none_found, run-Silent w P in_ v)
      ]

  -- The handler of a validation keeps a rule that permits it.
  pub reconcile_validating-Stores :
      (mr : MaintenanceRequest) (pol : Effective) (t : Trace)
      → Validates P (moved mr.status Phase.validating) (is_dry_run mr.spec.mode)
      → Stores P t (reconcile_validating w mr pol t).1
  unfolding reconcile_validating
  reconcile_validating-Stores mr pol t x =
      let mr1 = with_status mr (record mr.status { phase = Phase.validating }) in
      let (r, u) = resolve_target w mr.spec.target t in
      let reads = resolve_target-Silent w P mr.spec.target t in
      elim (Resolved-cases r) [
        | inl (target, e) ↦ ground (arith, e, reads, validate_target-Stores mr1 pol target u x)
        | inr (f, e) ↦
            ground
              (arith, e, reads, fail-Stores w P mr1 "TargetResolution" (w.text f) u x.failed x.may)
      ]
