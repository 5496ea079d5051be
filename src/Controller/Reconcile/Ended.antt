-- ===== src/Controller/Reconcile/Ended.antt =====
-- Requests that are over, deleted or cancelled.
use maintenance_orchestrator.Prelude.{
  ◌+◌, ◌≡◌, refl, inl, Bool, true, false, ◌||◌, ◌∷◌, none, some, String, is_empty, arith,
}
use maintenance_orchestrator.Api.Enums.{Phase}
use maintenance_orchestrator.Api.Spec.{MaintenanceSpec}
use maintenance_orchestrator.Api.Request.{MaintenanceRequest}
use maintenance_orchestrator.StateMachine.{is_terminal, phase_eq}
use maintenance_orchestrator.Kube.Cluster.{Trace, Error, err}
use maintenance_orchestrator.Kube.Cluster
use maintenance_orchestrator.Policy.Resolve.{failed, read_policy, resolve}
use maintenance_orchestrator.Kube.Traces.{count_calls, is_update}
use maintenance_orchestrator.Controller.World.{World, policy_not_found}
use maintenance_orchestrator.Controller.Finish.{cancel, fail}
use maintenance_orchestrator.Controller.Finish.Updates.{
  Rule, violates, Stores, cancel-Stores, fail-Stores, cancel-once, fail-once,
}
use maintenance_orchestrator.Controller.Reconcile.{
  reconcile_request, continue_request, advance_phase,
}
use maintenance_orchestrator.Controller.Reconcile.Effects.{is_unset}

abbrev pub is_deleted : MaintenanceRequest → Bool
is_deleted mr = elim mr.deletion_timestamp [ none ↦ false | some at ↦ true ]

-- Only the phase Cancelled is stored.
abbrev pub cancelled_rule : Rule
cancelled_rule = record { stored = λ c. phase_eq c.phase Phase.cancelled; mutations = true }

cancelled-Stores :
    (w : World) (mr : MaintenanceRequest) (msg : String) (t : Trace)
    → Stores cancelled_rule t (cancel w mr msg true t).1
unfolding phase_eq
cancelled-Stores w mr msg t = cancel-Stores w cancelled_rule mr msg true t refl (inl refl)

-- A cancel comes before anything else: whatever the phase of a request that has been seen before, is not
-- over and not deleted, a reconcile with `spec.cancel` stores a status exactly once, and a cancelled one.
pub reconcile_cancel :
    (w : World) (mr : MaintenanceRequest) (t : Trace)
    → mr.spec.cancel ≡ true
    → is_deleted mr ≡ false
    → is_unset mr.status.phase ≡ false
    → is_terminal mr.status.phase ≡ false
    → let u = (reconcile_request w mr t).1 in
      (count_calls (violates cancelled_rule) u ≡ count_calls (violates cancelled_rule) t)
      × (count_calls is_update u ≡ count_calls is_update t + 1)
unfolding reconcile_request continue_request
reconcile_cancel w mr t h exists seen running =
    let stores = cancelled-Stores w mr "cancelled by user" t in
    let once = cancel-once w cancelled_rule mr "cancelled by user" true t refl in
    (
      ground (arith, h, exists, seen, running, stores),
      ground (arith, h, exists, seen, running, once),
    )

-- Only the phase Failed is stored.
abbrev pub failed_rule : Rule
failed_rule = record { stored = λ c. phase_eq c.phase Phase.failed; mutations = true }

failed-Stores :
    (w : World) (mr : MaintenanceRequest) (reason msg : String) (t : Trace)
    → Stores failed_rule t (fail w mr reason msg t).1
unfolding phase_eq
failed-Stores w mr reason msg t = fail-Stores w failed_rule mr reason msg t refl (inl refl)

missing_policy_lem :
    (w : World) (spec : MaintenanceSpec) (default_name name : String) (t : Trace)
    → spec.policy_ref ≡ some name
    → is_empty name ≡ false
    → w.env.get_policy t name ≡ err Error.not_found
    → resolve w spec default_name t
      ≡ (failed (policy_not_found name), Cluster.Call.get_policy name ∷ t)
unfolding resolve read_policy
missing_policy_lem w spec default_name name t named full missing =
    ground (arith, named, full, missing)

-- A running request that names a policy which does not exist, and is neither cancelled nor to be paused,
-- fails: a reconcile stores a status exactly once, and a failed one.
pub reconcile_missing_policy :
    (w : World) (mr : MaintenanceRequest) (name : String) (t : Trace)
    → mr.spec.policy_ref ≡ some name
    → is_empty name ≡ false
    → w.env.get_policy t name ≡ err Error.not_found
    → (mr.spec.cancel || mr.spec.pause) ≡ false
    → is_deleted mr ≡ false
    → is_unset mr.status.phase ≡ false
    → is_terminal mr.status.phase ≡ false
    → let u = (reconcile_request w mr t).1 in
      (count_calls (violates failed_rule) u ≡ count_calls (violates failed_rule) t)
      × (count_calls is_update u ≡ count_calls is_update t + 1)
unfolding reconcile_request continue_request advance_phase
reconcile_missing_policy w mr name t named full missing on exists seen running =
    let u : Trace = Cluster.Call.get_policy name ∷ t in
    let msg = w.text (policy_not_found name) in
    let none_found =
      missing_policy_lem w mr.spec w.config.default_policy_name name t named full missing in
    let stores = failed-Stores w mr "PolicyResolution" msg u in
    let once = fail-once w failed_rule mr "PolicyResolution" msg u refl in
    (
      ground (arith, none_found, on, exists, seen, running, stores),
      ground (arith, none_found, on, exists, seen, running, once),
    )
