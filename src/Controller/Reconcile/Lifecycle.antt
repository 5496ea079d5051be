-- ===== src/Controller/Reconcile/Lifecycle.antt =====
-- A reconcile keeps to the table of the phase transitions.
use maintenance_orchestrator.Prelude.{
  ◌+◌, ◌≤◌, ◌≡◌, refl, inl, Bool, true, false, ◌&&◌, ◌||◌, Option, none, some,
}
use maintenance_orchestrator.Api.Enums.{Phase, Gate}
use maintenance_orchestrator.Api.Request.{ExecutionPlan, MaintenanceStatus, MaintenanceRequest}
use maintenance_orchestrator.StateMachine.{can_transition, is_terminal, phase_eq}
use maintenance_orchestrator.Kube.Cluster.{Trace}
use maintenance_orchestrator.Kube.Traces.{count_calls, is_update}
use maintenance_orchestrator.Controller.World.{World}
use maintenance_orchestrator.Controller.Finish.Updates.{Rule, violates}
use maintenance_orchestrator.Controller.Phases.{
  resume_with, resume_phase, next_phase_after_gate, can_pause,
}
use maintenance_orchestrator.Controller.Reconcile.{reconcile_request}
use maintenance_orchestrator.Controller.Reconcile.Effects.{
  is_unset, Handles, reconcile_request-Stores,
}

-- The table permits the move, or it permits it from the phase Validating to a pending request.
abbrev pub may_follow : Phase → Phase → Bool
may_follow from to =
    can_transition from to || phase_eq from Phase.pending && can_transition Phase.validating to

abbrev pub lifecycle_rule : Phase → Rule
lifecycle_rule p = record { stored = λ c. may_follow p c.phase; mutations = true }

next_phase_lem : (g : Gate) → may_follow Phase.awaiting_approval (next_phase_after_gate g) ≡ true
unfolding next_phase_after_gate can_transition
next_phase_lem Gate.unset = refl
next_phase_lem Gate.drain = refl
next_phase_lem Gate.uncordon = refl
next_phase_lem (Gate.other s) = refl

resume_with_lem :
    (g : Gate) (plan : Option ExecutionPlan) (b : Bool)
    → may_follow Phase.paused (resume_with g plan b) ≡ true
unfolding resume_with can_transition
resume_with_lem Gate.unset none b = refl
resume_with_lem Gate.unset (some plan) true = refl
resume_with_lem Gate.unset (some plan) false = refl
resume_with_lem Gate.drain plan b = refl
resume_with_lem Gate.uncordon plan b = refl
resume_with_lem (Gate.other s) plan b = refl

resume_phase_lem : (st : MaintenanceStatus) → may_follow Phase.paused (resume_phase st) ≡ true
unfolding resume_phase
resume_phase_lem st = resume_with_lem st.approval_gate st.plan _

-- The phases that Go's constants name.
abbrev pub is_known : Phase → Bool
is_known (Phase.other s) = false
is_known p = true

module _ (mr : MaintenanceRequest) where
  lifecycle-Handles : (p : Phase) → mr.status.phase ≡ p → Handles (lifecycle_rule p) mr p
  unfolding can_transition
  lifecycle-Handles Phase.unset e = refl
  lifecycle-Handles Phase.pending e = record {
    may = inl refl;
    failed = refl;
    completed = refl;
    blocked = refl;
    finished = λ plan. refl;
    planned = λ dry plan. (refl, refl, refl);
  }
  lifecycle-Handles Phase.validating e = record {
    may = inl refl;
    failed = refl;
    completed = refl;
    blocked = refl;
    finished = λ plan. refl;
    planned = λ dry plan. (refl, refl, refl);
  }
  lifecycle-Handles Phase.awaiting_approval e = next_phase_lem _
  lifecycle-Handles Phase.planned e = record {
    may = inl refl;
    failed = refl;
    kept = λ plan. (rw e refl, refl, refl);
    executing = λ advisory plan nodes. refl;
  }
  lifecycle-Handles Phase.executing e = record {
    may = refl;
    executing = λ nodes. rw e refl;
    ended = λ nodes. (refl, refl, refl);
    held = refl;
  }
  lifecycle-Handles Phase.paused e = resume_phase_lem mr.status
  lifecycle-Handles Phase.blocked e = (λ h now. refl, λ h. refl)
  lifecycle-Handles Phase.completed e = tt
  lifecycle-Handles Phase.failed e = tt
  lifecycle-Handles Phase.cancelled e = tt
  lifecycle-Handles (Phase.other s) e = tt

-- From a phase in which a request runs, it may end, and be paused where the controller does so.
lifecycle-Ends :
    (p : Phase)
    → is_known p ≡ true
    → is_unset p ≡ false
    → is_terminal p ≡ false
    → (may_follow p Phase.failed ≡ true)
      × (may_follow p Phase.cancelled ≡ true)
      × (can_pause p ≡ true → may_follow p Phase.paused ≡ true)
unfolding can_transition is_terminal can_pause
lifecycle-Ends Phase.unset known unset ended = absurd (cc)
lifecycle-Ends Phase.pending known unset ended = (refl, refl, λ e. absurd (cc))
lifecycle-Ends Phase.validating known unset ended = (refl, refl, λ e. absurd (cc))
lifecycle-Ends Phase.awaiting_approval known unset ended = (refl, refl, λ e. refl)
lifecycle-Ends Phase.planned known unset ended = (refl, refl, λ e. refl)
lifecycle-Ends Phase.executing known unset ended = (refl, refl, λ e. refl)
lifecycle-Ends Phase.paused known unset ended = (refl, refl, λ e. absurd (cc))
lifecycle-Ends Phase.blocked known unset ended = (refl, refl, λ e. refl)
lifecycle-Ends Phase.completed known unset ended = absurd (cc)
lifecycle-Ends Phase.failed known unset ended = absurd (cc)
lifecycle-Ends Phase.cancelled known unset ended = absurd (cc)
lifecycle-Ends (Phase.other s) known unset ended = absurd (cc)

-- A reconcile of a request in one of the known phases stores a status at most once, and every status
-- that it stores is in a phase that the table permits after the request's phase, or, for a pending
-- request, after Validating.
pub reconcile_lifecycle :
    (w : World) (mr : MaintenanceRequest) (t : Trace)
    → is_known mr.status.phase ≡ true
    → let u = (reconcile_request w mr t).1 in
      let forbidden = violates (lifecycle_rule mr.status.phase) in
      (count_calls forbidden u ≡ count_calls forbidden t)
      × (count_calls is_update u ≤ count_calls is_update t + 1)
reconcile_lifecycle w mr t known =
    let p = mr.status.phase in
    let stores =
      reconcile_request-Stores w (lifecycle_rule p) mr t
        (λ unset ended.
          let (fails, cancels, pauses) = lifecycle-Ends p known unset ended in
          record { may = inl refl; failed = fails; cancelled = cancels; paused = pauses })
        (lifecycle-Handles mr p refl) in
    (stores.fitting, stores.once)
