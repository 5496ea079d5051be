-- ===== src/Controller/Reconcile/Effects.antt =====
-- Which calls a reconcile may make: it keeps a rule that permits what the handler of the request's phase
-- can store.
use maintenance_orchestrator.Prelude.{
  ℕ, ◌≡◌, refl, subst, ◌⊎◌, inl, inr, Bool, true, false, ◌&&◌, arith, Bool-cases,
}
use maintenance_orchestrator.Api.Enums.{Phase}
use maintenance_orchestrator.Api.Request.{MaintenanceRequest}
use maintenance_orchestrator.StateMachine.{is_terminal}
use maintenance_orchestrator.Policy.{Effective}
use maintenance_orchestrator.Policy.Resolve.{resolve, Resolved-cases}
use maintenance_orchestrator.Kube.Cluster.{Trace}
use maintenance_orchestrator.Kube.Calls
use maintenance_orchestrator.Controller.World.{World}
use maintenance_orchestrator.Controller.Finish.{set_condition, update_then, refresh_then}
use maintenance_orchestrator.Controller.Finish.Updates.{
  core, moved, Rule, MayRelease, Stores, cancel-Stores, pause-Stores, fail-Stores,
}
use maintenance_orchestrator.Controller.Reads.Targets.{resolve-Silent}
use maintenance_orchestrator.Controller.Phases.{resume_phase, can_pause, has_nodes}
use maintenance_orchestrator.Controller.Phases.Waiting.{waiting_for, has_plan, retry_nodes}
use maintenance_orchestrator.Controller.Phases.Planning.{is_dry_run, is_advisory}
use maintenance_orchestrator.Controller.Stores.Waiting.{
  passed, reconcile_awaiting_approval-Stores, reconcile_paused-Stores, reconcile_blocked-Stores,
}
use maintenance_orchestrator.Controller.Stores.Planning.{Validates, reconcile_validating-Stores}
use maintenance_orchestrator.Controller.Stores.Starting.{Plans, reconcile_planned-Stores}
use maintenance_orchestrator.Controller.Stores.Executing.{Executes, reconcile_executing-Stores}
use maintenance_orchestrator.Controller.Reconcile.{
  accept, dispatch, advance_phase, continue_request, reconcile_request,
}

-- `status.phase == ""`
abbrev pub is_unset : Phase → Bool
is_unset Phase.unset = true
is_unset _ = false

pub is_unset-cases : (p : Phase) → (p ≡ Phase.unset) ⊎ (is_unset p ≡ false)
is_unset-cases Phase.unset = inl refl
is_unset-cases Phase.pending = inr refl
is_unset-cases Phase.validating = inr refl
is_unset-cases Phase.awaiting_approval = inr refl
is_unset-cases Phase.planned = inr refl
is_unset-cases Phase.executing = inr refl
is_unset-cases Phase.paused = inr refl
is_unset-cases Phase.blocked = inr refl
is_unset-cases Phase.completed = inr refl
is_unset-cases Phase.failed = inr refl
is_unset-cases Phase.cancelled = inr refl
is_unset-cases (Phase.other s) = inr refl

module _ (P : Rule) (mr : MaintenanceRequest) where
  -- What the handler of the phase may need.
  abbrev pub Handles : Phase → Type 0
  Handles Phase.pending = Validates P (moved mr.status Phase.validating) (is_dry_run mr.spec.mode)
  Handles Phase.validating =
      Validates P (moved mr.status Phase.validating) (is_dry_run mr.spec.mode)
  Handles Phase.awaiting_approval =
      P.stored (passed mr.status (waiting_for mr.status.approval_gate)) ≡ true
  Handles Phase.planned = Plans P (core mr.status) (is_advisory mr.spec.mode)
  Handles Phase.executing = Executes P mr
  Handles Phase.paused = P.stored (moved mr.status (resume_phase mr.status)) ≡ true
  Handles Phase.blocked =
      (has_nodes mr.status.nodes ≡ true
        → (now : ℕ)
        → P.stored (record (core mr.status) {
          nodes = retry_nodes now mr.status.nodes;
          phase = Phase.executing;
        })
          ≡ true)
      × ((has_plan mr.status.plan && has_nodes mr.status.nodes) ≡ false
          → P.stored (moved mr.status Phase.validating) ≡ true)
  Handles Phase.unset = P.stored (moved mr.status Phase.pending) ≡ true
  Handles _ = Unit {0}

  -- What every request may need.
  pub record Ends : Type 0 where
    pub may : MayRelease P mr.status.nodes
    pub failed : P.stored (moved mr.status Phase.failed) ≡ true
    pub cancelled : P.stored (moved mr.status Phase.cancelled) ≡ true
    pub paused : can_pause mr.status.phase ≡ true → P.stored (moved mr.status Phase.paused) ≡ true

module _ (w : World) (P : Rule) (mr : MaintenanceRequest) (ends : Ends P mr) where
  dispatch-Stores_at :
      (p : Phase) (pol : Effective) (t : Trace)
      → mr.status.phase ≡ p
      → Handles P mr p
      → Stores P t (dispatch w mr pol t).1
  unfolding dispatch
  dispatch-Stores_at Phase.pending pol t e h =
      ground (arith, e, reconcile_validating-Stores w P mr pol t h)
  dispatch-Stores_at Phase.validating pol t e h =
      ground (arith, e, reconcile_validating-Stores w P mr pol t h)
  dispatch-Stores_at Phase.awaiting_approval pol t e h =
      ground (arith, e, reconcile_awaiting_approval-Stores w P mr pol t h ends.cancelled ends.may)
  dispatch-Stores_at Phase.planned pol t e h =
      ground (arith, e, reconcile_planned-Stores w P mr pol t h)
  dispatch-Stores_at Phase.executing pol t e h =
      ground (arith, e, reconcile_executing-Stores w P mr h pol t)
  dispatch-Stores_at Phase.paused pol t e h = ground (arith, e, reconcile_paused-Stores w P mr t h)
  dispatch-Stores_at Phase.blocked pol t e (again, validating) =
      ground (arith, e, reconcile_blocked-Stores w P mr t again validating ends.failed ends.may)
  dispatch-Stores_at Phase.unset pol t e h = ground (arith, e)
  dispatch-Stores_at Phase.completed pol t e h = ground (arith, e)
  dispatch-Stores_at Phase.failed pol t e h = ground (arith, e)
  dispatch-Stores_at Phase.cancelled pol t e h = ground (arith, e)
  dispatch-Stores_at (Phase.other s) pol t e h = ground (arith, e)

  dispatch-Stores :
      (pol : Effective) (t : Trace)
      → Handles P mr mr.status.phase
      → Stores P t (dispatch w mr pol t).1
  dispatch-Stores pol t h = dispatch-Stores_at mr.status.phase pol t refl h

  advance_phase-Stores :
      (t : Trace) → Handles P mr mr.status.phase → Stores P t (advance_phase w mr t).1
  unfolding advance_phase
  advance_phase-Stores t h =
      let (r, u) = resolve w mr.spec w.config.default_policy_name t in
      let reads = resolve-Silent w P mr.spec w.config.default_policy_name t in
      elim (Resolved-cases r) [
        | inl (pol, e) ↦ ground (arith, e, reads, dispatch-Stores pol u h)
        | inr (f, e) ↦ ground (
          arith,
          e,
          reads,
          fail-Stores w P mr "PolicyResolution" (w.text f) u ends.failed ends.may,
        )
      ]

  continue_request-Stores :
      (t : Trace) → Handles P mr mr.status.phase → Stores P t (continue_request w mr t).1
  unfolding continue_request
  continue_request-Stores t h =
      let cancels = cancel-Stores w P mr "cancelled by user" true t ends.cancelled ends.may in
      elim (Bool-cases (can_pause mr.status.phase)) [
        | inl e ↦
            ground
              (arith, e, cancels, pause-Stores w P mr t (ends.paused e), advance_phase-Stores t h)
        | inr e ↦ ground (arith, e, cancels, advance_phase-Stores t h)
      ]

accept-Stores :
    (w : World) (P : Rule) (mr : MaintenanceRequest) (t : Trace)
    → P.stored (moved mr.status Phase.pending) ≡ true
    → Stores P t (accept w mr t).1
unfolding accept set_condition Calls.clock update_then refresh_then
accept-Stores w P mr t h = ground arith

terminal-Stores :
    (w : World) (P : Rule) (mr : MaintenanceRequest) (t : Trace)
    → is_terminal mr.status.phase ≡ true
    → Stores P t (continue_request w mr t).1
unfolding continue_request
terminal-Stores w P mr t e = ground (arith, e)

-- A reconcile of a request keeps a rule that permits what its phase may store. A request in a terminal
-- phase needs no permission.
pub reconcile_request-Stores :
    (w : World) (P : Rule) (mr : MaintenanceRequest) (t : Trace)
    → (is_unset mr.status.phase ≡ false → is_terminal mr.status.phase ≡ false → Ends P mr)
    → Handles P mr mr.status.phase
    → Stores P t (reconcile_request w mr t).1
unfolding reconcile_request
reconcile_request-Stores w P mr t ends h = elim (is_unset-cases mr.status.phase) [
  | inl e ↦ ground (arith, e, accept-Stores w P mr t (subst (Handles P mr) (e) h))
  | inr e ↦ elim (Bool-cases (is_terminal mr.status.phase)) [
    | inl e' ↦ ground (arith, e, terminal-Stores w P mr t e')
    | inr e' ↦ ground (arith, e, continue_request-Stores w P mr (ends e e') t h)
  ]
]
