-- ===== src/Controller/Reconcile/Consistency.antt =====
-- Which gate, plan and nodes a request has in each phase.
use maintenance_orchestrator.Prelude.{
  ◌≡◌, refl, inl, Bool, true, false, not, ◌&&◌, ◌||◌, Option, none, some, arith,
}
use maintenance_orchestrator.Api.Enums.{Phase, Gate}
use maintenance_orchestrator.Api.Request.{ExecutionPlan, MaintenanceStatus, MaintenanceRequest}
use maintenance_orchestrator.Kube.Cluster.{Trace}
use maintenance_orchestrator.Kube.Traces.{count_calls}
use maintenance_orchestrator.Controller.World.{World}
use maintenance_orchestrator.Controller.Finish.Updates.{Core, core, moved, Rule, violates}
use maintenance_orchestrator.Controller.Phases.{
  resume_with, resume_phase, next_phase_after_gate, can_pause, has_nodes,
}
use maintenance_orchestrator.Controller.Phases.Waiting.{waiting_for, has_plan}
use maintenance_orchestrator.Controller.Phases.Planning.{is_dry_run}
use maintenance_orchestrator.Controller.Stores.Waiting.{passed}
use maintenance_orchestrator.Controller.Stores.Planning.{Validates}
use maintenance_orchestrator.Controller.Reconcile.{reconcile_request}
use maintenance_orchestrator.Controller.Reconcile.Effects.{Handles, reconcile_request-Stores}

abbrev is_open : Gate → Bool
is_open Gate.unset = true
is_open g = false

-- No gate is waited for, and no node has a status.
abbrev is_fresh : Core → Bool
is_fresh c = is_open c.gate && not (has_nodes c.nodes)

-- What a request that waits for the gate holds.
abbrev fits_gate : Gate → Core → Bool
fits_gate Gate.unset c = false
fits_gate Gate.drain c = has_plan c.plan && not (has_nodes c.nodes)
fits_gate Gate.uncordon c = has_plan c.plan
fits_gate (Gate.other s) c = false

-- What a paused request holds, by its gate and its plan.
abbrev fits_pause : Gate → Bool → Core → Bool
fits_pause Gate.unset planned c = planned || not (has_nodes c.nodes)
fits_pause g planned c = fits_gate g c

-- A request that waits for approval has a gate, and no other has one that is not paused or over; nodes
-- have statuses only under a plan, and before the execution not at all.
abbrev pub is_consistent_in : Phase → Core → Bool
is_consistent_in Phase.unset c = is_fresh c
is_consistent_in Phase.pending c = is_fresh c
is_consistent_in Phase.validating c = is_fresh c
is_consistent_in Phase.awaiting_approval c = fits_gate c.gate c
is_consistent_in Phase.planned c = is_fresh c && has_plan c.plan
is_consistent_in Phase.executing c = is_open c.gate && has_plan c.plan
is_consistent_in Phase.paused c = fits_pause c.gate (has_plan c.plan) c
is_consistent_in Phase.blocked c = is_open c.gate && (has_plan c.plan || not (has_nodes c.nodes))
is_consistent_in p c = true

abbrev pub is_consistent : Core → Bool
is_consistent c = is_consistent_in c.phase c

abbrev pub consistent_rule : Rule
consistent_rule = record { stored = is_consistent; mutations = true }

-- The status that a paused request goes on with.
resumed_lem :
    (st : MaintenanceStatus) (g : Gate) (plan : Option ExecutionPlan) (b : Bool)
    → st.approval_gate ≡ g
    → st.plan ≡ plan
    → has_nodes st.nodes ≡ b
    → fits_pause g (has_plan plan) (core st) ≡ true
    → is_consistent (moved st (resume_with g plan b)) ≡ true
unfolding resume_with
resumed_lem st Gate.unset none b eg ep eb h = ground (arith, eg, ep, eb, h)
resumed_lem st Gate.unset (some plan) true eg ep eb h = ground (arith, eg, ep, eb, h)
resumed_lem st Gate.unset (some plan) false eg ep eb h = ground (arith, eg, ep, eb, h)
resumed_lem st Gate.drain plan b eg ep eb h = ground (arith, eg, ep, eb, h)
resumed_lem st Gate.uncordon plan b eg ep eb h = ground (arith, eg, ep, eb, h)
resumed_lem st (Gate.other s) plan b eg ep eb h = absurd (cc)

resume_phase_lem :
    (st : MaintenanceStatus)
    → is_consistent_in Phase.paused (core st) ≡ true
    → is_consistent (moved st (resume_phase st)) ≡ true
unfolding resume_phase
resume_phase_lem st h =
    resumed_lem st st.approval_gate st.plan (has_nodes st.nodes) refl refl refl h

-- The status of a request whose gate is open.
passed_lem :
    (st : MaintenanceStatus) (g : Gate)
    → fits_gate g (core st) ≡ true
    → is_consistent (passed st (waiting_for g)) ≡ true
unfolding next_phase_after_gate
passed_lem st Gate.unset h = absurd (cc)
passed_lem st Gate.drain h = ground (arith, h)
passed_lem st Gate.uncordon h = ground (arith, h)
passed_lem st (Gate.other s) h = absurd (cc)

module _ (mr : MaintenanceRequest) where
  consistent-Validates :
      is_fresh (core mr.status) ≡ true
      → Validates consistent_rule (moved mr.status Phase.validating) (is_dry_run mr.spec.mode)
  consistent-Validates h = record {
    may = inl refl;
    failed = refl;
    completed = refl;
    blocked = ground (arith, h);
    finished = λ plan. refl;
    planned = λ dry plan. (ground (arith, h), refl, ground (arith, h));
  }

  consistent-Handles :
      (p : Phase)
      → mr.status.phase ≡ p
      → is_consistent_in p (core mr.status) ≡ true
      → Handles consistent_rule mr p
  consistent-Handles Phase.unset e h = h
  consistent-Handles Phase.pending e h = consistent-Validates h
  consistent-Handles Phase.validating e h = consistent-Validates h
  consistent-Handles Phase.awaiting_approval e h = passed_lem mr.status mr.status.approval_gate h
  consistent-Handles Phase.planned e h = record {
    may = inl refl;
    failed = refl;
    kept = λ plan. (ground (arith, e, h), refl, refl);
    executing = λ advisory plan nodes. ground (arith, h);
  }
  consistent-Handles Phase.executing e h = record {
    may = refl;
    executing = λ nodes. ground (arith, e, h);
    ended = λ nodes. (refl, ground (arith, h), refl);
    held = ground (arith, h);
  }
  consistent-Handles Phase.paused e h = resume_phase_lem mr.status h
  consistent-Handles Phase.blocked e h =
      (λ some_node now. ground (arith, h, some_node), λ no_retry. ground (arith, h, no_retry))
  consistent-Handles Phase.completed e h = tt
  consistent-Handles Phase.failed e h = tt
  consistent-Handles Phase.cancelled e h = tt
  consistent-Handles (Phase.other s) e h = tt

-- What a request holds that is paused while no gate is waited for.
open-fits_pause :
    (st : MaintenanceStatus) (g : Gate) (planned : Bool)
    → (is_open g && (planned || not (has_nodes st.nodes))) ≡ true
    → fits_pause g planned (moved st Phase.paused) ≡ true
open-fits_pause st Gate.unset planned h = h
open-fits_pause st Gate.drain planned h = absurd (cc)
open-fits_pause st Gate.uncordon planned h = absurd (cc)
open-fits_pause st (Gate.other s) planned h = absurd (cc)

-- What a request holds that is paused while it waits for the gate.
gate-fits_pause :
    (st : MaintenanceStatus) (g : Gate) (planned : Bool)
    → fits_gate g (core st) ≡ true
    → fits_pause g planned (moved st Phase.paused) ≡ true
gate-fits_pause st Gate.unset planned h = absurd (cc)
gate-fits_pause st Gate.drain planned h = h
gate-fits_pause st Gate.uncordon planned h = h
gate-fits_pause st (Gate.other s) planned h = absurd (cc)

-- A request may be paused where the controller does so.
paused_lem :
    (p : Phase) (st : MaintenanceStatus)
    → is_consistent_in p (core st) ≡ true
    → can_pause p ≡ true
    → is_consistent (moved st Phase.paused) ≡ true
unfolding can_pause
paused_lem Phase.awaiting_approval st h pause =
    gate-fits_pause st st.approval_gate (has_plan st.plan) h
paused_lem Phase.planned st h pause =
    open-fits_pause st st.approval_gate (has_plan st.plan) (ground (arith, h))
paused_lem Phase.executing st h pause =
    open-fits_pause st st.approval_gate (has_plan st.plan) (ground (arith, h))
paused_lem Phase.blocked st h pause =
    open-fits_pause st st.approval_gate (has_plan st.plan) (ground (arith, h))
paused_lem Phase.unset st h pause = absurd (cc)
paused_lem Phase.pending st h pause = absurd (cc)
paused_lem Phase.validating st h pause = absurd (cc)
paused_lem Phase.paused st h pause = absurd (cc)
paused_lem Phase.completed st h pause = absurd (cc)
paused_lem Phase.failed st h pause = absurd (cc)
paused_lem Phase.cancelled st h pause = absurd (cc)
paused_lem (Phase.other s) st h pause = absurd (cc)

-- A reconcile keeps the request consistent: a request that waits for approval has a gate, together with
-- its plan, and no other has one that is not paused or over; a planned request has a plan, and an
-- executing one too; and before the execution no node has a status.
pub reconcile_consistent :
    (w : World) (mr : MaintenanceRequest) (t : Trace)
    → is_consistent (core mr.status) ≡ true
    → let u = (reconcile_request w mr t).1 in
      count_calls (violates consistent_rule) u ≡ count_calls (violates consistent_rule) t
reconcile_consistent w mr t h =
    (reconcile_request-Stores w consistent_rule mr t
      (λ unset ended. record {
        may = inl refl;
        failed = refl;
        cancelled = refl;
        paused = paused_lem mr.status.phase mr.status h;
      })
      (consistent-Handles mr mr.status.phase refl h)).fitting
