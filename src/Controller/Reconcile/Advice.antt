-- ===== src/Controller/Reconcile/Advice.antt =====
-- A request that is not to be executed changes nothing in the cluster.
use maintenance_orchestrator.Prelude.{
  ◌≡◌, refl, ap, inr, Bool, true, false, not, ◌&&◌, ◌||◌, [], Option, none, some, arith,
}
use maintenance_orchestrator.Api.Enums.{Phase, Gate, Mode}
use maintenance_orchestrator.Api.Request.{ExecutionPlan, MaintenanceStatus, MaintenanceRequest}
use maintenance_orchestrator.StateMachine.{is_terminal}
use maintenance_orchestrator.Kube.Cluster.{Trace}
use maintenance_orchestrator.Kube.Traces.{count_calls}
use maintenance_orchestrator.Controller.World.{World}
use maintenance_orchestrator.Controller.Finish.Updates.{Core, core, moved, Rule, violates}
use maintenance_orchestrator.Controller.Phases.{
  resume_with, resume_phase, next_phase_after_gate, can_pause, has_nodes,
}
use maintenance_orchestrator.Controller.Phases.Waiting.{waiting_for, has_plan}
use maintenance_orchestrator.Controller.Phases.Planning.{is_dry_run}
use maintenance_orchestrator.Controller.Stores.Planning.{Validates}
use maintenance_orchestrator.Controller.Reconcile.{reconcile_request}
use maintenance_orchestrator.Controller.Reconcile.Effects.{Handles, Ends, reconcile_request-Stores}

abbrev is_executing : Phase → Bool
is_executing Phase.executing = true
is_executing p = false

abbrev is_uncordon : Gate → Bool
is_uncordon Gate.uncordon = true
is_uncordon g = false

abbrev is_open : Gate → Bool
is_open Gate.unset = true
is_open g = false

-- A dry run is never held at a gate, nor planned.
abbrev is_dry_phase : Phase → Bool
is_dry_phase Phase.executing = false
is_dry_phase Phase.planned = false
is_dry_phase Phase.awaiting_approval = false
is_dry_phase p = true

abbrev is_over : Phase → Bool
is_over Phase.completed = true
is_over Phase.failed = true
is_over Phase.cancelled = true
is_over p = false

-- What holds of the status of a request that is not executed: no node has a status, the phase is not
-- Executing and no uncordon gate is waited for; a dry run has a plan only at its end.
abbrev pub is_harmless : Mode → Core → Bool
is_harmless Mode.execute c = false
is_harmless Mode.advisory c =
    not (has_nodes c.nodes) && (not (is_executing c.phase) && not (is_uncordon c.gate))
is_harmless Mode.dry_run c =
    not (has_nodes c.nodes)
    && (is_dry_phase c.phase && (is_open c.gate && (not (has_plan c.plan) || is_over c.phase)))

-- Only harmless statuses are stored, and no node, pod or Machine is changed.
abbrev pub harmless_rule : Mode → Rule
harmless_rule mode = record { stored = is_harmless mode; mutations = false }

harmless-nodes : (mode : Mode) (c : Core) → is_harmless mode c ≡ true → c.nodes ≡ []
harmless-nodes Mode.execute c h = absurd (cc)
harmless-nodes Mode.advisory c h = ground (arith, h)
harmless-nodes Mode.dry_run c h = ground (arith, h)

next_phase_lem :
    (g : Gate)
    → is_uncordon g ≡ false
    → is_executing (next_phase_after_gate (waiting_for g)) ≡ false
unfolding next_phase_after_gate
next_phase_lem Gate.unset h = refl
next_phase_lem Gate.drain h = refl
next_phase_lem Gate.uncordon h = absurd (cc)
next_phase_lem (Gate.other s) h = refl

resume_with_lem :
    (g : Gate) (plan : Option ExecutionPlan) → is_executing (resume_with g plan false) ≡ false
unfolding resume_with
resume_with_lem Gate.unset none = refl
resume_with_lem Gate.unset (some plan) = refl
resume_with_lem Gate.drain plan = refl
resume_with_lem Gate.uncordon plan = refl
resume_with_lem (Gate.other s) plan = refl

resume_dry_lem :
    (g : Gate) (plan : Option ExecutionPlan)
    → is_open g ≡ true
    → has_plan plan ≡ false
    → resume_with g plan false ≡ Phase.validating
unfolding resume_with
resume_dry_lem Gate.unset none unset no_plan = refl
resume_dry_lem Gate.unset (some plan) unset no_plan = absurd (cc)
resume_dry_lem Gate.drain plan unset no_plan = absurd (cc)
resume_dry_lem Gate.uncordon plan unset no_plan = absurd (cc)
resume_dry_lem (Gate.other s) plan unset no_plan = absurd (cc)

resume_phase_lem :
    (st : MaintenanceStatus)
    → has_nodes st.nodes ≡ false
    → resume_phase st ≡ resume_with st.approval_gate st.plan false
unfolding resume_phase
resume_phase_lem st h = ap (resume_with st.approval_gate st.plan) h

-- The requests of an advisory.
module _ (mr : MaintenanceRequest) (m : mr.spec.mode ≡ Mode.advisory) where
  advisory-Validates :
      is_harmless Mode.advisory (core mr.status) ≡ true
      → Validates
          (harmless_rule Mode.advisory)
          (moved mr.status Phase.validating)
          (is_dry_run Mode.advisory)
  advisory-Validates h = record {
    may = inr (harmless-nodes Mode.advisory (core mr.status) h);
    failed = ground (arith, h);
    completed = ground (arith, h);
    blocked = ground (arith, h);
    finished = λ plan. ground (arith, h);
    planned = λ dry plan. (ground (arith, h), ground (arith, h), ground (arith, h));
  }

  advisory-Handles :
      (p : Phase)
      → mr.status.phase ≡ p
      → is_harmless Mode.advisory (core mr.status) ≡ true
      → Handles (harmless_rule Mode.advisory) mr p
  advisory-Handles Phase.unset e h = ground (arith, h)
  advisory-Handles Phase.pending e h = rw m (advisory-Validates h)
  advisory-Handles Phase.validating e h = rw m (advisory-Validates h)
  advisory-Handles Phase.awaiting_approval e h =
      ground (arith, h, next_phase_lem mr.status.approval_gate (ground (arith, h)))
  advisory-Handles Phase.planned e h = record {
    may = inr (harmless-nodes Mode.advisory (core mr.status) h);
    failed = ground (arith, h);
    kept = λ plan. (ground (arith, h), ground (arith, h), ground (arith, h));
    executing = λ advisory plan nodes. ground (arith, m, advisory);
  }
  advisory-Handles Phase.executing e h = absurd (ground (arith, e, h))
  advisory-Handles Phase.paused e h =
      let no_nodes : has_nodes mr.status.nodes ≡ false = ground (arith, h) in
      ground (
        arith,
        h,
        resume_phase_lem mr.status no_nodes,
        resume_with_lem mr.status.approval_gate mr.status.plan,
      )
  advisory-Handles Phase.blocked e h =
      (λ some_node now. ground (arith, h, some_node), λ _. ground (arith, h))
  advisory-Handles Phase.completed e h = tt
  advisory-Handles Phase.failed e h = tt
  advisory-Handles Phase.cancelled e h = tt
  advisory-Handles (Phase.other s) e h = tt

-- The requests of a dry run.
module _ (mr : MaintenanceRequest) (m : mr.spec.mode ≡ Mode.dry_run) where
  dry_run-Validates :
      is_over mr.status.phase ≡ false
      → is_harmless Mode.dry_run (core mr.status) ≡ true
      → Validates
          (harmless_rule Mode.dry_run)
          (moved mr.status Phase.validating)
          (is_dry_run Mode.dry_run)
  dry_run-Validates running h = record {
    may = inr (harmless-nodes Mode.dry_run (core mr.status) h);
    failed = ground (arith, running, h);
    completed = ground (arith, running, h);
    blocked = ground (arith, running, h);
    finished = λ plan. ground (arith, running, h);
    planned = λ dry plan. absurd (cc);
  }

  dry_run-Handles :
      (p : Phase)
      → mr.status.phase ≡ p
      → is_harmless Mode.dry_run (core mr.status) ≡ true
      → Handles (harmless_rule Mode.dry_run) mr p
  dry_run-Handles Phase.unset e h = ground (arith, h)
  dry_run-Handles Phase.pending e h = rw m (dry_run-Validates (ground (arith, e)) h)
  dry_run-Handles Phase.validating e h = rw m (dry_run-Validates (ground (arith, e)) h)
  dry_run-Handles Phase.awaiting_approval e h = absurd (ground (arith, e, h))
  dry_run-Handles Phase.planned e h = absurd (ground (arith, e, h))
  dry_run-Handles Phase.executing e h = absurd (ground (arith, e, h))
  dry_run-Handles Phase.paused e h =
      let no_nodes : has_nodes mr.status.nodes ≡ false = ground (arith, h) in
      ground (
        arith,
        h,
        resume_phase_lem mr.status no_nodes,
        resume_dry_lem mr.status.approval_gate mr.status.plan (ground (arith, h))
            (ground (arith, e, h)),
      )
  dry_run-Handles Phase.blocked e h =
      (λ some_node now. ground (arith, h, some_node), λ _. ground (arith, e, h))
  dry_run-Handles Phase.completed e h = tt
  dry_run-Handles Phase.failed e h = tt
  dry_run-Handles Phase.cancelled e h = tt
  dry_run-Handles (Phase.other s) e h = tt

harmless-Handles :
    (mode : Mode) (mr : MaintenanceRequest)
    → mr.spec.mode ≡ mode
    → is_harmless mode (core mr.status) ≡ true
    → Handles (harmless_rule mode) mr mr.status.phase
harmless-Handles Mode.execute mr m h = absurd (cc)
harmless-Handles Mode.advisory mr m h = advisory-Handles mr m mr.status.phase refl h
harmless-Handles Mode.dry_run mr m h = dry_run-Handles mr m mr.status.phase refl h

-- A request that runs may end, and be paused where the controller does so.
harmless-Ends :
    (mode : Mode) (mr : MaintenanceRequest)
    → is_terminal mr.status.phase ≡ false
    → is_harmless mode (core mr.status) ≡ true
    → Ends (harmless_rule mode) mr
unfolding is_terminal can_pause
harmless-Ends Mode.execute mr running h = absurd (cc)
harmless-Ends Mode.advisory mr running h = record {
  may = inr (harmless-nodes Mode.advisory (core mr.status) h);
  failed = ground (arith, h);
  cancelled = ground (arith, h);
  paused = λ e. ground (arith, h);
}
harmless-Ends Mode.dry_run mr running h = record {
  may = inr (harmless-nodes Mode.dry_run (core mr.status) h);
  failed = ground (arith, h);
  cancelled = ground (arith, h);
  paused = λ e. ground (arith, h, e);
}

-- A reconcile of an advisory or a dry run whose status is harmless asks for no change of a node, a pod
-- or a Machine, and every status that it stores is harmless again.
pub reconcile_harmless :
    (w : World) (mr : MaintenanceRequest) (t : Trace)
    → is_harmless mr.spec.mode (core mr.status) ≡ true
    → let u = (reconcile_request w mr t).1 in
      let forbidden = violates (harmless_rule mr.spec.mode) in
      count_calls forbidden u ≡ count_calls forbidden t
reconcile_harmless w mr t h =
    (reconcile_request-Stores w (harmless_rule mr.spec.mode) mr t
      (λ unset ended. harmless-Ends mr.spec.mode mr ended h)
      (harmless-Handles mr.spec.mode mr refl h)).fitting
