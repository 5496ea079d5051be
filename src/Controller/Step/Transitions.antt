-- ===== src/Controller/Step/Transitions.antt =====
-- Where one step takes a node, and how it keeps the shared counter.
use maintenance_orchestrator.Prelude.{
  ℕ, ◌≡◌, refl, sym, ap, ◌⊎◌, inl, ℤ, pos, ◌+ℤ◌, ◌-ℤ◌, Bool, none, arith, if◌then◌else◌,
}
use maintenance_orchestrator.Api.Enums.{NodePhase}
use maintenance_orchestrator.Api.Spec.{MaintenanceSpec}
use maintenance_orchestrator.Api.Status.{NodeExecutionStatus}
use maintenance_orchestrator.Kube.Cluster.{Env, Trace}
use maintenance_orchestrator.Policy.{Effective}
use maintenance_orchestrator.Controller.Config.{Config}
use maintenance_orchestrator.Controller.Nodes.{is_in_progress}
use maintenance_orchestrator.Controller.NodeState.{Step}
use maintenance_orchestrator.Controller.Drain.{
  step_pending, step_cordoning, step_draining, step_post_check, step_uncordoning,
}
use maintenance_orchestrator.Controller.Replace.{step_replacing, step_awaiting_replacement}
use maintenance_orchestrator.Controller.Step.{Setting, dispatch, step_node}

-- The phase machine of a node: the phases that one step may lead to.
abbrev pub Successor : NodePhase → NodePhase → Type 0
Successor NodePhase.pending q =
    (q ≡ NodePhase.pending) ⊎ (q ≡ NodePhase.cordoning) ⊎ (q ≡ NodePhase.skipped)
Successor NodePhase.cordoning q = (q ≡ NodePhase.cordoning) ⊎ (q ≡ NodePhase.draining)
Successor NodePhase.draining q =
    (q ≡ NodePhase.draining) ⊎ (q ≡ NodePhase.post_check) ⊎ (q ≡ NodePhase.blocked)
Successor NodePhase.post_check q =
    (q ≡ NodePhase.post_check)
    ⊎ (q ≡ NodePhase.uncordoning)
    ⊎ (q ≡ NodePhase.replacing)
    ⊎ (q ≡ NodePhase.completed)
Successor NodePhase.uncordoning q = (q ≡ NodePhase.uncordoning) ⊎ (q ≡ NodePhase.completed)
Successor NodePhase.replacing q =
    (q ≡ NodePhase.replacing) ⊎ (q ≡ NodePhase.awaiting_replacement) ⊎ (q ≡ NodePhase.failed)
Successor NodePhase.awaiting_replacement q =
    (q ≡ NodePhase.awaiting_replacement) ⊎ (q ≡ NodePhase.completed) ⊎ (q ≡ NodePhase.blocked)
Successor p q = q ≡ p

-- Whether a node in this phase counts as in flight.
abbrev pub busy : NodePhase → ℕ
busy p = if is_in_progress p then 1 else 0

-- What one step promises of the node and of the in-flight counter.
pub record IsStep (ns : NodeExecutionStatus) (in_flight : ℤ) (s : Step) : Type 0 where
  pub successor : Successor ns.phase s.node.phase
  pub tracked : s.in_flight +ℤ pos (busy ns.phase) ≡ in_flight +ℤ pos (busy s.node.phase)
  pub same_name : s.node.node ≡ ns.node
  pub same_batch : s.node.batch ≡ ns.batch
  pub stays : (s.error ≡ none) ⊎ (s.node.phase ≡ ns.phase)

module _ (env : Env) (cfg : Config) (spec : MaintenanceSpec) (pol : Effective) where
  -- The fields of `IsStep` for a step from the phase `p`.
  abbrev pub IsStepFrom : NodePhase → NodeExecutionStatus → ℤ → Step → Type 0
  IsStepFrom p ns in_flight s =
      Successor p s.node.phase
      × (s.in_flight +ℤ pos (busy p) ≡ in_flight +ℤ pos (busy s.node.phase))
      × (s.node.node ≡ ns.node)
      × (s.node.batch ≡ ns.batch)
      × ((s.error ≡ none) ⊎ (s.node.phase ≡ p))

  pending-IsStep :
      (ns : NodeExecutionStatus) (f : ℤ) (concurrency : ℤ) (window_open : Bool) (t : Trace)
      → ns.phase ≡ NodePhase.pending
      → IsStepFrom NodePhase.pending ns f
          (step_pending env cfg spec pol ns f concurrency window_open t).0
  unfolding step_pending is_in_progress ◌+ℤ◌ ◌-ℤ◌
  pending-IsStep ns f concurrency window_open t h =
      (ground arith, ground arith, ground arith, ground arith, ground arith)

  cordoning-IsStep :
      (ns : NodeExecutionStatus) (f : ℤ) (t : Trace)
      → ns.phase ≡ NodePhase.cordoning
      → IsStepFrom NodePhase.cordoning ns f (step_cordoning env cfg spec pol ns f t).0
  unfolding step_cordoning is_in_progress ◌+ℤ◌ ◌-ℤ◌
  cordoning-IsStep ns f t h = (ground arith, ground arith, ground arith, ground arith, ground arith)

  draining-IsStep :
      (ns : NodeExecutionStatus) (f : ℤ) (t : Trace)
      → ns.phase ≡ NodePhase.draining
      → IsStepFrom NodePhase.draining ns f (step_draining env cfg spec pol ns f t).0
  unfolding step_draining is_in_progress ◌+ℤ◌ ◌-ℤ◌
  draining-IsStep ns f t h = (ground arith, ground arith, ground arith, ground arith, ground arith)

  post_check-IsStep :
      (ns : NodeExecutionStatus) (f : ℤ) (gated : Bool) (t : Trace)
      → ns.phase ≡ NodePhase.post_check
      → IsStepFrom NodePhase.post_check ns f (step_post_check env cfg spec pol ns f gated t).0
  unfolding step_post_check is_in_progress ◌+ℤ◌ ◌-ℤ◌
  post_check-IsStep ns f gated t h =
      (ground arith, ground arith, ground arith, ground arith, ground arith)

  uncordoning-IsStep :
      (ns : NodeExecutionStatus) (f : ℤ) (t : Trace)
      → ns.phase ≡ NodePhase.uncordoning
      → IsStepFrom NodePhase.uncordoning ns f (step_uncordoning env cfg spec pol ns f t).0
  unfolding step_uncordoning is_in_progress ◌+ℤ◌ ◌-ℤ◌
  uncordoning-IsStep ns f t h =
      (ground arith, ground arith, ground arith, ground arith, ground arith)

  replacing-IsStep :
      (ns : NodeExecutionStatus) (f : ℤ) (t : Trace)
      → ns.phase ≡ NodePhase.replacing
      → IsStepFrom NodePhase.replacing ns f (step_replacing env spec ns f t).0
  unfolding step_replacing is_in_progress ◌+ℤ◌ ◌-ℤ◌
  replacing-IsStep ns f t h = (ground arith, ground arith, ground arith, ground arith, ground arith)

  awaiting_replacement-IsStep :
      (ns : NodeExecutionStatus) (f : ℤ) (t : Trace)
      → ns.phase ≡ NodePhase.awaiting_replacement
      → IsStepFrom NodePhase.awaiting_replacement ns f
          (step_awaiting_replacement env cfg spec ns f t).0
  unfolding step_awaiting_replacement is_in_progress ◌+ℤ◌ ◌-ℤ◌
  awaiting_replacement-IsStep ns f t h =
      (ground arith, ground arith, ground arith, ground arith, ground arith)

pub dispatch-IsStep :
    (env : Env) (s : Setting) (p : NodePhase) (ns : NodeExecutionStatus) (f : ℤ) (t : Trace)
    → ns.phase ≡ p
    → IsStepFrom env s.config s.spec s.policy p ns f (dispatch env s p ns f t).0
unfolding dispatch
dispatch-IsStep env s NodePhase.pending ns f t h =
    pending-IsStep env s.config s.spec s.policy ns f s.concurrency s.window_open t h
dispatch-IsStep env s NodePhase.cordoning ns f t h =
    cordoning-IsStep env s.config s.spec s.policy ns f t h
dispatch-IsStep env s NodePhase.draining ns f t h =
    draining-IsStep env s.config s.spec s.policy ns f t h
dispatch-IsStep env s NodePhase.post_check ns f t h =
    post_check-IsStep env s.config s.spec s.policy ns f s.uncordon_gated t h
dispatch-IsStep env s NodePhase.uncordoning ns f t h =
    uncordoning-IsStep env s.config s.spec s.policy ns f t h
dispatch-IsStep env s NodePhase.replacing ns f t h =
    replacing-IsStep env s.config s.spec s.policy ns f t h
dispatch-IsStep env s NodePhase.awaiting_replacement ns f t h =
    awaiting_replacement-IsStep env s.config s.spec s.policy ns f t h
dispatch-IsStep env s _ ns f t h = (h, ap (λ p. f +ℤ pos (busy p)) (sym h), refl, refl, inl refl)

-- Whatever the cluster answers, one step takes a node along an edge of its phase machine, keeps its
-- name and batch, changes the in-flight counter by exactly what the node's own phase contributes to
-- it, and leaves the phase as it is if it returns an error.
pub step_node-IsStep :
    (env : Env) (s : Setting) (ns : NodeExecutionStatus) (in_flight : ℤ) (t : Trace)
    → IsStep ns in_flight (step_node env s ns in_flight t).0
unfolding step_node
step_node-IsStep env s ns in_flight t =
    let (successor, tracked, same_name, same_batch, stays) =
      dispatch-IsStep env s ns.phase ns in_flight t refl in
    record {
      successor = successor;
      tracked = tracked;
      same_name = same_name;
      same_batch = same_batch;
      stays = stays;
    }
