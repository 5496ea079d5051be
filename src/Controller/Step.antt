-- ===== src/Controller/Step.antt =====
-- `stepNode` of internal/controller/execute.go: one step of the phase machine of a node.
pub mod Transitions
pub mod Mutations
pub mod Guards
use maintenance_orchestrator.Prelude.{ℤ, Bool}
use maintenance_orchestrator.Api.Enums.{NodePhase}
use maintenance_orchestrator.Api.Spec.{MaintenanceSpec}
use maintenance_orchestrator.Api.Status.{NodeExecutionStatus}
use maintenance_orchestrator.Kube.Cluster.{Env, M, pure}
use maintenance_orchestrator.Policy.{Effective}
use maintenance_orchestrator.Controller.Config.{Config}
use maintenance_orchestrator.Controller.NodeState.{Step, done}
use maintenance_orchestrator.Controller.Drain.{
  step_pending, step_cordoning, step_draining, step_post_check, step_uncordoning,
}
use maintenance_orchestrator.Controller.Replace.{step_replacing, step_awaiting_replacement}

-- What the loop over the nodes passes to each step.
pub record Setting : Type 0 where
  pub config : Config
  pub spec : MaintenanceSpec
  pub policy : Effective
  pub concurrency : ℤ
  pub window_open : Bool
  pub uncordon_gated : Bool

module _ (env : Env) (s : Setting) where
  -- The switch on the node's phase.
  unfoldable pub dispatch : NodePhase → NodeExecutionStatus → ℤ → M Step
  dispatch NodePhase.pending ns in_flight =
      step_pending env s.config s.spec s.policy ns in_flight s.concurrency s.window_open
  dispatch NodePhase.cordoning ns in_flight =
      step_cordoning env s.config s.spec s.policy ns in_flight
  dispatch NodePhase.draining ns in_flight = step_draining env s.config s.spec s.policy ns in_flight
  dispatch NodePhase.post_check ns in_flight =
      step_post_check env s.config s.spec s.policy ns in_flight s.uncordon_gated
  dispatch NodePhase.uncordoning ns in_flight =
      step_uncordoning env s.config s.spec s.policy ns in_flight
  dispatch NodePhase.replacing ns in_flight = step_replacing env s.spec ns in_flight
  dispatch NodePhase.awaiting_replacement ns in_flight =
      step_awaiting_replacement env s.config s.spec ns in_flight
  dispatch _ ns in_flight = pure (done ns in_flight)

  unfoldable pub step_node : NodeExecutionStatus → ℤ → M Step
  unfolding dispatch
  step_node ns in_flight = dispatch ns.phase ns in_flight
