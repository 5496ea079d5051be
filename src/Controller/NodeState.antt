-- ===== src/Controller/NodeState.antt =====
-- What a step of a node returns, and the status helpers of internal/controller/execute.go. The in-flight
-- counter is an int32 that the nodes of the loop share; a step returns its new value, and the error
-- beside the changed node, since the controller persists the node on an error too.
use maintenance_orchestrator.Prelude.{
  ℕ, ℤ, pos, ◌-ℤ◌, Bool, not, ◌&&◌, Option, none, some, String, is_empty, str_eq,
}
use maintenance_orchestrator.Api.Enums.{NodePhase, BlockReason}
use maintenance_orchestrator.Api.Status.{NodeExecutionStatus}
use maintenance_orchestrator.Kube.Objects.{Node}
use maintenance_orchestrator.Kube.Nodes.{kubelet_version}
use maintenance_orchestrator.Kube.Cluster
use maintenance_orchestrator.Kube.Cluster.{Env, M, ◌>>=◌, ◌>>◌, pure, tell, Error, Action, Metric}
use maintenance_orchestrator.Kube.Calls
use maintenance_orchestrator.Kube.Calls.{clock}

pub record Step : Type 0 where
  pub node : NodeExecutionStatus
  pub in_flight : ℤ
  pub error : Option Error

abbrev pub done : NodeExecutionStatus → ℤ → Step
done ns in_flight = record { node = ns; in_flight = in_flight; error = none }

abbrev pub failed : NodeExecutionStatus → ℤ → Error → Step
failed ns in_flight e = record { node = ns; in_flight = in_flight; error = some e }

abbrev pub now_or : Option ℕ → ℕ → Option ℕ
now_or none now = some now
now_or (some at) now = some at

-- `v != "" && kube.KubeletVersion(node) == v`
abbrev pub at_version : String → Node → Bool
at_version v node = not (is_empty v) && str_eq (kubelet_version node) v

module _ (env : Env) where
  unfoldable pub set_node_terminal :
      NodeExecutionStatus → NodePhase → BlockReason → String → M NodeExecutionStatus
  unfolding Calls.clock
  set_node_terminal ns phase reason msg = do
    now ← clock env
    pure (record ns {
      phase = phase;
      block_reason = reason;
      message = msg;
      end_time = now_or ns.end_time now;
    })

  -- The histogram reads the clock for the time since the start.
  unfoldable pub observe_drain_duration : NodeExecutionStatus → String → M (Unit {0})
  unfolding Calls.clock
  observe_drain_duration ns result = elim ns.start_time [
    | none ↦ pure tt
    | some _ ↦ do now ← clock env; tell (Cluster.Call.metric (Metric.drain_duration result))
  ]

  unfoldable pub block_replacement : NodeExecutionStatus → String → ℤ → M Step
  unfolding set_node_terminal
  block_replacement ns msg in_flight = do
    ns' ← set_node_terminal ns NodePhase.blocked BlockReason.replacement_timeout msg
    tell (Cluster.Call.metric (Metric.blocked_drains BlockReason.replacement_timeout))
    tell (Cluster.Call.metric (Metric.node_replacements "timeout"))
    tell (Cluster.Call.audit Action.node_blocked ns.node)
    pure (done ns' (in_flight -ℤ pos 1))

  -- `observeDrainDuration`, `setNodeTerminal(ns, NodeCompleted, "", msg)` and `*inFlight--`.
  unfoldable pub complete_node : NodeExecutionStatus → ℤ → (result msg : String) → M Step
  unfolding observe_drain_duration set_node_terminal
  complete_node ns in_flight result msg = do
    observe_drain_duration ns result
    ns' ← set_node_terminal ns NodePhase.completed BlockReason.no_reason msg
    pure (done ns' (in_flight -ℤ pos 1))
