-- ===== src/Controller/Replace.antt =====
-- The cases of `stepNode` (internal/controller/execute.go) that replace a node.
use Prim.Native.String.{◌++◌}
use maintenance_orchestrator.Prelude.{
  ℤ, pos, ◌-ℤ◌, leb, none, some, String, if◌then◌else◌, is_empty,
}
use maintenance_orchestrator.Api.Enums.{NodePhase, BlockReason}
use maintenance_orchestrator.Api.Spec.{MaintenanceSpec, effective_machine_api}
use maintenance_orchestrator.Api.Status.{NodeExecutionStatus}
use maintenance_orchestrator.Kube.Text.{machine_ref_string}
use maintenance_orchestrator.Kube.Cluster
use maintenance_orchestrator.Kube.Cluster.{
  Env, M, ◌>>=◌, ◌>>◌, pure, tell, Result, ok, err, Action, Metric,
}
use maintenance_orchestrator.Kube.Calls.{count_ready_nodes_at_version}
use maintenance_orchestrator.Executor.{replace, node_gone}
use maintenance_orchestrator.Controller.Config.{Config, replacement_timed_out}
use maintenance_orchestrator.Controller.NodeState.{
  Step, done, failed, set_node_terminal, block_replacement, observe_drain_duration,
}
use maintenance_orchestrator.Controller.Nodes.{target_version}

module _ (env : Env) where
  -- No Machine backs the node.
  fail_replacement : NodeExecutionStatus → ℤ → M Step
  unfolding set_node_terminal
  fail_replacement ns in_flight = do
    ns' ←
        set_node_terminal env ns NodePhase.failed BlockReason.machine_not_found
          "no Machine backs this node; cannot replace"
    tell (Cluster.Call.metric (Metric.node_replacements "no_machine"))
    tell (Cluster.Call.audit Action.node_blocked ns.node)
    pure (done ns' (in_flight -ℤ pos 1))

  -- The deletion of the Machine, for the node with its baseline stored.
  replace_machine : MaintenanceSpec → NodeExecutionStatus → ℤ → M Step
  unfolding fail_replacement
  replace_machine spec ns in_flight = do
    r ← replace env ns.node (effective_machine_api spec)
    elim r [
      | err e ↦ pure (failed ns in_flight e)
      | ok found ↦ elim found [
        | none ↦ fail_replacement ns in_flight
        | some ref ↦ do
          tell (Cluster.Call.audit Action.node_replacing ns.node)
          pure (
              done
                (record ns {
                  message = "deleted " ++ (machine_ref_string ref ++ "; awaiting replacement");
                  phase = NodePhase.awaiting_replacement;
                })
                in_flight)
      ]
    ]

  unfoldable pub step_replacing : MaintenanceSpec → NodeExecutionStatus → ℤ → M Step
  unfolding replace_machine
  step_replacing spec ns in_flight =
      if is_empty (target_version spec) then replace_machine spec ns in_flight else (do
        counted ← count_ready_nodes_at_version env (target_version spec)
        elim counted [
          | err e ↦ pure (failed ns in_flight e)
          | ok baseline ↦
              replace_machine spec (record ns { replacement_baseline = baseline }) in_flight
        ])

  -- The node was replaced.
  finish_replacement : NodeExecutionStatus → ℤ → M Step
  unfolding set_node_terminal observe_drain_duration
  finish_replacement ns in_flight = do
    observe_drain_duration env ns "replaced"
    tell (Cluster.Call.metric (Metric.node_replacements "success"))
    ns' ← set_node_terminal env ns NodePhase.completed BlockReason.no_reason "node replaced"
    tell (Cluster.Call.audit Action.node_replaced ns.node)
    pure (done ns' (in_flight -ℤ pos 1))

  -- Nothing to do yet: the node is blocked once its time is over.
  await : Config → MaintenanceSpec → NodeExecutionStatus → ℤ → String → M Step
  unfolding replacement_timed_out block_replacement
  await cfg spec ns in_flight msg = do
    late ← replacement_timed_out env cfg spec ns
    if late then block_replacement env ns msg in_flight else pure (done ns in_flight)

  -- The old node is gone.
  verify_replacement : Config → MaintenanceSpec → NodeExecutionStatus → ℤ → M Step
  unfolding await finish_replacement
  verify_replacement cfg spec ns in_flight =
      if is_empty (target_version spec) then finish_replacement ns in_flight else (do
        counted ← count_ready_nodes_at_version env (target_version spec)
        elim counted [
          | err e ↦ pure (failed ns in_flight e)
          | ok ready ↦
              if leb ready ns.replacement_baseline
              then await cfg spec ns in_flight
                  ("replacement timed out: no new Ready node at " ++ target_version spec)
              else finish_replacement ns in_flight
        ])

  unfoldable pub step_awaiting_replacement :
      Config → MaintenanceSpec → NodeExecutionStatus → ℤ → M Step
  unfolding verify_replacement
  step_awaiting_replacement cfg spec ns in_flight = do
    r ← node_gone env ns.node
    elim r [
      | err e ↦ pure (failed ns in_flight e)
      | ok gone ↦
          if gone
          then verify_replacement cfg spec ns in_flight
          else await cfg spec ns in_flight "replacement timed out: old node still present"
    ]
