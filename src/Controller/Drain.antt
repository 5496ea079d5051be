-- ===== src/Controller/Drain.antt =====
-- The cases of `stepNode` (internal/controller/execute.go) that start, drain and release a node.
use Prim.Native.String.{◌++◌}
use maintenance_orchestrator.Prelude.{
  ℤ, pos, ◌+ℤ◌, ◌-ℤ◌, leb_ℤ, ltb, int32, Bool, not, ◌&&◌, ◌||◌, none, some, String, if◌then◌else◌,
  ◌==◌, is_empty,
}
use maintenance_orchestrator.Api.Enums.{NodePhase, BlockReason}
use maintenance_orchestrator.Api.Spec.{MaintenanceSpec, replace_nodes}
use maintenance_orchestrator.Api.Status.{NodeExecutionStatus}
use maintenance_orchestrator.Kube.Objects.{Node}
use maintenance_orchestrator.Kube.Nodes.{is_mco_managed}
use maintenance_orchestrator.Kube.Cluster
use maintenance_orchestrator.Kube.Cluster.{
  Env, M, ◌>>=◌, ◌>>◌, pure, tell, Error, ok, err, Action, Metric,
}
use maintenance_orchestrator.Kube.Calls
use maintenance_orchestrator.Kube.Calls.{get_node, clock}
use maintenance_orchestrator.Executor
use maintenance_orchestrator.Executor.{EvictResult, evict_once}
use maintenance_orchestrator.Policy.{Effective, force_allowed}
use maintenance_orchestrator.Controller.Config.{Config, drain_timed_out}
use maintenance_orchestrator.Controller.NodeState.{
  Step, done, failed, at_version, set_node_terminal, complete_node,
}
use maintenance_orchestrator.Controller.Nodes.{target_version, uncordon_approved}

abbrev reason_or_timeout : BlockReason → BlockReason
reason_or_timeout BlockReason.no_reason = BlockReason.timeout
reason_or_timeout reason = reason

-- The counters and the message of the node after a round.
unfoldable pub record_round : NodeExecutionStatus → EvictResult → NodeExecutionStatus
record_round ns res = record ns {
  total_pods = if ns.total_pods == 0 && ltb 0 res.blocking then res.blocking else ns.total_pods;
  evicted_pods = int32 (ns.evicted_pods +ℤ pos res.evicted);
  remaining_pods = res.blocking;
  message = if is_empty res.message then ns.message else res.message;
}

module _ (env : Env) where
  -- `setNodeTerminal(ns, NodeSkipped, "", msg); return nil`
  skip : NodeExecutionStatus → ℤ → String → M Step
  unfolding set_node_terminal
  skip ns in_flight msg = do
    ns' ← set_node_terminal env ns NodePhase.skipped BlockReason.no_reason msg
    pure (done ns' in_flight)

  -- The start of a node that was found.
  start_node : NodeExecutionStatus → ℤ → String → Node → M Step
  unfolding skip Calls.clock
  start_node ns in_flight version node =
      if is_mco_managed node
      then skip ns in_flight "skipped: node managed by the Machine Config Operator"
      else if at_version version node
      then skip ns in_flight ("skipped: node already at target version " ++ version)
      else (do
        now ← clock env
        pure (
            done (record ns { start_time = some now; end_time = none; phase = NodePhase.cordoning })
              (in_flight +ℤ pos 1)))

module _ (env : Env) (cfg : Config) (spec : MaintenanceSpec) (pol : Effective) where
  unfoldable pub step_pending :
      NodeExecutionStatus → ℤ → (concurrency : ℤ) → (window_open : Bool) → M Step
  unfolding start_node Calls.get_node
  step_pending ns in_flight concurrency window_open =
      if leb_ℤ concurrency in_flight || not window_open then pure (done ns in_flight) else (do
        r ← get_node env ns.node
        elim r [
          | ok node ↦ start_node env ns in_flight (target_version spec) node
          | err e ↦ elim e [
            | Error.not_found ↦ skip env ns in_flight "node not found; skipped"
            | failure ↦ pure (failed ns in_flight failure)
          ]
        ])

  unfoldable pub step_cordoning : NodeExecutionStatus → ℤ → M Step
  step_cordoning ns in_flight = do
    r ← Executor.cordon env ns.node
    elim r [
      | err e ↦ pure (failed ns in_flight e)
      | ok _ ↦ do
        tell (Cluster.Call.audit Action.node_cordoned ns.node)
        pure (done (record ns { phase = NodePhase.draining }) in_flight)
    ]

  -- The drain timed out.
  block_drain : NodeExecutionStatus → ℤ → EvictResult → M Step
  unfolding set_node_terminal
  block_drain ns in_flight res = do
    let reason = reason_or_timeout res.block_reason
    ns' ← set_node_terminal env ns NodePhase.blocked reason ("drain timed out: " ++ res.message)
    tell (Cluster.Call.metric (Metric.blocked_drains reason))
    tell (Cluster.Call.audit Action.node_blocked ns.node)
    pure (done ns' (in_flight -ℤ pos 1))

  -- What follows a round of evictions.
  after_round : NodeExecutionStatus → ℤ → EvictResult → M Step
  unfolding record_round block_drain
  after_round ns in_flight res =
      let ns' = record_round ns res in
      if res.blocking == 0
      then (do
        tell (Cluster.Call.audit Action.node_drained ns.node)
        pure (done (record ns' { phase = NodePhase.post_check }) in_flight))
      else (do
        late ← drain_timed_out env cfg spec ns'
        if late then block_drain ns' in_flight res else pure (done ns' in_flight))

  unfoldable pub step_draining : NodeExecutionStatus → ℤ → M Step
  unfolding after_round Calls.clock force_allowed
  step_draining ns in_flight = do
    now ← clock env
    r ←
        evict_once env ns.node
          (record { force = force_allowed pol spec.force; grace_period_seconds = none; now = now })
    elim r [ err e ↦ pure (failed ns in_flight e) | ok res ↦ after_round ns in_flight res ]

  unfoldable pub step_post_check : NodeExecutionStatus → ℤ → (uncordon_gated : Bool) → M Step
  unfolding complete_node
  step_post_check ns in_flight uncordon_gated =
      if replace_nodes spec
      then pure (done (record ns { phase = NodePhase.replacing }) in_flight)
      else if not spec.uncordon_after
      then complete_node env ns in_flight "success" "drained; left cordoned per spec"
      else if uncordon_gated && not (uncordon_approved spec pol)
      then pure (done ns in_flight)
      else pure (done (record ns { phase = NodePhase.uncordoning }) in_flight)

  unfoldable pub step_uncordoning : NodeExecutionStatus → ℤ → M Step
  unfolding complete_node
  step_uncordoning ns in_flight = do
    r ← Executor.uncordon env ns.node
    elim r [
      | err e ↦ pure (failed ns in_flight e)
      | ok _ ↦ do
        s ← complete_node env ns in_flight "success" "drained and uncordoned"
        tell (Cluster.Call.audit Action.node_uncordoned ns.node)
        pure s
    ]
