-- ===== src/Samples/Runs.antt =====
-- Runs against the sample cluster.
use maintenance_orchestrator.Prelude.{
  length, ◌+◌, ◌≤◌, ◌≡◌, refl, inl, inr, any, pos, ltb_ℤ, true, false, none, [], ◌∷◌, arith,
}
use maintenance_orchestrator.Api.Enums.{NodePhase, Gate, Decision, ApprovalPolicy}
use maintenance_orchestrator.Api.Spec.{replace_nodes}
use maintenance_orchestrator.Api.Status.{NodeExecutionStatus}
use maintenance_orchestrator.Approval.{requires_gate, decision_for}
use maintenance_orchestrator.Kube.Objects.{Node}
use maintenance_orchestrator.Kube.Nodes.{is_mco_managed}
use maintenance_orchestrator.Kube.Cluster.{Env, ok}
use maintenance_orchestrator.Kube.Traces.{count_calls, is_uncordon}
use maintenance_orchestrator.Executor.{Options, EvictResult, evict_once, uncordon}
use maintenance_orchestrator.Executor.Rounds.{IsRound, evict_once_lem}
use maintenance_orchestrator.Policy.{force_allowed, approval_policy, default_spec}
use maintenance_orchestrator.Controller.Nodes.{
  nodes_to_release, new_status, target_version, uncordon_approved, count_in_flight, is_in_progress,
  node_phase_eq,
}
use maintenance_orchestrator.Controller.NodeState.{at_version}
use maintenance_orchestrator.Controller.Step.{Setting, step_node, dispatch}
use maintenance_orchestrator.Controller.Step.Transitions.{IsStep, step_node-IsStep}
use maintenance_orchestrator.Controller.Step.Mutations.{MayMutate, step_node-MayMutate}
use maintenance_orchestrator.Controller.Step.Guards.{start_lem, IsReleased, uncordon_gate}
use maintenance_orchestrator.Controller.Drain.{step_pending, step_post_check}
use maintenance_orchestrator.Controller.Loop.{step_batch, drain_budget}
use maintenance_orchestrator.Controller.Loop.Rounds
use maintenance_orchestrator.Controller.Loop.Rounds.{step_batch-IsRound}
use maintenance_orchestrator.Controller.Loop.Cap.{step_batch-within_cap}
use maintenance_orchestrator.Controller.Loop.Gate.{is_uncordoning, step_batch-uncordons}
use maintenance_orchestrator.Executor.Effects.{Mutates}
use maintenance_orchestrator.Controller.Release.{release_cordoned_nodes}
use maintenance_orchestrator.Controller.Release.Effects.{
  looked_up, uncordoned, Uncordons, given_back, release_cordoned_nodes_lem,
}
use maintenance_orchestrator.Samples.Data.{
  env, node_a, spec, policy, config, two_pods, draining_a, statuses,
}

abbrev setting : Setting
setting = record {
  config = config;
  spec = spec;
  policy = policy;
  concurrency = drain_budget policy spec.max_concurrent 0;
  window_open = true;
  uncordon_gated = true;
}

abbrev opts : Options
opts = record { force = false; grace_period_seconds = none; now = 100 }

evict_once_lem_example :
    (res : EvictResult) × ((evict_once env "node-a" opts []).0 ≡ ok res)
    × IsRound false two_pods [] (evict_once env "node-a" opts []).1 res
evict_once_lem_example = evict_once_lem env "node-a" opts [] two_pods refl

step_node-IsStep_example : IsStep draining_a (pos 1) (step_node env setting draining_a (pos 1) []).0
step_node-IsStep_example = step_node-IsStep env setting draining_a (pos 1) []

step_node-MayMutate_example :
    MayMutate NodePhase.draining
      (force_allowed policy true)
      []
      (step_node env setting draining_a (pos 1) []).1
step_node-MayMutate_example = step_node-MayMutate env setting draining_a (pos 1) []

abbrev waiting_b : NodeExecutionStatus
waiting_b = new_status 0 "node-b"

start_lem_example :
    (true ≡ true)
    × (ltb_ℤ (pos 1) (drain_budget policy (pos 2) 0) ≡ true)
    × ((node : Node) × (env.get_node [] "node-b" ≡ ok node)
        × (is_mco_managed node ≡ false)
        × (at_version (target_version spec) node ≡ false))
unfolding step_node dispatch step_pending is_mco_managed target_version default_spec drain_budget
start_lem_example = start_lem env setting waiting_b (pos 1) [] refl refl

-- The uncordon gate approved.
abbrev approved_setting : Setting
approved_setting = record setting {
  spec = record spec {
    approval = record {
      policy = ApprovalPolicy.manual_before_uncordon;
      gates =
          record {
            gate = Gate.uncordon;
            decision = Decision.approved;
            approved_by = "bob";
            reason = "";
            time = none;
          }
          ∷ [];
    };
  };
}

abbrev checked_a : NodeExecutionStatus
checked_a = record draining_a { phase = NodePhase.post_check }

uncordon_gate_example : (NodePhase.post_check ≡ NodePhase.post_check) × IsReleased approved_setting
unfolding step_node dispatch step_post_check requires_gate approval_policy replace_nodes
    uncordon_approved
uncordon_gate_example =
    uncordon_gate env approved_setting checked_a (pos 1) [] refl (λ e. absurd (cc)) refl

-- The request gates the uncordon, and the gate was rejected or not decided.
gated-IsReleased : ¬ IsReleased setting
unfolding requires_gate approval_policy replace_nodes decision_for
gated-IsReleased (wanted, kept, inl ungated) = absurd (cc)
gated-IsReleased (wanted, kept, inr (d, e, approved)) = absurd (cc)

step_batch-uncordons_example :
    let (r, u) = step_batch env setting 0 (checked_a ∷ statuses) (pos 2) [] in
    (any is_uncordoning r.nodes ≡ false) × (count_calls is_uncordon u ≤ 0)
unfolding requires_gate approval_policy replace_nodes node_phase_eq
step_batch-uncordons_example =
    step_batch-uncordons env setting 0 (checked_a ∷ statuses) (pos 2) [] refl gated-IsReleased refl

step_batch-IsRound_example :
    Rounds.IsRound setting 0 statuses (pos 1) (step_batch env setting 0 statuses (pos 1) []).0
step_batch-IsRound_example = step_batch-IsRound env setting 0 statuses (pos 1) []

step_batch-within_cap_example :
    count_in_flight (step_batch env setting 0 statuses (pos (count_in_flight statuses)) []).0.nodes
      + 0
    ≤ 2
unfolding count_in_flight is_in_progress
step_batch-within_cap_example =
    step_batch-within_cap env setting 0 statuses [] (pos 2) 0 2 refl (omega arith) (omega arith)
      (omega arith) refl (omega arith)

abbrev cordoned_env : Env
cordoned_env = record env {
  get_node = λ t name. ok (record node_a { name = name; unschedulable = true });
}

release_cordoned_nodes_lem_example :
    let u = (release_cordoned_nodes cordoned_env spec statuses []).1 in
    (looked_up u ≡ "node-a" ∷ [])
    × Uncordons cordoned_env [] u
    × Mutates 0 0 0 (length (given_back spec statuses)) 0 [] u
unfolding replace_nodes node_phase_eq is_in_progress
release_cordoned_nodes_lem_example = release_cordoned_nodes_lem cordoned_env spec statuses []

-- One uncordon was asked for.
uncordons_once : uncordoned (release_cordoned_nodes cordoned_env spec statuses []).1 ≡ "node-a" ∷ []
unfolding release_cordoned_nodes uncordon replace_nodes nodes_to_release
uncordons_once = refl
