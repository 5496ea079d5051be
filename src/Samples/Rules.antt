-- ===== src/Samples/Rules.antt =====
-- The rules: the phases of a request, its approvals, the policy's limits, the risk score.
use maintenance_orchestrator.Prelude.{◌≡◌, refl, ◌↔◌, pos, ◌≤ℤ◌, true, false, some, arith}
use maintenance_orchestrator.Api.Enums.{Phase, ApprovalPolicy, Gate, Decision}
use maintenance_orchestrator.Api.Spec.{GateDecision}
use maintenance_orchestrator.StateMachine.{
  initial_phase, can_transition, phase_eq, is_terminal, is_active,
}
use maintenance_orchestrator.StateMachine.Lifecycle.{
  ◌⟶*◌, can_transition_terminal, active_completes,
}
use maintenance_orchestrator.Approval.{
  approved, not_required, requires_gate, decision_for, evaluate,
}
use maintenance_orchestrator.Approval.Gates.{IsChosen, decision_for_lem, evaluate_cases}
use maintenance_orchestrator.Policy.{max_unavailable, with_defaults, default_spec}
use maintenance_orchestrator.Policy.Limits.{with_defaults_lem, max_unavailable_lem}
use maintenance_orchestrator.Planner.Score.{score, score_bounds, score_lem}
use maintenance_orchestrator.Samples.Data.{approval, policy}

active_completes_example :
    (initial_phase ⟶* Phase.paused)
    × (Phase.paused ⟶* Phase.completed)
    × (can_transition Phase.paused Phase.cancelled ≡ true)
    × (can_transition Phase.paused Phase.failed ≡ true)
unfolding is_active
active_completes_example = active_completes Phase.paused refl

can_transition_terminal_example : can_transition Phase.failed Phase.executing ≡ false
unfolding phase_eq is_terminal
can_transition_terminal_example = can_transition_terminal Phase.failed Phase.executing refl

decision_for_lem_example : IsChosen Gate.drain approval.gates (decision_for approval Gate.drain)
decision_for_lem_example = decision_for_lem approval Gate.drain

evaluate_cases_example :
    (((evaluate ApprovalPolicy.manual_before_both approval Gate.uncordon).0 ≡ approved) ↔ (
      (d : GateDecision) × (requires_gate ApprovalPolicy.manual_before_both Gate.uncordon ≡ true)
      × (decision_for approval Gate.uncordon ≡ some d)
      × (d.decision ≡ Decision.approved)))
    × (((evaluate ApprovalPolicy.manual_before_both approval Gate.uncordon).0 ≡ not_required)
        ↔ (requires_gate ApprovalPolicy.manual_before_both Gate.uncordon ≡ false))
evaluate_cases_example = evaluate_cases ApprovalPolicy.manual_before_both approval Gate.uncordon

with_defaults_lem_example :
    (pos 1
      ≤ℤ (with_defaults (record default_spec { failure_threshold = pos 0 })).max_concurrent_drains)
    × (pos 1
        ≤ℤ (with_defaults (record default_spec { failure_threshold = pos 0 })).failure_threshold)
    × (with_defaults (with_defaults (record default_spec { failure_threshold = pos 0 }))
        ≡ with_defaults (record default_spec { failure_threshold = pos 0 }))
with_defaults_lem_example = with_defaults_lem (record default_spec { failure_threshold = pos 0 })

max_unavailable_lem_example : max_unavailable policy (pos 9) ≡ pos 4
unfolding default_spec
max_unavailable_lem_example = max_unavailable_lem policy 9 0 50 refl refl (omega arith)

score_lem_example :
    (score
      (pos 6)
      (record {
        pods_to_evict = pos 20;
        apps_affected = pos 4;
        single_replica_workloads = pos 2;
        empty_dir_pods = pos 7;
      })
      true
      (pos 2)).0
    ≡ pos 95
score_lem_example = score_lem 6 2 7 20 4 2 true (omega arith) (omega arith)

-- Ten times the number of workloads wraps to a negative int32.
score_bounds_example :
    let s =
      (score
        (pos 6)
        (record {
          pods_to_evict = pos 0;
          apps_affected = pos 0;
          single_replica_workloads = pos 375809638;
          empty_dir_pods = pos 0;
        })
        true
        (pos 2)).0 in
    (pos 0 ≤ℤ s) × (s ≤ℤ pos 100)
score_bounds_example =
    score_bounds (pos 6)
      (record {
        pods_to_evict = pos 0;
        apps_affected = pos 0;
        single_replica_workloads = pos 375809638;
        empty_dir_pods = pos 0;
      })
      true (pos 2)
