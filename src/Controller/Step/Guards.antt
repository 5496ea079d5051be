-- ===== src/Controller/Step/Guards.antt =====
-- The conditions under which a node starts, and under which it returns to service.
use maintenance_orchestrator.Prelude.{
  inl, inr, refl, ◌≡◌, ◌≢◌, ◌⊎◌, Bool, ℤ, ltb_ℤ, true, false, not, ◌&&◌, some, arith,
}
use maintenance_orchestrator.Api.Enums.{NodePhase, Gate, Decision}
use maintenance_orchestrator.Api.Spec.{GateDecision, replace_nodes}
use maintenance_orchestrator.Api.Status.{NodeExecutionStatus}
use maintenance_orchestrator.Approval.{requires_gate, decision_for}
use maintenance_orchestrator.Approval.Gates.{evaluate_cases}
use maintenance_orchestrator.Kube.Objects.{Node}
use maintenance_orchestrator.Kube.Nodes.{is_mco_managed}
use maintenance_orchestrator.Kube.Cluster.{Result-cases, Env, Trace, ok}
use maintenance_orchestrator.Policy.{approval_policy}
use maintenance_orchestrator.Controller.Nodes.{uncordon_approved, target_version}
use maintenance_orchestrator.Controller.NodeState.{at_version}
use maintenance_orchestrator.Controller.Drain.{step_pending, step_post_check}
use maintenance_orchestrator.Controller.Step.Transitions.{Successor, step_node-IsStep}
use maintenance_orchestrator.Controller.Step.{Setting, dispatch, step_node}

-- A Pending node starts only in an open window and below the concurrency, and only where the cluster
-- has the node, the Machine Config Operator does not manage it, and it is not at the target version.
pub start_lem :
    (env : Env) (s : Setting) (ns : NodeExecutionStatus) (in_flight : ℤ) (t : Trace)
    → ns.phase ≡ NodePhase.pending
    → (step_node env s ns in_flight t).0.node.phase ≡ NodePhase.cordoning
    → (s.window_open ≡ true)
      × (ltb_ℤ in_flight s.concurrency ≡ true)
      × ((node : Node) × (env.get_node t ns.node ≡ ok node)
          × (is_mco_managed node ≡ false)
          × (at_version (target_version s.spec) node ≡ false))
unfolding step_node dispatch step_pending
start_lem env s ns in_flight t pending started =
    let (is_open, below) : (s.window_open ≡ true) × (ltb_ℤ in_flight s.concurrency ≡ true) =
      (ground arith, ground arith) in
    elim (Result-cases (env.get_node t ns.node)) [
      | inl (node, e) ↦ (is_open, below, (node, e, ground arith, ground arith))
      | inr (failure, e) ↦ absurd (ground arith)
    ]

-- What a return to service rests on: the request wants its nodes back and does not replace them, and,
-- under an approval policy that gates the uncordon, the decision that counts for that gate approves.
abbrev pub IsReleased : Setting → Type 0
IsReleased s =
    (s.spec.uncordon_after ≡ true)
    × (replace_nodes s.spec ≡ false)
    × ((requires_gate (approval_policy s.policy s.spec.approval.policy) Gate.uncordon ≡ false)
        ⊎ ((d : GateDecision) × (decision_for s.spec.approval Gate.uncordon ≡ some d)
            × (d.decision ≡ Decision.approved)))

-- What the controller passes to the steps: whether the uncordon is gated.
abbrev pub is_uncordon_gated : Setting → Bool
is_uncordon_gated s =
    requires_gate (approval_policy s.policy s.spec.approval.policy) Gate.uncordon
    && not (replace_nodes s.spec)

post_check-IsReleased :
    (env : Env) (s : Setting) (ns : NodeExecutionStatus) (in_flight : ℤ) (t : Trace)
    → s.uncordon_gated ≡ is_uncordon_gated s
    → ns.phase ≡ NodePhase.post_check
    → (step_node env s ns in_flight t).0.node.phase ≡ NodePhase.uncordoning
    → IsReleased s
unfolding step_node dispatch step_post_check uncordon_approved
post_check-IsReleased env s ns in_flight t gated checked released = ground (
  arith,
  evaluate_cases (approval_policy s.policy s.spec.approval.policy) s.spec.approval Gate.uncordon,
)

-- Only a drained node can go on to be uncordoned.
Successor-uncordoning :
    (p q : NodePhase)
    → Successor p q
    → q ≡ NodePhase.uncordoning
    → (p ≡ NodePhase.post_check) ⊎ (p ≡ NodePhase.uncordoning)
Successor-uncordoning NodePhase.post_check q h e = inl refl
Successor-uncordoning NodePhase.uncordoning q h e = inr refl
Successor-uncordoning p q h e = absurd (ground (arith, h, e))

-- In the execution of a request, a step takes a node to Uncordoning only from PostCheck, and only where
-- the request wants its nodes back and does not replace them, and, under an approval policy that gates
-- the uncordon, the decision that counts for that gate approves. (`uncordon_gated` is what the
-- controller computes.)
pub uncordon_gate :
    (env : Env) (s : Setting) (ns : NodeExecutionStatus) (in_flight : ℤ) (t : Trace)
    → s.uncordon_gated ≡ is_uncordon_gated s
    → ns.phase ≢ NodePhase.uncordoning
    → (step_node env s ns in_flight t).0.node.phase ≡ NodePhase.uncordoning
    → (ns.phase ≡ NodePhase.post_check) × IsReleased s
uncordon_gate env s ns in_flight t gated other released =
    let step = step_node-IsStep env s ns in_flight t in
    elim (Successor-uncordoning ns.phase _ step.successor released) [
      | inr already ↦ absurd (other already)
      | inl checked ↦ (checked, post_check-IsReleased env s ns in_flight t gated checked released)
    ]
