-- ===== src/Controller/Loop/Gate.antt =====
-- The uncordon gate over a pass of the loop.
use maintenance_orchestrator.Prelude.{
  ◌≡◌, ◌≢◌, refl, ◌≤◌, inl, inr, ℤ, ℕ, Bool, Bool-cases, true, false, not, ◌||◌, any, Option-cases,
  List, [], ◌∷◌, ◌==◌, arith,
}
use maintenance_orchestrator.Api.Enums.{NodePhase}
use maintenance_orchestrator.Api.Status.{NodeExecutionStatus}
use maintenance_orchestrator.Kube.Cluster.{Env, Trace}
use maintenance_orchestrator.Kube.Traces.{count_calls, is_uncordon}
use maintenance_orchestrator.Controller.Nodes.{node_phase_eq, is_node_terminal}
use maintenance_orchestrator.Controller.Step.{Setting, step_node}
use maintenance_orchestrator.Controller.Step.Mutations.{step_node-MayMutate}
use maintenance_orchestrator.Controller.Step.Guards.{IsReleased, is_uncordon_gated, uncordon_gate}
use maintenance_orchestrator.Controller.Loop.{step_batch}

abbrev pub is_uncordoning : NodeExecutionStatus → Bool
is_uncordoning ns = node_phase_eq ns.phase NodePhase.uncordoning

uncordoning-node_phase_eq :
    (p : NodePhase) → node_phase_eq p NodePhase.uncordoning ≡ true → p ≡ NodePhase.uncordoning
unfolding node_phase_eq
uncordoning-node_phase_eq NodePhase.uncordoning h = refl
uncordoning-node_phase_eq p h = absurd (ground (arith, h))

is_uncordoning-other :
    (ns : NodeExecutionStatus) → is_uncordoning ns ≡ false → ns.phase ≢ NodePhase.uncordoning
unfolding node_phase_eq
is_uncordoning-other ns h e = ground (arith, h, e)

step-is_uncordoning :
    (env : Env) (s : Setting) (ns : NodeExecutionStatus) (f : ℤ) (t : Trace)
    → s.uncordon_gated ≡ is_uncordon_gated s
    → ¬ IsReleased s
    → is_uncordoning ns ≡ false
    → let (r, u) = step_node env s ns f t in
      (is_uncordoning r.node ≡ false) × (count_calls is_uncordon u ≤ count_calls is_uncordon t)
step-is_uncordoning env s ns f t gated kept other =
    let (r, u) = step_node env s ns f t in
    let may = (step_node-MayMutate env s ns f t).uncordons in
    (
      elim (Bool-cases (is_uncordoning r.node)) [
        | inr e ↦ e
        | inl e ↦ absurd (
            kept
              (uncordon_gate env s ns f t gated (is_uncordoning-other ns other)
                (uncordoning-node_phase_eq r.node.phase e)).1)
      ],
      ground (arith, may, other),
    )

-- Where the request is not to return its nodes, replaces them, or has not the approval that its policy
-- asks for, a pass over nodes of which none is at Uncordoning asks for no uncordon, and takes no node
-- there, whatever the cluster answers.
pub step_batch-uncordons :
    (env : Env) (s : Setting) (batch : ℕ) (nodes : List NodeExecutionStatus) (f : ℤ) (t : Trace)
    → s.uncordon_gated ≡ is_uncordon_gated s
    → ¬ IsReleased s
    → any is_uncordoning nodes ≡ false
    → let (r, u) = step_batch env s batch nodes f t in
      (any is_uncordoning r.nodes ≡ false) × (count_calls is_uncordon u ≤ count_calls is_uncordon t)
unfolding step_batch
step_batch-uncordons env s batch [] f t gated kept other = (refl, omega arith)
step_batch-uncordons env s batch (ns ∷ rest) f t gated kept other =
    let first : is_uncordoning ns ≡ false = ground (arith, other) in
    let others : any is_uncordoning rest ≡ false = ground (arith, other) in
    let (st, u) = step_node env s ns f t in
    let step = step-is_uncordoning env s ns f t gated kept first in
    elim (Bool-cases (not (ns.batch == batch) || is_node_terminal ns.phase)) [
      | inl h ↦
          let ih = step_batch-uncordons env s batch rest f t gated kept others in
          ground (arith, h, first, ih)
      | inr h ↦ elim (Option-cases st.error) [
        | inl e ↦
            let ih = step_batch-uncordons env s batch rest st.in_flight u gated kept others in
            ground (arith, h, e, step, ih)
        | inr (x, e) ↦ ground (arith, h, e, step, others)
      ]
    ]
