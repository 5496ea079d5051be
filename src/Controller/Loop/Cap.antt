-- ===== src/Controller/Loop/Cap.antt =====
-- How many drains a pass of the loop leaves in flight.
use maintenance_orchestrator.Prelude.{
  ℕ, ◌+◌, ◌≤◌, ◌≡◌, ◌⊎◌, inl, inr, ap, ℤ, pos, pos_part, neg_part, ◌+ℤ◌, ◌-ℤ◌, ◌≤ℤ◌, int32, true,
  List, arith, +ℤ_parts, eq_of_parts,
}
use maintenance_orchestrator.Api.Status.{NodeExecutionStatus}
use maintenance_orchestrator.Kube.Cluster.{Env, Trace}
use maintenance_orchestrator.Policy.{Effective}
use maintenance_orchestrator.Controller.Nodes.{count_in_flight}
use maintenance_orchestrator.Controller.Step.{Setting}
use maintenance_orchestrator.Controller.Loop.{step_batch, drain_budget}
use maintenance_orchestrator.Controller.Loop.Rounds.{step_batch-IsRound}

cancel : (g : ℤ) (m n : ℕ) → g +ℤ pos m ≡ pos m +ℤ pos n → g ≡ pos n
cancel g m n e =
    let l = +ℤ_parts g (pos m) in
    let r = +ℤ_parts (pos m) (pos n) in
    let p = ap pos_part e in let q = ap neg_part e in eq_of_parts _ _ (omega (arith, l, r, p, q))

-- The counter starts at the number of nodes in flight, and it is that number after the pass, which
-- has not risen unless the window is open and it is within the concurrency.
step_batch-count_in_flight :
    (env : Env) (s : Setting) (batch : ℕ) (nodes : List NodeExecutionStatus) (t : Trace)
    → let r = (step_batch env s batch nodes (pos (count_in_flight nodes)) t).0 in
      (r.in_flight ≡ pos (count_in_flight r.nodes))
      × ((count_in_flight r.nodes ≤ count_in_flight nodes)
          ⊎ ((s.window_open ≡ true) × (pos (count_in_flight r.nodes) ≤ℤ s.concurrency)))
step_batch-count_in_flight env s batch nodes t =
    let round = step_batch-IsRound env s batch nodes (pos (count_in_flight nodes)) t in
    let e = cancel _ _ _ round.tracked in
    let bounded = round.bounded in
    (
      e,
      elim bounded [
        | inl le ↦ inl (omega (arith, le, ap pos_part e, ap neg_part e))
        | inr (is_open, le) ↦ inr (is_open, omega (arith, le, ap pos_part e, ap neg_part e))
      ],
    )

drain_budget-cap :
    (pol : Effective) (requested : ℤ) (others cap : ℕ)
    → pol.spec.max_concurrent_drains ≡ pos cap
    → 1 ≤ cap
    → cap ≤ 2147483647
    → others ≤ 2147483647
    → drain_budget pol requested others +ℤ pos others ≤ℤ pos cap
unfolding drain_budget int32 ◌-ℤ◌ ◌+ℤ◌
drain_budget-cap pol requested others cap e pos_cap fits fits' = ground arith

within_cap : (b : ℤ) (others cap n : ℕ) → b +ℤ pos others ≤ℤ pos cap → pos n ≤ℤ b → n + others ≤ cap
within_cap b others cap n budget le = omega (arith, +ℤ_parts b (pos others), budget, le)

-- The policy's cap on concurrent drains holds across requests: where this request and the others have
-- at most `cap` nodes in flight together, and the loop is given the budget that the controller
-- computes from the others' number, they have at most `cap` in flight after the pass too. (The cap is
-- positive, and both numbers fit an int32.)
pub step_batch-within_cap :
    (env : Env) (s : Setting) (batch : ℕ) (nodes : List NodeExecutionStatus) (t : Trace)
    (requested : ℤ) (others cap : ℕ)
    → s.policy.spec.max_concurrent_drains ≡ pos cap
    → 1 ≤ cap
    → cap ≤ 2147483647
    → others ≤ 2147483647
    → s.concurrency ≡ drain_budget s.policy requested others
    → count_in_flight nodes + others ≤ cap
    → count_in_flight (step_batch env s batch nodes (pos (count_in_flight nodes)) t).0.nodes
        + others
      ≤ cap
step_batch-within_cap env s batch nodes t requested others cap e pos_cap fits fits' budget below =
    let (_, counted) = step_batch-count_in_flight env s batch nodes t in
    elim counted [
      | inl le ↦ omega (arith, le, below)
      | inr (_, le) ↦
          within_cap s.concurrency others cap _
            (rw budget (drain_budget-cap s.policy requested others cap e pos_cap fits fits')) le
    ]
