-- ===== src/Controller/Loop/Rounds.antt =====
-- What one pass of the loop over the nodes does to the nodes and to the number in flight.
use maintenance_orchestrator.Prelude.{
  ℕ, ◌+◌, ◌≤◌, ◌≡◌, ◌≢◌, refl, ap, +ℤ_parts, eq_of_parts, ◌⊎◌, inl, inr, ℤ, pos, pos_part, neg_part,
  ◌+ℤ◌, ◌≤ℤ◌, true, false, not, ◌||◌, List, [], ◌∷◌, Option, none, some, arith, ◌==◌, Bool-cases,
  Option-cases,
}
use maintenance_orchestrator.Api.Enums.{NodePhase}
use maintenance_orchestrator.Api.Status.{NodeExecutionStatus}
use maintenance_orchestrator.Kube.Cluster.{Env, Trace, Error, ◌>>=◌}
use maintenance_orchestrator.Controller.Nodes.{is_node_terminal, is_in_progress, count_in_flight}
use maintenance_orchestrator.Controller.Drain.{step_pending}
use maintenance_orchestrator.Controller.Step.{Setting, step_node, dispatch}
use maintenance_orchestrator.Controller.Step.Transitions.{
  Successor, busy, step_node-IsStep, dispatch-IsStep,
}
use maintenance_orchestrator.Controller.Loop.{Round, step_batch}

-- What the loop does with one node of the list: a node of another batch and a finished one are left
-- alone, the others move along an edge of the phase machine, or stay.
abbrev pub Moves : ℕ → NodeExecutionStatus → NodeExecutionStatus → Type 0
Moves batch old new =
    (new ≡ old)
    ⊎ ((old.batch ≡ batch)
        × (is_node_terminal old.phase ≡ false)
        × Successor old.phase new.phase
        × (new.node ≡ old.node)
        × (new.batch ≡ old.batch))

-- The two lists have the same length and correspond node by node.
abbrev pub AllMove : ℕ → (old new : List NodeExecutionStatus) → Type 0
AllMove batch [] [] = Unit
AllMove batch [] (n ∷ new) = ⊥
AllMove batch (o ∷ old) [] = ⊥
AllMove batch (o ∷ old) (n ∷ new) = Moves batch o n × AllMove batch old new

AllMove-refl : (batch : ℕ) (nodes : List NodeExecutionStatus) → AllMove batch nodes nodes
AllMove-refl batch [] = tt
AllMove-refl batch (n ∷ nodes) = (inl refl, AllMove-refl batch nodes)

-- The number in flight after a step: not above what it was, or within the concurrency in an open
-- window.
abbrev Bounded : Setting → ℤ → ℤ → Type 0
Bounded s f g = (g ≤ℤ f) ⊎ ((s.window_open ≡ true) × (g ≤ℤ s.concurrency))

pending-Bounded :
    (env : Env) (s : Setting) (ns : NodeExecutionStatus) (f : ℤ) (t : Trace)
    → Bounded s f
        (step_pending env s.config s.spec s.policy ns f s.concurrency s.window_open t).0.in_flight
unfolding step_pending ◌+ℤ◌
pending-Bounded env s ns f t = ground arith

-- A step from another phase than Pending starts nothing.
busy_after : (p q : NodePhase) → p ≢ NodePhase.pending → Successor p q → busy q ≤ busy p
unfolding is_in_progress
busy_after p q n h = ground arith

not_above : (f g : ℤ) (m n : ℕ) → n ≤ m → g +ℤ pos m ≡ f +ℤ pos n → g ≤ℤ f
not_above f g m n le tracked =
    let lhs = +ℤ_parts g (pos m) in
    let rhs = +ℤ_parts f (pos n) in
    let pos_eq = ap pos_part tracked in
    let neg_eq = ap neg_part tracked in omega (arith, lhs, rhs, pos_eq, neg_eq, le)

dispatch-Bounded :
    (env : Env) (s : Setting) (ns : NodeExecutionStatus) (f : ℤ) (t : Trace) (p : NodePhase)
    → ns.phase ≡ p
    → Bounded s f (dispatch env s p ns f t).0.in_flight
unfolding dispatch
dispatch-Bounded env s ns f t NodePhase.pending h = pending-Bounded env s ns f t
dispatch-Bounded env s ns f t p h =
    let (successor, tracked, _, _, _) = dispatch-IsStep env s p ns f t h in
    inl (not_above f _ (busy p) (busy _) (busy_after p _ (λ e. cc) successor) tracked)

step-Bounded :
    (env : Env) (s : Setting) (ns : NodeExecutionStatus) (f : ℤ) (t : Trace)
    → Bounded s f (step_node env s ns f t).0.in_flight
unfolding step_node
step-Bounded env s ns f t = dispatch-Bounded env s ns f t ns.phase refl

-- A chain of two bounds.
Bounded-trans : (s : Setting) (f g h : ℤ) → Bounded s f g → Bounded s g h → Bounded s f h
Bounded-trans s f g h first second = ground arith

push_tracked :
    (f g h : ℤ) (a b m n : ℕ)
    → g +ℤ pos a ≡ f +ℤ pos b
    → h +ℤ pos m ≡ g +ℤ pos n
    → h +ℤ pos (a + m) ≡ f +ℤ pos (b + n)
push_tracked f g h a b m n first second =
    let l1 = +ℤ_parts g (pos a) in
    let r1 = +ℤ_parts f (pos b) in
    let l2 = +ℤ_parts h (pos m) in
    let r2 = +ℤ_parts g (pos n) in
    let l3 = +ℤ_parts h (pos (a + m)) in
    let r3 = +ℤ_parts f (pos (b + n)) in
    let p1 = ap pos_part first in
    let n1 = ap neg_part first in
    let p2 = ap pos_part second in
    let n2 = ap neg_part second in
    eq_of_parts _ _ (omega (arith, l1, r1, l2, r2, l3, r3, p1, n1, p2, n2))

-- What a pass over `nodes` that starts with the counter at `in_flight` promises.
pub record IsRound (s : Setting) (batch : ℕ) (nodes : List NodeExecutionStatus) (in_flight : ℤ)
    (r : Round) : Type 0 where
  pub moves : AllMove batch nodes r.nodes
  pub tracked :
      r.in_flight +ℤ pos (count_in_flight nodes) ≡ in_flight +ℤ pos (count_in_flight r.nodes)
  pub bounded : Bounded s in_flight r.in_flight

count_in_flight-cons :
    (ns : NodeExecutionStatus) (rest : List NodeExecutionStatus)
    → count_in_flight (ns ∷ rest) ≡ busy ns.phase + count_in_flight rest
unfolding count_in_flight
count_in_flight-cons ns rest = ground arith

kept_lem :
    (s : Setting) (batch : ℕ) (nodes : List NodeExecutionStatus) (f : ℤ) (e : Option Error)
    → IsRound s batch nodes f (record { nodes = nodes; in_flight = f; error = e })
kept_lem s batch nodes f e = record {
  moves = AllMove-refl batch nodes;
  tracked = refl;
  bounded = inl (omega arith);
}

-- One node, then the rest of the list.
cons_lem :
    (s : Setting) (batch : ℕ) (old new : NodeExecutionStatus) (rest : List NodeExecutionStatus)
    (f g : ℤ) (r : Round) (e : Option Error)
    → Moves batch old new
    → g +ℤ pos (busy old.phase) ≡ f +ℤ pos (busy new.phase)
    → Bounded s f g
    → IsRound s batch rest g r
    → IsRound s batch
        (old ∷ rest)
        f
        (record { nodes = new ∷ r.nodes; in_flight = r.in_flight; error = e })
cons_lem s batch old new rest f g r e moves tracked bounded ih = record {
  moves = (moves, ih.moves);
  tracked =
      rw (count_in_flight-cons old rest, count_in_flight-cons new r.nodes)
        (push_tracked f g r.in_flight (busy old.phase) (busy new.phase) (count_in_flight rest)
          (count_in_flight r.nodes) tracked ih.tracked);
  bounded = Bounded-trans s f g r.in_flight bounded ih.bounded;
}

step-Moves :
    (env : Env) (s : Setting) (batch : ℕ) (ns : NodeExecutionStatus) (f : ℤ) (t : Trace)
    → (not (ns.batch == batch) || is_node_terminal ns.phase) ≡ false
    → Moves batch ns (step_node env s ns f t).0.node
step-Moves env s batch ns f t h =
    let st = step_node-IsStep env s ns f t in
    inr (ground (arith, h), ground (arith, h), st.successor, st.same_name, st.same_batch)

-- Whatever the cluster answers and wherever an error stops the pass: only nodes of the batch that are
-- not terminal change, each along an edge of its phase machine; the counter of nodes in flight stays
-- in step with the phases; and it does not rise unless the window is open and it stays within the
-- concurrency.
pub step_batch-IsRound :
    (env : Env) (s : Setting) (batch : ℕ) (nodes : List NodeExecutionStatus) (in_flight : ℤ)
    (t : Trace)
    → IsRound s batch nodes in_flight (step_batch env s batch nodes in_flight t).0
unfolding step_batch
step_batch-IsRound env s batch [] f t = kept_lem s batch [] f none
step_batch-IsRound env s batch (ns ∷ rest) f t =
    let st = step_node-IsStep env s ns f t in
    elim (Bool-cases (not (ns.batch == batch) || is_node_terminal ns.phase)) [
      | inl h ↦ rw h (
          cons_lem s batch ns ns rest f f _ _ (inl refl) refl (inl (omega arith))
            (step_batch-IsRound env s batch rest f t))
      | inr h ↦ elim (Option-cases (step_node env s ns f t).0.error) [
        | inl e ↦
            rw (h, ◌>>=◌, e)
              (cons_lem s batch ns _ rest f _ _ _ (step-Moves env s batch ns f t h) st.tracked
                (step-Bounded env s ns f t) (step_batch-IsRound env s batch rest _ _))
        | inr (x, e) ↦
            rw (h, ◌>>=◌, e)
              (cons_lem s batch ns _ rest f _
                (record {
                  nodes = rest;
                  in_flight = (step_node env s ns f t).0.in_flight;
                  error = some x;
                })
                _ (step-Moves env s batch ns f t h) st.tracked (step-Bounded env s ns f t)
                (kept_lem s batch rest _ _))
      ]
    ]
