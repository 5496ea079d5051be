-- ===== src/Controller/Nodes/Summary.antt =====
-- What the node helpers compute from the list of nodes.
use mathlib.Core.List.{map-append}
use maintenance_orchestrator.Prelude.{
  ℕ, ◌+◌, ◌≤◌, ◌≡◌, refl, ◌⊎◌, inl, inr, true, false, List, [], ◌∷◌, ◌++◌, map, Option, none, some,
  String, arith, length, All, Bool-cases,
}
use maintenance_orchestrator.Api.Enums.{NodePhase}
use maintenance_orchestrator.Api.Status.{Batch, NodeExecutionStatus, ProgressSummary}
use maintenance_orchestrator.Controller.Nodes.{
  empty_summary, improve, is_in_progress, is_node_terminal, node_phase_eq, tally, summary_loop,
  recompute_summary, batch_loop, current_batch, count_in_flight, count_node_phase,
  init_node_statuses, batch_statuses,
}

abbrev parts : ProgressSummary → ℕ
parts s = s.pending + s.in_progress + s.completed + s.blocked + s.failed + s.skipped

-- The contents of a summary that has counted the nodes.
pub record IsSummary (nodes : List NodeExecutionStatus) (s : ProgressSummary) : Type 0 where
  pub total : s.total ≡ length nodes
  pub parts_total : parts s ≡ s.total
  pub pending : s.pending ≡ count_node_phase nodes NodePhase.pending
  pub in_progress : s.in_progress ≡ count_in_flight nodes
  pub completed : s.completed ≡ count_node_phase nodes NodePhase.completed
  pub blocked : s.blocked ≡ count_node_phase nodes NodePhase.blocked
  pub failed : s.failed ≡ count_node_phase nodes NodePhase.failed
  pub skipped : s.skipped ≡ count_node_phase nodes NodePhase.skipped

-- The summary `u` adds the nodes to the summary `s`.
abbrev Adds : List NodeExecutionStatus → (s u : ProgressSummary) → Type 0
Adds nodes s u =
    (u.total ≡ s.total + length nodes)
    × (parts u ≡ parts s + length nodes)
    × (u.pending ≡ s.pending + count_node_phase nodes NodePhase.pending)
    × (u.in_progress ≡ s.in_progress + count_in_flight nodes)
    × (u.completed ≡ s.completed + count_node_phase nodes NodePhase.completed)
    × (u.blocked ≡ s.blocked + count_node_phase nodes NodePhase.blocked)
    × (u.failed ≡ s.failed + count_node_phase nodes NodePhase.failed)
    × (u.skipped ≡ s.skipped + count_node_phase nodes NodePhase.skipped)

summary_loop-Adds :
    (s : ProgressSummary) (nodes : List NodeExecutionStatus) → Adds nodes s (summary_loop s nodes)
unfolding summary_loop tally count_node_phase count_in_flight is_in_progress node_phase_eq
summary_loop-Adds s [] = ground arith
summary_loop-Adds s (ns ∷ rest) =
    let ih = summary_loop-Adds (tally (record s { total = s.total + 1 }) ns.phase) rest in
    ground (arith, ih)

-- The summary counts every node once: the total is the number of nodes and the sum of the parts, and
-- each part is the number of nodes in that phase, or of the nodes in flight.
pub recompute_summary-IsSummary :
    (nodes : List NodeExecutionStatus) → IsSummary nodes (recompute_summary nodes)
unfolding recompute_summary
recompute_summary-IsSummary nodes =
    let (total, sum, pending, in_progress, completed, blocked, failed, skipped) =
      summary_loop-Adds empty_summary nodes in
    record {
      total = ground (arith, total);
      parts_total = ground (arith, total, sum);
      pending = ground (arith, pending);
      in_progress = ground (arith, in_progress);
      completed = ground (arith, completed);
      blocked = ground (arith, blocked);
      failed = ground (arith, failed);
      skipped = ground (arith, skipped);
    }

-- The node is done, or its batch is not before `b`.
abbrev NotBefore : ℕ → NodeExecutionStatus → Type 0
NotBefore b ns = (is_node_terminal ns.phase ≡ true) ⊎ (b ≤ ns.batch)

-- The node is not done, and its batch is `b`.
abbrev Waits : ℕ → NodeExecutionStatus → Type 0
Waits b ns = (is_node_terminal ns.phase ≡ false) × (ns.batch ≡ b)

abbrev pub Some : (NodeExecutionStatus → Type 0) → List NodeExecutionStatus → Type 0
Some P [] = ⊥
Some P (x ∷ xs) = P x ⊎ Some P xs

-- What `current_batch` answers.
abbrev pub IsCurrent : List NodeExecutionStatus → Option ℕ → Type 0
IsCurrent nodes none = All (λ ns. is_node_terminal ns.phase ≡ true) nodes
IsCurrent nodes (some b) = Some (Waits b) nodes × All (NotBefore b) nodes

abbrev LoopResult : Option ℕ → List NodeExecutionStatus → Option ℕ → Type 0
LoopResult none nodes res = IsCurrent nodes res
LoopResult (some best) nodes none = ⊥
LoopResult (some best) nodes (some b) =
    (b ≤ best) × ((b ≡ best) ⊎ Some (Waits b) nodes) × All (NotBefore b) nodes

-- One node before the rest, by what the loop does with it.
skip_node :
    (best : Option ℕ) (ns : NodeExecutionStatus) (rest : List NodeExecutionStatus) (res : Option ℕ)
    → is_node_terminal ns.phase ≡ true
    → LoopResult best rest res
    → LoopResult best (ns ∷ rest) res
skip_node none ns rest none h ih = (h, ih)
skip_node none ns rest (some b) h ih = ground (arith, ih, h)
skip_node (some best) ns rest none h ih = elim ih [ ]
skip_node (some best) ns rest (some b) h ih = ground (arith, ih, h)

first_node :
    (ns : NodeExecutionStatus) (rest : List NodeExecutionStatus) (res : Option ℕ)
    → is_node_terminal ns.phase ≡ false
    → LoopResult (some ns.batch) rest res
    → LoopResult none (ns ∷ rest) res
first_node ns rest none h ih = elim ih [ ]
first_node ns rest (some b) h ih = ground (arith, ih, h)

next_node :
    (best : ℕ) (ns : NodeExecutionStatus) (rest : List NodeExecutionStatus) (res : Option ℕ)
    → is_node_terminal ns.phase ≡ false
    → LoopResult (improve (some best) ns.batch) rest res
    → LoopResult (some best) (ns ∷ rest) res
next_node best ns rest none h ih = ground (arith, ih, h)
next_node best ns rest (some b) h ih = ground (arith, ih, h)

batch_loop-LoopResult :
    (best : Option ℕ) (nodes : List NodeExecutionStatus)
    → LoopResult best nodes (batch_loop best nodes)
unfolding batch_loop
batch_loop-LoopResult none [] = tt
batch_loop-LoopResult (some best) [] = (omega arith, inl refl, tt)
batch_loop-LoopResult none (ns ∷ rest) = elim (Bool-cases (is_node_terminal ns.phase)) [
  | inl h ↦ rw h (skip_node none ns rest _ h (batch_loop-LoopResult none rest))
  | inr h ↦ rw h (first_node ns rest _ h (batch_loop-LoopResult (some ns.batch) rest))
]
batch_loop-LoopResult (some best) (ns ∷ rest) = elim (Bool-cases (is_node_terminal ns.phase)) [
  | inl h ↦ rw h (skip_node (some best) ns rest _ h (batch_loop-LoopResult (some best) rest))
  | inr h ↦
      rw h (next_node best ns rest _ h (batch_loop-LoopResult (improve (some best) ns.batch) rest))
]

-- The current batch is the lowest one that has a node left to do, and there is none exactly when every
-- node is done: batches are processed in order.
pub current_batch-IsCurrent :
    (nodes : List NodeExecutionStatus) → IsCurrent nodes (current_batch nodes)
unfolding current_batch
current_batch-IsCurrent nodes = batch_loop-LoopResult none nodes

-- The names and the phases of a list of statuses, and the same of the nodes of the plan.
abbrev pub entry : NodeExecutionStatus → String × ℕ × NodePhase
entry ns = (ns.node, ns.batch, ns.phase)

abbrev pub planned : List Batch → List (String × ℕ × NodePhase)
planned [] = []
planned (b ∷ bs) = map (λ n. (n, b.index, NodePhase.pending)) b.nodes ++ planned bs

map-entry-batch_statuses :
    (batch : ℕ) (names : List String)
    → map entry (batch_statuses batch names) ≡ map (λ n. (n, batch, NodePhase.pending)) names
unfolding batch_statuses
map-entry-batch_statuses batch [] = refl
map-entry-batch_statuses batch (n ∷ names) = rw (map-entry-batch_statuses batch names)

init_node_statuses-planned : (bs : List Batch) → map entry (init_node_statuses bs) ≡ planned bs
unfolding init_node_statuses
init_node_statuses-planned [] = refl
init_node_statuses-planned (b ∷ bs) = rw (
  map-append entry (batch_statuses b.index b.nodes) (init_node_statuses bs),
  map-entry-batch_statuses b.index b.nodes,
  init_node_statuses-planned bs,
)

count_in_flight-append :
    (xs ys : List NodeExecutionStatus)
    → count_in_flight (xs ++ ys) ≡ count_in_flight xs + count_in_flight ys
unfolding count_in_flight
count_in_flight-append [] ys = omega arith
count_in_flight-append (x ∷ xs) ys = ground (arith, count_in_flight-append xs ys)

count_in_flight-batch_statuses :
    (batch : ℕ) (names : List String) → count_in_flight (batch_statuses batch names) ≡ 0
unfolding count_in_flight batch_statuses is_in_progress
count_in_flight-batch_statuses batch [] = refl
count_in_flight-batch_statuses batch (n ∷ names) = count_in_flight-batch_statuses batch names

count_in_flight-init_node_statuses : (bs : List Batch) → count_in_flight (init_node_statuses bs) ≡ 0
unfolding init_node_statuses count_in_flight
count_in_flight-init_node_statuses [] = refl
count_in_flight-init_node_statuses (b ∷ bs) =
    rw (count_in_flight-append (batch_statuses b.index b.nodes) (init_node_statuses bs)) (
      omega (
        arith,
        count_in_flight-batch_statuses b.index b.nodes,
        count_in_flight-init_node_statuses bs,
      ))

-- Execution starts from one pending status for each node of the plan, in the plan's order and under
-- its batch's index, so that none is in flight.
pub init_node_statuses_lem :
    (bs : List Batch)
    → (map entry (init_node_statuses bs) ≡ planned bs)
      × (count_in_flight (init_node_statuses bs) ≡ 0)
init_node_statuses_lem bs = (init_node_statuses-planned bs, count_in_flight-init_node_statuses bs)
