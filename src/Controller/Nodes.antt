-- ===== src/Controller/Nodes.antt =====
-- The node helpers of internal/controller/execute.go. Counters count the nodes of a request, so they
-- are ℕ.
pub mod Summary
use maintenance_orchestrator.Prelude.{
  ℕ, suc, ◌+◌, ℤ, Bool, true, false, not, ◌&&◌, ◌||◌, List, [], ◌∷◌, ◌++◌, Option, none, some,
  String, if◌then◌else◌, ltb, ◌==◌, any, pos,
}
use maintenance_orchestrator.Api.Enums.{NodePhase, Gate, BlockReason}
use maintenance_orchestrator.Api.Spec.{MaintenanceSpec, replace_nodes}
use maintenance_orchestrator.Api.Status.{Batch, NodeExecutionStatus, ProgressSummary}
use maintenance_orchestrator.Approval
use maintenance_orchestrator.Approval.{requires_gate, evaluate}
use maintenance_orchestrator.Policy.{Effective, approval_policy}

-- `Cordoning`, `Draining`, `PostCheck`, `Uncordoning`, `Replacing` and `AwaitingReplacement`.
unfoldable pub is_in_progress : NodePhase → Bool
is_in_progress NodePhase.cordoning = true
is_in_progress NodePhase.draining = true
is_in_progress NodePhase.post_check = true
is_in_progress NodePhase.uncordoning = true
is_in_progress NodePhase.replacing = true
is_in_progress NodePhase.awaiting_replacement = true
is_in_progress _ = false

unfoldable pub is_node_terminal : NodePhase → Bool
is_node_terminal NodePhase.completed = true
is_node_terminal NodePhase.blocked = true
is_node_terminal NodePhase.failed = true
is_node_terminal NodePhase.skipped = true
is_node_terminal _ = false

-- The node was cordoned by the request and is still there.
unfoldable pub should_release_node : NodePhase → Bool
should_release_node NodePhase.cordoning = true
should_release_node NodePhase.draining = true
should_release_node NodePhase.post_check = true
should_release_node NodePhase.uncordoning = true
should_release_node NodePhase.blocked = true
should_release_node _ = false

abbrev rank : NodePhase → ℕ
rank NodePhase.pending = 0
rank NodePhase.cordoning = 1
rank NodePhase.draining = 2
rank NodePhase.post_check = 3
rank NodePhase.uncordoning = 4
rank NodePhase.replacing = 5
rank NodePhase.awaiting_replacement = 6
rank NodePhase.completed = 7
rank NodePhase.blocked = 8
rank NodePhase.failed = 9
rank NodePhase.skipped = 10

-- `p == q` on node phases.
unfoldable pub node_phase_eq : NodePhase → NodePhase → Bool
node_phase_eq p q = rank p == rank q

abbrev pub new_status : ℕ → String → NodeExecutionStatus
new_status batch name = record {
  node = name;
  phase = NodePhase.pending;
  batch = batch;
  start_time = none;
  end_time = none;
  total_pods = 0;
  evicted_pods = pos 0;
  remaining_pods = 0;
  replacement_baseline = 0;
  block_reason = BlockReason.no_reason;
  message = "";
}

-- The inner loop of `initNodeStatuses`.
unfoldable pub batch_statuses : ℕ → List String → List NodeExecutionStatus
batch_statuses batch [] = []
batch_statuses batch (name ∷ names) = new_status batch name ∷ batch_statuses batch names

unfoldable pub init_node_statuses : List Batch → List NodeExecutionStatus
unfolding batch_statuses
init_node_statuses [] = []
init_node_statuses (b ∷ bs) = batch_statuses b.index b.nodes ++ init_node_statuses bs

abbrev empty_summary : ProgressSummary
empty_summary = record {
  total = 0;
  pending = 0;
  in_progress = 0;
  completed = 0;
  blocked = 0;
  failed = 0;
  skipped = 0;
}

-- The switch of `recomputeSummary` for one node.
unfoldable pub tally : ProgressSummary → NodePhase → ProgressSummary
tally s NodePhase.pending = record s { pending = s.pending + 1 }
tally s NodePhase.completed = record s { completed = s.completed + 1 }
tally s NodePhase.blocked = record s { blocked = s.blocked + 1 }
tally s NodePhase.failed = record s { failed = s.failed + 1 }
tally s NodePhase.skipped = record s { skipped = s.skipped + 1 }
tally s _ = record s { in_progress = s.in_progress + 1 }

unfoldable pub summary_loop : ProgressSummary → List NodeExecutionStatus → ProgressSummary
unfolding tally
summary_loop s [] = s
summary_loop s (ns ∷ rest) = summary_loop (tally (record s { total = s.total + 1 }) ns.phase) rest

-- The summary that `recomputeSummary` stores.
unfoldable pub recompute_summary : List NodeExecutionStatus → ProgressSummary
unfolding summary_loop
recompute_summary nodes = summary_loop empty_summary nodes

-- `best == -1 || idx < best`; `none` stands for -1.
abbrev improve : Option ℕ → ℕ → Option ℕ
improve none idx = some idx
improve (some best) idx = if ltb idx best then some idx else some best

unfoldable pub batch_loop : Option ℕ → List NodeExecutionStatus → Option ℕ
unfolding is_node_terminal
batch_loop best [] = best
batch_loop best (ns ∷ rest) =
    batch_loop (if is_node_terminal ns.phase then best else improve best ns.batch) rest

-- The lowest batch with a node that is not terminal.
unfoldable pub current_batch : List NodeExecutionStatus → Option ℕ
unfolding batch_loop
current_batch nodes = batch_loop none nodes

unfoldable pub count_in_flight : List NodeExecutionStatus → ℕ
unfolding is_in_progress
count_in_flight [] = 0
count_in_flight (ns ∷ rest) =
    if is_in_progress ns.phase then suc (count_in_flight rest) else count_in_flight rest

unfoldable pub count_node_phase : List NodeExecutionStatus → NodePhase → ℕ
unfolding node_phase_eq
count_node_phase [] phase = 0
count_node_phase (ns ∷ rest) phase =
    if node_phase_eq ns.phase phase
    then suc (count_node_phase rest phase)
    else count_node_phase rest phase

-- The loop of `nodesToRelease`.
unfoldable pub releasable : List NodeExecutionStatus → List String
unfolding should_release_node
releasable [] = []
releasable (ns ∷ rest) =
    if should_release_node ns.phase then ns.node ∷ releasable rest else releasable rest

unfoldable pub nodes_to_release : MaintenanceSpec → List NodeExecutionStatus → List String
unfolding releasable replace_nodes
nodes_to_release spec nodes =
    if not spec.uncordon_after || replace_nodes spec then [] else releasable nodes

unfoldable pub any_node_at_post_check : List NodeExecutionStatus → Bool
unfolding node_phase_eq
any_node_at_post_check nodes = any (λ ns. node_phase_eq ns.phase NodePhase.post_check) nodes

abbrev is_approved : Approval.Result → Bool
is_approved Approval.approved = true
is_approved _ = false

unfoldable pub uncordon_approved : MaintenanceSpec → Effective → Bool
unfolding requires_gate evaluate approval_policy
uncordon_approved spec pol =
    let policy = approval_policy pol spec.approval.policy in
    if not (requires_gate policy Gate.uncordon)
    then true
    else is_approved (evaluate policy spec.approval Gate.uncordon).0

-- "" where no target version is set.
unfoldable pub target_version : MaintenanceSpec → String
target_version spec = elim spec.upgrade [ none ↦ "" | some u ↦ u.target_kubelet_version ]
