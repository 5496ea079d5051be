-- ===== src/Samples/Plans.antt =====
-- Plans for the two nodes of the sample cluster, and the start of their execution.
use maintenance_orchestrator.Prelude.{
  ◌≤◌, ◌≡◌, pos, List, [], ◌∷◌, map, String, All, length, sort, arith,
}
use maintenance_orchestrator.Api.Enums.{Strategy, NodePhase}
use maintenance_orchestrator.Api.Status.{Batch}
use maintenance_orchestrator.Kube.Objects.{Node}
use maintenance_orchestrator.Planner.Batches.{build_batches, group, chunk, zone_key}
use maintenance_orchestrator.Planner.Chunks.{all_nodes, IsNumbered, chunk_lem}
use maintenance_orchestrator.Planner.Groups.{names_with}
use maintenance_orchestrator.Planner.Coverage.{Covers, build_batches-Covers, group-nodes}
use maintenance_orchestrator.Controller.Nodes.{
  init_node_statuses, current_batch, count_in_flight, recompute_summary,
}
use maintenance_orchestrator.Controller.Nodes.Summary.{
  entry, IsSummary, IsCurrent, init_node_statuses_lem, current_batch-IsCurrent,
  recompute_summary-IsSummary,
}
use maintenance_orchestrator.Samples.Data.{node_a, node_b, statuses}

abbrev nodes : List Node
nodes = node_b ∷ node_a ∷ []

build_batches-Covers_example :
    Covers nodes (build_batches Strategy.by_zone nodes (pos 0) (pos 2) ("pool" ∷ []))
build_batches-Covers_example =
    build_batches-Covers Strategy.by_zone nodes (pos 0) (pos 2) ("pool" ∷ [])

group-nodes_example :
    All (λ b. b.nodes ≡ sort (names_with zone_key b.group nodes)) (group nodes zone_key)
group-nodes_example = group-nodes zone_key nodes

abbrev names : List String
names = "a" ∷ "b" ∷ "c" ∷ []

chunk_lem_example :
    (all_nodes (chunk names 2) ≡ names)
    × All (λ b. (1 ≤ length b.nodes) × (length b.nodes ≤ 2)) (chunk names 2)
    × IsNumbered 0 (chunk names 2)
chunk_lem_example = chunk_lem names 2 (omega arith)

abbrev batches : List Batch
batches =
    record { index = 0; group = "z1"; nodes = "node-a" ∷ [] }
    ∷ record { index = 1; group = "z2"; nodes = "node-b" ∷ [] }
    ∷ []

init_node_statuses_lem_example :
    (map entry (init_node_statuses batches)
      ≡ ("node-a", 0, NodePhase.pending) ∷ ("node-b", 1, NodePhase.pending) ∷ [])
    × (count_in_flight (init_node_statuses batches) ≡ 0)
init_node_statuses_lem_example = init_node_statuses_lem batches

current_batch-IsCurrent_example : IsCurrent statuses (current_batch statuses)
current_batch-IsCurrent_example = current_batch-IsCurrent statuses

recompute_summary-IsSummary_example : IsSummary statuses (recompute_summary statuses)
recompute_summary-IsSummary_example = recompute_summary-IsSummary statuses
