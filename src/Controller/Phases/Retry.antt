-- ===== src/Controller/Phases/Retry.antt =====
-- What a retry does to the nodes of a request.
use maintenance_orchestrator.Prelude.{ℕ, ◌+◌, ◌≡◌, refl, List, [], ◌∷◌, arith}
use maintenance_orchestrator.Api.Enums.{NodePhase}
use maintenance_orchestrator.Api.Status.{NodeExecutionStatus}
use maintenance_orchestrator.Controller.Nodes.{count_in_flight, count_node_phase, node_phase_eq}
use maintenance_orchestrator.Controller.Phases.Waiting.{retry_nodes}

-- A retry starts the drain of every blocked node at the same time: no node is blocked any more, and the
-- drains in flight grow by the number of the nodes that were blocked, whatever the concurrency that the
-- request and the policy allow.
pub retry_nodes_lem :
    (now : ℕ) (nodes : List NodeExecutionStatus)
    → (count_in_flight (retry_nodes now nodes)
        ≡ count_in_flight nodes + count_node_phase nodes NodePhase.blocked)
      × (count_node_phase (retry_nodes now nodes) NodePhase.blocked ≡ 0)
unfolding retry_nodes count_in_flight count_node_phase node_phase_eq
retry_nodes_lem now [] = (omega arith, refl)
retry_nodes_lem now (ns ∷ nodes) =
    let (in_flight, blocked) = retry_nodes_lem now nodes in
    (ground (arith, in_flight), ground (arith, blocked))
