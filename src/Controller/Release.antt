-- ===== src/Controller/Release.antt =====
-- `releaseCordonedNodes` of internal/controller/execute.go: what a request that is aborted does with
-- the nodes that it cordoned. A failure is only logged.
pub mod Effects
use maintenance_orchestrator.Prelude.{List, [], ◌∷◌, String}
use maintenance_orchestrator.Api.Spec.{MaintenanceSpec}
use maintenance_orchestrator.Api.Status.{NodeExecutionStatus}
use maintenance_orchestrator.Kube.Cluster
use maintenance_orchestrator.Kube.Cluster.{Env, M, ◌>>=◌, ◌>>◌, pure, tell, ok, err, Action}
use maintenance_orchestrator.Executor
use maintenance_orchestrator.Executor.{uncordon}
use maintenance_orchestrator.Controller.Nodes.{nodes_to_release}

module _ (env : Env) where
  -- The body of the loop.
  unfoldable pub release_node : String → M (Unit {0})
  unfolding Executor.uncordon
  release_node name = do
    r ← Executor.uncordon env name
    elim r [ err e ↦ pure tt | ok _ ↦ tell (Cluster.Call.audit Action.node_uncordoned name) ]

  unfoldable pub release_nodes : List String → M (Unit {0})
  unfolding release_node
  release_nodes [] = pure tt
  release_nodes (name ∷ names) = do release_node name; release_nodes names

  unfoldable pub release_cordoned_nodes : MaintenanceSpec → List NodeExecutionStatus → M (Unit {0})
  unfolding release_nodes nodes_to_release
  release_cordoned_nodes spec nodes = release_nodes (nodes_to_release spec nodes)
