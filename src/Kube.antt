-- ===== src/Kube.antt =====
-- internal/kube: the objects of a cluster, the predicates on them, and the calls to the API server.
pub mod Objects
pub mod Nodes
pub mod Pods
pub mod Cluster
pub mod Text
pub mod Calls
pub mod Traces
pub mod Workloads
pub mod Capacity
pub mod Budgets
