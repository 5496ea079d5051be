-- ===== src/Kube/Calls.antt =====
-- The calls of internal/kube (nodes.go, pods.go, eviction.go, machines.go) to the API server.
use maintenance_orchestrator.Prelude.{
  ℕ, ◌+◌, ℤ, Bool, true, false, not, ◌&&◌, ◌||◌, List, [], ◌∷◌, Option, none, some, String,
  if◌then◌else◌, is_empty, str_eq, lookup_text,
}
use maintenance_orchestrator.Api.Enums.{MachineApi, BlockReason}
use maintenance_orchestrator.Kube.Objects.{Node, Pod, Machine, GroupVersionKind}
use maintenance_orchestrator.Kube.Nodes.{is_ready, kubelet_version}
use maintenance_orchestrator.Kube.Cluster.{
  Env, M, ◌>>=◌, ◌>>◌, pure, ask, Error, Result, ok, err, MachineRef,
}
use maintenance_orchestrator.Kube.Cluster
use maintenance_orchestrator.Kube.Text.{split_namespaced_name}

abbrev pub ann_open_shift_machine : String
ann_open_shift_machine = "machine.openshift.io/machine"

abbrev pub ann_cluster_api_machine : String
ann_cluster_api_machine = "cluster.x-k8s.io/machine"

abbrev pub gvk_open_shift_machine : GroupVersionKind
gvk_open_shift_machine = record {
  group = "machine.openshift.io";
  version = "v1beta1";
  kind = "Machine";
}

abbrev pub gvk_cluster_api_machine : GroupVersionKind
gvk_cluster_api_machine = record {
  group = "cluster.x-k8s.io";
  version = "v1beta1";
  kind = "Machine";
}

-- The empty GVK comes with `false` in Go: here `none`.
unfoldable pub machine_gvk : MachineApi → Option GroupVersionKind
machine_gvk MachineApi.open_shift = some gvk_open_shift_machine
machine_gvk MachineApi.cluster_api = some gvk_cluster_api_machine
machine_gvk _ = none

unfoldable pub infer_machine_api : Node → Option MachineApi
infer_machine_api node =
    if not (is_empty (lookup_text ann_open_shift_machine node.annotations))
    then some MachineApi.open_shift
    else if not (is_empty (lookup_text ann_cluster_api_machine node.annotations))
    then some MachineApi.cluster_api
    else none

-- The Machine API of a node; any preference but the two concrete ones is inferred from the node.
unfoldable pub resolve_machine_api : Node → MachineApi → Option MachineApi
unfolding infer_machine_api
resolve_machine_api node MachineApi.open_shift = some MachineApi.open_shift
resolve_machine_api node MachineApi.cluster_api = some MachineApi.cluster_api
resolve_machine_api node _ = infer_machine_api node

unfoldable pub classify_eviction_error : Error → BlockReason
classify_eviction_error Error.not_found = BlockReason.no_reason
classify_eviction_error Error.too_many_requests = BlockReason.pdb
classify_eviction_error _ = BlockReason.eviction_error

unfoldable pub ready_at_version : String → List Node → ℕ
ready_at_version version [] = 0
ready_at_version version (n ∷ ns) =
    if is_ready n && str_eq (kubelet_version n) version
    then ready_at_version version ns + 1
    else ready_at_version version ns

-- `node.Spec.ProviderID != "" && pid == node.Spec.ProviderID || nodeRef == node.Name`
unfoldable pub backs : Node → Machine → Bool
backs node m =
    not (is_empty node.provider_id) && str_eq m.provider_id node.provider_id
    || str_eq m.node_ref node.name

-- The loop over the listed Machines.
unfoldable pub backing_machine : GroupVersionKind → Node → List Machine → Option MachineRef
unfolding backs
backing_machine gvk node [] = none
backing_machine gvk node (m ∷ ms) =
    if backs node m
    then some (record { gvk = gvk; namespace = m.namespace; name = m.name })
    else backing_machine gvk node ms

module _ (env : Env) where
  unfoldable pub get_node : String → M (Result Node)
  get_node name = ask (Cluster.Call.get_node name) (λ t. env.get_node t name)

  -- The patch sets `spec.unschedulable`; a node that has the value already is left alone.
  unfoldable pub cordon : Node → M (Result (Unit {0}))
  cordon node =
      if node.unschedulable
      then pure (ok tt)
      else ask (Cluster.Call.patch_unschedulable node.name true)
          (λ t. env.patch_unschedulable t node.name true)

  unfoldable pub uncordon : Node → M (Result (Unit {0}))
  uncordon node =
      if not node.unschedulable
      then pure (ok tt)
      else ask (Cluster.Call.patch_unschedulable node.name false)
          (λ t. env.patch_unschedulable t node.name false)

  unfoldable pub list_pods_on_node : String → M (Result (List Pod))
  list_pods_on_node name = ask (Cluster.Call.list_pods name) (λ t. env.list_pods t name)

  unfoldable pub list_all_nodes : M (Result (List Node))
  list_all_nodes = ask Cluster.Call.list_nodes (λ t. env.list_nodes t)

  unfoldable pub evict : Pod → Option ℤ → M (Result (Unit {0}))
  evict pod grace = ask (Cluster.Call.evict pod grace) (λ t. env.evict t pod grace)

  -- A missing Machine is a no-op.
  unfoldable pub delete_machine : MachineRef → M (Result (Unit {0}))
  delete_machine ref = do
    r ← ask (Cluster.Call.delete_machine ref) (λ t. env.delete_machine t ref)
    pure (elim r [
      | ok _ ↦ ok tt
      | err e ↦ elim e [ Error.not_found ↦ ok tt | failure ↦ err failure ]
    ])

  -- The Machines of a kind are listed; a cluster without the kind has none.
  list_backing : GroupVersionKind → Node → M (Result (Option MachineRef))
  unfolding backing_machine
  list_backing gvk node = do
    r ← ask (Cluster.Call.list_machines gvk) (λ t. env.list_machines t gvk)
    pure (elim r [
      | ok ms ↦ ok (backing_machine gvk node ms)
      | err e ↦ elim e [
        | Error.not_found ↦ ok none
        | Error.no_match ↦ ok none
        | failure ↦ err failure
      ]
    ])

  -- `FindMachine` for a resolved API: OpenShift's annotation names the Machine by itself.
  find_machine_of : Node → MachineApi → GroupVersionKind → M (Result (Option MachineRef))
  unfolding list_backing
  find_machine_of node MachineApi.open_shift gvk =
      elim (split_namespaced_name (lookup_text ann_open_shift_machine node.annotations)) [
        | some (ns, name) ↦ pure (ok (some (record { gvk = gvk; namespace = ns; name = name })))
        | none ↦ list_backing gvk node
      ]
  find_machine_of node api gvk = list_backing gvk node

  unfoldable pub find_machine : Node → MachineApi → M (Result (Option MachineRef))
  unfolding find_machine_of resolve_machine_api machine_gvk
  find_machine node pref = elim (resolve_machine_api node pref) [
    | none ↦ pure (ok none)
    | some api ↦ elim (machine_gvk api) [
      | none ↦ pure (ok none)
      | some gvk ↦ find_machine_of node api gvk
    ]
  ]

  unfoldable pub count_ready_nodes_at_version : String → M (Result ℕ)
  unfolding list_all_nodes ready_at_version
  count_ready_nodes_at_version version = do
    r ← list_all_nodes
    pure (elim r [ ok ns ↦ ok (ready_at_version version ns) | err e ↦ err e ])

  unfoldable pub clock : M ℕ
  clock = ask Cluster.Call.read_clock (λ t. env.now t)
