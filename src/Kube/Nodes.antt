-- ===== src/Kube/Nodes.antt =====
-- The predicates on nodes of internal/kube/nodes.go and machines.go.
use maintenance_orchestrator.Prelude.{
  Bool, true, false, not, ◌&&◌, ◌||◌, Option, none, some, List, [], ◌∷◌, String, if◌then◌else◌, any,
  str_eq, is_empty, has, has_key, lookup, lookup_text,
}
use maintenance_orchestrator.Kube.Objects.{Node, NodeCondition}

abbrev pub label_zone : String
label_zone = "topology.kubernetes.io/zone"

abbrev pub annotation_mco_state : String
annotation_mco_state = "machineconfiguration.openshift.io/state"

abbrev pub annotation_mco_current : String
annotation_mco_current = "machineconfiguration.openshift.io/currentConfig"

abbrev pub annotation_mco_desired : String
annotation_mco_desired = "machineconfiguration.openshift.io/desiredConfig"

unfoldable pub has_any_label : Node → List String → Bool
has_any_label node [] = false
has_any_label node (k ∷ ks) = has_key k node.labels || has_any_label node ks

unfoldable pub is_control_plane : Node → List String → Bool
is_control_plane node [] = false
is_control_plane node (k ∷ ks) = has_key k node.labels || is_control_plane node ks

unfoldable pub has_any_taint : Node → List String → Bool
has_any_taint node keys = any (λ t. has t.key keys) node.taints

-- The loop over the conditions: the first one of type Ready decides.
unfoldable pub ready_in : List NodeCondition → Bool
ready_in [] = false
ready_in (c ∷ cs) = if str_eq c.type "Ready" then str_eq c.status "True" else ready_in cs

unfoldable pub is_ready : Node → Bool
unfolding ready_in
is_ready node = ready_in node.conditions

unfoldable pub node_zone : Node → String
node_zone node = lookup_text label_zone node.labels

-- The first pool key of the list that the node carries with a value.
unfoldable pub pool_value : Node → List String → Option (String × String)
pool_value node [] = none
pool_value node (k ∷ ks) =
    let rest = pool_value node ks in
    elim (lookup k node.labels) [ none ↦ rest | some v ↦ if is_empty v then rest else some (k, v) ]

-- `curOK && desOK && cur != des`
unfoldable pub config_differs : Option String → Option String → Bool
config_differs (some cur) (some des) = not (str_eq cur des)
config_differs _ _ = false

unfoldable pub is_mco_managed : Node → Bool
unfolding config_differs
is_mco_managed node =
    let state = lookup_text annotation_mco_state node.annotations in
    if not (is_empty state) && not (str_eq state "Done")
    then true
    else config_differs (lookup annotation_mco_current node.annotations)
        (lookup annotation_mco_desired node.annotations)

unfoldable pub kubelet_version : Node → String
kubelet_version node = node.kubelet_version
