-- ===== src/Kube/Text.antt =====
-- The texts that internal/kube takes apart and renders.
use Prim.Native.String.{◌++◌}
use maintenance_orchestrator.Prelude.{
  ◌||◌, Option, none, some, String, if◌then◌else◌, is_empty, cut,
}
use maintenance_orchestrator.Kube.Cluster.{MachineRef}

-- `splitNamespacedName`: strings.SplitN(s, "/", 2) into two parts that are not empty.
unfoldable pub split_namespaced_name : String → Option (String × String)
unfolding cut
split_namespaced_name s = elim (cut b'/' s) [
  | none ↦ none
  | some (ns, name) ↦ if is_empty ns || is_empty name then none else some (ns, name)
]

-- `MachineRef.String`
unfoldable pub machine_ref_string : MachineRef → String
machine_ref_string r =
    if is_empty r.namespace
    then r.gvk.kind ++ (" " ++ r.name)
    else r.gvk.kind ++ (" " ++ (r.namespace ++ ("/" ++ r.name)))
