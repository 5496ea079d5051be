-- ===== src/Kube/Pods.antt =====
-- The predicates on pods of internal/kube/pods.go.
use maintenance_orchestrator.Prelude.{
  Bool, true, false, not, ◌&&◌, ◌||◌, none, some, String, any, str_eq, has_key,
}
use maintenance_orchestrator.Kube.Objects.{Pod}

abbrev pub annotation_mirror_pod : String
annotation_mirror_pod = "kubernetes.io/config.mirror"

unfoldable pub is_daemon_set_pod : Pod → Bool
is_daemon_set_pod pod = elim pod.controller [
  | none ↦ false
  | some ctrl ↦ str_eq ctrl.kind "DaemonSet"
]

unfoldable pub is_mirror_pod : Pod → Bool
is_mirror_pod pod = has_key annotation_mirror_pod pod.annotations

unfoldable pub is_terminating : Pod → Bool
is_terminating pod = elim pod.deletion_timestamp [ none ↦ false | some _ ↦ true ]

unfoldable pub is_terminated : Pod → Bool
is_terminated pod = str_eq pod.phase "Succeeded" || str_eq pod.phase "Failed"

unfoldable pub has_empty_dir : Pod → Bool
has_empty_dir pod = any (λ v. v.empty_dir) pod.volumes

unfoldable pub has_host_path : Pod → Bool
has_host_path pod = any (λ v. v.host_path) pod.volumes

-- The pod still occupies its node.
unfoldable pub is_drain_blocking : Pod → Bool
unfolding is_daemon_set_pod is_mirror_pod is_terminated
is_drain_blocking pod =
    not (is_daemon_set_pod pod) && not (is_mirror_pod pod) && not (is_terminated pod)

-- The controller should ask for the pod's eviction.
unfoldable pub is_evictable : Pod → Bool
unfolding is_drain_blocking is_terminating
is_evictable pod = is_drain_blocking pod && not (is_terminating pod)
