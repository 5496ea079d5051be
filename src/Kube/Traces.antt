-- ===== src/Kube/Traces.antt =====
-- Which calls a run made: a trace is measured by the number of its calls that satisfy a test, so
-- "the run makes no such call" reads: their number in the trace is what it was before.
use maintenance_orchestrator.Prelude.{ℕ, suc, Bool, true, false, not, ◌||◌, [], ◌∷◌, if◌then◌else◌}
use maintenance_orchestrator.Kube.Pods.{is_evictable}
use maintenance_orchestrator.Kube.Cluster.{Call, Trace}
use maintenance_orchestrator.Kube.Cluster

abbrev pub count_calls : (Call → Bool) → Trace → ℕ
count_calls p [] = 0
count_calls p (c ∷ t) = if p c then suc (count_calls p t) else count_calls p t

abbrev pub is_evict : Call → Bool
is_evict (Cluster.Call.evict pod grace) = true
is_evict _ = false

abbrev pub is_delete_pod : Call → Bool
is_delete_pod (Cluster.Call.delete_pod pod grace) = true
is_delete_pod _ = false

-- The removal of a pod that should not be asked for.
abbrev pub is_wrong_removal : Call → Bool
is_wrong_removal (Cluster.Call.evict pod grace) = not (is_evictable pod)
is_wrong_removal (Cluster.Call.delete_pod pod grace) = not (is_evictable pod)
is_wrong_removal _ = false

abbrev pub is_cordon : Call → Bool
is_cordon (Cluster.Call.patch_unschedulable name b) = b
is_cordon _ = false

abbrev pub is_uncordon : Call → Bool
is_uncordon (Cluster.Call.patch_unschedulable name b) = not b
is_uncordon _ = false

abbrev pub is_delete_machine : Call → Bool
is_delete_machine (Cluster.Call.delete_machine ref) = true
is_delete_machine _ = false

-- A call that changes a node, a pod or a Machine.
abbrev pub is_mutation : Call → Bool
is_mutation c = is_evict c || is_delete_pod c || is_cordon c || is_uncordon c || is_delete_machine c

abbrev pub is_update : Call → Bool
is_update (Cluster.Call.update_status name status) = true
is_update _ = false
