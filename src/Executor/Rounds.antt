-- ===== src/Executor/Rounds.antt =====
-- The accounting of an eviction round.
use maintenance_orchestrator.Prelude.{
  ℕ, ◌+◌, ◌≤◌, ◌<◌, ◌≡◌, refl, ◌⊎◌, Bool, List, [], ◌∷◌, String, arith, if◌then◌else◌,
}
use maintenance_orchestrator.Api.Enums.{BlockReason}
use maintenance_orchestrator.Kube.Objects.{Pod}
use maintenance_orchestrator.Kube.Pods.{is_evictable}
use maintenance_orchestrator.Kube.Cluster.{Env, Trace, Call, ok}
use maintenance_orchestrator.Kube.Traces.{count_calls, is_evict, is_delete_pod, is_wrong_removal}
use maintenance_orchestrator.Executor.{
  Options, EvictResult, Round, no_pods, classify, visit_pod, visit_pods, evict_once, count_blocking,
}

-- What the counters of a round promise.
pub record IsBalanced (r : Round) : Type 0 where
  pub attempts : r.evicted + r.pdb_blocked + r.evict_errors ≡ r.evictable
  pub remaining : r.evictable + r.stuck ≤ r.blocking

-- What a round that leads from `r` and the trace `t` to `s` and the trace `u` asks of the cluster:
-- one removal for each pod that it counts as evictable, by eviction or, if forced, by deletion.
pub record Removes (force : Bool) (r s : Round) (t u : Trace) : Type 0 where
  pub evictions :
      count_calls is_evict u + (if force then 0 else r.evictable)
      ≡ count_calls is_evict t + (if force then 0 else s.evictable)
  pub deletions :
      count_calls is_delete_pod u + (if force then r.evictable else 0)
      ≡ count_calls is_delete_pod t + (if force then s.evictable else 0)
  pub no_wrong_removal : count_calls is_wrong_removal u ≡ count_calls is_wrong_removal t

module _ (env : Env) (opts : Options) where
  visit_pod-IsBalanced :
      (r : Round) (pod : Pod) (t : Trace)
      → IsBalanced r
      → IsBalanced (visit_pod env opts r pod t).0
        × ((visit_pod env opts r pod t).0.blocking ≡ r.blocking + count_blocking (pod ∷ []))
  unfolding visit_pod count_blocking
  visit_pod-IsBalanced r pod t h = ground arith

  visit_pod-Removes :
      (r : Round) (pod : Pod) (t : Trace)
      → let (s, u) = visit_pod env opts r pod t in Removes opts.force r s t u
  unfolding visit_pod is_evictable
  visit_pod-Removes r pod t = ground arith

  visit_pods-IsBalanced :
      (r : Round) (pods : List Pod) (t : Trace)
      → IsBalanced r
      → IsBalanced (visit_pods env opts r pods t).0
        × ((visit_pods env opts r pods t).0.blocking ≡ r.blocking + count_blocking pods)
  unfolding visit_pods count_blocking
  visit_pods-IsBalanced r [] t h = (h, omega arith)
  visit_pods-IsBalanced r (pod ∷ pods) t h =
      let (r', t') = visit_pod env opts r pod t in
      let (balanced, counted) = visit_pod-IsBalanced r pod t h in
      let (balanced', counted') = visit_pods-IsBalanced r' pods t' balanced in
      (balanced', ground arith)

  visit_pods-Removes :
      (r : Round) (pods : List Pod) (t : Trace)
      → let (s, u) = visit_pods env opts r pods t in Removes opts.force r s t u
  unfolding visit_pods
  visit_pods-Removes r [] t = omega arith
  visit_pods-Removes r (pod ∷ pods) t =
      let (r', t') = visit_pod env opts r pod t in
      omega (arith, visit_pod-Removes r pod t, visit_pods-Removes r' pods t')

classify_shortfall :
    (blocking evictable pdb_blocked evict_errors stuck : ℕ)
    → 0 < blocking
    → 0 < pdb_blocked + evict_errors
    → let reason = (classify blocking evictable pdb_blocked evict_errors stuck).0 in
      (reason ≡ BlockReason.pdb) ⊎ (reason ≡ BlockReason.eviction_error)
unfolding classify
classify_shortfall blocking evictable pdb_blocked evict_errors stuck some_pods some_failures =
    ground arith

-- What one round of evictions on a node with the pods `pods` promises.
pub record IsRound (force : Bool) (pods : List Pod) (t u : Trace) (res : EvictResult) : Type 0 where
  -- The pods that still occupy the node, those that were to be removed, and those that were.
  pub counted : res.blocking ≡ count_blocking pods
  pub bounded : (res.evicted ≤ res.evictable) × (res.evictable ≤ res.blocking)
  -- Where a removal failed, the result says why.
  pub explained :
      (res.evicted ≡ res.evictable)
      ⊎ (res.block_reason ≡ BlockReason.pdb)
      ⊎ (res.block_reason ≡ BlockReason.eviction_error)
  -- The cluster was asked for one removal for each evictable pod, and of no other pod.
  pub asked :
      count_calls (if force then is_delete_pod else is_evict) u
      ≡ count_calls (if force then is_delete_pod else is_evict) t + res.evictable
  pub not_asked :
      count_calls (if force then is_evict else is_delete_pod) u
      ≡ count_calls (if force then is_evict else is_delete_pod) t
  pub no_wrong_removal : count_calls is_wrong_removal u ≡ count_calls is_wrong_removal t

module _ (env : Env) (opts : Options) where
  result_of : Round → EvictResult
  result_of r =
      let c = classify r.blocking r.evictable r.pdb_blocked r.evict_errors r.stuck in
      record {
        blocking = r.blocking;
        evictable = r.evictable;
        evicted = r.evicted;
        block_reason = c.0;
        message = c.1;
      }

  IsRound-result_of :
      (pods : List Pod) (r : Round) (t u : Trace)
      → IsBalanced r
      → r.blocking ≡ count_blocking pods
      → Removes opts.force no_pods r t u
      → IsRound opts.force pods t u (result_of r)
  unfolding result_of
  IsRound-result_of pods r t u balanced counted removes = record {
    counted = counted;
    bounded = omega arith;
    explained =
        ground
          (arith, classify_shortfall r.blocking r.evictable r.pdb_blocked r.evict_errors r.stuck);
    asked = ground arith;
    not_asked = ground arith;
    no_wrong_removal = removes.no_wrong_removal;
  }

-- Where the pods of a node can be listed, a round succeeds: its counters count the listed pods that
-- block the drain, at most those are tried and at most the tried are removed; it asks the cluster for
-- exactly one removal for each pod that it counts as evictable (a deletion if forced, else an
-- eviction), never for one of a DaemonSet, mirror, finished or terminating pod; and if some removal
-- failed, the block reason is PDB or EvictionError.
pub evict_once_lem :
    (env : Env) (name : String) (opts : Options) (t : Trace) (pods : List Pod)
    → env.list_pods t name ≡ ok pods
    → (res : EvictResult) × ((evict_once env name opts t).0 ≡ ok res)
      × IsRound opts.force pods t (evict_once env name opts t).1 res
unfolding evict_once result_of
evict_once_lem env name opts t pods listed =
    let t' = Call.list_pods name ∷ t in
    let (r, u) = visit_pods env opts no_pods pods t' in
    let (balanced, counted) = visit_pods-IsBalanced env opts no_pods pods t' (omega arith) in
    let removes = visit_pods-Removes env opts no_pods pods t' in
    rw (listed, evict_once)
      (
        result_of env opts r,
        refl,
        IsRound-result_of env opts pods r t u balanced (omega arith) (record {
          evictions = removes.evictions;
          deletions = removes.deletions;
          no_wrong_removal = removes.no_wrong_removal;
        }),
      )
