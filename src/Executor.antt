-- ===== src/Executor.antt =====
-- internal/executor/executor.go: cordon, one round of evictions, uncordon, and node replacement.
-- The counters of a round count pods of a list, so they are ℕ.
pub mod Rounds
pub mod Effects
use maintenance_orchestrator.Prelude.{
  ℕ, suc, ◌+◌, ◌*◌, ℤ, pos, ◌+ℤ◌, ◌*ℤ◌, ltb_ℤ, int64, Bool, true, false, not, List, [], ◌∷◌, Option,
  none, some, String, if◌then◌else◌, ltb, ◌==◌,
}
use maintenance_orchestrator.Api.Enums.{MachineApi, BlockReason}
use maintenance_orchestrator.Kube.Objects.{Node, Pod}
use maintenance_orchestrator.Kube.Pods.{is_drain_blocking, is_terminating}
use maintenance_orchestrator.Kube.Cluster.{
  Env, M, ◌>>=◌, ◌>>◌, pure, ask, Error, Result, ok, err, MachineRef,
}
use maintenance_orchestrator.Kube.Cluster
use maintenance_orchestrator.Kube.Calls
use maintenance_orchestrator.Kube.Calls.{
  get_node, list_pods_on_node, evict, delete_machine, find_machine, clock, classify_eviction_error,
}

-- time.Second, in nanoseconds.
abbrev pub second : ℕ
second = 1000000000

abbrev pub stuck_grace_slack : ℕ
stuck_grace_slack = 30 * second

abbrev pub default_grace_period : ℤ
default_grace_period = pos 30

pub record Options : Type 0 where
  pub force : Bool
  pub grace_period_seconds : Option ℤ
  pub now : ℕ

pub record EvictResult : Type 0 where
  pub blocking : ℕ
  pub evictable : ℕ
  pub evicted : ℕ
  pub block_reason : BlockReason
  pub message : String

-- The counters of `EvictOnce`: those of the result, and the three local ones.
pub record Round : Type 0 where
  pub blocking : ℕ
  pub evictable : ℕ
  pub evicted : ℕ
  pub pdb_blocked : ℕ
  pub evict_errors : ℕ
  pub stuck : ℕ

abbrev pub no_pods : Round
no_pods = record {
  blocking = 0;
  evictable = 0;
  evicted = 0;
  pdb_blocked = 0;
  evict_errors = 0;
  stuck = 0;
}

-- A terminating pod that is past its grace period and the slack.
unfoldable pub terminating_too_long : Pod → ℕ → Bool
unfolding int64 ◌+ℤ◌ ◌*ℤ◌
terminating_too_long pod now = elim pod.deletion_timestamp [
  | none ↦ false
  | some at ↦
      let grace : ℤ = elim pod.deletion_grace_period_seconds [
        | none ↦ default_grace_period
        | some g ↦ g
      ] in
      let wait = int64 (int64 (grace *ℤ pos second) +ℤ pos stuck_grace_slack) in
      ltb_ℤ (pos at +ℤ wait) (pos now)
]

-- The block reason of a round, and its message.
unfoldable pub classify :
    (blocking evictable pdb_blocked evict_errors stuck : ℕ) → BlockReason × String
classify blocking evictable pdb_blocked evict_errors stuck =
    if blocking == 0
    then (BlockReason.no_reason, "")
    else if ltb 0 pdb_blocked
    then (BlockReason.pdb, "eviction denied by a PodDisruptionBudget")
    else if ltb 0 evict_errors
    then (BlockReason.eviction_error, "the eviction API returned errors")
    else if ltb 0 stuck
    then (BlockReason.stuck_termination, "pods are stuck terminating past their grace period")
    else if evictable == 0
    then (BlockReason.no_reason, "waiting for pods to terminate")
    else (BlockReason.no_reason, "eviction in progress")

-- The error branch of the loop: what one failed removal counts as.
unfoldable pub count_failure : Round → Error → Round
unfolding classify_eviction_error
count_failure r e = elim (classify_eviction_error e) [
  | BlockReason.pdb ↦ record r { pdb_blocked = r.pdb_blocked + 1 }
  | BlockReason.no_reason ↦ record r { evicted = r.evicted + 1 }
  | _ ↦ record r { evict_errors = r.evict_errors + 1 }
]

module _ (env : Env) where
  unfoldable pub cordon : String → M (Result (Unit {0}))
  unfolding Calls.get_node Calls.cordon
  cordon name = do
    r ← get_node env name
    elim r [ err e ↦ pure (err e) | ok node ↦ Calls.cordon env node ]

  -- A missing node is a no-op.
  unfoldable pub uncordon : String → M (Result (Unit {0}))
  unfolding Calls.get_node Calls.uncordon
  uncordon name = do
    r ← get_node env name
    elim r [
      | ok node ↦ Calls.uncordon env node
      | err e ↦ elim e [ Error.not_found ↦ pure (ok tt) | failure ↦ pure (err failure) ]
    ]

  -- `none` stands for Go's `found = false`. Where the deletion fails Go returns the ref beside the
  -- error; its caller reads the error only.
  unfoldable pub replace : String → MachineApi → M (Result (Option MachineRef))
  unfolding Calls.get_node Calls.find_machine Calls.delete_machine
  replace name api = do
    r ← get_node env name
    elim r [
      | err e ↦ elim e [ Error.not_found ↦ pure (ok none) | failure ↦ pure (err failure) ]
      | ok node ↦ do
        f ← find_machine env node api
        elim f [
          | err e ↦ pure (err e)
          | ok found ↦ elim found [
            | none ↦ pure (ok none)
            | some ref ↦ do
              d ← delete_machine env ref
              pure (elim d [ err e ↦ err e | ok _ ↦ ok (some ref) ])
          ]
        ]
    ]

  unfoldable pub node_gone : String → M (Result Bool)
  unfolding Calls.get_node
  node_gone name = do
    r ← get_node env name
    pure (elim r [
      | ok _ ↦ ok false
      | err e ↦ elim e [ Error.not_found ↦ ok true | failure ↦ err failure ]
    ])

  -- The delete of a forced removal: a missing pod is a success.
  force_delete : Pod → Option ℤ → M (Result (Unit {0}))
  force_delete pod grace_period_seconds = do
    let grace : ℤ = elim grace_period_seconds [ none ↦ pos 0 | some g ↦ g ]
    r ← ask (Cluster.Call.delete_pod pod grace) (λ t. env.delete_pod t pod grace)
    pure (elim r [
      | ok _ ↦ ok tt
      | err e ↦ elim e [ Error.not_found ↦ ok tt | failure ↦ err failure ]
    ])

  -- Evicts a pod, or deletes it where `force` is set.
  unfoldable pub remove_pod : Pod → Options → M (Result (Unit {0}))
  unfolding Calls.evict force_delete
  remove_pod pod opts =
      if opts.force
      then force_delete pod opts.grace_period_seconds
      else evict env pod opts.grace_period_seconds

  -- The body of the loop of `EvictOnce`.
  unfoldable pub visit_pod : Options → Round → Pod → M Round
  unfolding is_drain_blocking is_terminating remove_pod count_failure
  visit_pod opts r pod =
      if not (is_drain_blocking pod)
      then pure r
      else let r' = record r { blocking = r.blocking + 1 } in
        if is_terminating pod
        then pure
            (if terminating_too_long pod opts.now then record r' { stuck = r'.stuck + 1 } else r')
        else let s = record r' { evictable = r'.evictable + 1 } in
          (do
            removed ← remove_pod pod opts
            pure (elim removed [
              | err e ↦ count_failure s e
              | ok _ ↦ record s { evicted = s.evicted + 1 }
            ]))

  unfoldable pub visit_pods : Options → Round → List Pod → M Round
  visit_pods opts r [] = pure r
  visit_pods opts r (pod ∷ pods) = do r' ← visit_pod opts r pod; visit_pods opts r' pods

  -- One round of evictions on a node. `opts.now` is never Go's zero time here.
  unfoldable pub evict_once : String → Options → M (Result EvictResult)
  unfolding Calls.list_pods_on_node visit_pods
  evict_once name opts = do
    listed ← list_pods_on_node env name
    elim listed [
      | err e ↦ pure (err e)
      | ok pods ↦ do
        r ← visit_pods opts no_pods pods
        let (reason, message) = classify r.blocking r.evictable r.pdb_blocked r.evict_errors r.stuck
        pure (
            ok (record {
              blocking = r.blocking;
              evictable = r.evictable;
              evicted = r.evicted;
              block_reason = reason;
              message = message;
            }))
    ]

-- The number of pods that still occupy their node.
unfoldable pub count_blocking : List Pod → ℕ
count_blocking [] = 0
count_blocking (pod ∷ pods) =
    if is_drain_blocking pod then count_blocking pods + 1 else count_blocking pods

unfoldable pub drained : Env → String → M (Result (Bool × ℕ))
unfolding Calls.list_pods_on_node count_blocking
drained env name = do
  listed ← list_pods_on_node env name
  pure
      (elim listed [ err e ↦ err e | ok pods ↦ ok (count_blocking pods == 0, count_blocking pods) ])
