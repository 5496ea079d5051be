-- ===== src/Planner/Batches.antt =====
-- `BuildBatches`, `chunk` and `group` of planner.go. `chunk` runs on fuel, one turn for each name,
-- which is enough as each turn passes at least one name (Planner/Chunks). A batch index counts
-- batches, so it is an ℕ.
use maintenance_orchestrator.Prelude.{
  ℕ, zero, suc, ◌+◌, ◌-◌, ℤ, pos, pos_part, ltb_ℤ, none, some, List, [], ◌∷◌, ◌++◌, map, String,
  ltb, if◌then◌else◌, length, take, drop, is_empty, str_eq, has_key, sort,
}
use maintenance_orchestrator.Api.Enums.{Strategy}
use maintenance_orchestrator.Api.Status.{Batch}
use maintenance_orchestrator.Kube.Objects.{Node}
use maintenance_orchestrator.Kube.Nodes.{node_zone, pool_value}

unfoldable pub sorted_names : List Node → List String
unfolding sort
sorted_names nodes = sort (map (λ n. n.name) nodes)

-- The `for` loop of `chunk`, from position `i` and batch index `idx`.
unfoldable pub chunk_loop : (fuel : ℕ) → List String → (size i idx : ℕ) → List Batch
chunk_loop zero names size i idx = []
chunk_loop (suc fuel) names size i idx =
    let end = if ltb (length names) (i + size) then length names else i + size in
    let rest = chunk_loop fuel names size (i + size) (idx + 1) in
    if ltb i (length names)
    then record { index = idx; group = ""; nodes = take (end - i) (drop i names) } ∷ rest
    else []

unfoldable pub chunk : List String → (size : ℕ) → List Batch
unfolding chunk_loop
chunk names size = chunk_loop (length names) names size 0 0

-- The map `groups` of `group`: `groups[k] = append(groups[k], name)`.
unfoldable pub add_to : String → String → List (String × List String) → List (String × List String)
add_to k name [] = (k, name ∷ []) ∷ []
add_to k name ((j, ns) ∷ gs) =
    if str_eq j k then (j, ns ++ name ∷ []) ∷ gs else (j, ns) ∷ add_to k name gs

-- `groups[k]`
unfoldable pub names_of : String → List (String × List String) → List String
names_of k [] = []
names_of k ((j, ns) ∷ gs) = if str_eq j k then ns else names_of k gs

-- The first loop of `group`: the map, and its keys in the order of their first node.
unfoldable pub group_loop :
    (Node → String)
    → List Node
    → List (String × List String)
    → List String
    → List (String × List String) × List String
unfolding add_to
group_loop key [] groups order = (groups, order)
group_loop key (n ∷ nodes) groups order =
    let k = key n in
    group_loop key nodes (add_to k n.name groups)
      (if has_key k groups then order else order ++ k ∷ [])

-- The second loop of `group`: a batch for each key.
unfoldable pub batches_from : List (String × List String) → List String → ℕ → List Batch
unfolding names_of sort
batches_from groups [] idx = []
batches_from groups (k ∷ order) idx =
    record { index = idx; group = k; nodes = sort (names_of k groups) }
    ∷ batches_from groups order (idx + 1)

unfoldable pub group : List Node → (Node → String) → List Batch
unfolding group_loop batches_from
group nodes key =
    let (groups, order) = group_loop key nodes [] [] in batches_from groups (sort order) 0

unfoldable pub zone_key : Node → String
unfolding node_zone
zone_key n = if is_empty (node_zone n) then "unzoned" else node_zone n

unfoldable pub pool_key : List String → Node → String
unfolding pool_value
pool_key pool_keys n = elim (pool_value n pool_keys) [ none ↦ "unpooled" | some (k, v) ↦ v ]

-- The batch size of the strategy Batched: the request's, or the concurrency, or 1.
unfoldable pub batched_size : (batch_size concurrency : ℤ) → ℕ
batched_size batch_size concurrency =
    let size = if ltb_ℤ batch_size (pos 1) then concurrency else batch_size in
    let size' = if ltb_ℤ size (pos 1) then pos 1 else size in pos_part size'

unfoldable pub build_batches :
    Strategy → List Node → (batch_size concurrency : ℤ) → List String → List Batch
unfolding chunk sorted_names group zone_key pool_key batched_size
build_batches Strategy.batched nodes batch_size concurrency pool_keys =
    chunk (sorted_names nodes) (batched_size batch_size concurrency)
build_batches Strategy.by_zone nodes batch_size concurrency pool_keys = group nodes zone_key
build_batches Strategy.by_pool nodes batch_size concurrency pool_keys =
    group nodes (pool_key pool_keys)
build_batches _ nodes batch_size concurrency pool_keys = chunk (sorted_names nodes) 1
