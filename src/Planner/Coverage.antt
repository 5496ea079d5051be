-- ===== src/Planner/Coverage.antt =====
-- Every strategy of `BuildBatches` puts each target node into exactly one batch.
use text.Mathlib.TextEquality.{eq_iff}
use mathlib.Core.Logic.{∥∥₁_elim}
use mathlib.Core.List.Perm
use mathlib.Core.List.{
  append_assoc, append-nil, Perm, Permᴰ, Perm-prop, perm_middle, perm_append_comm,
}
use maintenance_orchestrator.Prelude.{
  ℕ, ◌+◌, ◌≤◌, ◌≡◌, refl, ap, ℤ, false, List, [], ◌∷◌, ◌++◌, map, String, All, has_key, sort,
  sort-perm, arith,
}
use maintenance_orchestrator.Api.Enums.{Strategy}
use maintenance_orchestrator.Api.Status.{Batch}
use maintenance_orchestrator.Kube.Objects.{Node}
use maintenance_orchestrator.Planner.Batches.{
  add_to, names_of, group_loop, batches_from, group, sorted_names, batched_size, build_batches,
  chunk, zone_key, pool_key,
}
use maintenance_orchestrator.Planner.Chunks.{all_nodes, IsNumbered, chunk_lem}
use maintenance_orchestrator.Planner.Groups.{
  names_with, keys, IsDistinct, all_names, keys-add_to, add_to-IsDistinct, all_names-add_to-perm,
  names_of-group_loop,
}

-- The names under each of the keys.
abbrev gather : List (String × List String) → List String → List String
gather gs [] = []
gather gs (k ∷ ks) = names_of k gs ++ gather gs ks

gather-permᴰ :
    (gs : List (String × List String)) {ks js : List String}
    → Permᴰ ks js
    → Perm (gather gs ks) (gather gs js)
gather-permᴰ gs Permᴰ.nil = Perm.rfl
gather-permᴰ gs (Permᴰ.cons {a = a} e p) =
    rw (← e) (Perm.append_left (names_of a gs) (gather-permᴰ gs p))
gather-permᴰ gs (Permᴰ.swap {a = a} {b = b} {l = l} e f) =
    rw (← e, ← f, ← append_assoc, ← append_assoc)
      (Perm.append_right (gather gs l) (perm_append_comm (names_of a gs) (names_of b gs)))
gather-permᴰ gs (Permᴰ.trans p q) = Perm.trans (gather-permᴰ gs p) (gather-permᴰ gs q)

gather-perm :
    (gs : List (String × List String)) {ks js : List String}
    → Perm ks js
    → Perm (gather gs ks) (gather gs js)
gather-perm gs p = ∥∥₁_elim p Perm-prop (gather-permᴰ gs)

-- A key that is not among `ks` may be left out.
gather_skip :
    (j : String) (ns : List String) (hs gs : List (String × List String))
    → has_key j hs ≡ false
    → gather ((j, ns) ∷ gs) (keys hs) ≡ gather gs (keys hs)
unfolding names_of
gather_skip j ns [] gs h = refl
gather_skip j ns ((i, ms) ∷ hs) gs h =
    ground (arith, gather_skip j ns hs gs, eq_iff i j, eq_iff j i)

gather-keys :
    (gs : List (String × List String)) → IsDistinct gs → gather gs (keys gs) ≡ all_names gs
unfolding names_of
gather-keys [] d = refl
gather-keys ((j, ns) ∷ gs) d =
    ground (arith, gather_skip j ns gs gs d.0, gather-keys gs d.1, eq_iff j j)

all_nodes-batches_from-perm :
    (gs : List (String × List String)) (ks : List String) (idx : ℕ)
    → Perm (all_nodes (batches_from gs ks idx)) (gather gs ks)
unfolding batches_from
all_nodes-batches_from-perm gs [] idx = Perm.rfl
all_nodes-batches_from-perm gs (k ∷ ks) idx =
    Perm.append (sort-perm (names_of k gs)) (all_nodes-batches_from-perm gs ks (idx + 1))

batches_from-IsNumbered :
    (gs : List (String × List String)) (ks : List String) (idx : ℕ)
    → IsNumbered idx (batches_from gs ks idx)
unfolding batches_from
batches_from-IsNumbered gs [] idx = tt
batches_from-IsNumbered gs (k ∷ ks) idx = (refl, batches_from-IsNumbered gs ks (idx + 1))

-- What the first loop of `group` makes of the map `gs`.
record IsGrouped (gs : List (String × List String)) (nodes : List Node)
    (r : List (String × List String) × List String) : Type 0 where
  order : r.1 ≡ keys r.0
  distinct : IsDistinct r.0
  complete : Perm (all_names r.0) (all_names gs ++ map (λ n. n.name) nodes)

module _ (key : Node → String) where
  group_loop-IsGrouped :
      (nodes : List Node) (gs : List (String × List String))
      → IsDistinct gs
      → IsGrouped gs nodes (group_loop key nodes gs (keys gs))
  unfolding group_loop
  group_loop-IsGrouped [] gs d = record {
    order = refl;
    distinct = d;
    complete = rw append-nil Perm.rfl;
  }
  group_loop-IsGrouped (n ∷ nodes) gs d =
      let k = key n in
      let g = group_loop-IsGrouped nodes (add_to k n.name gs) (add_to-IsDistinct k n.name gs d) in
      rw (← keys-add_to k n.name gs) (record {
        order = g.order;
        distinct = g.distinct;
        complete = Perm.trans g.complete (
            Perm.trans
              (Perm.append_right (map (λ n. n.name) nodes) (all_names-add_to-perm k n.name gs))
              (Perm.symm (perm_middle (all_names gs) (map (λ n. n.name) nodes))));
      })

  group-perm : (nodes : List Node) → Perm (all_nodes (group nodes key)) (map (λ n. n.name) nodes)
  unfolding group
  group-perm nodes =
      let (groups, order) = group_loop key nodes [] [] in
      let g = group_loop-IsGrouped nodes [] tt in
      Perm.trans (all_nodes-batches_from-perm groups (sort order) 0) (
        Perm.trans (gather-perm groups (sort-perm order))
          (rw (g.order, gather-keys groups g.distinct) g.complete))

  batches_from-nodes :
      (nodes : List Node) (ks : List String) (idx : ℕ)
      → All
          (λ b. b.nodes ≡ sort (names_with key b.group nodes))
          (batches_from (group_loop key nodes [] []).0 ks idx)
  unfolding batches_from names_of
  batches_from-nodes nodes [] idx = tt
  batches_from-nodes nodes (k ∷ ks) idx =
      (ap sort (names_of-group_loop key k nodes [] []), batches_from-nodes nodes ks (idx + 1))

  -- Each batch of `group` holds exactly the nodes whose key is the batch's group, sorted by name.
  pub group-nodes :
      (nodes : List Node)
      → All (λ b. b.nodes ≡ sort (names_with key b.group nodes)) (group nodes key)
  unfolding group
  group-nodes nodes = batches_from-nodes nodes (sort (group_loop key nodes [] []).1) 0

-- What a plan's batches promise.
abbrev pub Covers : List Node → List Batch → Type 0
Covers nodes batches = Perm (all_nodes batches) (map (λ n. n.name) nodes) × IsNumbered 0 batches

group-Covers : (key : Node → String) (nodes : List Node) → Covers nodes (group nodes key)
unfolding group
group-Covers key nodes =
    (group-perm key nodes, batches_from-IsNumbered _ (sort (group_loop key nodes [] []).1) 0)

chunk-Covers :
    (nodes : List Node) (size : ℕ) → 1 ≤ size → Covers nodes (chunk (sorted_names nodes) size)
unfolding sorted_names
chunk-Covers nodes size positive =
    let (all, _, numbered) = chunk_lem (sorted_names nodes) size positive in
    (rw all (sort-perm (map (λ n. n.name) nodes)), numbered)

batched_size_pos : (batch_size concurrency : ℤ) → 1 ≤ batched_size batch_size concurrency
unfolding batched_size
batched_size_pos batch_size concurrency = ground arith

-- Under every strategy the batches hold each target node's name exactly as often as it is among the
-- target nodes, and they are numbered from 0.
pub build_batches-Covers :
    (strategy : Strategy) (nodes : List Node) (batch_size concurrency : ℤ) (pool_keys : List String)
    → Covers nodes (build_batches strategy nodes batch_size concurrency pool_keys)
unfolding build_batches
build_batches-Covers Strategy.batched nodes batch_size concurrency pool_keys =
    chunk-Covers nodes (batched_size batch_size concurrency)
      (batched_size_pos batch_size concurrency)
build_batches-Covers Strategy.by_zone nodes batch_size concurrency pool_keys =
    group-Covers zone_key nodes
build_batches-Covers Strategy.by_pool nodes batch_size concurrency pool_keys =
    group-Covers (pool_key pool_keys) nodes
build_batches-Covers _ nodes batch_size concurrency pool_keys = chunk-Covers nodes 1 (omega arith)
