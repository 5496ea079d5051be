-- ===== src/Kube/Capacity.antt =====
-- internal/kube/capacity.go and `PodRequests` of pods.go. The arithmetic of resource.Quantity is a
-- parameter: `add` on quantities, and its two roundings to an int64.
use maintenance_orchestrator.Prelude.{
  ◌≤ℤ◌, arith, ℤ, pos, negsuc, ◌-ℤ◌, ◌*ℤ◌, leb_ℤ, ltb_ℤ, int64, quot, pos_part, Bool, true, not,
  ◌&&◌, ◌||◌, List, [], ◌∷◌, Option, none, some, String, if◌then◌else◌, has, Bool-cases, inl, inr,
}
use maintenance_orchestrator.Kube.Objects.{Node, Pod, Container, Quantity}
use maintenance_orchestrator.Kube.Nodes.{is_ready}
use maintenance_orchestrator.Kube.Pods.{is_terminated, is_evictable}
use maintenance_orchestrator.Kube.Cluster
use maintenance_orchestrator.Kube.Cluster.{Env, M, ◌>>=◌, pure, ask, Result, ok, err}
use maintenance_orchestrator.Kube.Calls
use maintenance_orchestrator.Kube.Calls.{list_all_nodes}

pub record Quantities : Type 0 where
  pub add : Quantity → Quantity → Quantity
  pub milli_value : Quantity → ℤ
  pub value : Quantity → ℤ

-- CPU and memory.
pub record Resources : Type 0 where
  pub cpu : Quantity
  pub memory : Quantity

abbrev pub no_resources : Resources
no_resources = record { cpu = pos 0; memory = pos 0 }

abbrev clamp : ℤ → ℤ
clamp p =
    let p' = if ltb_ℤ (pos 100) p then pos 100 else p in
    if ltb_ℤ p' (negsuc 99) then negsuc 99 else p'

-- The share of the allocatable amount that is free, in percent, from -100 to 100.
unfoldable pub percent_free : (allocatable demand : ℤ) → ℤ
unfolding int64 ◌-ℤ◌ ◌*ℤ◌ quot
percent_free allocatable demand =
    if leb_ℤ allocatable (pos 0)
    then pos 0
    else clamp (quot (int64 (int64 (allocatable -ℤ demand) *ℤ pos 100)) (pos_part allocatable))

abbrev lesser : ℤ → ℤ → ℤ
lesser a b = if ltb_ℤ a b then a else b

module _ (q : Quantities) where
  unfoldable pub add_containers : Resources → List Container → Resources
  add_containers r [] = r
  add_containers r (c ∷ cs) =
      add_containers (record { cpu = q.add r.cpu c.cpu; memory = q.add r.memory c.memory }) cs

  unfoldable pub pod_requests : Pod → Resources
  unfolding add_containers
  pod_requests pod = add_containers no_resources pod.containers

  -- Whether the node counts as capacity after the removal; without a selector every label does.
  abbrev pub remains :
      (removal : List String) → Option (List (String × String) → Bool) → Node → Bool
  remains removal matches n =
      not (has n.name removal || n.unschedulable || not (is_ready n))
      && elim matches [ none ↦ true | some m ↦ m n.labels ]

  -- The first loop: the allocatable amounts, and the names of the nodes that remain.
  unfoldable pub capacity_loop :
      (removal : List String)
      → Option (List (String × String) → Bool)
      → Resources
      → List String
      → List Node
      → Resources × List String
  unfolding is_ready
  capacity_loop removal matches r names [] = (r, names)
  capacity_loop removal matches r names (n ∷ ns) =
      let continue =
        λ (r' : Resources) (names' : List String). capacity_loop removal matches r' names' ns in
      if remains removal matches n
      then continue
          (record {
            cpu = q.add r.cpu n.allocatable_cpu;
            memory = q.add r.memory n.allocatable_memory;
          })
          (n.name ∷ names)
      else continue r names

  -- Whether the pod demands capacity on the nodes that remain.
  abbrev pub demands : (removal remaining : List String) → Pod → Bool
  demands removal remaining p =
      not (is_terminated p)
      && (has p.node_name remaining || has p.node_name removal && is_evictable p)

  unfoldable pub demand_loop : (removal remaining : List String) → Resources → List Pod → Resources
  unfolding is_terminated is_evictable pod_requests
  demand_loop removal remaining r [] = r
  demand_loop removal remaining r (p ∷ ps) =
      let requests = pod_requests p in
      let sum : Resources = record {
        cpu = q.add r.cpu requests.cpu;
        memory = q.add r.memory requests.memory;
      } in
      demand_loop removal remaining (if demands removal remaining p then sum else r) ps

  -- The lesser of the free shares of CPU and memory.
  unfoldable pub least_free : (alloc demand : Resources) → ℤ
  unfolding percent_free
  least_free alloc demand =
      lesser (percent_free (q.value alloc.memory) (q.value demand.memory))
        (percent_free (q.milli_value alloc.cpu) (q.milli_value demand.cpu))

  unfoldable pub headroom :
      (removal : List String) → Option (List (String × String) → Bool) → List Node → List Pod → ℤ
  unfolding capacity_loop demand_loop least_free
  headroom removal matches nodes pods =
      let (alloc, remaining) = capacity_loop removal matches no_resources [] nodes in
      let demand = demand_loop removal remaining no_resources pods in least_free alloc demand

  -- Of the report only the headroom is read.
  unfoldable pub compute_headroom :
      Env → (removal : List String) → Option (List (String × String) → Bool) → M (Result ℤ)
  unfolding Calls.list_all_nodes headroom
  compute_headroom env removal matches = do
    r ← list_all_nodes env
    elim r [
      | err e ↦ pure (err e)
      | ok nodes ↦ do
        listed ← ask Cluster.Call.list_all_pods (λ t. env.list_all_pods t)
        pure (elim listed [ ok pods ↦ ok (headroom removal matches nodes pods) | err e ↦ err e ])
    ]

abbrev IsPercentage : ℤ → Type 0
IsPercentage p = (negsuc 99 ≤ℤ p) × (p ≤ℤ pos 100)

clamp-IsPercentage : (p : ℤ) → IsPercentage (clamp p)
clamp-IsPercentage p = ground arith

percent_free-IsPercentage :
    (allocatable demand : ℤ) → IsPercentage (percent_free allocatable demand)
unfolding percent_free
percent_free-IsPercentage allocatable demand = elim (Bool-cases (leb_ℤ allocatable (pos 0))) [
  | inl e ↦ rw e (omega arith, omega arith)
  | inr e ↦ rw e (
      clamp-IsPercentage
        (quot (int64 (int64 (allocatable -ℤ demand) *ℤ pos 100)) (pos_part allocatable)))
]

lesser-IsPercentage : (a b : ℤ) → IsPercentage a → IsPercentage b → IsPercentage (lesser a b)
lesser-IsPercentage a b (a_low, a_high) (b_low, b_high) = ground arith

least_free-IsPercentage :
    (q : Quantities) (alloc demand : Resources) → IsPercentage (least_free q alloc demand)
unfolding least_free
least_free-IsPercentage q alloc demand =
    let memory = percent_free-IsPercentage (q.value alloc.memory) (q.value demand.memory) in
    let cpu = percent_free-IsPercentage (q.milli_value alloc.cpu) (q.milli_value demand.cpu) in
    lesser-IsPercentage _ _ memory cpu

-- The headroom of the nodes that remain is a percentage from -100 to 100, whatever the quantities.
headroom_bounds :
    (q : Quantities) (removal : List String) (matches : Option (List (String × String) → Bool))
    (nodes : List Node) (pods : List Pod)
    → (negsuc 99 ≤ℤ headroom q removal matches nodes pods)
      × (headroom q removal matches nodes pods ≤ℤ pos 100)
unfolding headroom
headroom_bounds q removal matches nodes pods =
    let (alloc, remaining) = capacity_loop q removal matches no_resources [] nodes in
    least_free-IsPercentage q alloc (demand_loop q removal remaining no_resources pods)
