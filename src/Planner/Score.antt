-- ===== src/Planner/Score.antt =====
-- `Score` of planner.go. The int32 sums and products wrap as in Go.
use Prim.Native.Nat.{min}
use maintenance_orchestrator.Prelude.{
  ℕ, zero, suc, ◌+◌, ◌*◌, ltb, leb, refl, pos-+ℤ-pos, pos-*ℤ-pos, int32_fits, ◌≤◌, ◌≡◌, ℤ, pos,
  ◌+ℤ◌, ◌*ℤ◌, ◌≤ℤ◌, ltb_ℤ, leb_ℤ, int32, Bool, true, false, List, [], ◌∷◌, ◌++◌, if◌then◌else◌,
  arith,
}
use maintenance_orchestrator.Api.Status.{
  ImpactEstimate, RiskFactor, control_plane_nodes, single_replica, empty_dir, concurrent_drains,
  nodes_in_scope, pods_to_evict,
}

abbrev Scored : Type 0
Scored = ℤ × List RiskFactor

-- `score += points` and `factors = append(factors, f)`.
unfoldable pub add_risk : Scored → ℤ → RiskFactor → Scored
unfolding int32
add_risk s points f = (int32 (s.0 +ℤ points), s.1 ++ f ∷ [])

-- The same under a condition.
unfoldable pub risk_if : Bool → Scored → ℤ → RiskFactor → Scored
unfolding add_risk
risk_if b s points f = if b then add_risk s points f else s

-- `count * weight`, at most `most`.
unfoldable pub capped : ℤ → ℤ → ℤ → ℤ
unfolding int32
capped count weight most = let add = int32 (count *ℤ weight) in if ltb_ℤ most add then most else add

unfoldable pub clamp_score : ℤ → ℤ
clamp_score s =
    let s' = if ltb_ℤ (pos 100) s then pos 100 else s in if ltb_ℤ s' (pos 0) then pos 0 else s'

-- The switch on the number of nodes; the second case adds no factor.
unfoldable pub add_nodes : Scored → (total_nodes : ℤ) → Scored
unfolding add_risk int32
add_nodes s total_nodes =
    if leb_ℤ (pos 5) total_nodes
    then add_risk s (pos 15) (nodes_in_scope total_nodes)
    else if leb_ℤ (pos 2) total_nodes
    then (int32 (s.0 +ℤ pos 5), s.1)
    else s

unfoldable pub score : (total_nodes : ℤ) → ImpactEstimate → Bool → (concurrency : ℤ) → Scored
unfolding risk_if capped add_nodes clamp_score
score total_nodes impact control_plane concurrency =
    let single = impact.single_replica_workloads in
    let dirs = impact.empty_dir_pods in
    let evict = impact.pods_to_evict in
    let s1 = risk_if control_plane (pos 0, []) (pos 30) control_plane_nodes in
    let s2 =
      risk_if (ltb_ℤ (pos 0) single) s1 (capped single (pos 10) (pos 30)) (single_replica single) in
    let s3 = risk_if (ltb_ℤ (pos 0) dirs) s2 (capped dirs (pos 5) (pos 20)) (empty_dir dirs) in
    let s4 = risk_if (ltb_ℤ (pos 1) concurrency) s3 (pos 10) (concurrent_drains concurrency) in
    let s5 = add_nodes s4 total_nodes in
    let s6 = risk_if (leb_ℤ (pos 50) evict) s5 (pos 10) (pods_to_evict evict) in
    (clamp_score s6.0, s6.1)

clamp_score_bounds : (s : ℤ) → (pos 0 ≤ℤ clamp_score s) × (clamp_score s ≤ℤ pos 100)
unfolding clamp_score
clamp_score_bounds s = (ground arith, ground arith)

-- The score lies between 0 and 100, whatever the int32 sums wrap to.
pub score_bounds :
    (total : ℤ) (impact : ImpactEstimate) (control_plane : Bool) (concurrency : ℤ)
    → let s = (score total impact control_plane concurrency).0 in (pos 0 ≤ℤ s) × (s ≤ℤ pos 100)
unfolding score
score_bounds total impact control_plane concurrency = search clamp_score_bounds

add_risk_fits :
    (s : Scored) (a b : ℕ) (f : RiskFactor)
    → s.0 ≡ pos a
    → a + b ≤ 2147483647
    → (add_risk s (pos b) f).0 ≡ pos (a + b)
unfolding add_risk
add_risk_fits s a b f e h = rw (e, pos-+ℤ-pos a b, int32_fits (a + b) h) refl

capped_fits :
    (count weight most : ℕ)
    → count * weight ≤ 2147483647
    → capped (pos count) (pos weight) (pos most) ≡ pos (min (count * weight) most)
unfolding capped
capped_fits count weight most h =
    rw (pos-*ℤ-pos count weight, int32_fits (count * weight) h) (ground arith)

risk_if_fits :
    (c : Bool) (s : Scored) (a b : ℕ) (f : RiskFactor)
    → s.0 ≡ pos a
    → a + b ≤ 2147483647
    → (risk_if c s (pos b) f).0 ≡ pos (a + (if c then b else 0))
unfolding risk_if
risk_if_fits true s a b f e h = add_risk_fits s a b f e h
risk_if_fits false s a b f e h = rw e (ground arith)

add_nodes_fits :
    (s : Scored) (a total : ℕ)
    → s.0 ≡ pos a
    → a + 15 ≤ 2147483647
    → (add_nodes s (pos total)).0
      ≡ pos (a + (if leb 5 total then 15 else if leb 2 total then 5 else 0))
unfolding add_nodes
add_nodes_fits s a total e h = ground (
  arith,
  e,
  add_risk_fits s a 15 (nodes_in_scope (pos total)) e,
  pos-+ℤ-pos a 5,
  int32_fits (a + 5),
)

choice_le : (c : Bool) (n : ℕ) → (if c then n else 0) ≤ n
choice_le c n = ground arith

abbrev node_points : ℕ → ℕ
node_points total = if leb 5 total then 15 else if leb 2 total then 5 else 0

nodes_le : (total : ℕ) → node_points total ≤ 15
nodes_le total = ground arith

clamp_sum : (m n : ℕ) → m ≡ n → clamp_score (pos m) ≡ pos (min n 100)
unfolding clamp_score
clamp_sum m n e = ground arith

weight_eq : (n w m : ℕ) → (if ltb_ℤ (pos 0) (pos n) then min (n * w) m else 0) ≡ min (n * w) m
weight_eq zero w m = omega arith
weight_eq (suc n) w m = ground arith

abbrev ten_if : Bool → ℕ
ten_if b = if b then 10 else 0

above_eq : (n : ℕ) → ten_if (ltb_ℤ (pos 1) (pos n)) ≡ ten_if (ltb 1 n)
above_eq n = ground arith

from_eq : (n : ℕ) → ten_if (leb_ℤ (pos 50) (pos n)) ≡ ten_if (leb 50 n)
from_eq n = ground arith

-- The points of a plan, before the limit of 100.
abbrev points : (total single dirs evict concurrency : ℕ) → Bool → ℕ
points total single dirs evict concurrency control_plane =
    (if control_plane then 30 else 0)
    + min (single * 10) 30
    + min (dirs * 5) 20
    + (if ltb 1 concurrency then 10 else 0)
    + (if leb 5 total then 15 else if leb 2 total then 5 else 0)
    + (if leb 50 evict then 10 else 0)

-- The same with the tests as the code makes them.
abbrev tested_points : (total single dirs evict concurrency : ℕ) → Bool → ℕ
tested_points total single dirs evict concurrency control_plane =
    0
    + (if control_plane then 30 else 0)
    + (if ltb_ℤ (pos 0) (pos single) then min (single * 10) 30 else 0)
    + (if ltb_ℤ (pos 0) (pos dirs) then min (dirs * 5) 20 else 0)
    + (if ltb_ℤ (pos 1) (pos concurrency) then 10 else 0)
    + (if leb 5 total then 15 else if leb 2 total then 5 else 0)
    + (if leb_ℤ (pos 50) (pos evict) then 10 else 0)

-- Where the weighted counts fit an int32, the score is the sum of these points: 30 for a
-- control-plane node, 10 for each single-replica workload up to 30, 5 for each emptyDir pod up to 20,
-- 10 for concurrent drains, 5 or 15 for 2 or 5 nodes and more, 10 for 50 pods and more; at most 100.
pub score_lem :
    (total single dirs evict apps concurrency : ℕ) (control_plane : Bool)
    → single * 10 ≤ 2147483647
    → dirs * 5 ≤ 2147483647
    → (score
        (pos total)
        (record {
          pods_to_evict = pos evict;
          apps_affected = pos apps;
          single_replica_workloads = pos single;
          empty_dir_pods = pos dirs;
        })
        control_plane
        (pos concurrency)).0
      ≡ pos (min (points total single dirs evict concurrency control_plane) 100)
unfolding score
score_lem total single dirs evict apps concurrency control_plane h k =
    let l1 = choice_le control_plane 30 in
    let l2 = choice_le (ltb_ℤ (pos 0) (pos single)) (min (single * 10) 30) in
    let l3 = choice_le (ltb_ℤ (pos 0) (pos dirs)) (min (dirs * 5) 20) in
    let l4 = choice_le (ltb_ℤ (pos 1) (pos concurrency)) 10 in
    let l5 = nodes_le total in
    let r0 : Scored = (pos 0, []) in
    let r1 = risk_if control_plane r0 (pos 30) control_plane_nodes in
    let r2 =
      risk_if (ltb_ℤ (pos 0) (pos single)) r1 (pos (min (single * 10) 30))
        (single_replica (pos single)) in
    let r3 =
      risk_if (ltb_ℤ (pos 0) (pos dirs)) r2 (pos (min (dirs * 5) 20)) (empty_dir (pos dirs)) in
    let r4 =
      risk_if (ltb_ℤ (pos 1) (pos concurrency)) r3 (pos 10) (concurrent_drains (pos concurrency)) in
    let s1 = risk_if_fits control_plane r0 0 30 control_plane_nodes refl (omega arith) in
    let s2 =
      risk_if_fits (ltb_ℤ (pos 0) (pos single)) r1 _ (min (single * 10) 30)
        (single_replica (pos single)) s1 (omega (arith, l1)) in
    let s3 =
      risk_if_fits (ltb_ℤ (pos 0) (pos dirs)) r2 _ (min (dirs * 5) 20) (empty_dir (pos dirs)) s2
        (omega (arith, l1, l2)) in
    let s4 =
      risk_if_fits (ltb_ℤ (pos 1) (pos concurrency)) r3 _ 10 (concurrent_drains (pos concurrency))
        s3 (omega (arith, l1, l2, l3)) in
    let s5 = add_nodes_fits r4 _ total s4 (omega (arith, l1, l2, l3, l4)) in
    let s6 =
      risk_if_fits (leb_ℤ (pos 50) (pos evict)) (add_nodes r4 (pos total)) _ 10
        (pods_to_evict (pos evict)) s5 (omega (arith, l1, l2, l3, l4, l5)) in
    rw (capped_fits single 10 30 h, capped_fits dirs 5 20 k, s6)
      (clamp_sum (tested_points total single dirs evict concurrency control_plane)
        (points total single dirs evict concurrency control_plane)
        (omega (
          arith,
          weight_eq single 10 30,
          weight_eq dirs 5 20,
          above_eq concurrency,
          from_eq evict,
        )))
