-- ===== src/Policy/Limits.antt =====
-- Bounds on what the guardrails of policy.go answer.
use maintenance_orchestrator.Prelude.{
  ℕ, ◌≤◌, ◌*◌, ◌/◌, ◌≡◌, refl, ℤ, pos, pos_part, ◌≤ℤ◌, ◌*ℤ◌, quot, int32, int32_fits, pos-*ℤ-pos,
  ◌==◌, if◌then◌else◌, arith,
}
use Prim.Native.Nat.{max, min}
use maintenance_orchestrator.Api.Spec.{MaintenancePolicySpec}
use maintenance_orchestrator.Policy.{Effective, with_defaults, max_unavailable, concurrency}

-- A defaulted policy has a positive concurrency and failure threshold, and filling in the defaults a
-- second time changes nothing.
pub with_defaults_lem :
    (spec : MaintenancePolicySpec)
    → (pos 1 ≤ℤ (with_defaults spec).max_concurrent_drains)
      × (pos 1 ≤ℤ (with_defaults spec).failure_threshold)
      × (with_defaults (with_defaults spec) ≡ with_defaults spec)
unfolding with_defaults
with_defaults_lem spec = (ground arith, ground arith, ground arith)

-- Under a positive cap the effective concurrency is the lesser of the cap and of what was requested,
-- where a request below 1 counts as 1.
concurrency_lem :
    (e : Effective) (requested : ℤ) (cap : ℕ)
    → e.spec.max_concurrent_drains ≡ pos cap
    → 1 ≤ cap
    → concurrency e requested ≡ pos (min (max 1 (pos_part requested)) cap)
unfolding concurrency
concurrency_lem e requested cap h positive = ground arith

-- The percentage cap of policies that do not overflow an int32.
share_lem : (n p : ℕ) → n * p ≤ 2147483647 → quot (int32 (pos n *ℤ pos p)) 100 ≡ pos (n * p / 100)
unfolding quot
share_lem n p h = rw (pos-*ℤ-pos n p, int32_fits (n * p) h) refl

-- For caps that are not negative, and a product of the node count and the percentage that fits an
-- int32: the limit is the least of the node count and of the caps that are on (not 0), where the
-- percentage cap counts as at least 1, and it is at least 1.
pub max_unavailable_lem :
    (e : Effective) (n a p : ℕ)
    → e.spec.max_unavailable_nodes ≡ pos a
    → e.spec.max_unavailable_percent ≡ pos p
    → n * p ≤ 2147483647
    → max_unavailable e (pos n)
      ≡ pos (
          max 1 (min (min n (if a == 0 then n else a)) (if p == 0 then n else max 1 (n * p / 100))))
unfolding max_unavailable
max_unavailable_lem e n a p ha hp h = rw (ha, hp, share_lem n p h) (ground arith)
