-- ===== src/Controller/Delays.antt =====
-- The delays and timeouts under a configuration that was loaded.
use maintenance_orchestrator.Prelude.{
  ◌≡◌, ℤ, pos, ◌≤ℤ◌, leb_ℤ, ltb_ℤ, Bool-cases, Option-cases, arith, inl, inr, if◌then◌else◌,
}
use maintenance_orchestrator.Api.Spec.{MaintenanceSpec}
use maintenance_orchestrator.Settings.{Config}
use maintenance_orchestrator.Settings.Load.{Sources, loaded, load}
use maintenance_orchestrator.Settings.Validity.{IsValidConfig, validate_config_lem, load-cases}
use maintenance_orchestrator.Controller.Config.{
  effective_global_timeout, effective_drain_timeout, effective_replacement_timeout,
}
use maintenance_orchestrator.Controller.World.{requeue_after, requeue}

-- A setting of a request counts where it is positive.
positive_or :
    (requested default : ℤ)
    → pos 1 ≤ℤ default
    → pos 1 ≤ℤ (if ltb_ℤ (pos 0) requested then requested else default)
positive_or requested default h = elim (Bool-cases (ltb_ℤ (pos 0) requested)) [
  | inl e ↦ ground (arith, e, h)
  | inr e ↦ ground (arith, e, h)
]

replacement_lem :
    (cfg : Config) (spec : MaintenanceSpec)
    → pos 1 ≤ℤ cfg.default_replacement_timeout
    → pos 1 ≤ℤ effective_replacement_timeout cfg spec
unfolding effective_replacement_timeout
replacement_lem cfg spec h = elim (Option-cases spec.upgrade) [
  | inl e ↦ rw e h
  | inr (u, e) ↦ rw e (positive_or u.replacement_timeout cfg.default_replacement_timeout h)
]

requeue_lem :
    (cfg : Config) (d : ℤ)
    → pos 1 ≤ℤ cfg.global_requeue_interval
    → (n : ℤ) × (requeue cfg d ≡ requeue_after n) × (pos 1 ≤ℤ n)
unfolding requeue
requeue_lem cfg d h = elim (Bool-cases (leb_ℤ d (pos 0))) [
  | inl e ↦ (cfg.global_requeue_interval, ground (arith, e), h)
  | inr e ↦ (d, ground (arith, e), ground (arith, e))
]

-- Under every configuration that is loaded, whatever the request and the delay asked for, the drain,
-- replacement and global timeouts are positive, and a requeue waits for a positive time.
pub load-requeue :
    (src : Sources) (cfg : Config) (spec : MaintenanceSpec) (d : ℤ)
    → load src ≡ loaded cfg
    → (pos 1 ≤ℤ effective_drain_timeout cfg spec)
      × (pos 1 ≤ℤ effective_replacement_timeout cfg spec)
      × (pos 1 ≤ℤ effective_global_timeout cfg spec)
      × ((n : ℤ) × (requeue cfg d ≡ requeue_after n) × (pos 1 ≤ℤ n))
unfolding effective_drain_timeout effective_global_timeout
load-requeue src cfg spec d e =
    let (_, _, _, h) = load-cases src cfg e in
    let valid : IsValidConfig cfg = validate_config_lem cfg h in
    (
      positive_or spec.drain_timeout cfg.default_drain_timeout (ground (arith, valid.drain)),
      replacement_lem cfg spec (ground (arith, valid.replacement)),
      positive_or spec.global_timeout cfg.default_global_timeout (ground (arith, valid.global)),
      requeue_lem cfg d (ground (arith, valid.requeue)),
    )
