-- ===== src/Controller/Config.antt =====
-- The timeouts of internal/controller/maintenancerequest_controller.go, from the configuration and
-- the request.
use maintenance_orchestrator.Prelude.{
  ℕ, ℤ, pos, ◌+ℤ◌, ◌-ℤ◌, ltb_ℤ, int64, Bool, false, Option, none, some, if◌then◌else◌,
}
pub use maintenance_orchestrator.Settings.{Config}
use maintenance_orchestrator.Api.Spec.{MaintenanceSpec}
use maintenance_orchestrator.Api.Status.{NodeExecutionStatus}
use maintenance_orchestrator.Kube.Cluster.{Env, M, ◌>>=◌, pure}
use maintenance_orchestrator.Kube.Calls.{clock}

unfoldable pub effective_global_timeout : Config → MaintenanceSpec → ℤ
effective_global_timeout cfg spec =
    if ltb_ℤ (pos 0) spec.global_timeout then spec.global_timeout else cfg.default_global_timeout

unfoldable pub effective_drain_timeout : Config → MaintenanceSpec → ℤ
effective_drain_timeout cfg spec =
    if ltb_ℤ (pos 0) spec.drain_timeout then spec.drain_timeout else cfg.default_drain_timeout

unfoldable pub effective_replacement_timeout : Config → MaintenanceSpec → ℤ
effective_replacement_timeout cfg spec = elim spec.upgrade [
  | none ↦ cfg.default_replacement_timeout
  | some u ↦
      if ltb_ℤ (pos 0) u.replacement_timeout
      then u.replacement_timeout
      else cfg.default_replacement_timeout
]

-- `time.Since(start) > limit`, for times less than 292 years apart; false without a start.
unfoldable pub timed_out : Env → Option ℕ → ℤ → M Bool
unfolding ◌-ℤ◌
timed_out env none limit = pure false
timed_out env (some start) limit = do now ← clock env; pure (ltb_ℤ limit (pos now -ℤ pos start))

unfoldable pub global_timed_out : Env → Config → MaintenanceSpec → Option ℕ → M Bool
unfolding timed_out
global_timed_out env cfg spec start_time =
    timed_out env start_time (effective_global_timeout cfg spec)

unfoldable pub drain_timed_out : Env → Config → MaintenanceSpec → NodeExecutionStatus → M Bool
unfolding timed_out
drain_timed_out env cfg spec ns = timed_out env ns.start_time (effective_drain_timeout cfg spec)

-- The budget of the whole node, drain and replacement.
unfoldable pub replacement_timed_out : Env → Config → MaintenanceSpec → NodeExecutionStatus → M Bool
unfolding timed_out
replacement_timed_out env cfg spec ns =
    timed_out env ns.start_time
      (int64 (effective_drain_timeout cfg spec +ℤ effective_replacement_timeout cfg spec))
