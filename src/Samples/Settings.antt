-- ===== src/Samples/Settings.antt =====
-- A configuration from the environment.
use maintenance_orchestrator.Prelude.{
  ◌≡◌, refl, ℤ, pos, ◌≤ℤ◌, true, none, Option, List, [], ◌∷◌, String, lookup,
}
use maintenance_orchestrator.Settings.{
  Config, defaults, short_duration, no_boolean, validate_config, check_durations,
}
use maintenance_orchestrator.Settings.Text.{trim_space, split_trim, parse_bool}
use maintenance_orchestrator.Settings.Load.{
  Sources, loaded, rejected, env_string, env_bool, env_int, env_duration, apply_file,
  apply_env_overrides, load,
}
use maintenance_orchestrator.Settings.Overrides.{IsOverridden, load-IsOverridden}
use maintenance_orchestrator.Controller.Config.{
  effective_global_timeout, effective_drain_timeout, effective_replacement_timeout,
}
use maintenance_orchestrator.Controller.World.{requeue_after, requeue}
use maintenance_orchestrator.Controller.Delays.{load-requeue}
use maintenance_orchestrator.Window.Text.{atoi, split_on, is_space}
use maintenance_orchestrator.Samples.Data.{spec}

abbrev durations_of : String → Option ℤ
durations_of s = lookup s (("7s", pos 7000000000) ∷ ("7", pos 7) ∷ [])

abbrev from_env : List (String × String) → Sources
from_env vars = record {
  lookup_env = λ key. lookup key vars;
  read_file = λ path. none;
  unmarshal = λ raw cfg. none;
  parse_duration = durations_of;
}

abbrev sources : Sources
sources = from_env (
    ("UI_ENABLED", " true ")
    ∷ ("RECONCILE_CONCURRENCY", "4")
    ∷ ("GLOBAL_REQUEUE_INTERVAL", "7s")
    ∷ ("DEFAULT_POOL_KEYS", "pool, zone ,,")
    ∷ [])

abbrev settings : Config
settings = record defaults {
  ui_enabled = true;
  reconcile_concurrency = pos 4;
  global_requeue_interval = pos 7000000000;
  default_pool_keys = "pool" ∷ "zone" ∷ [];
}

loads : load sources ≡ loaded settings
unfolding load apply_file apply_env_overrides env_string env_bool env_int env_duration trim_space
    split_trim parse_bool atoi split_on is_space validate_config check_durations
loads = refl

-- A number of seconds without its unit.
rejects_nanoseconds :
    load (from_env (("GLOBAL_REQUEUE_INTERVAL", "7") ∷ []))
    ≡ rejected (short_duration "globalRequeueInterval" (pos 7))
unfolding load apply_file apply_env_overrides env_string env_bool env_int env_duration trim_space
    split_trim parse_bool atoi split_on is_space validate_config check_durations
rejects_nanoseconds = refl

rejects_typos :
    load (from_env (("UI_ENABLED", "yes") ∷ [])) ≡ rejected (no_boolean "UI_ENABLED" "yes")
unfolding load apply_file apply_env_overrides env_string env_bool env_int env_duration trim_space
    split_trim parse_bool atoi split_on is_space validate_config check_durations
rejects_typos = refl

load-requeue_example :
    (pos 1 ≤ℤ effective_drain_timeout settings spec)
    × (pos 1 ≤ℤ effective_replacement_timeout settings spec)
    × (pos 1 ≤ℤ effective_global_timeout settings spec)
    × ((n : ℤ) × (requeue settings (pos 0) ≡ requeue_after n) × (pos 1 ≤ℤ n))
load-requeue_example = load-requeue sources settings spec (pos 0) loads

load-IsOverridden_example :
    (f : Config) × (apply_file sources defaults ≡ loaded f) × IsOverridden sources f settings
load-IsOverridden_example = load-IsOverridden sources settings loads
