-- ===== src/Settings/Overrides.antt =====
-- The environment variables of `Load`.
use maintenance_orchestrator.Prelude.{◌≡◌, subst, Option, none, some, String}
use maintenance_orchestrator.Window.Text.{atoi}
use maintenance_orchestrator.Settings.{
  Config, defaults, ConfigError, no_boolean, no_integer, no_duration,
}
use maintenance_orchestrator.Settings.Text.{trim_space, parse_bool}
use maintenance_orchestrator.Settings.Load.{
  Sources, loaded, parsed_or, env_bool, env_int, env_duration, apply_file, apply_env_overrides,
  load,
}
use maintenance_orchestrator.Settings.Validity.{bind-loaded, load-cases}

-- Where the variable is set, `value` is what its text is parsed to; else it is the default.
pub Taken : {A : Type 0} → (String → Option A) → (def value : A) → Option String → Type 0
Taken parse def value none = value ≡ def
Taken parse def value (some v) = parse (trim_space v) ≡ some value

-- The settings of `c` that are not texts are taken from the environment or else from `f`.
pub record IsOverridden (src : Sources) (f c : Config) : Type 0 where
  pub ui_enabled : Taken parse_bool f.ui_enabled c.ui_enabled (src.lookup_env "UI_ENABLED")
  pub leader_election :
      Taken parse_bool f.leader_election c.leader_election (src.lookup_env "LEADER_ELECTION")
  pub workers :
      Taken atoi f.reconcile_concurrency c.reconcile_concurrency
        (src.lookup_env "RECONCILE_CONCURRENCY")
  pub poll :
      Taken src.parse_duration f.eviction_poll_interval c.eviction_poll_interval
        (src.lookup_env "EVICTION_POLL_INTERVAL")
  pub requeue :
      Taken src.parse_duration f.global_requeue_interval c.global_requeue_interval
        (src.lookup_env "GLOBAL_REQUEUE_INTERVAL")
  pub drain :
      Taken src.parse_duration f.default_drain_timeout c.default_drain_timeout
        (src.lookup_env "DEFAULT_DRAIN_TIMEOUT")
  pub global :
      Taken src.parse_duration f.default_global_timeout c.default_global_timeout
        (src.lookup_env "DEFAULT_GLOBAL_TIMEOUT")
  pub replacement :
      Taken src.parse_duration f.default_replacement_timeout c.default_replacement_timeout
        (src.lookup_env "DEFAULT_REPLACEMENT_TIMEOUT")
  pub events :
      Taken parse_bool f.enable_k8s_events c.enable_k8s_events (src.lookup_env "ENABLE_K8S_EVENTS")

parsed_or-loaded :
    {A : Type 0} (problem : ConfigError) (o : Option A) (value : A)
    → parsed_or problem o ≡ loaded value
    → o ≡ some value
parsed_or-loaded problem none value e = absurd (cc)
parsed_or-loaded problem (some a) value e = cc

taken :
    {A : Type 0} (parse : String → Option A) (problem : String → ConfigError) (def value : A)
    (o : Option String)
    → (elim o [ none ↦ loaded def | some v ↦ parsed_or (problem v) (parse (trim_space v)) ])
      ≡ loaded value
    → Taken parse def value o
unfolding Taken
taken parse problem def value none e = cc
taken parse problem def value (some v) e =
    parsed_or-loaded (problem v) (parse (trim_space v)) value e

loaded-injective : {A : Type 0} (a b : A) → loaded a ≡ loaded b → a ≡ b
loaded-injective a b e = cc

apply_env_overrides-IsOverridden :
    (src : Sources) (f c : Config) → apply_env_overrides src f ≡ loaded c → IsOverridden src f c
unfolding apply_env_overrides env_bool env_int env_duration
apply_env_overrides-IsOverridden src f c e0 =
    let (ui_on, h1, e1) = bind-loaded (env_bool src "UI_ENABLED" f.ui_enabled) _ c e0 in
    let (election, h2, e2) =
      bind-loaded (env_bool src "LEADER_ELECTION" f.leader_election) _ c e1 in
    let (workers, h3, e3) =
      bind-loaded (env_int src "RECONCILE_CONCURRENCY" f.reconcile_concurrency) _ c e2 in
    let (poll, h4, e4) =
      bind-loaded (env_duration src "EVICTION_POLL_INTERVAL" f.eviction_poll_interval) _ c e3 in
    let (requeue, h5, e5) =
      bind-loaded (env_duration src "GLOBAL_REQUEUE_INTERVAL" f.global_requeue_interval) _ c e4 in
    let (drain, h6, e6) =
      bind-loaded (env_duration src "DEFAULT_DRAIN_TIMEOUT" f.default_drain_timeout) _ c e5 in
    let (global, h7, e7) =
      bind-loaded (env_duration src "DEFAULT_GLOBAL_TIMEOUT" f.default_global_timeout) _ c e6 in
    let (replacement, h8, e8) =
      bind-loaded (env_duration src "DEFAULT_REPLACEMENT_TIMEOUT" f.default_replacement_timeout) _ c
        e7 in
    let (events, h9, e9) =
      bind-loaded (env_bool src "ENABLE_K8S_EVENTS" f.enable_k8s_events) _ c e8 in
    subst (IsOverridden src f) (loaded-injective _ c e9) (record {
      ui_enabled = taken parse_bool (no_boolean "UI_ENABLED") f.ui_enabled ui_on _ h1;
      leader_election =
          taken parse_bool (no_boolean "LEADER_ELECTION") f.leader_election election _ h2;
      workers =
          taken atoi (no_integer "RECONCILE_CONCURRENCY") f.reconcile_concurrency workers _ h3;
      poll =
          taken src.parse_duration (no_duration "EVICTION_POLL_INTERVAL") f.eviction_poll_interval
            poll _ h4;
      requeue =
          taken src.parse_duration (no_duration "GLOBAL_REQUEUE_INTERVAL") f.global_requeue_interval
            requeue _ h5;
      drain =
          taken src.parse_duration (no_duration "DEFAULT_DRAIN_TIMEOUT") f.default_drain_timeout
            drain _ h6;
      global =
          taken src.parse_duration (no_duration "DEFAULT_GLOBAL_TIMEOUT") f.default_global_timeout
            global _ h7;
      replacement =
          taken src.parse_duration (no_duration "DEFAULT_REPLACEMENT_TIMEOUT")
            f.default_replacement_timeout replacement _ h8;
      events = taken parse_bool (no_boolean "ENABLE_K8S_EVENTS") f.enable_k8s_events events _ h9;
    })

-- When a configuration is loaded, each environment variable for a number, a truth value or a duration
-- that is set was parsed, after trimming, and the configuration holds its value: a malformed variable
-- is never ignored. A variable that is not set leaves the setting of the defaults and the file.
pub load-IsOverridden :
    (src : Sources) (c : Config)
    → load src ≡ loaded c
    → (f : Config) × (apply_file src defaults ≡ loaded f) × IsOverridden src f c
load-IsOverridden src c e =
    let (f, file, env, _) = load-cases src c e in
    (f, file, apply_env_overrides-IsOverridden src f c env)
