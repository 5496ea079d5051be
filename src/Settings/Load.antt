-- ===== src/Settings/Load.antt =====
-- `Load` of internal/config/config.go: the defaults, a configuration file and the environment.
use maintenance_orchestrator.Prelude.{ℤ, Bool, Option, none, some, String, if◌then◌else◌, is_empty}
use maintenance_orchestrator.Window.Text.{atoi}
use maintenance_orchestrator.Settings.{
  Config, defaults, ConfigError, read_error, parse_error, no_boolean, no_integer, no_duration,
  validate_config,
}
use maintenance_orchestrator.Settings.Text.{trim_space, split_trim, parse_bool}

-- The environment and the files, and what reads them: os.LookupEnv, os.ReadFile, yaml.Unmarshal into
-- a configuration, and time.ParseDuration, which computes with floating-point numbers.
pub record Sources : Type 0 where
  pub lookup_env : String → Option String
  pub read_file : String → Option String
  pub unmarshal : String → Config → Option Config
  pub parse_duration : String → Option ℤ

pub data Loaded {ℓ} (A : Type ℓ) : Type ℓ where
  loaded : A → Loaded A
  rejected : ConfigError → Loaded A

infixl 5 ◌>>=◌
abbrev pub ◌>>=◌ : {A B : Type 0} → Loaded A → (A → Loaded B) → Loaded B
loaded a >>= f = f a
rejected e >>= f = rejected e

-- A parsed value, or the error.
abbrev pub parsed_or : {A : Type 0} → ConfigError → Option A → Loaded A
parsed_or e none = rejected e
parsed_or e (some a) = loaded a

-- `if err := ...; err != nil { return nil, err }`, or else the configuration.
abbrev pub unless : Config → Option ConfigError → Loaded Config
unless cfg none = loaded cfg
unless cfg (some e) = rejected e

module _ (src : Sources) where
  -- os.Getenv
  abbrev get_env : String → String
  get_env key = elim (src.lookup_env key) [ none ↦ "" | some v ↦ v ]

  unfoldable pub env_string : String → String → String
  env_string key def = elim (src.lookup_env key) [ none ↦ def | some v ↦ v ]

  unfoldable pub env_bool : String → Bool → Loaded Bool
  env_bool key def = elim (src.lookup_env key) [
    | none ↦ loaded def
    | some v ↦ parsed_or (no_boolean key v) (parse_bool (trim_space v))
  ]

  unfoldable pub env_int : String → ℤ → Loaded ℤ
  env_int key def = elim (src.lookup_env key) [
    | none ↦ loaded def
    | some v ↦ parsed_or (no_integer key v) (atoi (trim_space v))
  ]

  unfoldable pub env_duration : String → ℤ → Loaded ℤ
  env_duration key def = elim (src.lookup_env key) [
    | none ↦ loaded def
    | some v ↦ parsed_or (no_duration key v) (src.parse_duration (trim_space v))
  ]

  -- No variable depends on another, so the texts are read where the record is written.
  unfoldable pub apply_env_overrides : Config → Loaded Config
  apply_env_overrides cfg = do
    ui_on ← env_bool "UI_ENABLED" cfg.ui_enabled
    election ← env_bool "LEADER_ELECTION" cfg.leader_election
    workers ← env_int "RECONCILE_CONCURRENCY" cfg.reconcile_concurrency
    poll ← env_duration "EVICTION_POLL_INTERVAL" cfg.eviction_poll_interval
    requeue ← env_duration "GLOBAL_REQUEUE_INTERVAL" cfg.global_requeue_interval
    drain ← env_duration "DEFAULT_DRAIN_TIMEOUT" cfg.default_drain_timeout
    global ← env_duration "DEFAULT_GLOBAL_TIMEOUT" cfg.default_global_timeout
    replacement ← env_duration "DEFAULT_REPLACEMENT_TIMEOUT" cfg.default_replacement_timeout
    events ← env_bool "ENABLE_K8S_EVENTS" cfg.enable_k8s_events
    let keys = get_env "DEFAULT_POOL_KEYS"
    loaded (record {
      metrics_addr = env_string "METRICS_ADDR" cfg.metrics_addr;
      probe_addr = env_string "PROBE_ADDR" cfg.probe_addr;
      ui_enabled = ui_on;
      ui_addr = env_string "UI_ADDR" cfg.ui_addr;
      leader_election = election;
      leader_election_id = env_string "LEADER_ELECTION_ID" cfg.leader_election_id;
      reconcile_concurrency = workers;
      eviction_poll_interval = poll;
      global_requeue_interval = requeue;
      default_drain_timeout = drain;
      default_global_timeout = global;
      default_replacement_timeout = replacement;
      log_level = env_string "LOG_LEVEL" cfg.log_level;
      log_format = env_string "LOG_FORMAT" cfg.log_format;
      enable_k8s_events = events;
      default_policy_name = env_string "DEFAULT_POLICY_NAME" cfg.default_policy_name;
      audit_export_path = env_string "AUDIT_EXPORT_PATH" cfg.audit_export_path;
      default_pool_keys = if is_empty keys then cfg.default_pool_keys else split_trim keys;
    })

  -- The configuration file, where there is one.
  unfoldable pub apply_file : Config → Loaded Config
  apply_file cfg =
      let path = get_env "CONFIG_FILE" in
      if is_empty path then loaded cfg else (do
        raw ← parsed_or (read_error path) (src.read_file path)
        parsed_or (parse_error path) (src.unmarshal raw cfg))

  unfoldable pub load : Loaded Config
  load = do
    from_file ← apply_file defaults
    cfg ← apply_env_overrides from_file
    unless cfg (validate_config cfg)
