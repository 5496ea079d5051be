-- ===== src/Settings.antt =====
-- internal/config/config.go: the configuration of the controller manager.
pub mod Text
pub mod Load
pub mod Validity
pub mod Overrides
use maintenance_orchestrator.Prelude.{
  ℤ, pos, ltb_ℤ, Bool, true, false, not, ◌&&◌, ◌||◌, Option, none, some, List, [], ◌∷◌, String,
  if◌then◌else◌, str_eq, is_empty,
}
use maintenance_orchestrator.Settings.Text.{trim_space}

-- Durations in nanoseconds.
pub record Config : Type 0 where
  pub metrics_addr : String
  pub probe_addr : String
  pub ui_enabled : Bool
  pub ui_addr : String
  pub leader_election : Bool
  pub leader_election_id : String
  pub reconcile_concurrency : ℤ
  pub eviction_poll_interval : ℤ
  pub global_requeue_interval : ℤ
  pub default_drain_timeout : ℤ
  pub default_global_timeout : ℤ
  pub default_replacement_timeout : ℤ
  pub log_level : String
  pub log_format : String
  pub enable_k8s_events : Bool
  pub default_policy_name : String
  pub audit_export_path : String
  pub default_pool_keys : List String

abbrev pub defaults : Config
defaults = record {
  metrics_addr = ":8080";
  probe_addr = ":8081";
  ui_enabled = false;
  ui_addr = ":8082";
  leader_election = true;
  leader_election_id = "maintenance-orchestrator.maintenance.platform.dev";
  reconcile_concurrency = pos 2;
  eviction_poll_interval = pos 5000000000;
  global_requeue_interval = pos 30000000000;
  default_drain_timeout = pos 900000000000;
  default_global_timeout = pos 7200000000000;
  default_replacement_timeout = pos 1200000000000;
  log_level = "info";
  log_format = "json";
  enable_k8s_events = true;
  default_policy_name = "cluster-default";
  audit_export_path = "";
  default_pool_keys =
      "machine.openshift.io/cluster-api-machineset" ∷ "eks.amazonaws.com/nodegroup"
      ∷ "cloud.google.com/gke-nodepool" ∷ "agentpool" ∷ "karpenter.sh/nodepool" ∷ [];
}

-- The key and the value of a variable, the name and the value of a duration.
pub data ConfigError : Type 0 where
  read_error parse_error : String → ConfigError
  no_boolean no_integer no_duration : String → String → ConfigError
  unknown_log_format unknown_log_level : String → ConfigError
  low_concurrency : ℤ → ConfigError
  short_duration : String → ℤ → ConfigError
  no_policy_name no_ui_addr : ConfigError

-- time.Second
abbrev pub second : ℤ
second = pos 1000000000

abbrev pub is_log_format : String → Bool
is_log_format s = str_eq s "json" || str_eq s "console"

abbrev pub is_log_level : String → Bool
is_log_level s = str_eq s "debug" || str_eq s "info" || str_eq s "warn" || str_eq s "error"

abbrev pub durations : Config → List (String × ℤ)
durations c =
    ("evictionPollInterval", c.eviction_poll_interval)
    ∷ ("globalRequeueInterval", c.global_requeue_interval)
    ∷ ("defaultDrainTimeout", c.default_drain_timeout)
    ∷ ("defaultGlobalTimeout", c.default_global_timeout)
    ∷ ("defaultReplacementTimeout", c.default_replacement_timeout)
    ∷ []

-- What follows the loop is the last argument.
unfoldable pub check_durations : List (String × ℤ) → Option ConfigError → Option ConfigError
check_durations [] rest = rest
check_durations ((name, val) ∷ ds) rest =
    let later = check_durations ds rest in
    if ltb_ℤ val second then some (short_duration name val) else later

abbrev pub check_names : Config → Option ConfigError
check_names c =
    if is_empty (trim_space c.default_policy_name)
    then some no_policy_name
    else if c.ui_enabled && is_empty (trim_space c.ui_addr)
    then some no_ui_addr
    else none

-- The first problem that is found.
unfoldable pub validate_config : Config → Option ConfigError
validate_config c =
    if not (is_log_format c.log_format)
    then some (unknown_log_format c.log_format)
    else if not (is_log_level c.log_level)
    then some (unknown_log_level c.log_level)
    else if ltb_ℤ c.reconcile_concurrency (pos 1)
    then some (low_concurrency c.reconcile_concurrency)
    else check_durations (durations c) (check_names c)
