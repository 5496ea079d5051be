-- ===== src/Settings/Validity.antt =====
-- What a configuration that was loaded guarantees.
use maintenance_orchestrator.Prelude.{
  ◌≡◌, refl, ap, subst, ◌∙◌, ℤ, pos, ◌≤ℤ◌, ltb_ℤ, Bool, true, false, not, ◌&&◌, Option, none, some,
  List, [], ◌∷◌, String, arith, is_empty, if◌then◌else◌,
}
use maintenance_orchestrator.Settings.{
  Config, defaults, ConfigError, second, is_log_format, is_log_level, check_durations, check_names,
  durations, validate_config,
}
use maintenance_orchestrator.Settings.Text.{trim_space}
use maintenance_orchestrator.Settings.Load.{
  Sources, Loaded, loaded, rejected, ◌>>=◌, unless, apply_file, apply_env_overrides, load,
}

-- A configuration that the controllers can run on.
pub record IsValidConfig (c : Config) : Type 0 where
  pub log_format : is_log_format c.log_format ≡ true
  pub log_level : is_log_level c.log_level ≡ true
  pub workers : pos 1 ≤ℤ c.reconcile_concurrency
  pub poll : second ≤ℤ c.eviction_poll_interval
  pub requeue : second ≤ℤ c.global_requeue_interval
  pub drain : second ≤ℤ c.default_drain_timeout
  pub global : second ≤ℤ c.default_global_timeout
  pub replacement : second ≤ℤ c.default_replacement_timeout
  pub policy_name : is_empty (trim_space c.default_policy_name) ≡ false
  pub ui_addr : c.ui_enabled && is_empty (trim_space c.ui_addr) ≡ false

-- A chain of tests that finds nothing: each test is false.
refused_if-none :
    (b : Bool) (problem : ConfigError) (rest : Option ConfigError)
    → (if b then some problem else rest) ≡ none
    → (b ≡ false) × (rest ≡ none)
refused_if-none true problem rest e = absurd (cc)
refused_if-none false problem rest e = (refl, e)

not-false : (b : Bool) → not b ≡ false → b ≡ true
not-false true e = refl
not-false false e = absurd (cc)

check_duration-none :
    (name : String) (val : ℤ) (ds : List (String × ℤ)) (rest : Option ConfigError)
    → check_durations ((name, val) ∷ ds) rest ≡ none
    → (second ≤ℤ val) × (check_durations ds rest ≡ none)
unfolding check_durations
check_duration-none name val ds rest e =
    let (h, e') = refused_if-none (ltb_ℤ val second) _ _ e in (ground (arith, h), e')

check_nothing : (rest : Option ConfigError) → check_durations [] rest ≡ none → rest ≡ none
unfolding check_durations
check_nothing rest e = e

check_names-none :
    (c : Config)
    → check_names c ≡ none
    → (is_empty (trim_space c.default_policy_name) ≡ false)
      × (c.ui_enabled && is_empty (trim_space c.ui_addr) ≡ false)
check_names-none c e =
    let (name, e') = refused_if-none (is_empty (trim_space c.default_policy_name)) _ _ e in
    let (addr, _) = refused_if-none (c.ui_enabled && is_empty (trim_space c.ui_addr)) _ _ e' in
    (name, addr)

before_durations :
    (c : Config)
    → validate_config c ≡ none
    → (is_log_format c.log_format ≡ true)
      × (is_log_level c.log_level ≡ true)
      × (pos 1 ≤ℤ c.reconcile_concurrency)
      × (check_durations (durations c) (check_names c) ≡ none)
unfolding validate_config
before_durations c e =
    let (format, e1) = refused_if-none (not (is_log_format c.log_format)) _ _ e in
    let (level, e2) = refused_if-none (not (is_log_level c.log_level)) _ _ e1 in
    let (workers, e3) = refused_if-none (ltb_ℤ c.reconcile_concurrency (pos 1)) _ _ e2 in
    (not-false _ format, not-false _ level, ground (arith, workers), e3)

pub validate_config_lem : (c : Config) → validate_config c ≡ none → IsValidConfig c
validate_config_lem c e =
    let (format, level, workers, e1) = before_durations c e in
    let (poll, e2) = check_duration-none _ _ _ _ e1 in
    let (requeue, e3) = check_duration-none _ _ _ _ e2 in
    let (drain, e4) = check_duration-none _ _ _ _ e3 in
    let (global, e5) = check_duration-none _ _ _ _ e4 in
    let (replacement, e6) = check_duration-none _ _ _ _ e5 in
    let (name, addr) = check_names-none c (check_nothing (check_names c) e6) in
    record {
      log_format = format;
      log_level = level;
      workers = workers;
      poll = poll;
      requeue = requeue;
      drain = drain;
      global = global;
      replacement = replacement;
      policy_name = name;
      ui_addr = addr;
    }

-- Steps that succeed.
pub bind-loaded :
    {A B : Type 0} (r : Loaded A) (f : A → Loaded B) (b : B)
    → (r >>= f) ≡ loaded b
    → (a : A) × (r ≡ loaded a) × (f a ≡ loaded b)
bind-loaded (loaded a) f b e = (a, refl, e)
bind-loaded (rejected x) f b e = absurd (cc)

unless-loaded :
    (c c' : Config) (problem : Option ConfigError)
    → unless c problem ≡ loaded c'
    → (problem ≡ none) × (c ≡ c')
unless-loaded c c' none e = (refl, cc)
unless-loaded c c' (some x) e = absurd (cc)

-- A configuration that `Load` returns is the one that the validation passed, taken from the defaults,
-- the file and the environment.
pub load-cases :
    (src : Sources) (c : Config)
    → load src ≡ loaded c
    → (f : Config) × (apply_file src defaults ≡ loaded f)
      × (apply_env_overrides src f ≡ loaded c)
      × (validate_config c ≡ none)
unfolding load
load-cases src c e =
    let (f, file, e1) = bind-loaded (apply_file src defaults) _ c e in
    let (c', env, e2) = bind-loaded (apply_env_overrides src f) _ c e1 in
    let (valid, same) = unless-loaded c' c (validate_config c') e2 in
    (f, file, env ∙ ap loaded same, subst (λ x. validate_config x ≡ none) same valid)
