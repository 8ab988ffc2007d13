-- ===== src/Config.antt =====
-- internal/config/config.go: the configuration, its defaults, its checks and the overrides by
-- environment variables. Reading the file and parsing YAML are parameters.
pub mod Defaults
pub mod Validate
pub mod Overrides
use hertz_reconciler.Prelude.{
  ℕ, zero, suc, ◌+◌, ◌*◌, Bool, true, false, ◌||◌, Option, none, some, List, [], ◌∷◌, ◌++◌, Str,
  str, str_eq, decimal, length, ◌==◌, if◌then◌else◌,
}
use hertz_reconciler.Prelude.Int.{ℤ, pos, negsuc}
use hertz_reconciler.Chain.Reply.{Reply, ok, err}

-- A `map[string]string`: its entries, the keys all different.
abbrev pub StrMap : Type 0
StrMap = List (Str × Str)

-- `v, ok := m[key]`
unfoldable pub lookup : Str → StrMap → Option Str
lookup key [] = none
lookup key ((k, v) ∷ m) = if str_eq k key then some v else lookup key m

-- A `time.Duration`, in nanoseconds.
abbrev pub Duration : Type 0
Duration = ℤ

abbrev pub second : ℕ
second = 1000000000

pub record RpcConfig : Type 0 where
  pub url : Str
  pub request_timeout : Duration
  pub call_concurrency : ℤ

pub record SchedulerConfig : Type 0 where
  pub quick_interval : Duration
  pub daily_at_utc : Str

pub record NotifyConfig : Type 0 where
  pub slack_webhook_env : Str
  pub enabled : Bool

pub record MetricsConfig : Type 0 where
  pub port : ℤ
  pub path : Str

pub record LogConfig : Type 0 where
  pub level : Str

pub record VersionConfig : Type 0 where
  pub name : Str
  pub data_store : Str
  pub role_store : Str
  pub gov_timelock : Str
  pub config_timelock : Str
  pub usdt_token : Str
  pub vaults : StrMap
  pub markets : StrMap
  pub handlers : StrMap

pub record Config : Type 0 where
  pub rpc : RpcConfig
  pub scheduler : SchedulerConfig
  pub notify : NotifyConfig
  pub metrics : MetricsConfig
  pub log : LogConfig
  pub versions : List VersionConfig
  pub role_names : List Str
  pub keepers : StrMap

-- `s == ""`
abbrev pub is_empty : Str → Bool
is_empty [] = true
is_empty (c ∷ s) = false

abbrev pub is_zero : ℤ → Bool
is_zero (pos zero) = true
is_zero (pos (suc n)) = false
is_zero (negsuc n) = false

-- `n <= 0`
abbrev pub not_positive : ℤ → Bool
not_positive (pos zero) = true
not_positive (pos (suc n)) = false
not_positive (negsuc n) = true

-- The environment, by `os.Getenv`: an unset variable is the empty string.
abbrev pub Getenv : Type 0
Getenv = Str → Str

-- `if n, err := strconv.Atoi(v); err == nil { port = n }`
abbrev pub or_port : ℤ → Option ℤ → ℤ
or_port old none = old
or_port old (some n) = n

-- `atoi` is `strconv.Atoi`, with `none` for its error.
unfoldable pub apply_env_overrides : (Str → Option ℤ) → Getenv → Config → Config
apply_env_overrides atoi getenv cfg =
    let url = getenv (str "RPC_URL") in
    let port = getenv (str "METRICS_PORT") in
    let level = getenv (str "LOG_LEVEL") in
    let enabled = getenv (str "NOTIFY_ENABLED") in
    record cfg {
      rpc = record cfg.rpc { url = if is_empty url then cfg.rpc.url else url };
      metrics = record cfg.metrics {
        port = if is_empty port then cfg.metrics.port else or_port cfg.metrics.port (atoi port);
      };
      log = record cfg.log { level = if is_empty level then cfg.log.level else level };
      notify = record cfg.notify {
        enabled =
            if is_empty enabled
            then cfg.notify.enabled
            else str_eq enabled (str "true") || str_eq enabled (str "1");
      };
    }

-- The assignments of `validate` that come before its check of the versions.
unfoldable pub with_defaults : Config → Config
with_defaults cfg = record cfg {
  rpc = record cfg.rpc {
    request_timeout =
        if is_zero cfg.rpc.request_timeout then pos (30 * second) else cfg.rpc.request_timeout;
    call_concurrency =
        if not_positive cfg.rpc.call_concurrency then pos 8 else cfg.rpc.call_concurrency;
  };
  metrics = record cfg.metrics {
    port = if is_zero cfg.metrics.port then pos 8080 else cfg.metrics.port;
    path = if is_empty cfg.metrics.path then str "/metrics" else cfg.metrics.path;
  };
  scheduler = record cfg.scheduler {
    quick_interval =
        if is_zero cfg.scheduler.quick_interval
        then pos (3600 * second)
        else cfg.scheduler.quick_interval;
    daily_at_utc =
        if is_empty cfg.scheduler.daily_at_utc then str "00:00" else cfg.scheduler.daily_at_utc;
  };
}

-- `name == "" || data_store == "" || role_store == ""`
abbrev pub is_incomplete : VersionConfig → Bool
is_incomplete v = is_empty v.name || (is_empty v.data_store || is_empty v.role_store)

-- The loop over the versions, from the index `i`: the error of the first that is incomplete.
unfoldable pub check_versions : ℕ → List VersionConfig → Option Str
check_versions i [] = none
check_versions i (v ∷ vs) =
    if is_incomplete v
    then some (str "version[" ++ (decimal i ++ str "]: name/data_store/role_store required"))
    else check_versions (i + 1) vs

abbrev reply_of : Config → Option Str → Reply Config
reply_of cfg none = ok cfg
reply_of cfg (some e) = err e

-- `validate` fills in the defaults in place: `ok` holds the configuration that it leaves.
unfoldable pub validate : Config → Reply Config
unfolding with_defaults check_versions
validate cfg =
    if is_empty cfg.rpc.url
    then err (str "rpc.url is required")
    else if length cfg.versions == 0
    then err (str "at least one version must be configured")
    else reply_of (with_defaults cfg) (check_versions 0 cfg.versions)

-- `os.ReadFile` and `yaml.Unmarshal` into an empty `Config`
pub record Files : Type 0 where
  pub read_file : Str → Reply Str
  pub unmarshal : Str → Reply Config

-- `Load` behind the parser
unfoldable pub load_parsed : (Str → Option ℤ) → Getenv → Reply Config → Reply Config
load_parsed atoi getenv (err e) = err (str "parse config: " ++ e)
load_parsed atoi getenv (ok cfg) = validate (apply_env_overrides atoi getenv cfg)

-- `Load` behind the reading of the file
unfoldable pub load_read : Files → (Str → Option ℤ) → Getenv → Str → Reply Str → Reply Config
load_read files atoi getenv path (err e) = err (str "read config " ++ (path ++ (str ": " ++ e)))
load_read files atoi getenv path (ok text) = load_parsed atoi getenv (files.unmarshal text)

unfoldable pub load : Files → (Str → Option ℤ) → Getenv → Str → Reply Config
unfolding load_parsed load_read
load files atoi getenv path = load_read files atoi getenv path (files.read_file path)

unfoldable pub slack_webhook_url : Getenv → Config → Str
slack_webhook_url getenv c =
    if is_empty c.notify.slack_webhook_env then [] else getenv c.notify.slack_webhook_env
