-- ===== src/Config/Overrides.antt =====
-- Where the fields of a loaded configuration come from.
use mathlib.Core.Path.{subst}
use hertz_reconciler.Prelude.{
  [], ◌∷◌, ◌≡◌, ◌*◌, ◌||◌, str_eq, refl, Bool, Option, none, some, Str, str, if◌then◌else◌,
}
use hertz_reconciler.Prelude.Int.{ℤ, pos}
use hertz_reconciler.Chain.Reply.{Reply, ok, err}
use hertz_reconciler.Config.{
  Config, Files, Getenv, is_empty, is_zero, load, load_read, load_parsed, apply_env_overrides,
  or_port, with_defaults, second,
}
use hertz_reconciler.Config.Defaults.{
  text_or, unset_or, positive_or, text_or_is, unset_or_is, positive_or_is,
}
use hertz_reconciler.Config.Validate.{validate-with_defaults}

-- The port of the environment, if it is set and a number, else that of the file.
abbrev pub chosen_port : Str → Option ℤ → ℤ → ℤ
chosen_port [] read old = old
chosen_port (c ∷ var) none old = old
chosen_port (c ∷ var) (some n) old = n

-- The switch of the environment, if it is set, else that of the file.
abbrev pub chosen_switch : Str → Bool → Bool
chosen_switch [] old = old
chosen_switch (c ∷ var) old = str_eq (c ∷ var) (str "true") || str_eq (c ∷ var) (str "1")

pub record Overridden (atoi : Str → Option ℤ) (getenv : Getenv) (file c : Config) : Type 0 where
  pub url : c.rpc.url ≡ text_or (getenv (str "RPC_URL")) file.rpc.url
  pub level : c.log.level ≡ text_or (getenv (str "LOG_LEVEL")) file.log.level
  pub port :
      c.metrics.port
      ≡ unset_or
          (chosen_port
            (getenv (str "METRICS_PORT"))
            (atoi (getenv (str "METRICS_PORT")))
            file.metrics.port)
          (pos 8080)
  pub enabled : c.notify.enabled ≡ chosen_switch (getenv (str "NOTIFY_ENABLED")) file.notify.enabled
  pub webhook : c.notify.slack_webhook_env ≡ file.notify.slack_webhook_env
  pub path : c.metrics.path ≡ text_or file.metrics.path (str "/metrics")
  pub daily : c.scheduler.daily_at_utc ≡ text_or file.scheduler.daily_at_utc (str "00:00")
  pub interval :
      c.scheduler.quick_interval ≡ unset_or file.scheduler.quick_interval (pos (3600 * second))
  pub timeout : c.rpc.request_timeout ≡ unset_or file.rpc.request_timeout (pos (30 * second))
  pub concurrency : c.rpc.call_concurrency ≡ positive_or file.rpc.call_concurrency (pos 8)
  pub versions : c.versions ≡ file.versions
  pub role_names : c.role_names ≡ file.role_names
  pub keepers : c.keepers ≡ file.keepers

port_is :
    (var : Str) (read : Option ℤ) (old : ℤ)
    → (if is_zero (if is_empty var then old else or_port old read)
        then pos 8080
        else (if is_empty var then old else or_port old read))
      ≡ unset_or (chosen_port var read old) (pos 8080)
port_is [] read old = unset_or_is old (pos 8080)
port_is (c ∷ var) none old = unset_or_is old (pos 8080)
port_is (c ∷ var) (some n) old = unset_or_is n (pos 8080)

switch_is :
    (var : Str) (old : Bool)
    → (if is_empty var then old else str_eq var (str "true") || str_eq var (str "1"))
      ≡ chosen_switch var old
switch_is [] old = refl
switch_is (c ∷ var) old = refl

overridden :
    (atoi : Str → Option ℤ) (getenv : Getenv) (file : Config)
    → Overridden atoi getenv file (with_defaults (apply_env_overrides atoi getenv file))
unfolding with_defaults apply_env_overrides
overridden atoi getenv file = record {
  url = text_or_is (getenv (str "RPC_URL")) file.rpc.url;
  level = text_or_is (getenv (str "LOG_LEVEL")) file.log.level;
  port =
      port_is (getenv (str "METRICS_PORT")) (atoi (getenv (str "METRICS_PORT"))) file.metrics.port;
  enabled = switch_is (getenv (str "NOTIFY_ENABLED")) file.notify.enabled;
  webhook = refl;
  path = text_or_is file.metrics.path (str "/metrics");
  daily = text_or_is file.scheduler.daily_at_utc (str "00:00");
  interval = unset_or_is file.scheduler.quick_interval (pos (3600 * second));
  timeout = unset_or_is file.rpc.request_timeout (pos (30 * second));
  concurrency = positive_or_is file.rpc.call_concurrency (pos 8);
  versions = refl;
  role_names = refl;
  keepers = refl;
}

load_parsed-Overridden :
    (atoi : Str → Option ℤ) (getenv : Getenv) (r : Reply Config) (c : Config)
    → load_parsed atoi getenv r ≡ ok c
    → (file : Config) × (r ≡ ok file) × Overridden atoi getenv file c
unfolding load_parsed
load_parsed-Overridden atoi getenv (err e) c h = cc
load_parsed-Overridden atoi getenv (ok file) c h = (
  file,
  refl,
  subst (Overridden atoi getenv file)
      (validate-with_defaults (apply_env_overrides atoi getenv file) c h)
      (overridden atoi getenv file),
)

load_read-Overridden :
    (files : Files) (atoi : Str → Option ℤ) (getenv : Getenv) (path : Str) (r : Reply Str)
    (c : Config)
    → load_read files atoi getenv path r ≡ ok c
    → (text : Str) × (file : Config) × (r ≡ ok text)
      × (files.unmarshal text ≡ ok file)
      × Overridden atoi getenv file c
unfolding load_read
load_read-Overridden files atoi getenv path (err e) c h = cc
load_read-Overridden files atoi getenv path (ok text) c h =
    let (file, e, o) = load_parsed-Overridden atoi getenv (files.unmarshal text) c h in
    (text, file, refl, e, o)

-- A configuration that `Load` returns is that of the file, but for the variables of the environment
-- and the defaults: RPC_URL and LOG_LEVEL win over the file if they are set, METRICS_PORT if it is
-- set and a number, and NOTIFY_ENABLED if it is set, where only `true` and `1` enable; a port of 0
-- becomes 8080, and the path, the time of the day, the interval, the timeout and the concurrency
-- have their defaults if they are empty or 0, the concurrency also if it is negative.
pub load-Overridden :
    (files : Files) (atoi : Str → Option ℤ) (getenv : Getenv) (path : Str) (c : Config)
    → load files atoi getenv path ≡ ok c
    → (text : Str) × (file : Config) × (files.read_file path ≡ ok text)
      × (files.unmarshal text ≡ ok file)
      × Overridden atoi getenv file c
unfolding load
load-Overridden files atoi getenv path c h =
    load_read-Overridden files atoi getenv path (files.read_file path) c h
