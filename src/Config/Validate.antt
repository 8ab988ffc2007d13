-- ===== src/Config/Validate.antt =====
-- What a configuration that `validate` or `load` returns is known to hold.
use hertz_reconciler.Prelude.{
  ℕ, ◌+◌, ◌≡◌, refl, false, Bool-cases, Option, none, some, ◌⊎◌, inl, inr, List, [], ◌∷◌, Str, str,
  length, arith, ◌==◌,
}
use hertz_reconciler.Prelude.Int.{ℤ}
use hertz_reconciler.Chain.Reply.{Reply, ok, err}
use hertz_reconciler.Config.{
  Config, VersionConfig, is_empty, is_zero, not_positive, is_incomplete, check_versions,
  with_defaults, validate, load_parsed, load_read, load, Files, Getenv, apply_env_overrides,
}
use hertz_reconciler.Config.Defaults.{AllComplete, is_incomplete_iff}

pub record IsValid (c : Config) : Type 0 where
  pub has_url : is_empty c.rpc.url ≡ false
  pub has_timeout : is_zero c.rpc.request_timeout ≡ false
  pub has_concurrency : not_positive c.rpc.call_concurrency ≡ false
  pub has_port : is_zero c.metrics.port ≡ false
  pub has_path : is_empty c.metrics.path ≡ false
  pub has_interval : is_zero c.scheduler.quick_interval ≡ false
  pub has_time : is_empty c.scheduler.daily_at_utc ≡ false
  pub has_versions : (length c.versions == 0) ≡ false
  pub complete : AllComplete c.versions

check_versions_sound :
    (i : ℕ) (vs : List VersionConfig) → check_versions i vs ≡ none → AllComplete vs
unfolding check_versions
check_versions_sound i [] h = tt
check_versions_sound i (v ∷ vs) h = elim (Bool-cases (is_incomplete v)) [
  | inl e ↦ ground (arith, e)
  | inr e ↦ ((is_incomplete_iff v).0 e, check_versions_sound (i + 1) vs (ground (arith, e)))
]

check_versions_complete :
    (i : ℕ) (vs : List VersionConfig) → AllComplete vs → check_versions i vs ≡ none
unfolding check_versions
check_versions_complete i [] h = refl
check_versions_complete i (v ∷ vs) (hv, h) =
    rw ((is_incomplete_iff v).1 hv) (check_versions_complete (i + 1) vs h)

check_versions_cases :
    (vs : List VersionConfig)
    → (check_versions 0 vs ≡ none) ⊎ ((e : Str) × (check_versions 0 vs ≡ some e))
check_versions_cases vs = cases (check_versions 0 vs)
  where
    cases : (o : Option Str) → (o ≡ none) ⊎ ((e : Str) × (o ≡ some e))
    cases none = inl refl
    cases (some e) = inr (e, refl)

with_defaults-IsValid :
    (c : Config)
    → is_empty c.rpc.url ≡ false
    → (length c.versions == 0) ≡ false
    → AllComplete c.versions
    → IsValid (with_defaults c)
unfolding with_defaults str
with_defaults-IsValid c hu hv hc = record {
  has_url = hu;
  has_timeout = ground arith;
  has_concurrency = ground arith;
  has_port = ground arith;
  has_path = ground arith;
  has_interval = ground arith;
  has_time = ground arith;
  has_versions = hv;
  complete = hc;
}

pub validate-with_defaults : (c c' : Config) → validate c ≡ ok c' → with_defaults c ≡ c'
unfolding validate
validate-with_defaults c c' h = elim (check_versions_cases c.versions) [
  | inr (e, p) ↦ ground (arith, p)
  | inl p ↦ ground (arith, p)
]

-- What `validate` accepts is a valid configuration: every default is filled in and every required
-- field is there.
pub validate-IsValid : (c c' : Config) → validate c ≡ ok c' → IsValid c'
unfolding validate
validate-IsValid c c' h = elim (check_versions_cases c.versions) [
  | inr (e, p) ↦ ground (arith, p)
  | inl p ↦
      let valid =
        with_defaults-IsValid c (ground (arith, p)) (ground (arith, p))
          (check_versions_sound 0 c.versions p) in
      let same : with_defaults c ≡ c' = ground (arith, p) in rw same at valid
]

-- A valid configuration is left as it is.
pub validate_idem : (c : Config) → IsValid c → validate c ≡ ok c
unfolding validate with_defaults
validate_idem c v = rw (
  v.has_url,
  v.has_versions,
  check_versions_complete 0 c.versions v.complete,
  v.has_timeout,
  v.has_concurrency,
  v.has_port,
  v.has_path,
  v.has_interval,
  v.has_time,
)

load_parsed-IsValid :
    (atoi : Str → Option ℤ) (getenv : Getenv) (r : Reply Config) (c : Config)
    → load_parsed atoi getenv r ≡ ok c
    → IsValid c
unfolding load_parsed
load_parsed-IsValid atoi getenv (err e) c h = cc
load_parsed-IsValid atoi getenv (ok cfg) c h =
    validate-IsValid (apply_env_overrides atoi getenv cfg) c h

load_read-IsValid :
    (files : Files) (atoi : Str → Option ℤ) (getenv : Getenv) (path : Str) (r : Reply Str)
    (c : Config)
    → load_read files atoi getenv path r ≡ ok c
    → IsValid c
unfolding load_read
load_read-IsValid files atoi getenv path (err e) c h = cc
load_read-IsValid files atoi getenv path (ok text) c h =
    load_parsed-IsValid atoi getenv (files.unmarshal text) c h

-- Whatever the file and the environment hold, a configuration that `Load` returns is valid.
pub load-IsValid :
    (files : Files) (atoi : Str → Option ℤ) (getenv : Getenv) (path : Str) (c : Config)
    → load files atoi getenv path ≡ ok c
    → IsValid c
unfolding load
load-IsValid files atoi getenv path c h =
    load_read-IsValid files atoi getenv path (files.read_file path) c h
