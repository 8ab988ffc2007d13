-- ===== src/Config/Defaults.antt =====
-- The defaults of internal/config/config.go and the fields it requires, described field by field.
use hertz_reconciler.Prelude.{
  zero, suc, ◌*◌, ◌≡◌, ◌≢◌, ◌↔◌, refl, false, List, [], ◌∷◌, arith, Str, str, if◌then◌else◌,
}
use hertz_reconciler.Prelude.Int.{ℤ, pos, negsuc}
use hertz_reconciler.Config.{
  Config, VersionConfig, second, is_empty, is_zero, not_positive, is_incomplete, with_defaults,
}

-- A text, or another one in place of the empty text.
abbrev pub text_or : Str → Str → Str
text_or [] d = d
text_or (c ∷ s) d = c ∷ s

-- A number, or another one in place of 0.
abbrev pub unset_or : ℤ → ℤ → ℤ
unset_or (pos zero) d = d
unset_or (pos (suc n)) d = pos (suc n)
unset_or (negsuc n) d = negsuc n

-- A positive number, or another one in place of one that is not.
abbrev pub positive_or : ℤ → ℤ → ℤ
positive_or (pos zero) d = d
positive_or (pos (suc n)) d = pos (suc n)
positive_or (negsuc n) d = d

-- `c'` is `c` with the defaults of the fields that have one.
pub record Defaulted (c c' : Config) : Type 0 where
  pub url : c'.rpc.url ≡ c.rpc.url
  pub timeout : c'.rpc.request_timeout ≡ unset_or c.rpc.request_timeout (pos (30 * second))
  pub concurrency : c'.rpc.call_concurrency ≡ positive_or c.rpc.call_concurrency (pos 8)
  pub port : c'.metrics.port ≡ unset_or c.metrics.port (pos 8080)
  pub path : c'.metrics.path ≡ text_or c.metrics.path (str "/metrics")
  pub interval :
      c'.scheduler.quick_interval ≡ unset_or c.scheduler.quick_interval (pos (3600 * second))
  pub daily : c'.scheduler.daily_at_utc ≡ text_or c.scheduler.daily_at_utc (str "00:00")
  pub level : c'.log ≡ c.log
  pub notify : c'.notify ≡ c.notify
  pub versions : c'.versions ≡ c.versions
  pub role_names : c'.role_names ≡ c.role_names
  pub keepers : c'.keepers ≡ c.keepers

-- A version has its name and its two stores.
abbrev pub IsFilled : VersionConfig → Type 0
IsFilled v = (v.name ≢ []) × (v.data_store ≢ []) × (v.role_store ≢ [])

-- Every version of the list is filled in.
abbrev pub AllComplete : List VersionConfig → Type 0
AllComplete [] = Unit
AllComplete (v ∷ vs) = IsFilled v × AllComplete vs

pub text_or_is : (s d : Str) → (if is_empty s then d else s) ≡ text_or s d
text_or_is [] d = refl
text_or_is (c ∷ s) d = refl

pub unset_or_is : (n d : ℤ) → (if is_zero n then d else n) ≡ unset_or n d
unset_or_is (pos zero) d = refl
unset_or_is (pos (suc n)) d = refl
unset_or_is (negsuc n) d = refl

pub positive_or_is : (n d : ℤ) → (if not_positive n then d else n) ≡ positive_or n d
positive_or_is (pos zero) d = refl
positive_or_is (pos (suc n)) d = refl
positive_or_is (negsuc n) d = refl

pub with_defaults-Defaulted : (c : Config) → Defaulted c (with_defaults c)
unfolding with_defaults
with_defaults-Defaulted c = record {
  url = refl;
  timeout = unset_or_is c.rpc.request_timeout (pos (30 * second));
  concurrency = positive_or_is c.rpc.call_concurrency (pos 8);
  port = unset_or_is c.metrics.port (pos 8080);
  path = text_or_is c.metrics.path (str "/metrics");
  interval = unset_or_is c.scheduler.quick_interval (pos (3600 * second));
  daily = text_or_is c.scheduler.daily_at_utc (str "00:00");
  level = refl;
  notify = refl;
  versions = refl;
  role_names = refl;
  keepers = refl;
}

-- The test for the empty text.
pub is_empty_iff : (s : Str) → (is_empty s ≡ false) ↔ (s ≢ [])
is_empty_iff [] = ((λ h. cc), (λ h. absurd (h refl)))
is_empty_iff (c ∷ s) = ((λ h p. cc), (λ h. refl))

pub is_incomplete_iff : (v : VersionConfig) → (is_incomplete v ≡ false) ↔ IsFilled v
is_incomplete_iff v =
    let (f, g) = is_empty_iff v.name in
    let (f', g') = is_empty_iff v.data_store in
    let (f'', g'') = is_empty_iff v.role_store in
    (
      λ h. (f (ground (arith, h)), f' (ground (arith, h)), f'' (ground (arith, h))),
      λ (n, d, r). rw (g n, g' d, g'' r) refl,
    )
