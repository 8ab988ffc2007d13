-- ===== src/Schedule.antt =====
-- main.go: the time of the next daily digest, the log level and one run.
pub mod Daily
pub mod Once
pub mod Findings
use hertz_reconciler.Prelude.{
  ℕ, ◌+◌, ◌-◌, ◌*◌, ◌^◌, ◌%◌, Bool, true, false, ◌&&◌, ◌||◌, Option, none, some, List, map, Str,
  str, str_eq, ltb, if◌then◌else◌,
}
use hertz_reconciler.Config.{Config}
use hertz_reconciler.Runtime.{Env, M, pure, ◌>>=◌}
use hertz_reconciler.Reconciler.{Task, run_all}
use hertz_reconciler.Reconciler.Render.{render}
use hertz_reconciler.Notify.{Http, Slack, enabled, send}

-- The nanoseconds of a minute, of an hour and of a UTC day.
abbrev pub minute : ℕ
minute = 60 * 10 ^ 9

abbrev pub hour : ℕ
hour = 60 * minute

abbrev pub day : ℕ
day = 24 * hour

-- `target`, with its correction when it is not after `now`.
unfoldable pub next_at : ℕ → ℕ → ℕ → ℕ
next_at now h m =
    let target = now - now % day + h * hour + m * minute in
    if ltb now target then target else target + day

-- `nextDailyAt`. Times are nanoseconds since 1970, in UTC, where each day starts at a multiple of
-- `day`. `parse` is `time.Parse("15:04", hhmm)`: the hour and the minute, or `none` for its error.
unfoldable pub next_daily_at : (Str → Option (ℕ × ℕ)) → Str → ℕ → ℕ
unfolding next_at
next_daily_at parse hhmm now = elim (parse hhmm) [
  | none ↦ now + day
  | some (h, m) ↦ next_at now h m
]

pub data Level : Type 0 where
  level_debug level_info level_warn level_error : Level

-- `to_upper` is `strings.ToUpper`.
unfoldable pub parse_level : (Str → Str) → Str → Level
parse_level to_upper s =
    let u = to_upper s in
    if str_eq u (str "DEBUG")
    then level_debug
    else if str_eq u (str "WARN") || str_eq u (str "WARNING")
    then level_warn
    else if str_eq u (str "ERROR")
    then level_error
    else level_info

abbrev pub version_names : Config → List Str
version_names cfg = map (λ v. v.name) cfg.versions

-- `runOnce`: it returns the digest and what `Send` returned. Printing and logging are left out.
unfoldable pub run_once :
    {F W : Type 0} → Http W → Config → List (Task F W) → Slack → Bool → M F W (Str × Option Str)
run_once http cfg tasks slack send_slack = do
  reports ← run_all cfg tasks
  let digest = render reports
  e ← (if send_slack && enabled slack then send http slack digest else pure none)
  pure (digest, e)
