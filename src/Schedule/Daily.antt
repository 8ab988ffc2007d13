-- ===== src/Schedule/Daily.antt =====
-- When the daily digest is due.
use hertz_reconciler.Prelude.{ℕ, ◌+◌, ◌*◌, ◌%◌, ◌<◌, ◌≤◌, ◌≡◌, Option, some, Str, arith}
use hertz_reconciler.Schedule.{minute, hour, day, next_at, next_daily_at}

next_at_lem :
    (now h m : ℕ)
    → h < 24
    → m < 60
    → (now < next_at now h m)
      × (next_at now h m ≤ now + day)
      × (next_at now h m % day ≡ h * hour + m * minute)
unfolding next_at
next_at_lem now h m hh hm = ground arith

-- The next daily digest is due after now and at most 24 hours later, at the hour and the minute
-- that the configuration gives. The hour is under 24 and the minute under 60.
pub next_daily_at_lem :
    (parse : Str → Option (ℕ × ℕ)) (hhmm : Str) (now h m : ℕ)
    → parse hhmm ≡ some (h, m)
    → h < 24
    → m < 60
    → (now < next_daily_at parse hhmm now)
      × (next_daily_at parse hhmm now ≤ now + day)
      × (next_daily_at parse hhmm now % day ≡ h * hour + m * minute)
unfolding next_daily_at
next_daily_at_lem parse hhmm now h m e hh hm = rw (e, next_daily_at) (next_at_lem now h m hh hm)
