-- ===== src/Tests/Delivery.antt =====
-- Inputs for the theorems on the webhook and on the schedule.
use hertz_reconciler.Prelude.{
  ◌∷◌, ℕ, ◌+◌, ◌*◌, ◌^◌, ◌%◌, ◌<◌, ◌≤◌, ◌≡◌, ◌↔◌, ◌⊎◌, refl, true, Option, none, some, List, map,
  [], arith, Str, str,
}
use hertz_reconciler.Prelude.Int.{pos, negsuc}
use hertz_reconciler.Chain.Reply.{ok}
use hertz_reconciler.Runtime.Total.{ReturnsWith}
use hertz_reconciler.Reconciler.{Report}
use hertz_reconciler.Reconciler.RunAll.{origin, all_pairs}
use hertz_reconciler.Reconciler.Render.{render}
use hertz_reconciler.Reconciler.Render.Digest.{digest, render-digest}
use hertz_reconciler.Notify.{Http, send}
use hertz_reconciler.Notify.Send.{Accepted, send_iff}
use hertz_reconciler.Schedule.{day, hour, minute, next_daily_at, run_once}
use hertz_reconciler.Schedule.Daily.{next_daily_at_lem}
use hertz_reconciler.Schedule.Once.{run_once-render}
use hertz_reconciler.Tasks.{tasks}
use hertz_reconciler.Tasks.Funding.{abs_sub, abs_max}
use hertz_reconciler.Tasks.Funding.Bounds.{AreOpposed, abs_sub_bounds}
use hertz_reconciler.Tests.Demo.{demo_state, demo_config}
use hertz_reconciler.Tests.Runs.{short, short-IsDecodable}

-- A webhook that answers with 404.
abbrev pub demo_http : Http (Unit {0})
demo_http = record {
  marshal = λ text. text;
  request_error = λ url. none;
  post = λ url body w. (ok 404, w);
}

abbrev pub hook : Str
hook = str "https://hook"

send_iff_example :
    ReturnsWith
      (λ e. (e ≡ none) ↔ ((hook ≡ []) ⊎ Accepted none (ok 404)))
      (send demo_http (record { webhook_url = hook }) (str "hi") demo_state)
send_iff_example = send_iff demo_http hook (str "hi") (ok 404) tt demo_state refl

abbrev now : ℕ
now = 1700000000 * 10 ^ 9

abbrev at_nine : Str → Option (ℕ × ℕ)
at_nine s = some (9, 30)

next_daily_at_lem_example :
    (now < next_daily_at at_nine (str "09:30") now)
    × (next_daily_at at_nine (str "09:30") now ≤ now + day)
    × (next_daily_at at_nine (str "09:30") now % day ≡ 9 * hour + 30 * minute)
next_daily_at_lem_example =
    next_daily_at_lem at_nine (str "09:30") now 9 30 refl (omega arith) (omega arith)

run_once-render_example :
    (rs : List Report) × (map origin rs ≡ all_pairs demo_config.versions (tasks short demo_config))
    × ReturnsWith
        (λ result. result.0 ≡ render rs)
        (run_once demo_http demo_config
          (tasks short demo_config)
          (record { webhook_url = hook })
          true
          demo_state)
run_once-render_example =
    run_once-render demo_http short demo_config (record { webhook_url = hook }) true demo_state
      short-IsDecodable

abs_sub_bounds_example :
    (abs_sub (pos 5) (negsuc 2) ≤ 2 * abs_max (pos 5) (negsuc 2))
    × ((abs_max (pos 5) (negsuc 2) < abs_sub (pos 5) (negsuc 2)) ↔ AreOpposed (pos 5) (negsuc 2))
abs_sub_bounds_example = abs_sub_bounds (pos 5) (negsuc 2)

-- Two versions, the first one with two reports and a finding.
abbrev pub reports : List Report
reports =
    record { version = str "v1"; task = str "fees"; lines = []; findings = str "gap" ∷ [] }
    ∷ record { version = str "v2"; task = str "fees"; lines = str "ok" ∷ []; findings = [] }
    ∷ record { version = str "v1"; task = str "queue"; lines = []; findings = [] }
    ∷ []

render-digest_example : render reports ≡ digest reports
render-digest_example = render-digest reports
