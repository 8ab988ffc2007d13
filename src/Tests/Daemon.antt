-- ===== src/Tests/Daemon.antt =====
-- A daemon against the node that answers with one byte: runs of its goroutines, and the
-- configurations on which it crashes.
use mathlib.Core.Path.{subst}
use hertz_reconciler.Prelude.{
  ℕ, ◌+◌, ◌*◌, ◌^◌, ◌%◌, ◌≤◌, ◌<◌, ◌≡◌, ◌≢◌, refl, sym, Bool, true, false, Option, none, some, List,
  [], ◌∷◌, arith, Str, str, str_eq, str_eq_refl, suc, All, if◌then◌else◌,
}
use hertz_reconciler.Prelude.Int.{pos, negsuc}
use hertz_reconciler.Config.{Config, not_positive}
use hertz_reconciler.Metrics.{Event, set_to, reconciler_up}
use hertz_reconciler.Runtime.{Env}
use hertz_reconciler.Reconciler.{Report, run_all}
use hertz_reconciler.Reconciler.Render.{render}
use hertz_reconciler.Notify.{enabled}
use hertz_reconciler.Schedule.Daily.{next_daily_at_lem}
use hertz_reconciler.Schedule.{day, hour, minute, next_daily_at}
use hertz_reconciler.Server.{Mux, IsMux, register, then_health}
use hertz_reconciler.Tasks.{tasks}
use hertz_reconciler.Tasks.Whole.{IsDecodable}
use hertz_reconciler.Daemon.{
  Setup, RunsTo, result_of, awaiting_signal, shutting_down, crashed, registering, Process, Reach,
  initial, first_done, notify, signal, daily_start, schedule, fire, digest, post, time_passes,
  main_step, daily_step, start, later, scheduling, daily_run,
}
use hertz_reconciler.Daemon.Exports.{up_after}
use hertz_reconciler.Daemon.Progress.{CanPost, can_post_lem}
use hertz_reconciler.Daemon.Series.{reconciler_up_lem}
use hertz_reconciler.Daemon.Runs.{IsComplete}
use hertz_reconciler.Daemon.Alive.{no_crash_lem}
use hertz_reconciler.Daemon.Digests.{Spaced, posts_lem}
use hertz_reconciler.Daemon.Health.{health_path_crashes}
use hertz_reconciler.Tests.Demo.{demo_floats, demo_state, demo_config}
use hertz_reconciler.Tests.Runs.{short, short-IsDecodable}

-- A multiplexer is the list of its patterns.
abbrev has : List Str → Str → Bool
has [] p = false
has (q ∷ ps) p = if str_eq q p then true else has ps p

abbrev pub demo_mux : Mux (List Str)
demo_mux = record { empty = []; handle = λ ps p h. if has ps p then none else some (p ∷ ps) }

pushed-has :
    (ps ps' : List Str) (p : Str) (b : Bool)
    → (if b then none else some (p ∷ ps)) ≡ some ps'
    → has ps' p ≡ true
pushed-has ps ps' p true h = cc
pushed-has ps ps' p false h =
    let e : p ∷ ps ≡ ps' = cc in
    subst (λ (qs : List Str). has qs p ≡ true) e (rw (str_eq_refl p) refl)

demo_mux-IsMux : IsMux demo_mux
demo_mux-IsMux = record { again = λ x x' p h h' e. rw (pushed-has x x' p (has x p) e) refl }

abbrev pub setup : Config → Str → Setup ℕ (List Str)
setup cfg url = record {
  cfg = cfg;
  slack = record { webhook_url = url };
  parse = λ s. some (9, 30);
  floats = demo_floats;
  mux = demo_mux;
}

abbrev Shorts : Env ℕ (Unit {0}) → Type 0
Shorts env = env ≡ short

Shorts-IsDecodable : (env : Env ℕ (Unit {0})) → Shorts env → IsDecodable env
Shorts-IsDecodable env e = subst IsDecodable (sym e) short-IsDecodable

-- A whole run over a configuration.
abbrev events : Config → List (Event ℕ)
events cfg = (result_of (run_all cfg (tasks short cfg) demo_state)).0

abbrev reports_or_panic : Config → Option (List Report)
reports_or_panic cfg = (result_of (run_all cfg (tasks short cfg) demo_state)).1

runs : (cfg : Config) → RunsTo Shorts cfg (events cfg) (reports_or_panic cfg)
runs cfg = record { env = short; node = refl; world = tt; result = refl }

-- The run over no version emits nothing.
abbrev idle : Config
idle = record demo_config { versions = [] }

idle_run : RunsTo Shorts idle [] (some [])
unfolding run_all hertz_reconciler.Runtime.foreach
idle_run = record { env = short; node = refl; world = tt; result = refl }

abbrev at_start : ℕ
at_start = 1700000000 * 10 ^ 9

abbrev hooked : Setup ℕ (List Str)
hooked = setup idle (str "https://hook")

abbrev target : ℕ
target = next_daily_at hooked.parse idle.scheduler.daily_at_utc at_start

target-later :
    (at_start < target) × (target ≤ at_start + day) × (target % day ≡ 9 * hour + 30 * minute)
target-later =
    next_daily_at_lem hooked.parse idle.scheduler.daily_at_utc at_start 9 30 refl (omega arith)
      (omega arith)

-- The daemon behind its first daily run, a nanosecond late.
abbrev fired : Str → Process ℕ
fired url = record (initial Shorts (setup idle url) at_start [] (some [])) {
  now = suc target;
  main = awaiting_signal;
  daily = daily_run target [] (some []);
}

fired-Reach : (url : Str) → Reach Shorts (setup idle url) (fired url)
fired-Reach url =
    let u = setup idle url in
    let p0 : Reach Shorts u (initial Shorts u at_start [] (some [])) = start at_start idle_run in
    let p1 = later (later p0 (main_step refl first_done)) (main_step refl notify) in
    let p2 = later p1 (daily_step refl (daily_start tt)) in
    let p3 = later p2 (daily_step refl (schedule refl)) in
    let p4 = later p3 (time_passes {t = suc target} (omega (arith, target-later.0)) refl) in
    later p4 (daily_step refl (fire (omega arith) idle_run))

-- The same daemon at its first post.
abbrev posted : Process ℕ
posted = record (fired (str "https://hook")) {
  daily = scheduling;
  posts = record { target = target; sent_at = suc target; text = render [] } ∷ [];
}

posted-Reach : Reach Shorts hooked posted
unfolding enabled str
posted-Reach =
    let p6 = later (fired-Reach (str "https://hook")) (daily_step refl (digest refl refl)) in
    later p6 (daily_step refl post)

posts_lem_example :
    All
      (λ x.
        (x.target ≤ x.sent_at)
        × (x.sent_at ≤ posted.now)
        × (x.target % day ≡ 9 * hour + 30 * minute)
        × ((rs : List Report) × (x.text ≡ render rs) × IsComplete Shorts idle rs))
      posted.posts
    × Spaced posted.posts
posts_lem_example =
    posts_lem Shorts hooked 9 30 posted Shorts-IsDecodable refl (omega arith) (omega arith)
      posted-Reach

-- The daemon behind a signal.
abbrev stopping : Process ℕ
stopping = record posted {
  main = shutting_down;
  trace = set_to reconciler_up [] 1 ∷ set_to reconciler_up [] 0 ∷ [];
}

stopping-Reach : Reach Shorts hooked stopping
stopping-Reach = later posted-Reach (main_step refl signal)

reconciler_up_lem_example : up_after none stopping.trace ≡ some 0
reconciler_up_lem_example = reconciler_up_lem Shorts hooked stopping stopping-Reach

registered : register demo_mux (str "/metrics") ≡ some (str "/health" ∷ str "/metrics" ∷ [])
unfolding register then_health str str_eq
registered = refl

no_crash_lem_example : stopping.status ≢ crashed
unfolding not_positive
no_crash_lem_example =
    no_crash_lem Shorts hooked (str "/health" ∷ str "/metrics" ∷ []) stopping Shorts-IsDecodable
      refl registered stopping-Reach

can_post_lem_example : CanPost Shorts hooked posted
unfolding enabled str
can_post_lem_example =
    can_post_lem Shorts hooked short tt posted refl Shorts-IsDecodable refl posted-Reach refl refl

-- A negative interval.
abbrev rushed : Config
rushed = record demo_config {
  scheduler = record { quick_interval = negsuc 4; daily_at_utc = str "09:00" };
}

-- The metrics under the path of the health check.
abbrev clashing : Config
clashing = record demo_config { metrics = record { port = pos 9090; path = str "/health" } }

health_path_crashes_example :
    ((p : Process ℕ) → Reach Shorts (setup clashing []) p → p.server ≡ registering)
    × ((p : Process ℕ) × Reach Shorts (setup clashing []) p × (p.status ≡ crashed))
health_path_crashes_example =
    health_path_crashes Shorts (setup clashing []) at_start (events clashing)
      (reports_or_panic clashing) demo_mux-IsMux refl (runs clashing)
