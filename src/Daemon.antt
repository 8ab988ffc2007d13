-- ===== src/Daemon.antt =====
-- main.go behind `metrics.ReconcilerUp.Set(1)`: the goroutines of the daemon, `main` itself with its
-- first run, `quickLoop`, `dailyLoop` and `startMetricsServer`, interleaved in any order.
--
-- A run of `RunAll` is given by the events that it emits and by its reports, `none` if it panics; it
-- is a run of the model against some node. The events are emitted one by one, between steps of the
-- other goroutines. Since the node's answers are arbitrary, so is what other runs do to it meanwhile.
mod Goroutines
pub mod Exports
pub mod Series
pub mod Runs
pub mod Outputs
pub mod Health
pub mod Interval
pub mod Alive
pub mod Progress
pub mod Digests
pub mod Gauged
pub mod Gauges
use hertz_reconciler.Prelude.{
  ℕ, ◌≤◌, ◌<◌, ◌≡◌, Bool, true, false, Option, none, some, List, [], ◌∷◌, ◌++◌, Str,
}
use hertz_reconciler.Config.{Config, not_positive}
use hertz_reconciler.Metrics.{Event, set_to, reconciler_up}
use hertz_reconciler.Runtime.{Env, Floats, State, Outcome, ret, panic}
use hertz_reconciler.Reconciler.{Report, run_all}
use hertz_reconciler.Reconciler.Render.{render}
use hertz_reconciler.Notify.{Slack, enabled}
use hertz_reconciler.Schedule.{next_daily_at}
use hertz_reconciler.Server.{Mux, register, listen_address}
use hertz_reconciler.Tasks.{tasks}
pub use Goroutines.*

module _ {F W X : Type 0} (Node : Env F W → Type 0) (u : Setup F X) where
  pub data MainMove : MainPc F → Output F → MainPc F → Type 0 where
    first_emit :
        {e : Event F} {es : List (Event F)} {r : Option (List Report)}
        → MainMove (first_run (e ∷ es) r) (emits e) (first_run es r)
    first_panic : MainMove (first_run [] none) crashes (first_run [] none)
    first_done : {rs : List Report} → MainMove (first_run [] (some rs)) silent starting
    notify : MainMove starting silent awaiting_signal
    -- A signal before `signal.Notify` has its default effect.
    killed_running :
        {es : List (Event F)} {r : Option (List Report)}
        → MainMove (first_run es r) exits (first_run es r)
    killed_starting : MainMove starting exits starting
    signal :
        MainMove awaiting_signal
          (emits (set_to reconciler_up [] (u.floats.of_uint 0)))
          shutting_down
    cancel : MainMove shutting_down silent cancelled
    exit : MainMove cancelled exits cancelled

  -- `quickLoop`; a tick may come at any time, and `time.NewTicker` panics if the interval is not
  -- positive.
  pub data QuickMove (m : MainPc F) : QuickPc F → Output F → QuickPc F → Type 0 where
    quick_start : IsServing m → QuickMove m quick_unborn silent making_ticker
    ticker :
        not_positive u.cfg.scheduler.quick_interval ≡ false
        → QuickMove m making_ticker silent awaiting_tick
    ticker_panic :
        not_positive u.cfg.scheduler.quick_interval ≡ true
        → QuickMove m making_ticker crashes making_ticker
    tick :
        {es : List (Event F)} {r : Option (List Report)}
        → RunsTo Node u.cfg es r
        → QuickMove m awaiting_tick silent (quick_run es r)
    quick_emit :
        {e : Event F} {es : List (Event F)} {r : Option (List Report)}
        → QuickMove m (quick_run (e ∷ es) r) (emits e) (quick_run es r)
    quick_panic : QuickMove m (quick_run [] none) crashes (quick_run [] none)
    quick_done : {rs : List Report} → QuickMove m (quick_run [] (some rs)) silent awaiting_tick
    quick_stop : m ≡ cancelled → QuickMove m awaiting_tick silent quick_returned

  -- `dailyLoop`; the error of `Send` is only logged.
  pub data DailyMove (m : MainPc F) (now : ℕ) : DailyPc F → Output F → DailyPc F → Type 0 where
    daily_start : IsServing m → DailyMove m now daily_unborn silent scheduling
    schedule :
        {t : ℕ}
        → t ≡ next_daily_at u.parse u.cfg.scheduler.daily_at_utc now
        → DailyMove m now scheduling silent (sleeping t)
    fire :
        {t : ℕ} {es : List (Event F)} {r : Option (List Report)}
        → t ≤ now
        → RunsTo Node u.cfg es r
        → DailyMove m now (sleeping t) silent (daily_run t es r)
    daily_emit :
        {t : ℕ} {e : Event F} {es : List (Event F)} {r : Option (List Report)}
        → DailyMove m now (daily_run t (e ∷ es) r) (emits e) (daily_run t es r)
    daily_panic : {t : ℕ} → DailyMove m now (daily_run t [] none) crashes (daily_run t [] none)
    digest :
        {t : ℕ} {rs : List Report} {text : Str}
        → enabled u.slack ≡ true
        → text ≡ render rs
        → DailyMove m now (daily_run t [] (some rs)) silent (sending t text)
    no_webhook :
        {t : ℕ} {rs : List Report}
        → enabled u.slack ≡ false
        → DailyMove m now (daily_run t [] (some rs)) silent scheduling
    post : {t : ℕ} {text : Str} → DailyMove m now (sending t text) (sends t text) scheduling
    daily_stop : {t : ℕ} → m ≡ cancelled → DailyMove m now (sleeping t) silent daily_returned

  pub data ServerMove : ServerPc → Output F → ServerPc → Type 0 where
    listen :
        {x : X}
        → register u.mux u.cfg.metrics.path ≡ some x
        → ServerMove registering silent (listening (listen_address u.cfg.metrics.port))
    register_panic :
        register u.mux u.cfg.metrics.path ≡ none → ServerMove registering crashes registering
    listen_error : {addr : Str} → ServerMove (listening addr) silent stopped

  -- A process that crashed or exited makes no step. The clock does not go back.
  pub data Step (p : Process F) : Process F → Type 0 where
    time_passes : {t : ℕ} → p.now ≤ t → p.status ≡ alive → Step p (record p { now = t })
    main_step :
        {o : Output F} {m : MainPc F}
        → p.status ≡ alive
        → MainMove p.main o m
        → Step p (apply o (record p { main = m }))
    quick_step :
        {o : Output F} {q : QuickPc F}
        → p.status ≡ alive
        → QuickMove p.main p.quick o q
        → Step p (apply o (record p { quick = q }))
    daily_step :
        {o : Output F} {d : DailyPc F}
        → p.status ≡ alive
        → DailyMove p.main p.now p.daily o d
        → Step p (apply o (record p { daily = d }))
    server_step :
        {o : Output F} {v : ServerPc}
        → p.status ≡ alive
        → ServerMove p.server o v
        → Step p (apply o (record p { server = v }))

  -- The process behind `metrics.ReconcilerUp.Set(1)` and `go startMetricsServer(...)`.
  abbrev pub initial : ℕ → List (Event F) → Option (List Report) → Process F
  initial now es r = record {
    now = now;
    main = first_run es r;
    quick = quick_unborn;
    daily = daily_unborn;
    server = registering;
    trace = set_to reconciler_up [] u.floats.one ∷ [];
    posts = [];
    status = alive;
  }

  pub data Reach : Process F → Type 0 where
    start :
        (now : ℕ) {es : List (Event F)} {r : Option (List Report)}
        → RunsTo Node u.cfg es r
        → Reach (initial now es r)
    later : {p q : Process F} → Reach p → Step p q → Reach q
