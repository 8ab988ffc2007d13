-- ===== src/Daemon/Alive.antt =====
-- The daemon does not crash.
use hertz_reconciler.Prelude.{ℕ, ◌≡◌, ◌≢◌, refl, false, Option, none, some, List}
use hertz_reconciler.Config.{not_positive}
use hertz_reconciler.Metrics.{Event}
use hertz_reconciler.Runtime.{Env}
use hertz_reconciler.Reconciler.{Report}
use hertz_reconciler.Server.{register}
use hertz_reconciler.Tasks.Whole.{IsDecodable}
use hertz_reconciler.Daemon.{
  Setup, RunsTo, MainPc, first_run, starting, awaiting_signal, shutting_down, cancelled, QuickPc,
  quick_unborn, making_ticker, awaiting_tick, quick_run, quick_returned, DailyPc, daily_unborn,
  scheduling, sleeping, daily_run, sending, daily_returned, ServerPc, Status, crashed, Process,
  Output, silent, crashes, exits, emits, sends, apply, MainMove, QuickMove, DailyMove, ServerMove,
  Step, Reach, first_emit, first_panic, first_done, notify, killed_running, killed_starting, signal,
  cancel, exit, quick_start, ticker, ticker_panic, tick, quick_emit, quick_panic, quick_done,
  quick_stop, daily_start, schedule, fire, daily_emit, daily_panic, digest, no_webhook, post,
  daily_stop, listen, register_panic, listen_error, time_passes, main_step, quick_step, daily_step,
  server_step, start, later,
}
use hertz_reconciler.Daemon.Runs.{RunsTo-IsComplete}

-- The run in progress does not end in a panic.
abbrev MainReturns : {F : Type 0} → MainPc F → Type 0
MainReturns (first_run es r) = r ≢ none
MainReturns starting = Unit
MainReturns awaiting_signal = Unit
MainReturns shutting_down = Unit
MainReturns cancelled = Unit

abbrev QuickReturns : {F : Type 0} → QuickPc F → Type 0
QuickReturns (quick_run es r) = r ≢ none
QuickReturns quick_unborn = Unit
QuickReturns making_ticker = Unit
QuickReturns awaiting_tick = Unit
QuickReturns quick_returned = Unit

abbrev pub DailyReturns : {F : Type 0} → DailyPc F → Type 0
DailyReturns (daily_run t es r) = r ≢ none
DailyReturns daily_unborn = Unit
DailyReturns scheduling = Unit
DailyReturns (sleeping t) = Unit
DailyReturns (sending t text) = Unit
DailyReturns daily_returned = Unit

record Sound {F : Type 0} (m : MainPc F) (q : QuickPc F) (d : DailyPc F) (status : Status)
    : Type 0 where
  no_crash : status ≢ crashed
  main_ok : MainReturns m
  quick_ok : QuickReturns q
  daily_ok : DailyReturns d

abbrev SoundOf : {F : Type 0} → Process F → Type 0
SoundOf p = Sound p.main p.quick p.daily p.status

Sound-apply :
    {F : Type 0} (o : Output F) (p : Process F) → o ≢ crashes → SoundOf p → SoundOf (apply o p)
Sound-apply silent p h s = s
Sound-apply crashes p h s = absurd (h refl)
Sound-apply exits p h s = record {
  no_crash = λ e. cc;
  main_ok = s.main_ok;
  quick_ok = s.quick_ok;
  daily_ok = s.daily_ok;
}
Sound-apply (emits e) p h s = s
Sound-apply (sends t text) p h s = s

module _ {F W X : Type 0} (Node : Env F W → Type 0) (u : Setup F X)
    (decodable : (env : Env F W) → Node env → IsDecodable env)
    (positive : not_positive u.cfg.scheduler.quick_interval ≡ false) (x : X)
    (registered : register u.mux u.cfg.metrics.path ≡ some x) where
  RunsTo-ne-none :
      {es : List (Event F)} {r : Option (List Report)} → RunsTo Node u.cfg es r → r ≢ none
  RunsTo-ne-none run e = let (rs, f, _) = RunsTo-IsComplete Node u.cfg decodable run in cc

  MainMove-MainReturns :
      {m m' : MainPc F} {o : Output F}
      → MainMove Node u m o m'
      → MainReturns m
      → (o ≢ crashes) × MainReturns m'
  MainMove-MainReturns first_emit h = ((λ e. cc), h)
  MainMove-MainReturns first_panic h = absurd (h refl)
  MainMove-MainReturns first_done h = ((λ e. cc), tt)
  MainMove-MainReturns notify h = ((λ e. cc), tt)
  MainMove-MainReturns killed_running h = ((λ e. cc), h)
  MainMove-MainReturns killed_starting h = ((λ e. cc), tt)
  MainMove-MainReturns signal h = ((λ e. cc), tt)
  MainMove-MainReturns cancel h = ((λ e. cc), tt)
  MainMove-MainReturns exit h = ((λ e. cc), tt)

  QuickMove-QuickReturns :
      {m : MainPc F} {q q' : QuickPc F} {o : Output F}
      → QuickMove Node u m q o q'
      → QuickReturns q
      → (o ≢ crashes) × QuickReturns q'
  QuickMove-QuickReturns (quick_start k) h = ((λ e. cc), tt)
  QuickMove-QuickReturns (ticker k) h = ((λ e. cc), tt)
  QuickMove-QuickReturns (ticker_panic k) h = cc
  QuickMove-QuickReturns (tick run) h = ((λ e. cc), RunsTo-ne-none run)
  QuickMove-QuickReturns quick_emit h = ((λ e. cc), h)
  QuickMove-QuickReturns quick_panic h = absurd (h refl)
  QuickMove-QuickReturns quick_done h = ((λ e. cc), tt)
  QuickMove-QuickReturns (quick_stop k) h = ((λ e. cc), tt)

  DailyMove-DailyReturns :
      {m : MainPc F} {now : ℕ} {d d' : DailyPc F} {o : Output F}
      → DailyMove Node u m now d o d'
      → DailyReturns d
      → (o ≢ crashes) × DailyReturns d'
  DailyMove-DailyReturns (daily_start k) h = ((λ e. cc), tt)
  DailyMove-DailyReturns (schedule k) h = ((λ e. cc), tt)
  DailyMove-DailyReturns (fire k run) h = ((λ e. cc), RunsTo-ne-none run)
  DailyMove-DailyReturns daily_emit h = ((λ e. cc), h)
  DailyMove-DailyReturns daily_panic h = absurd (h refl)
  DailyMove-DailyReturns (digest k e) h = ((λ e. cc), tt)
  DailyMove-DailyReturns (no_webhook k) h = ((λ e. cc), tt)
  DailyMove-DailyReturns post h = ((λ e. cc), tt)
  DailyMove-DailyReturns (daily_stop k) h = ((λ e. cc), tt)

  ServerMove-ne-crashes : {v v' : ServerPc} {o : Output F} → ServerMove Node u v o v' → o ≢ crashes
  ServerMove-ne-crashes (listen k) e = cc
  ServerMove-ne-crashes (register_panic k) e = cc
  ServerMove-ne-crashes listen_error e = cc

  Step-Sound : {p q : Process F} → Step Node u p q → SoundOf p → SoundOf q
  Step-Sound (time_passes h a) s = s
  Step-Sound {p} (main_step {o} {m} a mv) s =
      let (h, k) = MainMove-MainReturns mv s.main_ok in
      Sound-apply o (record p { main = m }) h
        (record {
          no_crash = s.no_crash;
          main_ok = k;
          quick_ok = s.quick_ok;
          daily_ok = s.daily_ok;
        })
  Step-Sound {p} (quick_step {o} {q} a mv) s =
      let (h, k) = QuickMove-QuickReturns mv s.quick_ok in
      Sound-apply o (record p { quick = q }) h
        (record { no_crash = s.no_crash; main_ok = s.main_ok; quick_ok = k; daily_ok = s.daily_ok })
  Step-Sound {p} (daily_step {o} {d} a mv) s =
      let (h, k) = DailyMove-DailyReturns mv s.daily_ok in
      Sound-apply o (record p { daily = d }) h
        (record { no_crash = s.no_crash; main_ok = s.main_ok; quick_ok = s.quick_ok; daily_ok = k })
  Step-Sound {p} (server_step {o} {v} a mv) s =
      Sound-apply o (record p { server = v }) (ServerMove-ne-crashes mv) s

  Reach-Sound : {p : Process F} → Reach Node u p → SoundOf p
  Reach-Sound (start now run) = record {
    no_crash = λ e. cc;
    main_ok = RunsTo-ne-none run;
    quick_ok = tt;
    daily_ok = tt;
  }
  Reach-Sound (later r st) = Step-Sound st (Reach-Sound r)

-- The daemon never crashes, however its goroutines interleave and however many calls fail, if the
-- node sends no payload on which `decodeAddressArray` panics, the interval of the quick loop is
-- positive, and the two patterns of the server can be registered.
pub no_crash_lem :
    {F W X : Type 0} (Node : Env F W → Type 0) (u : Setup F X) (x : X) (p : Process F)
    → ((env : Env F W) → Node env → IsDecodable env)
    → not_positive u.cfg.scheduler.quick_interval ≡ false
    → register u.mux u.cfg.metrics.path ≡ some x
    → Reach Node u p
    → p.status ≢ crashed
no_crash_lem Node u x p decodable positive registered r =
    (Reach-Sound Node u decodable positive x registered r).no_crash
