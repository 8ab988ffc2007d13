-- ===== src/Daemon/Series.antt =====
-- What the daemon exports, over all interleavings of its goroutines.
use mathlib.Core.Path.{subst}
use hertz_reconciler.Prelude.{ℕ, ◌≡◌, refl, sym, ap, ◌∙◌, inr, Option, none, some, List, [], ◌∷◌}
use hertz_reconciler.Metrics.{Event, set_to, reconciler_up, SetsGauge}
use hertz_reconciler.Runtime.{Env, Outcome, ret, panic}
use hertz_reconciler.Runtime.Keeps
use hertz_reconciler.Runtime.Keeps.{AllEvents, AllEvents-append, Holds}
use hertz_reconciler.Reconciler.{Report}
use hertz_reconciler.Tasks.Whole.{run_all-tasks-SetsGauge}
use hertz_reconciler.Daemon.{
  Setup, RunsTo, result_of, MainPc, first_run, starting, awaiting_signal, shutting_down, cancelled,
  QuickPc, DailyPc, Process, Output, emits, apply, ServerPc, listen, register_panic, listen_error,
  MainMove, QuickMove, DailyMove, ServerMove, Step, Reach, first_emit, first_panic, first_done,
  notify, killed_running, killed_starting, signal, cancel, exit, quick_start, ticker, ticker_panic,
  tick, quick_emit, quick_panic, quick_done, quick_stop, daily_start, schedule, fire, daily_emit,
  daily_panic, digest, no_webhook, post, daily_stop, time_passes, main_step, quick_step, daily_step,
  server_step, start, later,
}
use hertz_reconciler.Daemon.Exports.{
  set_up, up_after, IsExported, quick_pending, daily_pending, Harmless, SeriesOf, Series-emits,
  Series-main, Series-quick, Series-daily, Series-apply, main-apply,
}

module _ {F W X : Type 0} (Node : Env F W → Type 0) (u : Setup F X) where
  -- The value that `reconciler_up` should have: 1 until `main` catches a signal, and 0 from then on.
  abbrev pub expected_up : MainPc F → F
  expected_up (first_run es r) = u.floats.one
  expected_up starting = u.floats.one
  expected_up awaiting_signal = u.floats.one
  expected_up shutting_down = u.floats.of_uint 0
  expected_up cancelled = u.floats.of_uint 0

  abbrev Inv : Process F → Type 0
  Inv p = SeriesOf (expected_up p.main) p

  Inv-apply : (o : Output F) (p : Process F) → Harmless o → Inv p → Inv (apply o p)
  Inv-apply o p h s =
      subst (λ (y : F). SeriesOf y (apply o p)) (ap expected_up (sym (main-apply o p)))
        (Series-apply o p h s)

  events_of :
      (o : Outcome F W (List Report)) (es : List (Event F)) (r : Option (List Report))
      → result_of o ≡ (es, r)
      → Holds SetsGauge Keeps.Anything [] o
      → AllEvents SetsGauge es
  events_of (ret rs s) es r e ((fs, f, h), _) =
      let same : fs ≡ es = sym f ∙ ap (λ z. z.0) e in rw same at h
  events_of (panic s) es r e (fs, f, h) =
      let same : fs ≡ es = sym f ∙ ap (λ z. z.0) e in rw same at h

  pub RunsTo-SetsGauge :
      {es : List (Event F)} {r : Option (List Report)}
      → RunsTo Node u.cfg es r
      → AllEvents SetsGauge es
  RunsTo-SetsGauge {es} {r} run =
      events_of _ es r run.result
        (run_all-tasks-SetsGauge run.env u.cfg (record { world = run.world; trace = [] }))

  QuickMove-Harmless :
      {m : MainPc F} {q q' : QuickPc F} {o : Output F}
      → QuickMove Node u m q o q'
      → AllEvents SetsGauge (quick_pending q)
      → Harmless o × AllEvents SetsGauge (quick_pending q')
  QuickMove-Harmless (quick_start h) k = (tt, tt)
  QuickMove-Harmless (ticker h) k = (tt, tt)
  QuickMove-Harmless (ticker_panic h) k = (tt, tt)
  QuickMove-Harmless (tick run) k = (tt, RunsTo-SetsGauge run)
  QuickMove-Harmless quick_emit (h, k) = (h, k)
  QuickMove-Harmless quick_panic k = (tt, tt)
  QuickMove-Harmless quick_done k = (tt, tt)
  QuickMove-Harmless (quick_stop h) k = (tt, tt)

  DailyMove-Harmless :
      {m : MainPc F} {now : ℕ} {d d' : DailyPc F} {o : Output F}
      → DailyMove Node u m now d o d'
      → AllEvents SetsGauge (daily_pending d)
      → Harmless o × AllEvents SetsGauge (daily_pending d')
  DailyMove-Harmless (daily_start h) k = (tt, tt)
  DailyMove-Harmless (schedule h) k = (tt, tt)
  DailyMove-Harmless (fire h run) k = (tt, RunsTo-SetsGauge run)
  DailyMove-Harmless daily_emit (h, k) = (h, k)
  DailyMove-Harmless daily_panic k = (tt, tt)
  DailyMove-Harmless (digest h e) k = (tt, tt)
  DailyMove-Harmless (no_webhook h) k = (tt, tt)
  DailyMove-Harmless post k = (tt, tt)
  DailyMove-Harmless (daily_stop h) k = (tt, tt)

  ServerMove-Harmless : {v v' : ServerPc} {o : Output F} → ServerMove Node u v o v' → Harmless o
  ServerMove-Harmless (listen h) = tt
  ServerMove-Harmless (register_panic h) = tt
  ServerMove-Harmless listen_error = tt

  zero_up :
      (old : Option F)
      → set_up (set_to reconciler_up [] (u.floats.of_uint 0)) old ≡ some (u.floats.of_uint 0)
  unfolding set_up
  zero_up old = refl

  one_up : up_after none (set_to reconciler_up [] u.floats.one ∷ []) ≡ some u.floats.one
  unfolding up_after
  one_up = refl

  MainMove-Inv :
      {m m' : MainPc F} {o : Output F}
      → MainMove Node u m o m'
      → (p : Process F) → Inv (record p { main = m })
      → Inv (apply o (record p { main = m' }))
  MainMove-Inv (first_emit {e} {es} {r}) p s =
      Inv-apply (emits e) (record p { main = first_run es r }) s.main_ok.0
        (Series-main (first_run es r) s.main_ok.1 s)
  MainMove-Inv first_panic p s = s
  MainMove-Inv first_done p s = Series-main starting tt s
  MainMove-Inv notify p s = Series-main awaiting_signal tt s
  MainMove-Inv killed_running p s = s
  MainMove-Inv killed_starting p s = s
  MainMove-Inv signal p s =
      Series-emits (set_to reconciler_up [] (u.floats.of_uint 0)) (u.floats.of_uint 0)
        (inr (u.floats.of_uint 0, refl)) (zero_up _) (Series-main shutting_down tt s)
  MainMove-Inv cancel p s = Series-main cancelled tt s
  MainMove-Inv exit p s = s

  Step-Inv : {p q : Process F} → Step Node u p q → Inv p → Inv q
  Step-Inv (time_passes h a) s = s
  Step-Inv {p} (main_step a mv) s = MainMove-Inv mv p s
  Step-Inv {p} (quick_step {o} {q} a mv) s =
      let (h, k) = QuickMove-Harmless mv s.quick_ok in
      Inv-apply o (record p { quick = q }) h (Series-quick q k s)
  Step-Inv {p} (daily_step {o} {d} a mv) s =
      let (h, k) = DailyMove-Harmless mv s.daily_ok in
      Inv-apply o (record p { daily = d }) h (Series-daily d k s)
  Step-Inv {p} (server_step {o} {v} a mv) s =
      Inv-apply o (record p { server = v }) (ServerMove-Harmless mv) s

  Reach-Inv : {p : Process F} → Reach Node u p → Inv p
  Reach-Inv (start now run) = record {
    up = one_up;
    exported = (inr (u.floats.one, refl), tt);
    main_ok = RunsTo-SetsGauge run;
    quick_ok = tt;
    daily_ok = tt;
  }
  Reach-Inv (later r st) = Step-Inv st (Reach-Inv r)

-- Whatever the goroutines, the node and the clock do: `reconciler_up` is 1 from the start until
-- `main` catches a signal, and 0 from then on.
pub reconciler_up_lem :
    {F W X : Type 0} (Node : Env F W → Type 0) (u : Setup F X) (p : Process F)
    → Reach Node u p
    → up_after none p.trace ≡ some (expected_up Node u p.main)
reconciler_up_lem Node u p r = (Reach-Inv Node u r).up

-- Whatever the goroutines, the node and the clock do: every event that the daemon exports sets a
-- gauge under as many values as it has labels, or sets `reconciler_up`.
pub trace-IsExported :
    {F W X : Type 0} (Node : Env F W → Type 0) (u : Setup F X) (p : Process F)
    → Reach Node u p
    → AllEvents IsExported p.trace
trace-IsExported Node u p r = (Reach-Inv Node u r).exported
