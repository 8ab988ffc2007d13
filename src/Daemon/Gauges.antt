-- ===== src/Daemon/Gauges.antt =====
-- What the gauges show while the goroutines run, against a chain that does not change.
use mathlib.Core.Path.{subst}
use hertz_reconciler.Prelude.{
  ◌≡◌, ◌≢◌, refl, sym, ap, ◌∙◌, ℕ, inl, inr, Option, none, some, List, [], ◌∷◌, ◌++◌, append-nil,
  append_assoc, All,
}
use hertz_reconciler.Prelude.Members.{Member}
use hertz_reconciler.Chain.Client.Snapshot.{Snapshot}
use hertz_reconciler.Metrics.{Event, set_to, reconciler_up, gauge, kind, SetsGauge}
use hertz_reconciler.Metrics.Values.{Gauge, value_after}
use hertz_reconciler.Metrics.Steady.{Agrees, value_after-Agrees}
use hertz_reconciler.Runtime.{Env}
use hertz_reconciler.Runtime.Keeps.{AllEvents}
use hertz_reconciler.Reconciler.{Report}
use hertz_reconciler.Tasks.Gauges.Places.{IsNamed}
use hertz_reconciler.Tasks.Gauges.Standing.{Serves, standing_gauges, run_all-Agrees}
use hertz_reconciler.Daemon.{
  Setup, RunsTo, result_of, MainPc, first_run, starting, awaiting_signal, shutting_down, cancelled,
  QuickPc, DailyPc, ServerPc, Process, Output, emits, apply, IsServing, MainMove, QuickMove,
  DailyMove, ServerMove, Step, Reach, first_emit, first_panic, first_done, notify, killed_running,
  killed_starting, signal, cancel, exit, quick_start, ticker, ticker_panic, tick, quick_emit,
  quick_panic, quick_done, quick_stop, daily_start, schedule, fire, daily_emit, daily_panic, digest,
  no_webhook, post, daily_stop, listen, register_panic, listen_error, time_passes, main_step,
  quick_step, daily_step, server_step, start, later,
}
use hertz_reconciler.Daemon.Gauged.{
  All-snoc_event, GaugedOf, Follows, Gauged-apply, Gauged-main, Gauged-quick, Gauged-daily,
}
use hertz_reconciler.Daemon.Exports.{main_pending, quick_pending, daily_pending}
use hertz_reconciler.Daemon.Series.{RunsTo-SetsGauge}

AllEvents-Member :
    {F : Type 0} (P : Event F → Type 0) (e : Event F) (es : List (Event F))
    → AllEvents P es
    → Member e es
    → P e
AllEvents-Member P e [] h k = absurd k
AllEvents-Member P e (e' ∷ es) (p, h) (inl same) = subst P same p
AllEvents-Member P e (e' ∷ es) (p, h) (inr there) = AllEvents-Member P e es h there

module _ {F W X : Type 0} (env₀ : Env F W) (snap : Snapshot) (u : Setup F X) (named : IsNamed u.cfg)
    (g : Gauge) (x : F)
    (standing : Member (set_to g.0 g.1 x) (standing_gauges env₀ snap u.cfg)) where
  abbrev Node : Env F W → Type 0
  Node = Serves env₀ snap

  run_ok :
      {es : List (Event F)} {r : Option (List Report)}
      → RunsTo Node u.cfg es r
      → All (Agrees g x) es × Member (set_to g.0 g.1 x) es
  run_ok {es} {r} run =
      let (rs, s', es', e, f, agree, there) =
        run_all-Agrees env₀ snap u.cfg run.env run.node named g x standing
          (record { world = run.world; trace = [] }) in
      let outcome : (s'.trace, some rs) ≡ (es, r) = ap result_of (sym e) ∙ run.result in
      let same : es' ≡ es = sym f ∙ ap (λ z. z.0) outcome in (rw (← same) agree, rw (← same) there)

  -- No task sets `reconciler_up`.
  not_up :
      {es : List (Event F)} {r : Option (List Report)}
      → RunsTo Node u.cfg es r
      → g ≢ (reconciler_up, [])
  unfolding kind
  not_up {es} run same =
      let (agree, there) = run_ok run in
      let (values, vector) =
        AllEvents-Member SetsGauge (set_to g.0 g.1 x) es (RunsTo-SetsGauge Node u run) there in
      let plain : kind g.0 ≡ gauge = ap (λ h. kind h.0) same in cc

  module _ (up : g ≢ (reconciler_up, [])) where
    QuickMove-Follows :
        {m : MainPc F} {q q' : QuickPc F} {o : Output F}
        → QuickMove Node u m q o q'
        → All (Agrees g x) (quick_pending q)
        → Follows g x o × All (Agrees g x) (quick_pending q')
    QuickMove-Follows (quick_start h) k = (tt, tt)
    QuickMove-Follows (ticker h) k = (tt, tt)
    QuickMove-Follows (ticker_panic h) k = (tt, tt)
    QuickMove-Follows (tick run) k = (tt, (run_ok run).0)
    QuickMove-Follows quick_emit (h, k) = (h, k)
    QuickMove-Follows quick_panic k = (tt, tt)
    QuickMove-Follows quick_done k = (tt, tt)
    QuickMove-Follows (quick_stop h) k = (tt, tt)

    DailyMove-Follows :
        {m : MainPc F} {now : ℕ} {d d' : DailyPc F} {o : Output F}
        → DailyMove Node u m now d o d'
        → All (Agrees g x) (daily_pending d)
        → Follows g x o × All (Agrees g x) (daily_pending d')
    DailyMove-Follows (daily_start h) k = (tt, tt)
    DailyMove-Follows (schedule h) k = (tt, tt)
    DailyMove-Follows (fire h run) k = (tt, (run_ok run).0)
    DailyMove-Follows daily_emit (h, k) = (h, k)
    DailyMove-Follows daily_panic k = (tt, tt)
    DailyMove-Follows (digest h e) k = (tt, tt)
    DailyMove-Follows (no_webhook h) k = (tt, tt)
    DailyMove-Follows post k = (tt, tt)
    DailyMove-Follows (daily_stop h) k = (tt, tt)

    ServerMove-Follows : {v v' : ServerPc} {o : Output F} → ServerMove Node u v o v' → Follows g x o
    ServerMove-Follows (listen h) = tt
    ServerMove-Follows (register_panic h) = tt
    ServerMove-Follows listen_error = tt

    MainMove-Gauged :
        {m m' : MainPc F} {o : Output F}
        → MainMove Node u m o m'
        → (p : Process F) → GaugedOf g x (record p { main = m })
        → GaugedOf g x (apply o (record p { main = m' }))
    MainMove-Gauged (first_emit {e} {es} {r}) p s = record {
      trace_ok = All-snoc_event _ p.trace e s.trace_ok (s.main_ok.0);
      main_ok = s.main_ok.1;
      quick_ok = s.quick_ok;
      daily_ok = s.daily_ok;
      once = rw (append_assoc p.trace (e ∷ []) es) s.once;
    }
    MainMove-Gauged first_panic p s = s
    MainMove-Gauged first_done p s = Gauged-main g x refl refl s
    MainMove-Gauged notify p s = Gauged-main g x refl refl s
    MainMove-Gauged killed_running p s = s
    MainMove-Gauged killed_starting p s = s
    MainMove-Gauged signal p s =
        Gauged-apply g x (emits (set_to reconciler_up [] (u.floats.of_uint 0)))
          (record p { main = shutting_down }) (λ same. absurd (up same))
          (Gauged-main g x refl refl s)
    MainMove-Gauged cancel p s = Gauged-main g x refl refl s
    MainMove-Gauged exit p s = s

    Step-Gauged : {p q : Process F} → Step Node u p q → GaugedOf g x p → GaugedOf g x q
    Step-Gauged (time_passes h a) s = s
    Step-Gauged {p} (main_step a mv) s = MainMove-Gauged mv p s
    Step-Gauged {p} (quick_step {o} {q} a mv) s =
        let (h, k) = QuickMove-Follows mv s.quick_ok in
        Gauged-apply g x o (record p { quick = q }) h (Gauged-quick g x q k s)
    Step-Gauged {p} (daily_step {o} {d} a mv) s =
        let (h, k) = DailyMove-Follows mv s.daily_ok in
        Gauged-apply g x o (record p { daily = d }) h (Gauged-daily g x d k s)
    Step-Gauged {p} (server_step {o} {v} a mv) s =
        Gauged-apply g x o (record p { server = v }) (ServerMove-Follows mv) s

  Reach-Gauged : {p : Process F} → Reach Node u p → (g ≢ (reconciler_up, [])) × GaugedOf g x p
  Reach-Gauged (start now run) =
      let (agree, there) = run_ok run in
      let up = not_up run in
      (
        up,
        record {
          trace_ok = ((λ same. absurd (up same)), tt);
          main_ok = agree;
          quick_ok = tt;
          daily_ok = tt;
          once = inr there;
        },
      )
  Reach-Gauged (later r st) = let (up, s) = Reach-Gauged r in (up, Step-Gauged up st s)

serving_pending : {F : Type 0} (m : MainPc F) → IsServing m → main_pending m ≡ []
serving_pending (first_run es r) h = absurd h
serving_pending starting h = refl
serving_pending awaiting_signal h = refl
serving_pending shutting_down h = refl
serving_pending cancelled h = refl

-- When the nodes give the answers of one snapshot, none of which is one on which decodeAddressArray
-- panics, the clock stands still during each run, a range visits every entry of a map once, the
-- versions have different names, the roles and the keys of each map too, and no handler is named
-- root: from the end of the first run on, in every interleaving of the goroutines, each gauge of a
-- value that could be read, other than the ages of the price feeds, shows this value, also while
-- runs are in progress.
pub gauges_lem :
    {F W X : Type 0} (env₀ : Env F W) (snap : Snapshot) (u : Setup F X) (p : Process F) (g : Gauge)
    (x : F)
    → IsNamed u.cfg
    → Member (set_to g.0 g.1 x) (standing_gauges env₀ snap u.cfg)
    → Reach (Serves env₀ snap) u p
    → IsServing p.main
    → value_after g none p.trace ≡ some x
gauges_lem env₀ snap u p g x named standing r serving =
    let (up, s) = Reach-Gauged env₀ snap u named g x standing r in
    let once : Member (set_to g.0 g.1 x) (p.trace ++ []) =
      rw (← serving_pending p.main serving) s.once in
    value_after-Agrees g x none p.trace (rw (← append-nil p.trace) once) s.trace_ok
