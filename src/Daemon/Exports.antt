-- ===== src/Daemon/Exports.antt =====
-- The series that the daemon exports, and the events that its goroutines have yet to emit.
use hertz_reconciler.Prelude.{
  ◌≡◌, refl, ap, ◌∙◌, ◌⊎◌, inl, Bool, true, false, Option, none, some, List, [], ◌∷◌, ◌++◌,
  if◌then◌else◌,
}
use hertz_reconciler.Metrics.{
  Metric, Event, set_to, set_now, inc, task_failed, reconciler_up, gauge_vec, kind, SetsGauge,
}
use hertz_reconciler.Runtime.Keeps.{AllEvents, AllEvents-append}
use hertz_reconciler.Daemon.{
  MainPc, first_run, starting, awaiting_signal, shutting_down, cancelled, QuickPc, quick_unborn,
  making_ticker, awaiting_tick, quick_run, quick_returned, DailyPc, daily_unborn, scheduling,
  sleeping, daily_run, sending, daily_returned, Process, Output, silent, crashes, exits, emits,
  sends, apply,
}

is_up : Metric → Bool
is_up reconciler_up = true
is_up _ = false

-- The value of `reconciler_up` after an event.
unfoldable pub set_up : {F : Type 0} → Event F → Option F → Option F
unfolding is_up
set_up (set_to m values x) old = if is_up m then some x else old
set_up (set_now m values) old = old
set_up (inc m values) old = old
set_up (task_failed task version e) old = old

-- The value of `reconciler_up` after a list of events, from the value before it.
unfoldable pub up_after : {F : Type 0} → Option F → List (Event F) → Option F
unfolding set_up
up_after old [] = old
up_after old (e ∷ es) = up_after (set_up e old) es

pub up_after-snoc :
    {F : Type 0} (old : Option F) (es : List (Event F)) (e : Event F)
    → up_after old (es ++ e ∷ []) ≡ set_up e (up_after old es)
unfolding up_after
up_after-snoc old [] e = refl
up_after-snoc old (x ∷ es) e = up_after-snoc (set_up x old) es e

is_up-gauge_vec : (m : Metric) → kind m ≡ gauge_vec → is_up m ≡ false
unfolding is_up kind
is_up-gauge_vec reconciler_up h = cc
is_up-gauge_vec _ h = refl

pub set_up-SetsGauge :
    {F : Type 0} (e : Event F) (old : Option F) → SetsGauge e → set_up e old ≡ old
unfolding set_up
set_up-SetsGauge (set_to m values x) old h = rw (is_up-gauge_vec m h.1)
set_up-SetsGauge (set_now m values) old h = refl
set_up-SetsGauge (inc m values) old h = refl
set_up-SetsGauge (task_failed task version e) old h = refl

-- An event of a task, or one of `main`.
abbrev pub IsExported : {F : Type 0} → Event F → Type 0
IsExported {F} e = SetsGauge e ⊎ ((x : F) × (e ≡ set_to reconciler_up [] x))

-- The events that a goroutine has yet to emit.
abbrev pub main_pending : {F : Type 0} → MainPc F → List (Event F)
main_pending (first_run es r) = es
main_pending starting = []
main_pending awaiting_signal = []
main_pending shutting_down = []
main_pending cancelled = []

abbrev pub quick_pending : {F : Type 0} → QuickPc F → List (Event F)
quick_pending quick_unborn = []
quick_pending making_ticker = []
quick_pending awaiting_tick = []
quick_pending (quick_run es r) = es
quick_pending quick_returned = []

abbrev pub daily_pending : {F : Type 0} → DailyPc F → List (Event F)
daily_pending daily_unborn = []
daily_pending scheduling = []
daily_pending (sleeping t) = []
daily_pending (daily_run t es r) = es
daily_pending (sending t text) = []
daily_pending daily_returned = []

abbrev pub Harmless : {F : Type 0} → Output F → Type 0
Harmless (emits e) = SetsGauge e
Harmless silent = Unit
Harmless crashes = Unit
Harmless exits = Unit
Harmless (sends t text) = Unit

-- `reconciler_up` is `x`, and what was exported and what the goroutines are yet to emit is in order.
pub record Series {F : Type 0} (x : F) (trace : List (Event F)) (m : MainPc F) (q : QuickPc F)
    (d : DailyPc F) : Type 0 where
  pub up : up_after none trace ≡ some x
  pub exported : AllEvents IsExported trace
  pub main_ok : AllEvents SetsGauge (main_pending m)
  pub quick_ok : AllEvents SetsGauge (quick_pending q)
  pub daily_ok : AllEvents SetsGauge (daily_pending d)

abbrev pub SeriesOf : {F : Type 0} → F → Process F → Type 0
SeriesOf x p = Series x p.trace p.main p.quick p.daily

pub Series-emits :
    {F : Type 0} {x : F} {trace : List (Event F)} {m : MainPc F} {q : QuickPc F} {d : DailyPc F}
    (e : Event F) (y : F)
    → IsExported e
    → set_up e (some x) ≡ some y
    → Series x trace m q d
    → Series y (trace ++ e ∷ []) m q d
Series-emits {trace} e y h k s = record {
  up = up_after-snoc none trace e ∙ ap (set_up e) s.up ∙ k;
  exported = AllEvents-append IsExported trace (e ∷ []) s.exported (h, tt);
  main_ok = s.main_ok;
  quick_ok = s.quick_ok;
  daily_ok = s.daily_ok;
}

pub Series-main :
    {F : Type 0} {x : F} {trace : List (Event F)} {m : MainPc F} {q : QuickPc F} {d : DailyPc F}
    (m' : MainPc F)
    → AllEvents SetsGauge (main_pending m')
    → Series x trace m q d
    → Series x trace m' q d
Series-main m' h s = record {
  up = s.up;
  exported = s.exported;
  main_ok = h;
  quick_ok = s.quick_ok;
  daily_ok = s.daily_ok;
}

pub Series-quick :
    {F : Type 0} {x : F} {trace : List (Event F)} {m : MainPc F} {q : QuickPc F} {d : DailyPc F}
    (q' : QuickPc F)
    → AllEvents SetsGauge (quick_pending q')
    → Series x trace m q d
    → Series x trace m q' d
Series-quick q' h s = record {
  up = s.up;
  exported = s.exported;
  main_ok = s.main_ok;
  quick_ok = h;
  daily_ok = s.daily_ok;
}

pub Series-daily :
    {F : Type 0} {x : F} {trace : List (Event F)} {m : MainPc F} {q : QuickPc F} {d : DailyPc F}
    (d' : DailyPc F)
    → AllEvents SetsGauge (daily_pending d')
    → Series x trace m q d
    → Series x trace m q d'
Series-daily d' h s = record {
  up = s.up;
  exported = s.exported;
  main_ok = s.main_ok;
  quick_ok = s.quick_ok;
  daily_ok = h;
}

pub Series-apply :
    {F : Type 0} {x : F} (o : Output F) (p : Process F)
    → Harmless o
    → SeriesOf x p
    → SeriesOf x (apply o p)
Series-apply silent p h s = s
Series-apply crashes p h s = s
Series-apply exits p h s = s
Series-apply {x} (emits e) p h s = Series-emits e x (inl h) (set_up-SetsGauge e (some x) h) s
Series-apply (sends t text) p h s = s

pub main-apply : {F : Type 0} (o : Output F) (p : Process F) → (apply o p).main ≡ p.main
main-apply silent p = refl
main-apply crashes p = refl
main-apply exits p = refl
main-apply (emits e) p = refl
main-apply (sends t text) p = refl
