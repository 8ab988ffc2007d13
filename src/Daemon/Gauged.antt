-- ===== src/Daemon/Gauged.antt =====
-- A gauge to which every goroutine gives the same value.
use hertz_reconciler.Prelude.{◌≡◌, List, [], ◌∷◌, ◌++◌, All}
use hertz_reconciler.Prelude.Members.{Member, Member-insert}
use hertz_reconciler.Metrics.{Event, set_to}
use hertz_reconciler.Metrics.Values.{Gauge}
use hertz_reconciler.Metrics.Steady.{Agrees}
use hertz_reconciler.Daemon.{
  MainPc, QuickPc, DailyPc, Process, Output, silent, crashes, exits, emits, sends, apply,
}
use hertz_reconciler.Daemon.Exports.{main_pending, quick_pending, daily_pending}

pub All-snoc_event :
    {A : Type 0} (P : A → Type 0) (xs : List A) (x : A) → All P xs → P x → All P (xs ++ x ∷ [])
All-snoc_event P [] x h k = (k, tt)
All-snoc_event P (y ∷ ys) x (hy, h) k = (hy, All-snoc_event P ys x h k)

-- What was exported and what the goroutines are yet to emit agrees with the value of the gauge, and
-- the gauge has been set, or is yet to be set by the first run.
pub record Gauged {F : Type 0} (g : Gauge) (x : F) (trace : List (Event F)) (m : MainPc F)
    (q : QuickPc F) (d : DailyPc F) : Type 0 where
  pub trace_ok : All (Agrees g x) trace
  pub main_ok : All (Agrees g x) (main_pending m)
  pub quick_ok : All (Agrees g x) (quick_pending q)
  pub daily_ok : All (Agrees g x) (daily_pending d)
  pub once : Member (set_to g.0 g.1 x) (trace ++ main_pending m)

abbrev pub GaugedOf : {F : Type 0} → Gauge → F → Process F → Type 0
GaugedOf g x p = Gauged g x p.trace p.main p.quick p.daily

module _ {F : Type 0} (g : Gauge) (x : F) where
  abbrev pub Follows : Output F → Type 0
  Follows (emits e) = Agrees g x e
  Follows silent = Unit
  Follows crashes = Unit
  Follows exits = Unit
  Follows (sends t text) = Unit

  pub Gauged-apply :
      (o : Output F) (p : Process F) → Follows o → GaugedOf g x p → GaugedOf g x (apply o p)
  Gauged-apply silent p h s = s
  Gauged-apply crashes p h s = s
  Gauged-apply exits p h s = s
  Gauged-apply (sends t text) p h s = s
  Gauged-apply (emits e) p h s = record {
    trace_ok = All-snoc_event _ p.trace e s.trace_ok h;
    main_ok = s.main_ok;
    quick_ok = s.quick_ok;
    daily_ok = s.daily_ok;
    once = Member-insert _ e p.trace (main_pending p.main) s.once;
  }

  -- `main` goes on without a run in progress.
  pub Gauged-main :
      {trace : List (Event F)} {m m' : MainPc F} {q : QuickPc F} {d : DailyPc F}
      → main_pending m ≡ []
      → main_pending m' ≡ []
      → Gauged g x trace m q d
      → Gauged g x trace m' q d
  Gauged-main {trace} e e' s = record {
    trace_ok = s.trace_ok;
    main_ok = rw e' tt;
    quick_ok = s.quick_ok;
    daily_ok = s.daily_ok;
    once = rw (e', ← e) s.once;
  }

  pub Gauged-quick :
      {trace : List (Event F)} {m : MainPc F} {q : QuickPc F} {d : DailyPc F} (q' : QuickPc F)
      → All (Agrees g x) (quick_pending q')
      → Gauged g x trace m q d
      → Gauged g x trace m q' d
  Gauged-quick q' h s = record {
    trace_ok = s.trace_ok;
    main_ok = s.main_ok;
    quick_ok = h;
    daily_ok = s.daily_ok;
    once = s.once;
  }

  pub Gauged-daily :
      {trace : List (Event F)} {m : MainPc F} {q : QuickPc F} {d : DailyPc F} (d' : DailyPc F)
      → All (Agrees g x) (daily_pending d')
      → Gauged g x trace m q d
      → Gauged g x trace m q d'
  Gauged-daily d' h s = record {
    trace_ok = s.trace_ok;
    main_ok = s.main_ok;
    quick_ok = s.quick_ok;
    daily_ok = h;
    once = s.once;
  }
