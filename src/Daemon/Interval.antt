-- ===== src/Daemon/Interval.antt =====
-- A negative interval passes `validate`, and crashes the daemon.
use hertz_reconciler.Prelude.{◌≡◌, refl, ◌⊎◌, true, some, List, [], ◌∷◌}
use hertz_reconciler.Config.{Config, not_positive}
use hertz_reconciler.Metrics.{Event}
use hertz_reconciler.Reconciler.{Report}
use hertz_reconciler.Runtime.{Env}
use hertz_reconciler.Daemon.{
  Setup, first_run, starting, QuickPc, quick_unborn, making_ticker, alive, Process, silent, emits,
  apply, Reach, first_emit, first_done, main_step, later,
}

module _ {F W X : Type 0} (Node : Env F W → Type 0) (u : Setup F X) where
  -- The first run comes to its end, whatever it emits.
  pub first_run_ends :
      (es : List (Event F)) (rs : List Report) (p : Process F)
      → p.main ≡ first_run es (some rs)
      → p.quick ≡ quick_unborn
      → p.status ≡ alive
      → Reach Node u p
      → (q : Process F) × Reach Node u q
        × (q.main ≡ starting)
        × (q.quick ≡ quick_unborn)
        × (q.status ≡ alive)
  first_run_ends [] rs p m q a r = (
    record p { main = starting },
    later r (main_step {o = silent} {m = starting} a (rw m first_done)),
    refl,
    q,
    a,
  )
  first_run_ends (e ∷ es) rs p m q a r =
      first_run_ends es rs (apply (emits e) (record p { main = first_run es (some rs) })) refl q a
        (later r (main_step {o = emits e} {m = first_run es (some rs)} a (rw m first_emit)))

  module _ (negative : not_positive u.cfg.scheduler.quick_interval ≡ true) where
    abbrev AtStart : QuickPc F → Type 0
    AtStart q = (q ≡ quick_unborn) ⊎ (q ≡ making_ticker)
