-- ===== src/Reconciler/Quiet.antt =====
-- A run of `RunAll` over tasks that only set gauges and return no error.
use hertz_reconciler.Prelude.{Option, none, some, List, [], ◌∷◌, Str, All}
use hertz_reconciler.Config.{VersionConfig, Config}
use hertz_reconciler.Metrics.{SetsGauge}
use hertz_reconciler.Runtime.{foreach}
use hertz_reconciler.Runtime.Keeps.{
  Keeps, Anything, Keeps-bind, Keeps-bind_post, Keeps-pure, Keeps-foreach,
}
use hertz_reconciler.Reconciler.{Report, Task, NoError, run_task, run_all, report_error}

module _ {F W : Type 0} where
  -- The task only sets gauges, and returns no error.
  abbrev pub IsQuiet : Task F W → Type 0
  IsQuiet t = (v : VersionConfig) → Keeps SetsGauge NoError (t.run v)

  report_error-SetsGauge :
      (t : Task F W) (v : VersionConfig) (result : Report × Option Str)
      → NoError result
      → Keeps SetsGauge Anything (report_error t v result)
  unfolding report_error
  report_error-SetsGauge t v (rep, none) e = Keeps-pure rep tt
  report_error-SetsGauge t v (rep, some text) e = cc

  run_task-SetsGauge :
      (v : VersionConfig) (t : Task F W) (rs : List Report)
      → IsQuiet t
      → Keeps SetsGauge Anything (run_task v t rs)
  unfolding run_task
  run_task-SetsGauge v t rs h = Keeps-bind_post (t.run v) _ (h v) λ result e.
      Keeps-bind (report_error t v result) _ (report_error-SetsGauge t v result e)
        λ rep. Keeps-pure _ tt

  version-SetsGauge :
      (v : VersionConfig) (ts : List (Task F W)) (rs : List Report)
      → All IsQuiet ts
      → Keeps SetsGauge Anything (foreach ts (run_task v) rs)
  unfolding foreach
  version-SetsGauge v [] rs h = Keeps-pure rs tt
  version-SetsGauge v (t ∷ ts) rs (ht, h) =
      Keeps-bind (run_task v t rs) (foreach ts (run_task v)) (run_task-SetsGauge v t rs ht)
        λ rs'. version-SetsGauge v ts rs' h

  pub run_all-SetsGauge :
      (cfg : Config) (ts : List (Task F W))
      → All IsQuiet ts
      → Keeps SetsGauge Anything (run_all cfg ts)
  unfolding run_all
  run_all-SetsGauge cfg ts h = Keeps-foreach cfg.versions _ [] (λ v rs. version-SetsGauge v ts rs h)
