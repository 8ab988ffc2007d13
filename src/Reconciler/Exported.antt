-- ===== src/Reconciler/Exported.antt =====
-- What a round of `RunAll` exports, for a task that returns no error: what the task exports.
use hertz_reconciler.Prelude.{Option, none, some, List, [], Str}
use hertz_reconciler.Config.{VersionConfig}
use hertz_reconciler.Metrics.{Event}
use hertz_reconciler.Runtime.Total.{Anything}
use hertz_reconciler.Runtime.Exports.{Exports, Exports-pure, Exports-last}
use hertz_reconciler.Reconciler.{Report, Task, NoError, run_task, report_error}

module _ {F W : Type 0} where
  NoError-Exports :
      (t : Task F W) (v : VersionConfig) (result : Report × Option Str)
      → NoError result
      → Exports [] Anything (report_error t v result)
  unfolding report_error
  NoError-Exports t v (rep, none) h = Exports-pure rep tt
  NoError-Exports t v (rep, some e) h = cc

  pub run_task-Exports :
      {xs : List (Event F)} (v : VersionConfig) (t : Task F W)
      → Exports xs NoError (t.run v)
      → (rs : List Report) → Exports xs Anything (run_task v t rs)
  unfolding run_task
  run_task-Exports v t h rs =
      Exports-last _ _ h λ result quiet.
        Exports-last _ _ (NoError-Exports t v result quiet) λ rep _. Exports-pure _ tt
