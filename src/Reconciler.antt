-- ===== src/Reconciler.antt =====
-- internal/reconciler/reconciler.go: the reports of the tasks, the run of all tasks over all
-- versions (`RunAll`) and the digest (`Render`). Each task is a module below this one.
pub mod Render
pub mod RunAll
pub mod Quiet
pub mod Clean
pub mod Exported
use hertz_reconciler.Prelude.{
  ◌≡◌, ℕ, Bool, Option, none, some, List, [], ◌∷◌, ◌++◌, Str, str, str_eq, if◌then◌else◌,
}
use hertz_reconciler.Config.{VersionConfig, Config}
use hertz_reconciler.Metrics.{task_failed, inc, reconciler_errors_total}
use hertz_reconciler.Runtime.{Env, M, emit, pure, foreach, ◌>>=◌, ◌>>◌}

pub record Report : Type 0 where
  pub version : Str
  pub task : Str
  pub lines : List Str
  pub findings : List Str

-- `Report{}`
abbrev pub empty_report : Report
empty_report = record { version = []; task = []; lines = []; findings = [] }

-- `rep.Lines = append(rep.Lines, line)`
abbrev pub add_line : Str → Report → Report
add_line line rep = record rep { lines = rep.lines ++ line ∷ [] }

-- `rep.Findings = append(rep.Findings, finding)`
abbrev pub add_finding : Str → Report → Report
add_finding finding rep = record rep { findings = rep.findings ++ finding ∷ [] }

-- The error that a task returns is `nil`.
abbrev pub NoError : Report × Option Str → Type 0
NoError result = result.1 ≡ none

-- The interface `Task`. `run` returns the report and the error, `none` for `nil`; the context that
-- it is given is ignored by every task.
pub record Task (F W : Type 0) : Type 0 where
  pub name : Str
  pub run : VersionConfig → M F W (Report × Option Str)

module _ {F W : Type 0} where
  -- The branch `if err != nil` of `RunAll`.
  report_error : Task F W → VersionConfig → Report × Option Str → M F W Report
  report_error t v (rep, none) = pure rep
  report_error t v (rep, some e) = do
    emit (task_failed t.name v.name e)
    emit (inc reconciler_errors_total (t.name ∷ v.name ∷ []))
    pure (add_finding (str "[" ++ (t.name ++ (str "] error: " ++ e))) rep)

  -- One round of the two loops of `RunAll`.
  unfoldable pub run_task : VersionConfig → Task F W → List Report → M F W (List Report)
  unfolding report_error
  run_task v t reports = do
    result ← t.run v
    rep ← report_error t v result
    pure (reports ++ (record rep { version = v.name; task = t.name }) ∷ [])

  unfoldable pub run_all : Config → List (Task F W) → M F W (List Report)
  unfolding run_task
  run_all cfg tasks = foreach cfg.versions (λ v. foreach tasks (run_task v)) []
