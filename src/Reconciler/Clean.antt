-- ===== src/Reconciler/Clean.antt =====
-- A run without findings, for tasks that return no error.
use hertz_reconciler.Prelude.{◌≡◌, ◌↔◌, refl, Option, none, some, List, [], ◌∷◌, ◌++◌, Str, All}
use hertz_reconciler.Config.{VersionConfig}
use hertz_reconciler.Runtime.Total.{Total, Total-bind_post, Total-pure}
use hertz_reconciler.Reconciler.{Report, Task, NoError, run_task, report_error}

-- No report has a finding.
abbrev pub HasNoFinding : List Report → Type 0
HasNoFinding rs = All (λ r. r.findings ≡ []) rs

All-snoc :
    {A : Type 0} (P : A → Type 0) (xs : List A) (x : A) → All P (xs ++ x ∷ []) ↔ (All P xs × P x)
All-snoc P [] x = ((λ (p, q). (tt, p)), (λ (q, p). (p, tt)))
All-snoc P (y ∷ xs) x =
    let rest = All-snoc P xs x in
    ((λ (p, q). let (a, b) = rest.0 q in ((p, a), b)), (λ ((p, a), b). (p, rest.1 (a, b))))

module _ {F W : Type 0} where
  NoError-Total :
      (t : Task F W) (v : VersionConfig) (result : Report × Option Str)
      → NoError result
      → Total (λ rep. rep ≡ result.0) (report_error t v result)
  unfolding report_error
  NoError-Total t v (rep, none) h = Total-pure rep refl
  NoError-Total t v (rep, some e) h = cc

  -- One round: the reports have no finding if they had none before and the task makes none.
  pub run_task-HasNoFinding :
      (v : VersionConfig) (t : Task F W) (C : Type 0)
      → Total (λ result. NoError result × ((result.0.findings ≡ []) ↔ C)) (t.run v)
      → (rs : List Report)
      → Total (λ rs'. HasNoFinding rs' ↔ (HasNoFinding rs × C)) (run_task v t rs)
  unfolding run_task
  run_task-HasNoFinding v t C h rs = Total-bind_post _ _ h λ result (quiet, clean).
      Total-bind_post _ _ (NoError-Total t v result quiet) λ rep same. Total-pure _ (
        let snoc =
          All-snoc (λ (r : Report). r.findings ≡ []) rs
            (record rep { version = v.name; task = t.name }) in
        (
          (λ z. let (a, b) = snoc.0 z in (a, clean.0 (rw (← same) b))),
          (λ (a, c). snoc.1 (a, rw same (clean.1 c))),
        ))
