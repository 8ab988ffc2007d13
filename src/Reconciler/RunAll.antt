-- ===== src/Reconciler/RunAll.antt =====
-- What `RunAll` returns, for any tasks that do not panic.
use hertz_reconciler.Prelude.{
  ◌≡◌, refl, ap, Option, none, some, List, [], ◌∷◌, ◌++◌, map, Str, All, gather,
}
use hertz_reconciler.Config.{VersionConfig, Config}
use hertz_reconciler.Runtime.{State, ret, foreach}
use hertz_reconciler.Runtime.Total.{
  Total, Anything, Total-bind, Total-pure, Total-foreach-gather, total_rules,
}
use hertz_reconciler.Reconciler.{Report, Task, run_task, run_all, report_error}

-- The version and the task that a report is about.
abbrev pub origin : Report → Str × Str
origin r = (r.version, r.task)

map-origin-snoc :
    (rs : List Report) (r : Report) → map origin (rs ++ r ∷ []) ≡ map origin rs ++ origin r ∷ []
map-origin-snoc [] r = refl
map-origin-snoc (x ∷ rs) r = ap (λ l. origin x ∷ l) (map-origin-snoc rs r)

module _ {F W : Type 0} where
  -- No task of the list panics, whatever happens outside.
  abbrev pub AllReturn : List (Task F W) → Type 0
  AllReturn ts = All (λ t. (v : VersionConfig) → Total Anything (t.run v)) ts

  -- Every task for one version, in order.
  abbrev pub tasks_for : List (Task F W) → Str → List (Str × Str)
  tasks_for ts v = gather (λ t. (v, t.name) ∷ []) ts

  -- Every version with every task, in order.
  abbrev pub all_pairs : List VersionConfig → List (Task F W) → List (Str × Str)
  all_pairs vs ts = gather (λ v. tasks_for ts v.name) vs

  report_error-Total :
      (t : Task F W) (v : VersionConfig) (result : Report × Option Str)
      → Total Anything (report_error t v result)
  unfolding report_error
  report_error-Total t v (rep, none) = search (total_rules, tt)
  report_error-Total t v (rep, some e) = search (total_rules, tt)

  run_task-origin :
      (v : VersionConfig) (t : Task F W)
      → ((v : VersionConfig) → Total Anything (t.run v))
      → (rs : List Report)
      → Total (λ rs'. map origin rs' ≡ map origin rs ++ (v.name, t.name) ∷ []) (run_task v t rs)
  unfolding run_task
  run_task-origin v t h rs = Total-bind (t.run v) _ (h v) λ result.
      Total-bind (report_error t v result) _ (report_error-Total t v result)
        λ rep. Total-pure _ (map-origin-snoc rs (record rep { version = v.name; task = t.name }))

  rounds :
      (v : VersionConfig) (ts : List (Task F W))
      → AllReturn ts
      → All
          (λ t.
            (rs : List Report)
            → Total
                (λ rs'. map origin rs' ≡ map origin rs ++ (v.name, t.name) ∷ [])
                (run_task v t rs))
          ts
  rounds v [] h = tt
  rounds v (t ∷ ts) (ht, h) = (run_task-origin v t ht, rounds v ts h)

  versions :
      (vs : List VersionConfig) (ts : List (Task F W))
      → AllReturn ts
      → All
          (λ v.
            (rs : List Report)
            → Total
                (λ rs'. map origin rs' ≡ map origin rs ++ tasks_for ts v.name)
                (foreach ts (run_task v) rs))
          vs
  versions [] ts h = tt
  versions (v ∷ vs) ts h = (
    Total-foreach-gather (run_task v) (map origin) (λ t. (v.name, t.name) ∷ []) ts (rounds v ts h),
    versions vs ts h,
  )

-- If no task panics, `RunAll` returns one report for every version and every task, labelled with
-- their names, versions outermost, whether the tasks fail or not.
pub run_all-origin :
    {F W : Type 0} (cfg : Config) (ts : List (Task F W)) (s : State F W)
    → AllReturn ts
    → (rs : List Report) × (s' : State F W) × (run_all cfg ts s ≡ ret rs s')
      × (map origin rs ≡ all_pairs cfg.versions ts)
unfolding run_all
run_all-origin cfg ts s h =
    (Total-foreach-gather (λ v. foreach ts (run_task v)) (map origin) (λ v. tasks_for ts v.name)
        cfg.versions (versions cfg.versions ts h) []).at
      s
