-- ===== src/Daemon/Runs.antt =====
-- What a run of the daemon returns, if the node sends no payload on which `decodeAddressArray`
-- panics.
use hertz_reconciler.Prelude.{◌≡◌, sym, ap, ◌∙◌, Option, some, List, [], map}
use hertz_reconciler.Config.{Config}
use hertz_reconciler.Metrics.{Event}
use hertz_reconciler.Runtime.{Env, ret}
use hertz_reconciler.Reconciler.{Report}
use hertz_reconciler.Reconciler.RunAll.{origin, all_pairs}
use hertz_reconciler.Tasks.{tasks}
use hertz_reconciler.Tasks.Whole.{IsDecodable, run_all-tasks-origin}
use hertz_reconciler.Daemon.{RunsTo, result_of}

module _ {F W : Type 0} (Node : Env F W → Type 0) (cfg : Config) where
  -- There is a report for every version and every task, versions outermost.
  abbrev pub IsComplete : List Report → Type 0
  IsComplete rs =
      (env : Env F W) × Node env × (map origin rs ≡ all_pairs cfg.versions (tasks env cfg))

  pub RunsTo-IsComplete :
      ((env : Env F W) → Node env → IsDecodable env)
      → {es : List (Event F)} {r : Option (List Report)} → RunsTo Node cfg es r
      → (rs : List Report) × (r ≡ some rs) × IsComplete rs
  RunsTo-IsComplete decodable {es} {r} run =
      let (rs, s', e, pairs) =
        run_all-tasks-origin run.env cfg (record { world = run.world; trace = [] })
          (decodable run.env run.node) in
      let returned : result_of (ret rs s') ≡ (es, r) = sym (ap result_of e) ∙ run.result in
      (rs, sym (ap (λ z. z.1) returned), (run.env, run.node, pairs))
