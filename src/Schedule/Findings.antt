-- ===== src/Schedule/Findings.antt =====
-- When the digest of a run of `runOnce` has no section of findings.
use hertz_reconciler.Prelude.{◌≡◌, ◌↔◌, refl, sym, ◌∙◌, Bool, List, map, All}
use hertz_reconciler.Chain.Client.Snapshot.{Snapshot, IsStable, HasArrays}
use hertz_reconciler.Config.{Config}
use hertz_reconciler.Runtime.{Env, State, ret, ◌>>=◌, pure}
use hertz_reconciler.Runtime.Total.{ReturnsWith}
use hertz_reconciler.Reconciler.{Report}
use hertz_reconciler.Reconciler.RunAll.{origin, all_pairs}
use hertz_reconciler.Reconciler.Render.{render}
use hertz_reconciler.Reconciler.Render.Quiet.{sections_text, render_quiet_iff}
use hertz_reconciler.Notify.{Http, Slack}
use hertz_reconciler.Schedule.{run_once}
use hertz_reconciler.Schedule.Once.{sent-Total}
use hertz_reconciler.Tasks.{tasks}
use hertz_reconciler.Tasks.Whole.{run_all-tasks-origin}
use hertz_reconciler.Tasks.Clean.Loop.{VisitsAll}
use hertz_reconciler.Tasks.Clean.Order.{every_task, IsInOrder}
use hertz_reconciler.Tasks.Clean.Whole.{run_all-tasks-findings, array_decodable}

same_reports :
    {F W : Type 0} {rs rs' : List Report} {s s' : State F W} → ret rs s ≡ ret rs' s' → rs ≡ rs'
same_reports e = cc

-- When the answers of the node do not change during the run, none of them is one on which
-- `decodeAddressArray` panics, and a range visits every entry of a map once, in any order:
-- `runOnce` returns the digest of one report for every version and every task, and the digest has
-- no section of findings exactly when for every version all that the tasks read could be read and
-- is in order.
pub run_once-findings :
    {F W : Type 0} (http : Http W) (env : Env F W) (snap : Snapshot) (cfg : Config) (slack : Slack)
    (send_slack : Bool) (s : State F W)
    → IsStable env snap
    → VisitsAll env
    → HasArrays env snap
    → (rs : List Report) × (map origin rs ≡ all_pairs cfg.versions (tasks env cfg))
      × ReturnsWith
          (λ result.
            (result.0 ≡ render rs)
            × ((result.0 ≡ sections_text rs)
                ↔ All (λ vc. All (IsInOrder env snap vc cfg) every_task) cfg.versions))
          (run_once http cfg (tasks env cfg) slack send_slack s)
unfolding run_once ◌>>=◌ pure
run_once-findings http env snap cfg slack send_slack s stable visits arrays =
    let (rs, s', e, pairs) =
      run_all-tasks-origin env cfg s (array_decodable env snap stable visits arrays) in
    let (rs', t, e', clean) = run_all-tasks-findings env snap cfg s stable visits arrays in
    let same : rs' ≡ rs = same_reports (sym e' ∙ e) in
    let order = rw same at clean in
    let quiet = render_quiet_iff rs in
    let (r, s'', q, _) = (sent-Total http send_slack slack (render rs)).at s' in
    (
      rs,
      pairs,
      (
        (render rs, r),
        s'',
        rw (e, q),
        (refl, ((λ z. order.0 (quiet.0 z)), (λ c. quiet.1 (order.1 c)))),
      ),
    )
