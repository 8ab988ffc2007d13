-- ===== src/Tests/Order.antt =====
-- A whole run against a chain that does not change.
use hertz_reconciler.Prelude.{◌≡◌, ◌↔◌, refl, true, List, map, str, All}
use hertz_reconciler.Chain.Client.Snapshot.{Snapshot, IsStable, HasArrays}
use hertz_reconciler.Chain.Reply.{ok}
use hertz_reconciler.Runtime.Total.{ReturnsWith}
use hertz_reconciler.Reconciler.{Report}
use hertz_reconciler.Reconciler.RunAll.{origin, all_pairs}
use hertz_reconciler.Reconciler.Render.{render}
use hertz_reconciler.Reconciler.Render.Quiet.{sections_text, render_quiet_iff}
use hertz_reconciler.Schedule.{run_once}
use hertz_reconciler.Schedule.Findings.{run_once-findings}
use hertz_reconciler.Tests.Delivery.{demo_http, hook, reports}
use hertz_reconciler.Reconciler.Clean.{HasNoFinding}
use hertz_reconciler.Tasks.{tasks}
use hertz_reconciler.Tasks.Clean.Order.{every_task, IsInOrder}
use hertz_reconciler.Tests.Demo.{constant_node-VisitsAll, demo_state, demo_config}
use hertz_reconciler.Tests.Runs.{short, short_decodes}

-- The answers of the node that answers with one byte.
abbrev pub demo_snapshot : Snapshot
demo_snapshot = record { call_answer = λ to d. ok (str "0x3c"); balance_answer = λ a. ok 7 }

pub short-IsStable : IsStable short demo_snapshot
short-IsStable = record { calls = λ to d w. refl; balances = λ a w. refl }

pub short-HasArrays : HasArrays short demo_snapshot
short-HasArrays to d hex e p = cc (short_decodes)

run_once-findings_example :
    (rs : List Report) × (map origin rs ≡ all_pairs demo_config.versions (tasks short demo_config))
    × ReturnsWith
        (λ result.
          (result.0 ≡ render rs)
          × ((result.0 ≡ sections_text rs)
              ↔ All
                  (λ vc. All (IsInOrder short demo_snapshot vc demo_config) every_task)
                  demo_config.versions))
        (run_once demo_http demo_config
          (tasks short demo_config)
          (record { webhook_url = hook })
          true
          demo_state)
run_once-findings_example =
    run_once-findings demo_http short demo_snapshot demo_config (record { webhook_url = hook }) true
      demo_state short-IsStable (constant_node-VisitsAll (ok (str "0x3c"))) short-HasArrays

render_quiet_iff_example : (render reports ≡ sections_text reports) ↔ HasNoFinding reports
render_quiet_iff_example = render_quiet_iff reports
