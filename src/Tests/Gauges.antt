-- ===== src/Tests/Gauges.antt =====
-- The gauges of a whole run against a chain that does not change.
use mathlib.Core.List.{Permᴰ}
use hertz_reconciler.Prelude.{ℕ, ◌≡◌, refl, none, List, [], ◌++◌, str, str_eq, map, All}
use hertz_reconciler.Chain.Reply.{ok}
use hertz_reconciler.Metrics.{Event}
use hertz_reconciler.Metrics.Values.{Gauge, Shows, value_after}
use hertz_reconciler.Metrics.Apart.{all_differ, none_equals, all_differ_sound}
use hertz_reconciler.Runtime.{State, ret}
use hertz_reconciler.Reconciler.{Report, run_all}
use hertz_reconciler.Tasks.{tasks}
use hertz_reconciler.Tasks.Gauges.Expected.{gauges_of_run}
use hertz_reconciler.Tasks.Gauges.Places.{key_of, IsVersionNamed, IsNamed}
use hertz_reconciler.Tasks.Gauges.Shown.{run_all-exports, run_all-gauges}
use hertz_reconciler.Tests.Demo.{constant_node-VisitsAll, demo_state, demo_version, demo_config}
use hertz_reconciler.Tests.Order.{demo_snapshot, short-IsStable, short-HasArrays}
use hertz_reconciler.Tests.Runs.{short}

demo_version-IsVersionNamed : IsVersionNamed demo_version
unfolding all_differ none_equals str_eq str
demo_version-IsVersionNamed = record {
  vaults = all_differ_sound (map key_of demo_version.vaults) refl;
  markets = all_differ_sound (map key_of demo_version.markets) refl;
  handlers = all_differ_sound (map key_of demo_version.handlers) refl;
  not_root = (refl, tt);
}

pub demo_config-IsNamed : IsNamed demo_config
unfolding all_differ none_equals str_eq str
demo_config-IsNamed = record {
  versions = all_differ_sound (map (λ vc. vc.name) demo_config.versions) refl;
  roles = all_differ_sound (map (λ name. name) demo_config.role_names) refl;
  keepers = all_differ_sound (map key_of demo_config.keepers) refl;
  each = (demo_version-IsVersionNamed, tt);
}

run_all-exports_example :
    (rs : List Report) × (s' : State ℕ (Unit {0})) × (es : List (Event ℕ)) × (run_all demo_config
        (tasks short demo_config)
        demo_state
      ≡ ret rs s')
    × (s'.trace ≡ [] ++ es)
    × Permᴰ es (gauges_of_run short demo_snapshot demo_config 1700000000)
run_all-exports_example =
    run_all-exports short demo_snapshot demo_config 1700000000 demo_state short-IsStable
      (constant_node-VisitsAll (ok (str "0x3c"))) short-HasArrays (λ w. refl)

run_all-gauges_example :
    (rs : List Report) × (s' : State ℕ (Unit {0})) × (run_all demo_config
        (tasks short demo_config)
        demo_state
      ≡ ret rs s')
    × All (Shows s'.trace) (gauges_of_run short demo_snapshot demo_config 1700000000)
    × ((g : Gauge)
        → value_after g none s'.trace
          ≡ value_after g
              (value_after g none [])
              (gauges_of_run short demo_snapshot demo_config 1700000000))
run_all-gauges_example =
    run_all-gauges short demo_snapshot demo_config 1700000000 demo_state short-IsStable
      (constant_node-VisitsAll (ok (str "0x3c"))) short-HasArrays (λ w. refl) demo_config-IsNamed
