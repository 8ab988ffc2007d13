-- ===== src/Tests/Steady.antt =====
-- The gauges of a daemon against a chain that does not change.
use mathlib.Core.Path.{subst}
use hertz_reconciler.Prelude.{
  ℕ, ◌≡◌, refl, sym, none, some, inl, inr, List, [], ◌∷◌, Str, str, str_eq, set_bytes,
}
use hertz_reconciler.Prelude.Members.{Member}
use hertz_reconciler.Chain.Reply.{ok}
use hertz_reconciler.Chain.Hex.{hex_to_bytes, hex_loop, hex_nibble}
use hertz_reconciler.Chain.Abi.{decode_uint64}
use hertz_reconciler.Metrics.{Event, set_to, role_members_count}
use hertz_reconciler.Metrics.Values.{Gauge, value_after}
use hertz_reconciler.Runtime.{Env}
use hertz_reconciler.Reconciler.{Report, run_all}
use hertz_reconciler.Tasks.{tasks}
use hertz_reconciler.Tasks.Whole.{IsDecodable}
use hertz_reconciler.Tasks.Clean.Whole.{array_decodable}
use hertz_reconciler.Tasks.Gauges.Standing.{Serves, standing_gauges}
use hertz_reconciler.Daemon.{
  Setup, RunsTo, result_of, starting, Process, Reach, IsServing, initial, start, quick_unborn,
  alive,
}
use hertz_reconciler.Daemon.Runs.{RunsTo-IsComplete}
use hertz_reconciler.Daemon.Interval.{first_run_ends}
use hertz_reconciler.Daemon.Gauges.{gauges_lem}
use hertz_reconciler.Tests.Daemon.{setup}
use hertz_reconciler.Tests.Demo.{constant_node-VisitsAll, demo_state, demo_config}
use hertz_reconciler.Tests.Gauges.{demo_config-IsNamed}
use hertz_reconciler.Tests.Order.{demo_snapshot, short-IsStable, short-HasArrays}
use hertz_reconciler.Tests.Runs.{short}

abbrev Chain : Env ℕ (Unit {0}) → Type 0
Chain = Serves short demo_snapshot

short-Serves : Chain short
short-Serves = record {
  geth = refl;
  floats = refl;
  stable = short-IsStable;
  visits = constant_node-VisitsAll (ok (str "0x3c"));
  arrays = short-HasArrays;
  time = 1700000000;
  clock = λ w. refl;
}

Chain-IsDecodable : (env : Env ℕ (Unit {0})) → Chain env → IsDecodable env
Chain-IsDecodable env h = array_decodable env demo_snapshot h.stable h.visits h.arrays

abbrev events : List (Event ℕ)
events = (result_of (run_all demo_config (tasks short demo_config) demo_state)).0

-- The first run returns.
returns : (rs : List Report) × RunsTo Chain demo_config events (some rs)
returns =
    let run : RunsTo Chain demo_config events
        (result_of (run_all demo_config (tasks short demo_config) demo_state)).1 =
      record { env = short; node = short-Serves; world = tt; result = refl } in
    let (rs, e, _) = RunsTo-IsComplete Chain demo_config Chain-IsDecodable run in
    (rs, subst (RunsTo Chain demo_config events) e run)

abbrev daemon : Setup ℕ (List Str)
daemon = setup demo_config []

-- The daemon behind its first run.
ended :
    (q : Process ℕ) × Reach Chain daemon q
    × (q.main ≡ starting)
    × (q.quick ≡ quick_unborn)
    × (q.status ≡ alive)
ended =
    first_run_ends Chain daemon events returns.0
      (initial Chain daemon 1700000000 events (some returns.0)) refl refl refl
      (start 1700000000 returns.1)

ended-IsServing : IsServing ended.0.main
ended-IsServing = subst IsServing (sym ended.2) tt

-- The node answers that there are 60 controllers.
abbrev controllers : Gauge
controllers = (role_members_count, str "v1" ∷ str "CONTROLLER" ∷ [])

controllers_read :
    Member
      (set_to role_members_count (str "v1" ∷ str "CONTROLLER" ∷ []) 60)
      (standing_gauges short demo_snapshot demo_config)
unfolding hex_to_bytes hex_loop hex_nibble decode_uint64 set_bytes str str_eq
controllers_read = inr (inr (inr (inr (inr (inl refl)))))

gauges_lem_example : value_after controllers none ended.0.trace ≡ some 60
gauges_lem_example =
    gauges_lem short demo_snapshot daemon ended.0 controllers 60 demo_config-IsNamed
      controllers_read ended.1 ended-IsServing
