-- ===== src/Tasks/Gauges/Shown.antt =====
-- What the gauges show behind a run of `RunAll` over the tasks of main.go.
use mathlib.Core.List.{Permᴰ}
use mathlib.Core.List.Permᴰ
use hertz_reconciler.Prelude.{ℕ, ◌≡◌, ap, ◌∙◌, none, List, ◌++◌, gather, All, arith}
use hertz_reconciler.Prelude.Counts.{All-perm, All-rounds, All-weaken}
use hertz_reconciler.Chain.Client.Snapshot.{Snapshot, IsStable, HasArrays}
use hertz_reconciler.Config.{VersionConfig, Config}
use hertz_reconciler.Metrics.{Event, set_to, set_now, inc, task_failed}
use hertz_reconciler.Metrics.Values.{
  Gauge, value_after, value_after-append, Shows, Distinct, Distinct-Shows,
}
use hertz_reconciler.Metrics.Reorder.{value_after-perm, Distinct-perm}
use hertz_reconciler.Metrics.Apart.{Apart, Apart-gather}
use hertz_reconciler.Runtime.{Env, State, ret}
use hertz_reconciler.Reconciler.{Report, run_all}
use hertz_reconciler.Tasks.{tasks}
use hertz_reconciler.Tasks.Clean.Loop.{VisitsAll}
use hertz_reconciler.Tasks.Clean.Order.{
  TaskName, vaults_task, roles_task, timelock_task, params_task, fees_task, funding_task, gas_task,
  features_task, queue_task, oi_task, oracle_task, feeds_task, every_task,
}
use hertz_reconciler.Tasks.Gauges.Expected.{gauges_of, gauges_of_run}
use hertz_reconciler.Tasks.Gauges.Feeds.{ReadsClock}
use hertz_reconciler.Tasks.Gauges.Places.{
  owner, number_of, task_number, IsVersionNamed, IsNamed, Of,
}
use hertz_reconciler.Tasks.Gauges.Apart.Accounts.{
  vaults-Apart, roles-Apart, timelock-Apart, gas-Apart, features-Apart,
}
use hertz_reconciler.Tasks.Gauges.Apart.Markets.{
  params-Apart, fees-Apart, funding-Apart, queue-Apart, oi-Apart, oracle-Apart, feeds-Apart,
}
use hertz_reconciler.Tasks.Gauges.Whole.{run_all-Exports}

module _ {F W : Type 0} (env : Env F W) (snap : Snapshot) (cfg : Config) (now : ℕ)
    (named : IsNamed cfg) where
  gauges_of-Apart :
      (vc : VersionConfig) (n : TaskName)
      → IsVersionNamed vc
      → Apart (Of vc n) (gauges_of env snap vc cfg now n)
  gauges_of-Apart vc vaults_task h = vaults-Apart env snap vc cfg now h
  gauges_of-Apart vc roles_task h = roles-Apart env snap vc cfg now named.roles
  gauges_of-Apart vc timelock_task h = timelock-Apart env snap vc cfg now
  gauges_of-Apart vc params_task h = params-Apart env snap vc cfg now h
  gauges_of-Apart vc fees_task h = fees-Apart env snap vc cfg now h
  gauges_of-Apart vc funding_task h = funding-Apart env snap vc cfg now h
  gauges_of-Apart vc gas_task h = gas-Apart env snap vc cfg now named.keepers
  gauges_of-Apart vc features_task h = features-Apart env snap vc cfg now h
  gauges_of-Apart vc queue_task h = queue-Apart env snap vc cfg now
  gauges_of-Apart vc oi_task h = oi-Apart env snap vc cfg now h
  gauges_of-Apart vc oracle_task h = oracle-Apart env snap vc cfg now
  gauges_of-Apart vc feeds_task h = feeds-Apart env snap vc cfg now

  version-Apart :
      (vc : VersionConfig)
      → IsVersionNamed vc
      → Apart
          (λ g. Unit {0} × (owner g ≡ vc.name))
          (gather (gauges_of env snap vc cfg now) every_task)
  version-Apart vc h =
      Apart-gather _ task_number number_of (gauges_of env snap vc cfg now) every_task (omega arith)
        (All-rounds (λ n. gauges_of-Apart vc n h) every_task)

  pub gauges_of_run-Distinct : Distinct (gauges_of_run env snap cfg now)
  gauges_of_run-Distinct =
      (Apart-gather (λ g. Unit {0}) owner (λ vc. vc.name) _ cfg.versions named.versions
        (All-weaken version-Apart cfg.versions named.each)).distinct

module _ {F : Type 0} where
  Shows-behind : (t es : List (Event F)) (e : Event F) → Shows es e → Shows (t ++ es) e
  Shows-behind t es (set_to m values x) h =
      λ old. value_after-append (m, values) old t es ∙ h (value_after (m, values) old t)
  Shows-behind t es (set_now m values) h = tt
  Shows-behind t es (inc m values) h = tt
  Shows-behind t es (task_failed task version e) h = tt

-- When the answers of the node and the time do not change during the run, no answer is one on which
-- decodeAddressArray panics, and a range visits every entry of a map once, RunAll over the tasks of
-- main.go returns, and the events that it adds are, up to their order, those of the tasks: for each
-- version and each entry of the configuration the gauges of what could be read, and the timestamps.
pub run_all-exports :
    {F W : Type 0} (env : Env F W) (snap : Snapshot) (cfg : Config) (now : ℕ) (s : State F W)
    → IsStable env snap
    → VisitsAll env
    → HasArrays env snap
    → ReadsClock env now
    → (rs : List Report) × (s' : State F W) × (es : List (Event F)) × (run_all cfg (tasks env cfg) s
        ≡ ret rs s')
      × (s'.trace ≡ s.trace ++ es)
      × Permᴰ es (gauges_of_run env snap cfg now)
run_all-exports env snap cfg now s stable visits arrays clock =
    let (rs, s', es, e, f, p, _) =
      (run_all-Exports env snap stable visits arrays cfg now clock).at s in
    (rs, s', es, e, f, p)

-- When the answers of the node and the time do not change during the run, no answer is one on which
-- decodeAddressArray panics, a range visits every entry of a map once, the versions have different
-- names, the roles and the keys of each map too, and no handler is named root, RunAll over the tasks
-- of main.go returns; behind it each gauge of a value that could be read shows this value, and every
-- gauge shows what it would if the gauges were set in the order of the configuration.
pub run_all-gauges :
    {F W : Type 0} (env : Env F W) (snap : Snapshot) (cfg : Config) (now : ℕ) (s : State F W)
    → IsStable env snap
    → VisitsAll env
    → HasArrays env snap
    → ReadsClock env now
    → IsNamed cfg
    → (rs : List Report) × (s' : State F W) × (run_all cfg (tasks env cfg) s ≡ ret rs s')
      × All (Shows s'.trace) (gauges_of_run env snap cfg now)
      × ((g : Gauge)
          → value_after g none s'.trace
            ≡ value_after g (value_after g none s.trace) (gauges_of_run env snap cfg now))
run_all-gauges env snap cfg now s stable visits arrays clock named =
    let (rs, s', es, e, f, p) = run_all-exports env snap cfg now s stable visits arrays clock in
    let distinct : Distinct es =
      Distinct-perm (Permᴰ.symm p) (gauges_of_run-Distinct env snap cfg now named) in
    (
      rs,
      s',
      e,
      rw f (
          All-weaken (Shows-behind s.trace es) (gauges_of_run env snap cfg now)
            (All-perm (Shows es) p (Distinct-Shows es distinct))),
      λ g.
          ap (value_after g none) f
          ∙ value_after-append g none s.trace es
          ∙ value_after-perm g p distinct (value_after g none s.trace),
    )
