-- ===== src/Tasks/Gauges/Whole.antt =====
-- What a whole run of `RunAll` over the tasks of main.go exports.
use hertz_reconciler.Prelude.{ℕ, List, [], ◌∷◌, map, gather}
use hertz_reconciler.Chain.Client.Snapshot.{Snapshot, IsStable, HasArrays}
use hertz_reconciler.Config.{VersionConfig, Config}
use hertz_reconciler.Runtime.{Env, foreach}
use hertz_reconciler.Runtime.Total.{Anything}
use hertz_reconciler.Runtime.Exports.{Exports, Exports-pure, Exports-bind, Exports-foreach}
use hertz_reconciler.Reconciler.{Report, NoError, run_task, run_all}
use hertz_reconciler.Reconciler.Exported.{run_task-Exports}
use hertz_reconciler.Tasks.{tasks}
use hertz_reconciler.Tasks.Vault.{vault_balances}
use hertz_reconciler.Tasks.Role.{roles}
use hertz_reconciler.Tasks.Timelock.{timelock}
use hertz_reconciler.Tasks.Params.{market_params}
use hertz_reconciler.Tasks.Fee.{fees}
use hertz_reconciler.Tasks.Funding.{funding}
use hertz_reconciler.Tasks.Gas.{keeper_gas}
use hertz_reconciler.Tasks.Features.{features}
use hertz_reconciler.Tasks.Queue.{queue}
use hertz_reconciler.Tasks.MarketOi.{market_oi}
use hertz_reconciler.Tasks.Oracle.{oracle_config}
use hertz_reconciler.Tasks.Chainlink.{chainlink}
use hertz_reconciler.Tasks.Clean.Loop.{VisitsAll}
use hertz_reconciler.Tasks.Clean.Order.{
  TaskName, vaults_task, roles_task, timelock_task, params_task, fees_task, funding_task, gas_task,
  features_task, queue_task, oi_task, oracle_task, feeds_task, every_task, task_of, tasks-map,
}
use hertz_reconciler.Tasks.Gauges.Expected.{gauges_of, gauges_of_run}
use hertz_reconciler.Tasks.Gauges.Access.{vault_run-Exports, role_run-Exports, timelock_run-Exports}
use hertz_reconciler.Tasks.Gauges.Markets.{
  params_run-Exports, market_oi_run-Exports, funding_run-Exports,
}
use hertz_reconciler.Tasks.Gauges.Fees.{fee_run-Exports}
use hertz_reconciler.Tasks.Gauges.Feeds.{
  ReadsClock, gas_run-Exports, oracle_run-Exports, chainlink_run-Exports,
}
use hertz_reconciler.Tasks.Gauges.Lists.{features_run-Exports, queue_run-Exports}

module _ {F W : Type 0} (env : Env F W) (snap : Snapshot) (stable : IsStable env snap)
    (visits : VisitsAll env) (arrays : HasArrays env snap) (cfg : Config) (now : ℕ)
    (clock : ReadsClock env now) where
  task_of-Exports :
      (vc : VersionConfig) (n : TaskName)
      → Exports (gauges_of env snap vc cfg now n) NoError ((task_of env cfg n).run vc)
  unfolding vault_balances roles timelock market_params fees funding keeper_gas features queue
      market_oi oracle_config chainlink
  task_of-Exports vc vaults_task = vault_run-Exports env snap stable vc visits cfg now
  task_of-Exports vc roles_task = role_run-Exports env snap stable vc arrays cfg now
  task_of-Exports vc timelock_task = timelock_run-Exports env snap stable vc visits cfg now
  task_of-Exports vc params_task = params_run-Exports env snap stable vc visits cfg now
  task_of-Exports vc fees_task = fee_run-Exports env snap stable vc visits cfg now
  task_of-Exports vc funding_task = funding_run-Exports env snap stable vc visits cfg now
  task_of-Exports vc gas_task = gas_run-Exports env snap stable vc visits cfg now
  task_of-Exports vc features_task = features_run-Exports env snap stable vc visits cfg now
  task_of-Exports vc queue_task = queue_run-Exports env snap stable vc cfg now
  task_of-Exports vc oi_task = market_oi_run-Exports env snap stable vc visits cfg now
  task_of-Exports vc oracle_task = oracle_run-Exports env snap stable vc cfg now
  task_of-Exports vc feeds_task = chainlink_run-Exports env snap stable vc visits cfg now clock

  version-Exports :
      (vc : VersionConfig) (rs : List Report)
      → (names : List TaskName)
      → Exports
          (gather (gauges_of env snap vc cfg now) names)
          Anything
          (foreach (map (task_of env cfg) names) (run_task vc) rs)
  unfolding foreach
  version-Exports vc rs [] = Exports-pure rs tt
  version-Exports vc rs (n ∷ names) =
      Exports-bind _ _ (run_task-Exports vc (task_of env cfg n) (task_of-Exports vc n) rs)
        λ rs' _. version-Exports vc rs' names

  pub run_all-Exports :
      Exports (gauges_of_run env snap cfg now) Anything (run_all cfg (tasks env cfg))
  unfolding run_all
  run_all-Exports =
      Exports-foreach _ _ cfg.versions
        (λ vc rs. rw (tasks-map env cfg) (version-Exports vc rs every_task)) []
