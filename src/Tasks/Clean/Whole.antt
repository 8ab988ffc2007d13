-- ===== src/Tasks/Clean/Whole.antt =====
-- When a whole run of `RunAll` over the tasks of main.go has no finding.
use hertz_reconciler.Prelude.{
  ◌≡◌, ◌↔◌, refl, sym, ◌∙◌, inl, inr, Bool-cases, List, [], ◌∷◌, length, map, All, ◌==◌,
}
use hertz_reconciler.Chain.Client.Snapshot.{
  Snapshot, IsStable, HasArrays, native-Always, erc20-Always, uint-Always, bool-Always,
  role_count-Always, members-Always, delay-Always,
}
use hertz_reconciler.Config.{VersionConfig, Config}
use hertz_reconciler.Runtime.{Env, State, foreach}
use hertz_reconciler.Runtime.Total.{
  Total, ReturnsWith, Total-both, Total-weaken, Total-pure, Total-bind_post, Total-foreach_iff,
}
use hertz_reconciler.Reconciler.{Report, NoError, run_task, run_all}
use hertz_reconciler.Reconciler.Clean.{HasNoFinding, run_task-HasNoFinding}
use hertz_reconciler.Tasks.{tasks}
use hertz_reconciler.Tasks.Vault.{vault_balances}
use hertz_reconciler.Tasks.Role.{roles}
use hertz_reconciler.Tasks.Timelock.{timelock}
use hertz_reconciler.Tasks.Params.{market_params}
use hertz_reconciler.Tasks.Fee.{fees, fee_run}
use hertz_reconciler.Tasks.Funding.{funding}
use hertz_reconciler.Tasks.Gas.{keeper_gas}
use hertz_reconciler.Tasks.Features.{features}
use hertz_reconciler.Tasks.Queue.{queue}
use hertz_reconciler.Tasks.MarketOi.{market_oi}
use hertz_reconciler.Tasks.Oracle.{oracle_config}
use hertz_reconciler.Tasks.Chainlink.{chainlink}
use hertz_reconciler.Tasks.Returns.{
  vault_run-Returns, timelock_run-Returns, params_run-Returns, fee_run-Returns, funding_run-Returns,
  gas_run-Returns, features_run-Returns, queue_run-Returns, market_oi_run-Returns,
  oracle_run-Returns, chainlink_run-Returns,
}
use hertz_reconciler.Tasks.Whole.{IsDecodable, role_run-Total}
use hertz_reconciler.Tasks.Clean.Loop.{VisitsAll}
use hertz_reconciler.Tasks.Clean.Vault.{vault_run-findings}
use hertz_reconciler.Tasks.Clean.Role.{role_run-findings}
use hertz_reconciler.Tasks.Clean.Timelock.{timelock_run-findings}
use hertz_reconciler.Tasks.Clean.Params.{params_run-Clean}
use hertz_reconciler.Tasks.Clean.Fee.{fee_run-findings}
use hertz_reconciler.Tasks.Clean.Funding.{funding_run-Clean}
use hertz_reconciler.Tasks.Clean.Gas.{gas_run-Clean}
use hertz_reconciler.Tasks.Clean.Features.{features_run-findings}
use hertz_reconciler.Tasks.Clean.Queue.{queue_run-Clean}
use hertz_reconciler.Tasks.Clean.MarketOi.{market_oi_run-Clean}
use hertz_reconciler.Tasks.Clean.Oracle.{oracle_run-Clean}
use hertz_reconciler.Tasks.Clean.Chainlink.{chainlink_run-Clean}
use hertz_reconciler.Tasks.Clean.Order.{
  TaskName, vaults_task, roles_task, timelock_task, params_task, fees_task, funding_task, gas_task,
  features_task, queue_task, oi_task, oracle_task, feeds_task, every_task, task_of, tasks-map,
  claim_at, usdt_of, delay_of, flag_of, handler_flag_of, count_of, members_of, IsInOrder,
}

module _ {F W : Type 0} (env : Env F W) (snap : Snapshot) (stable : IsStable env snap)
    (visits : VisitsAll env) where
  fee_run-Clean :
      (cfg : Config) (vc : VersionConfig)
      → Total
          (λ result. (result.0.findings ≡ []) ↔ IsInOrder env snap vc cfg fees_task)
          (fee_run env vc)
  unfolding fee_run
  fee_run-Clean cfg vc = elim (Bool-cases (length vc.markets == 0)) [
    | inl none_there ↦ rw none_there (Total-pure _ ((λ z some_there. cc), (λ c. refl)))
    | inr some_there ↦
        Total-weaken (λ result e. ((λ z _. e.0 z), (λ c. e.1 (c some_there))))
          (record {
            at = λ s.
                fee_run-findings env vc (claim_at env snap vc) (usdt_of env snap vc) s some_there
                  visits (λ hex. uint-Always env snap stable _ _)
                  (λ hex. erc20-Always env snap stable _ _);
          })
  ]

  pub array_decodable : HasArrays env snap → IsDecodable env
  array_decodable arrays to d w hex e = arrays to d hex (sym (stable.calls to d w) ∙ e)

  -- Each task returns no error, and its findings say whether all is in order.
  task_of-IsInOrder :
      HasArrays env snap
      → (cfg : Config) (vc : VersionConfig) (n : TaskName)
      → Total
          (λ result. NoError result × ((result.0.findings ≡ []) ↔ IsInOrder env snap vc cfg n))
          ((task_of env cfg n).run vc)
  unfolding vault_balances roles timelock market_params fees funding keeper_gas features queue
      market_oi oracle_config chainlink
  task_of-IsInOrder arrays cfg vc vaults_task = Total-both (vault_run-Returns env vc) (record {
    at = λ s.
        vault_run-findings env vc (λ hex. snap.balance_answer (env.geth.hex_to_address hex))
          (usdt_of env snap vc) s visits (λ hex. native-Always env snap stable _)
          (λ hex. erc20-Always env snap stable _ _);
  })
  task_of-IsInOrder arrays cfg vc roles_task =
      Total-both (role_run-Total env (array_decodable arrays) cfg.role_names vc) (record {
        at = λ s.
            role_run-findings env vc cfg.role_names (count_of env snap vc) (members_of env snap vc)
              s (λ name. role_count-Always env snap stable _ _)
              (λ name c. members-Always env snap stable arrays _ _ 0 _);
      })
  task_of-IsInOrder arrays cfg vc timelock_task = Total-both (timelock_run-Returns env vc) (record {
    at = λ s.
        timelock_run-findings env vc (delay_of env snap vc) s visits
          (λ hex. delay-Always env snap stable _);
  })
  task_of-IsInOrder arrays cfg vc params_task =
      Total-both (params_run-Returns env vc) (params_run-Clean env snap stable vc visits)
  task_of-IsInOrder arrays cfg vc fees_task =
      Total-both (fee_run-Returns env vc) (fee_run-Clean cfg vc)
  task_of-IsInOrder arrays cfg vc funding_task =
      Total-both (funding_run-Returns env vc) (funding_run-Clean env snap stable vc visits)
  task_of-IsInOrder arrays cfg vc gas_task =
      Total-both (gas_run-Returns env cfg.keepers vc)
        (gas_run-Clean env snap stable visits cfg.keepers vc)
  task_of-IsInOrder arrays cfg vc features_task = Total-both (features_run-Returns env vc) (record {
    at = λ s.
        features_run-findings env vc (flag_of env snap vc) (handler_flag_of env snap vc) s visits
          (λ name. bool-Always env snap stable _ _) (λ name hex. bool-Always env snap stable _ _);
  })
  task_of-IsInOrder arrays cfg vc queue_task =
      Total-both (queue_run-Returns env vc) (queue_run-Clean env snap stable vc)
  task_of-IsInOrder arrays cfg vc oi_task =
      Total-both (market_oi_run-Returns env vc) (market_oi_run-Clean env snap stable vc visits)
  task_of-IsInOrder arrays cfg vc oracle_task =
      Total-both (oracle_run-Returns env vc) (oracle_run-Clean env snap stable vc)
  task_of-IsInOrder arrays cfg vc feeds_task =
      Total-both (chainlink_run-Returns env vc) (chainlink_run-Clean env snap stable visits vc)

  -- The loop over the tasks, for one version.
  named_tasks-HasNoFinding :
      HasArrays env snap
      → (cfg : Config) (vc : VersionConfig) (names : List TaskName) (rs : List Report)
      → Total
          (λ rs'. HasNoFinding rs' ↔ (HasNoFinding rs × All (IsInOrder env snap vc cfg) names))
          (foreach (map (task_of env cfg) names) (run_task vc) rs)
  unfolding foreach
  named_tasks-HasNoFinding arrays cfg vc [] rs = Total-pure rs ((λ z. (z, tt)), (λ z. z.0))
  named_tasks-HasNoFinding arrays cfg vc (n ∷ names) rs =
      Total-bind_post _ _
        (run_task-HasNoFinding vc (task_of env cfg n) (IsInOrder env snap vc cfg n)
          (task_of-IsInOrder arrays cfg vc n) rs)
        λ r e.
          Total-weaken
            (λ r' e'. (
              (λ z. let (y, cs) = e'.0 z in let (x, c) = e.0 y in (x, (c, cs))),
              (λ (x, (c, cs)). e'.1 (e.1 (x, c), cs)),
            ))
            (named_tasks-HasNoFinding arrays cfg vc names r)

-- When the answers of the node do not change during the run, none of them is one on which
-- `decodeAddressArray` panics, and a range visits every entry of a map once, in any order: a run
-- over the tasks of main.go returns, and no report has a finding exactly when for every version
-- all that the twelve tasks read could be read and is in order.
pub run_all-tasks-findings :
    {F W : Type 0} (env : Env F W) (snap : Snapshot) (cfg : Config) (s : State F W)
    → IsStable env snap
    → VisitsAll env
    → HasArrays env snap
    → ReturnsWith
        (λ rs.
          HasNoFinding rs ↔ All (λ vc. All (IsInOrder env snap vc cfg) every_task) cfg.versions)
        (run_all cfg (tasks env cfg) s)
unfolding run_all
run_all-tasks-findings env snap cfg s stable visits arrays = rw (tasks-map env cfg) (
    (Total-weaken (λ rs e. ((λ z. (e.0 z).1), (λ c. e.1 (tt, c))))
        (Total-foreach_iff (λ v. foreach (map (task_of env cfg) every_task) (run_task v))
          HasNoFinding (λ vc. All (IsInOrder env snap vc cfg) every_task) cfg.versions
          (λ vc rs. named_tasks-HasNoFinding env snap stable visits arrays cfg vc every_task rs)
          [])).at
      s)
