-- ===== src/Tasks/Gauges/Expected.antt =====
-- What the tasks of main.go export: the gauges that they set and the timestamps of their runs, from
-- the answers of the node, entry by entry in the order of the configuration.
use hertz_reconciler.Prelude.{
  ℕ, List, [], ◌∷◌, ◌++◌, str, str_eq, length, ◌==◌, gather, if◌then◌else◌,
}
use hertz_reconciler.Prelude.Counts.{sum_of}
use hertz_reconciler.Prelude.Int.{pos}
use hertz_reconciler.Chain.Keys.{max_oracle_price_age_root}
use hertz_reconciler.Chain.Client.Snapshot.{Snapshot, uint_at}
use hertz_reconciler.Config.{VersionConfig, Config, lookup}
use hertz_reconciler.Metrics.{Event, set_to, total_claimable_fee_usdt, oracle_max_price_age}
use hertz_reconciler.Runtime.{Env}
use hertz_reconciler.Tasks.Features.{default_feature_names}
use hertz_reconciler.Tasks.Queue.{lists}
use hertz_reconciler.Tasks.Chainlink.{default_bsc_testnet_feeds}
use hertz_reconciler.Tasks.Clean.Fee.{claimed}
use hertz_reconciler.Tasks.Clean.Order.{
  TaskName, vaults_task, roles_task, timelock_task, params_task, fees_task, funding_task, gas_task,
  features_task, queue_task, oi_task, oracle_task, feeds_task, every_task, claim_at,
}
use hertz_reconciler.Tasks.Gauges.Entries.{
  shown, stamp, vault_gauges, role_gauges, delay_gauges, params_gauges, claim_gauges, gap_gauges,
  funding_gauges, keeper_gauges, distributor_gauges, feature_gauges, queue_gauges, oi_gauges,
  feed_gauges,
}

module _ {F W : Type 0} (env : Env F W) (snap : Snapshot) (vc : VersionConfig) where
  -- The events of one task for the version: `now` is the time.
  abbrev pub gauges_of : Config → ℕ → TaskName → List (Event F)
  gauges_of cfg now vaults_task =
      if length vc.vaults == 0
      then []
      else gather (vault_gauges env snap vc) vc.vaults ++ stamp (str "vault_balances_" ++ vc.name)
  gauges_of cfg now roles_task =
      gather (role_gauges env snap vc) cfg.role_names ++ stamp (str "roles_" ++ vc.name)
  gauges_of cfg now timelock_task =
      gather (delay_gauges env snap vc)
        ((str "gov", vc.gov_timelock) ∷ (str "config", vc.config_timelock) ∷ [])
      ++ stamp (str "timelock_" ++ vc.name)
  gauges_of cfg now params_task =
      if length vc.markets == 0
      then []
      else gather (params_gauges env snap vc) vc.markets ++ stamp (str "market_params_" ++ vc.name)
  gauges_of cfg now fees_task =
      let total = sum_of (λ market. claimed (claim_at env snap vc market.1)) vc.markets in
      if length vc.markets == 0
      then []
      else gather (claim_gauges env snap vc) vc.markets
        ++ set_to total_claimable_fee_usdt (vc.name ∷ []) (env.floats.over_1e18 (pos total))
          ∷ (gap_gauges env snap vc) total (lookup (str "FeeDistributorVault") vc.vaults)
  gauges_of cfg now funding_task =
      if length vc.markets == 0
      then []
      else gather (funding_gauges env snap vc) vc.markets ++ stamp (str "funding_" ++ vc.name)
  gauges_of cfg now gas_task =
      (if str_eq vc.name (str "v1") then gather (keeper_gauges env snap vc) cfg.keepers else [])
      ++ ((distributor_gauges env snap vc) (lookup (str "FeeDistributorVault") vc.vaults)
          ++ stamp (str "keeper_gas_" ++ vc.name))
  gauges_of cfg now features_task =
      gather (feature_gauges env snap vc) default_feature_names
      ++ stamp (str "features_" ++ vc.name)
  gauges_of cfg now queue_task =
      gather (queue_gauges env snap vc) (lists env.geth) ++ stamp (str "queue_" ++ vc.name)
  gauges_of cfg now oi_task =
      if length vc.markets == 0
      then []
      else gather (oi_gauges env snap vc) vc.markets ++ stamp (str "market_oi_" ++ vc.name)
  gauges_of cfg now oracle_task =
      shown oracle_max_price_age (vc.name ∷ []) env.floats.of_uint (
        uint_at env snap (env.geth.hex_to_address vc.data_store)
          (max_oracle_price_age_root env.geth))
      ++ stamp (str "oracle_config_" ++ vc.name)
  gauges_of cfg now feeds_task =
      if str_eq vc.name (str "v1")
      then gather ((feed_gauges env snap vc) now) default_bsc_testnet_feeds
        ++ stamp (str "chainlink")
      else []

-- The events of a run of all tasks over all versions.
abbrev pub gauges_of_run : {F W : Type 0} → Env F W → Snapshot → Config → ℕ → List (Event F)
gauges_of_run env snap cfg now =
    gather (λ vc. gather (gauges_of env snap vc cfg now) every_task) cfg.versions
