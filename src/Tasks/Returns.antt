-- ===== src/Tasks/Returns.antt =====
-- Every task but `roles` returns, with no error, whatever the node answers.
use hertz_reconciler.Prelude.{ℕ, Bool, refl, Option, none, some, Str}
use hertz_reconciler.Prelude.Int.{ℤ}
use hertz_reconciler.Chain.Geth.{Address}
use hertz_reconciler.Config.{VersionConfig, StrMap}
use hertz_reconciler.Runtime.{Env}
use hertz_reconciler.Runtime.Total.{Total, Anything}
use hertz_reconciler.Chain.Client.Returns.{client_total_rules}
use hertz_reconciler.Reconciler.{Report, NoError}
use hertz_reconciler.Tasks.Vault.{vault_round, vault_run}
use hertz_reconciler.Tasks.Timelock.{timelock_round, timelock_run}
use hertz_reconciler.Tasks.Params.{borrowing_round, params_round, params_run}
use hertz_reconciler.Tasks.Fee.{fee_round, fee_gap, fee_run}
use hertz_reconciler.Tasks.Funding.{record_imbalance, funding_round, funding_run}
use hertz_reconciler.Tasks.Gas.{keeper_round, keepers_part, distributor_part, gas_run}
use hertz_reconciler.Tasks.Features.{record_flag, handler_round, feature_round, features_run}
use hertz_reconciler.Tasks.Queue.{queue_round, queue_run, ListSpec}
use hertz_reconciler.Tasks.MarketOi.{side_round, market_round, market_oi_run}
use hertz_reconciler.Tasks.Oracle.{oracle_run}
use hertz_reconciler.Tasks.Chainlink.{feed_round, chainlink_run}

module _ {F W : Type 0} (env : Env F W) where
  -- Vault
  vault_round-Returns :
      (vc : VersionConfig) (usdt : Address) (entry : Str × Str) (rep : Report)
      → Total Anything (vault_round env vc usdt entry rep)
  unfolding vault_round
  vault_round-Returns vc usdt entry rep = search (client_total_rules, tt, refl) depth 12

  pub vault_run-Returns : (vc : VersionConfig) → Total NoError (vault_run env vc)
  unfolding vault_run
  vault_run-Returns vc = search (client_total_rules, tt, refl, vault_round-Returns) depth 12

  -- Timelock
  timelock_round-Returns :
      (vc : VersionConfig) (entry : Str × Str) (rep : Report)
      → Total Anything (timelock_round env vc entry rep)
  unfolding timelock_round
  timelock_round-Returns vc entry rep = search (client_total_rules, tt, refl) depth 12

  pub timelock_run-Returns : (vc : VersionConfig) → Total NoError (timelock_run env vc)
  unfolding timelock_run
  timelock_run-Returns vc = search (client_total_rules, tt, refl, timelock_round-Returns) depth 12

  -- Params
  borrowing_round-Returns :
      (vc : VersionConfig) (ds : Address) (sym : Str) (m : Address) (side : Str × Bool)
      (rep : Report)
      → Total Anything (borrowing_round env vc ds sym m side rep)
  unfolding borrowing_round
  borrowing_round-Returns vc ds sym m side rep = search (client_total_rules, tt, refl) depth 12

  params_round-Returns :
      (vc : VersionConfig) (ds : Address) (entry : Str × Str) (rep : Report)
      → Total Anything (params_round env vc ds entry rep)
  unfolding params_round
  params_round-Returns vc ds entry rep =
      search (client_total_rules, tt, refl, borrowing_round-Returns) depth 12

  pub params_run-Returns : (vc : VersionConfig) → Total NoError (params_run env vc)
  unfolding params_run
  params_run-Returns vc =
      search (client_total_rules, tt, refl, borrowing_round-Returns, params_round-Returns) depth 12

  -- Fee
  fee_round-Returns :
      (vc : VersionConfig) (ds usdt : Address) (entry : Str × Str) (acc : Report × ℕ)
      → Total Anything (fee_round env vc ds usdt entry acc)
  unfolding fee_round
  fee_round-Returns vc ds usdt entry acc = search (client_total_rules, tt, refl) depth 12

  fee_gap-Returns :
      (vc : VersionConfig) (usdt : Address) (total : ℕ) (fd : Option Str) (rep : Report)
      → Total NoError (fee_gap env vc usdt total fd rep)
  unfolding fee_gap
  fee_gap-Returns vc usdt total none rep = search (client_total_rules, tt, refl) depth 12
  fee_gap-Returns vc usdt total (some addr) rep = search (client_total_rules, tt, refl) depth 12

  pub fee_run-Returns : (vc : VersionConfig) → Total NoError (fee_run env vc)
  unfolding fee_run
  fee_run-Returns vc =
      search (client_total_rules, tt, refl, fee_round-Returns, fee_gap-Returns) depth 12

  -- Funding
  record_imbalance-Returns :
      (vc : VersionConfig) (sym : Str) (long short : ℤ) (acc : Report × ℕ)
      → Total Anything (record_imbalance env vc sym long short acc)
  unfolding record_imbalance
  record_imbalance-Returns vc sym long short acc = search (client_total_rules, tt, refl) depth 12

  funding_round-Returns :
      (vc : VersionConfig) (ds usdt : Address) (entry : Str × Str) (acc : Report × ℕ)
      → Total Anything (funding_round env vc ds usdt entry acc)
  unfolding funding_round
  funding_round-Returns vc ds usdt entry acc =
      search (client_total_rules, tt, refl, record_imbalance-Returns) depth 12

  pub funding_run-Returns : (vc : VersionConfig) → Total NoError (funding_run env vc)
  unfolding funding_run
  funding_run-Returns vc =
      search (client_total_rules, tt, refl, record_imbalance-Returns, funding_round-Returns) depth
        12

  -- Gas
  keeper_round-Returns :
      (entry : Str × Str) (acc : Report × ℕ) → Total Anything (keeper_round env entry acc)
  unfolding keeper_round
  keeper_round-Returns entry acc = search (client_total_rules, tt, refl) depth 12

  keepers_part-Returns :
      (keepers : StrMap) (vc : VersionConfig) (rep : Report)
      → Total Anything (keepers_part env keepers vc rep)
  unfolding keepers_part
  keepers_part-Returns keepers vc rep =
      search (client_total_rules, tt, refl, keeper_round-Returns) depth 12

  distributor_part-Returns :
      (vc : VersionConfig) (fd : Option Str) (rep : Report)
      → Total Anything (distributor_part env vc fd rep)
  unfolding distributor_part
  distributor_part-Returns vc none rep = search (client_total_rules, tt, refl) depth 12
  distributor_part-Returns vc (some addr) rep = search (client_total_rules, tt, refl) depth 12

  pub gas_run-Returns :
      (keepers : StrMap) (vc : VersionConfig) → Total NoError (gas_run env keepers vc)
  unfolding gas_run
  gas_run-Returns keepers vc =
      search
        (
          client_total_rules, tt, refl, keeper_round-Returns, keepers_part-Returns,
          distributor_part-Returns,
        )
        depth 12

  -- Features
  record_flag-Returns :
      (vc : VersionConfig) (name handler : Str) (v : Bool) (acc : Report × ℕ)
      → Total Anything (record_flag env vc name handler v acc)
  unfolding record_flag
  record_flag-Returns vc name handler v acc = search (client_total_rules, tt, refl) depth 12

  handler_round-Returns :
      (vc : VersionConfig) (ds : Address) (name : Str) (entry : Str × Str) (acc : Report × ℕ)
      → Total Anything (handler_round env vc ds name entry acc)
  unfolding handler_round
  handler_round-Returns vc ds name entry acc =
      search (client_total_rules, tt, refl, record_flag-Returns) depth 12

  feature_round-Returns :
      (vc : VersionConfig) (ds : Address) (name : Str) (acc : Report × ℕ)
      → Total Anything (feature_round env vc ds name acc)
  unfolding feature_round
  feature_round-Returns vc ds name acc =
      search (client_total_rules, tt, refl, record_flag-Returns, handler_round-Returns) depth 12

  pub features_run-Returns : (vc : VersionConfig) → Total NoError (features_run env vc)
  unfolding features_run
  features_run-Returns vc =
      search
        (
          client_total_rules, tt, refl, record_flag-Returns, handler_round-Returns,
          feature_round-Returns,
        )
        depth 12

  -- Queue
  queue_round-Returns :
      (vc : VersionConfig) (ds : Address) (l : ListSpec) (rep : Report)
      → Total Anything (queue_round env vc ds l rep)
  unfolding queue_round
  queue_round-Returns vc ds l rep = search (client_total_rules, tt, refl) depth 12

  pub queue_run-Returns : (vc : VersionConfig) → Total NoError (queue_run env vc)
  unfolding queue_run
  queue_run-Returns vc = search (client_total_rules, tt, refl, queue_round-Returns) depth 12

  -- MarketOi
  side_round-Returns :
      (vc : VersionConfig) (ds usdt : Address) (sym : Str) (m : Address) (side : Str × Bool)
      (rep : Report)
      → Total Anything (side_round env vc ds usdt sym m side rep)
  unfolding side_round
  side_round-Returns vc ds usdt sym m side rep = search (client_total_rules, tt, refl) depth 12

  market_round-Returns :
      (vc : VersionConfig) (ds usdt : Address) (entry : Str × Str) (rep : Report)
      → Total Anything (market_round env vc ds usdt entry rep)
  unfolding market_round
  market_round-Returns vc ds usdt entry rep =
      search (client_total_rules, tt, refl, side_round-Returns) depth 12

  pub market_oi_run-Returns : (vc : VersionConfig) → Total NoError (market_oi_run env vc)
  unfolding market_oi_run
  market_oi_run-Returns vc =
      search (client_total_rules, tt, refl, side_round-Returns, market_round-Returns) depth 12

  -- Oracle
  pub oracle_run-Returns : (vc : VersionConfig) → Total NoError (oracle_run env vc)
  unfolding oracle_run
  oracle_run-Returns vc = search (client_total_rules, tt, refl) depth 12

  -- Chainlink
  feed_round-Returns :
      (now : ℕ) (entry : Str × Str) (acc : Report × ℕ)
      → Total Anything (feed_round env now entry acc)
  unfolding feed_round
  feed_round-Returns now entry acc = search (client_total_rules, tt, refl) depth 12

  pub chainlink_run-Returns : (vc : VersionConfig) → Total NoError (chainlink_run env vc)
  unfolding chainlink_run
  chainlink_run-Returns vc = search (client_total_rules, tt, refl, feed_round-Returns) depth 12
