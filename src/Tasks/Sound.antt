-- ===== src/Tasks/Sound.antt =====
-- What every task does to the exported series: it sets gauges under the labels with which they are
-- registered, and it returns no error.
use hertz_reconciler.Prelude.{ℕ, Bool, refl, Option, none, some, List, Str}
use hertz_reconciler.Prelude.Int.{ℤ}
use hertz_reconciler.Chain.Geth.{Address}
use hertz_reconciler.Config.{VersionConfig, StrMap}
use hertz_reconciler.Metrics.{SetsGauge, labels, kind}
use hertz_reconciler.Runtime.{Env}
use hertz_reconciler.Runtime.Keeps.{Keeps, Anything}
use hertz_reconciler.Chain.Client.Keeps.{client_rules}
use hertz_reconciler.Reconciler.{Report, NoError}
use hertz_reconciler.Tasks.Vault.{vault_round, vault_run}
use hertz_reconciler.Tasks.Role.{role_round, role_run}
use hertz_reconciler.Tasks.Timelock.{timelock_round, timelock_run}
use hertz_reconciler.Tasks.Params.{borrowing_round, params_round, params_run}
use hertz_reconciler.Tasks.Fee.{fee_round, fee_gap, fee_run}
use hertz_reconciler.Tasks.Funding.{record_imbalance, funding_round, funding_run}
use hertz_reconciler.Tasks.Gas.{keeper_round, keepers_part, distributor_part, gas_run}
use hertz_reconciler.Tasks.Features.{record_flag, handler_round, feature_round, features_run}
use hertz_reconciler.Tasks.Queue.{queue_round, queue_run, ListSpec}
use hertz_reconciler.Tasks.MarketOi.{side_round, market_round, market_oi_run}
use hertz_reconciler.Tasks.Oracle.{oracle_run}
use hertz_reconciler.Tasks.Chainlink.{feed_round, chainlink_run}

module _ {F W : Type 0} (env : Env F W) where
  -- Vault
  vault_round-SetsGauge :
      (vc : VersionConfig) (usdt : Address) (entry : Str × Str) (rep : Report)
      → Keeps SetsGauge Anything (vault_round env vc usdt entry rep)
  unfolding vault_round labels kind
  vault_round-SetsGauge vc usdt entry rep = search (client_rules, refl) depth 12

  pub vault_run-SetsGauge : (vc : VersionConfig) → Keeps SetsGauge NoError (vault_run env vc)
  unfolding vault_run labels kind
  vault_run-SetsGauge vc = search (client_rules, refl, vault_round-SetsGauge) depth 12

  -- Role
  role_round-SetsGauge :
      (vc : VersionConfig) (rs : Address) (name : Str) (rep : Report)
      → Keeps SetsGauge Anything (role_round env vc rs name rep)
  unfolding role_round labels kind
  role_round-SetsGauge vc rs name rep = search (client_rules, refl) depth 12

  pub role_run-SetsGauge :
      (role_names : List Str) (vc : VersionConfig)
      → Keeps SetsGauge NoError (role_run env role_names vc)
  unfolding role_run labels kind
  role_run-SetsGauge role_names vc = search (client_rules, refl, role_round-SetsGauge) depth 12

  -- Timelock
  timelock_round-SetsGauge :
      (vc : VersionConfig) (entry : Str × Str) (rep : Report)
      → Keeps SetsGauge Anything (timelock_round env vc entry rep)
  unfolding timelock_round labels kind
  timelock_round-SetsGauge vc entry rep = search (client_rules, refl) depth 12

  pub timelock_run-SetsGauge : (vc : VersionConfig) → Keeps SetsGauge NoError (timelock_run env vc)
  unfolding timelock_run labels kind
  timelock_run-SetsGauge vc = search (client_rules, refl, timelock_round-SetsGauge) depth 12

  -- Params
  borrowing_round-SetsGauge :
      (vc : VersionConfig) (ds : Address) (sym : Str) (m : Address) (side : Str × Bool)
      (rep : Report)
      → Keeps SetsGauge Anything (borrowing_round env vc ds sym m side rep)
  unfolding borrowing_round labels kind
  borrowing_round-SetsGauge vc ds sym m side rep = search (client_rules, refl) depth 12

  params_round-SetsGauge :
      (vc : VersionConfig) (ds : Address) (entry : Str × Str) (rep : Report)
      → Keeps SetsGauge Anything (params_round env vc ds entry rep)
  unfolding params_round labels kind
  params_round-SetsGauge vc ds entry rep =
      search (client_rules, refl, borrowing_round-SetsGauge) depth 12

  pub params_run-SetsGauge : (vc : VersionConfig) → Keeps SetsGauge NoError (params_run env vc)
  unfolding params_run labels kind
  params_run-SetsGauge vc =
      search (client_rules, refl, borrowing_round-SetsGauge, params_round-SetsGauge) depth 12

  -- Fee
  fee_round-SetsGauge :
      (vc : VersionConfig) (ds usdt : Address) (entry : Str × Str) (acc : Report × ℕ)
      → Keeps SetsGauge Anything (fee_round env vc ds usdt entry acc)
  unfolding fee_round labels kind
  fee_round-SetsGauge vc ds usdt entry acc = search (client_rules, refl) depth 12

  fee_gap-SetsGauge :
      (vc : VersionConfig) (usdt : Address) (total : ℕ) (fd : Option Str) (rep : Report)
      → Keeps SetsGauge NoError (fee_gap env vc usdt total fd rep)
  unfolding fee_gap labels kind
  fee_gap-SetsGauge vc usdt total none rep = search (client_rules, refl) depth 12
  fee_gap-SetsGauge vc usdt total (some addr) rep = search (client_rules, refl) depth 12

  pub fee_run-SetsGauge : (vc : VersionConfig) → Keeps SetsGauge NoError (fee_run env vc)
  unfolding fee_run labels kind
  fee_run-SetsGauge vc =
      search (client_rules, refl, fee_round-SetsGauge, fee_gap-SetsGauge) depth 12

  -- Funding
  record_imbalance-SetsGauge :
      (vc : VersionConfig) (sym : Str) (long short : ℤ) (acc : Report × ℕ)
      → Keeps SetsGauge Anything (record_imbalance env vc sym long short acc)
  unfolding record_imbalance labels kind
  record_imbalance-SetsGauge vc sym long short acc = search (client_rules, refl) depth 12

  funding_round-SetsGauge :
      (vc : VersionConfig) (ds usdt : Address) (entry : Str × Str) (acc : Report × ℕ)
      → Keeps SetsGauge Anything (funding_round env vc ds usdt entry acc)
  unfolding funding_round labels kind
  funding_round-SetsGauge vc ds usdt entry acc =
      search (client_rules, refl, record_imbalance-SetsGauge) depth 12

  pub funding_run-SetsGauge : (vc : VersionConfig) → Keeps SetsGauge NoError (funding_run env vc)
  unfolding funding_run labels kind
  funding_run-SetsGauge vc =
      search (client_rules, refl, record_imbalance-SetsGauge, funding_round-SetsGauge) depth 12

  -- Gas
  keeper_round-SetsGauge :
      (entry : Str × Str) (acc : Report × ℕ) → Keeps SetsGauge Anything (keeper_round env entry acc)
  unfolding keeper_round labels kind
  keeper_round-SetsGauge entry acc = search (client_rules, refl) depth 12

  keepers_part-SetsGauge :
      (keepers : StrMap) (vc : VersionConfig) (rep : Report)
      → Keeps SetsGauge Anything (keepers_part env keepers vc rep)
  unfolding keepers_part labels kind
  keepers_part-SetsGauge keepers vc rep =
      search (client_rules, refl, keeper_round-SetsGauge) depth 12

  distributor_part-SetsGauge :
      (vc : VersionConfig) (fd : Option Str) (rep : Report)
      → Keeps SetsGauge Anything (distributor_part env vc fd rep)
  unfolding distributor_part labels kind
  distributor_part-SetsGauge vc none rep = search (client_rules, refl) depth 12
  distributor_part-SetsGauge vc (some addr) rep = search (client_rules, refl) depth 12

  pub gas_run-SetsGauge :
      (keepers : StrMap) (vc : VersionConfig) → Keeps SetsGauge NoError (gas_run env keepers vc)
  unfolding gas_run labels kind
  gas_run-SetsGauge keepers vc =
      search
        (
          client_rules, refl, keeper_round-SetsGauge, keepers_part-SetsGauge,
          distributor_part-SetsGauge,
        )
        depth 12

  -- Features
  record_flag-SetsGauge :
      (vc : VersionConfig) (name handler : Str) (v : Bool) (acc : Report × ℕ)
      → Keeps SetsGauge Anything (record_flag env vc name handler v acc)
  unfolding record_flag labels kind
  record_flag-SetsGauge vc name handler v acc = search (client_rules, refl) depth 12

  handler_round-SetsGauge :
      (vc : VersionConfig) (ds : Address) (name : Str) (entry : Str × Str) (acc : Report × ℕ)
      → Keeps SetsGauge Anything (handler_round env vc ds name entry acc)
  unfolding handler_round labels kind
  handler_round-SetsGauge vc ds name entry acc =
      search (client_rules, refl, record_flag-SetsGauge) depth 12

  feature_round-SetsGauge :
      (vc : VersionConfig) (ds : Address) (name : Str) (acc : Report × ℕ)
      → Keeps SetsGauge Anything (feature_round env vc ds name acc)
  unfolding feature_round labels kind
  feature_round-SetsGauge vc ds name acc =
      search (client_rules, refl, record_flag-SetsGauge, handler_round-SetsGauge) depth 12

  pub features_run-SetsGauge : (vc : VersionConfig) → Keeps SetsGauge NoError (features_run env vc)
  unfolding features_run labels kind
  features_run-SetsGauge vc =
      search
        (
          client_rules, refl, record_flag-SetsGauge, handler_round-SetsGauge,
          feature_round-SetsGauge,
        )
        depth 12

  -- Queue
  queue_round-SetsGauge :
      (vc : VersionConfig) (ds : Address) (l : ListSpec) (rep : Report)
      → Keeps SetsGauge Anything (queue_round env vc ds l rep)
  unfolding queue_round labels kind
  queue_round-SetsGauge vc ds l rep = search (client_rules, refl) depth 12

  pub queue_run-SetsGauge : (vc : VersionConfig) → Keeps SetsGauge NoError (queue_run env vc)
  unfolding queue_run labels kind
  queue_run-SetsGauge vc = search (client_rules, refl, queue_round-SetsGauge) depth 12

  -- MarketOi
  side_round-SetsGauge :
      (vc : VersionConfig) (ds usdt : Address) (sym : Str) (m : Address) (side : Str × Bool)
      (rep : Report)
      → Keeps SetsGauge Anything (side_round env vc ds usdt sym m side rep)
  unfolding side_round labels kind
  side_round-SetsGauge vc ds usdt sym m side rep = search (client_rules, refl) depth 12

  market_round-SetsGauge :
      (vc : VersionConfig) (ds usdt : Address) (entry : Str × Str) (rep : Report)
      → Keeps SetsGauge Anything (market_round env vc ds usdt entry rep)
  unfolding market_round labels kind
  market_round-SetsGauge vc ds usdt entry rep =
      search (client_rules, refl, side_round-SetsGauge) depth 12

  pub market_oi_run-SetsGauge :
      (vc : VersionConfig) → Keeps SetsGauge NoError (market_oi_run env vc)
  unfolding market_oi_run labels kind
  market_oi_run-SetsGauge vc =
      search (client_rules, refl, side_round-SetsGauge, market_round-SetsGauge) depth 12

  -- Oracle
  pub oracle_run-SetsGauge : (vc : VersionConfig) → Keeps SetsGauge NoError (oracle_run env vc)
  unfolding oracle_run labels kind
  oracle_run-SetsGauge vc = search (client_rules, refl) depth 12

  -- Chainlink
  feed_round-SetsGauge :
      (now : ℕ) (entry : Str × Str) (acc : Report × ℕ)
      → Keeps SetsGauge Anything (feed_round env now entry acc)
  unfolding feed_round labels kind
  feed_round-SetsGauge now entry acc = search (client_rules, refl) depth 12

  pub chainlink_run-SetsGauge :
      (vc : VersionConfig) → Keeps SetsGauge NoError (chainlink_run env vc)
  unfolding chainlink_run labels kind
  chainlink_run-SetsGauge vc = search (client_rules, refl, feed_round-SetsGauge) depth 12
