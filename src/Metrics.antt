-- ===== src/Metrics.antt =====
-- internal/metrics/exporter.go: the series that the reconciler exports.
pub mod Names
pub mod Values
pub mod Reorder
pub mod Steady
pub mod Apart
use hertz_reconciler.Prelude.{◌≡◌, List, [], ◌∷◌, Str, str, length}

pub data Metric : Type 0 where
  vault_balance_native vault_balance_usdt role_members_count timelock_min_delay : Metric
  market_min_collateral_factor market_borrowing_factor market_liquidation_fee : Metric
  market_claimable_fee total_claimable_fee_usdt fee_distribution_gap_usdt : Metric
  market_funding_per_size market_funding_imbalance_ratio keeper_balance_native : Metric
  fee_distributor_balance_usdt reconciler_last_run_timestamp reconciler_errors_total : Metric
  reconciler_up feature_disabled queue_count market_oi market_max_oi market_pool_amount : Metric
  market_max_pool_amount oracle_max_price_age chainlink_feed_age : Metric

-- The label names with which a series is registered.
unfoldable pub labels : Metric → List Str
labels vault_balance_native = str "version" ∷ str "vault" ∷ []
labels vault_balance_usdt = str "version" ∷ str "vault" ∷ []
labels role_members_count = str "version" ∷ str "role" ∷ []
labels timelock_min_delay = str "version" ∷ str "timelock" ∷ []
labels market_min_collateral_factor = str "version" ∷ str "market" ∷ []
labels market_borrowing_factor = str "version" ∷ str "market" ∷ str "side" ∷ []
labels market_liquidation_fee = str "version" ∷ str "market" ∷ []
labels market_claimable_fee = str "version" ∷ str "market" ∷ []
labels total_claimable_fee_usdt = str "version" ∷ []
labels fee_distribution_gap_usdt = str "version" ∷ []
labels market_funding_per_size = str "version" ∷ str "market" ∷ str "side" ∷ []
labels market_funding_imbalance_ratio = str "version" ∷ str "market" ∷ []
labels keeper_balance_native = str "keeper" ∷ []
labels fee_distributor_balance_usdt = str "version" ∷ []
labels reconciler_last_run_timestamp = str "task" ∷ []
labels reconciler_errors_total = str "task" ∷ str "version" ∷ []
labels reconciler_up = []
labels feature_disabled = str "version" ∷ str "feature" ∷ str "handler" ∷ []
labels queue_count = str "version" ∷ str "list" ∷ []
labels market_oi = str "version" ∷ str "market" ∷ str "side" ∷ []
labels market_max_oi = str "version" ∷ str "market" ∷ str "side" ∷ []
labels market_pool_amount = str "version" ∷ str "market" ∷ []
labels market_max_pool_amount = str "version" ∷ str "market" ∷ []
labels oracle_max_price_age = str "version" ∷ []
labels chainlink_feed_age = str "feed" ∷ []

-- The name under which a series is exported.
unfoldable pub series_name : Metric → Str
series_name vault_balance_native = str "reconciler_vault_balance_native"
series_name vault_balance_usdt = str "reconciler_vault_balance_usdt"
series_name role_members_count = str "reconciler_role_members_count"
series_name timelock_min_delay = str "reconciler_timelock_min_delay_seconds"
series_name market_min_collateral_factor = str "reconciler_market_min_collateral_factor"
series_name market_borrowing_factor = str "reconciler_market_borrowing_factor"
series_name market_liquidation_fee = str "reconciler_market_liquidation_fee_factor"
series_name market_claimable_fee = str "reconciler_market_claimable_fee_usdt"
series_name total_claimable_fee_usdt = str "reconciler_total_claimable_fee_usdt"
series_name fee_distribution_gap_usdt = str "reconciler_fee_distribution_gap_usdt"
series_name market_funding_per_size = str "reconciler_market_funding_fee_per_size"
series_name market_funding_imbalance_ratio = str "reconciler_market_funding_imbalance_ratio"
series_name keeper_balance_native = str "reconciler_keeper_balance_native"
series_name fee_distributor_balance_usdt = str "reconciler_fee_distributor_balance_usdt"
series_name reconciler_last_run_timestamp = str "reconciler_last_run_timestamp"
series_name reconciler_errors_total = str "reconciler_errors_total"
series_name reconciler_up = str "reconciler_up"
series_name feature_disabled = str "reconciler_feature_disabled"
series_name queue_count = str "reconciler_queue_count"
series_name market_oi = str "reconciler_market_oi_usd"
series_name market_max_oi = str "reconciler_market_max_oi_usd"
series_name market_pool_amount = str "reconciler_market_pool_amount_usdt"
series_name market_max_pool_amount = str "reconciler_market_max_pool_amount_usdt"
series_name oracle_max_price_age = str "reconciler_oracle_max_price_age_seconds"
series_name chainlink_feed_age = str "reconciler_chainlink_feed_age_seconds"

-- `promauto.NewGaugeVec`, `promauto.NewCounterVec` and `promauto.NewGauge`
pub data Kind : Type 0 where
  gauge_vec counter_vec gauge : Kind

unfoldable pub kind : Metric → Kind
kind reconciler_errors_total = counter_vec
kind reconciler_up = gauge
kind _ = gauge_vec

-- What the program does to the exported series and to its log, in the order in which it does it.
pub data Event (F : Type 0) : Type 0 where
  -- `WithLabelValues(values...).Set(x)`
  set_to : Metric → List Str → F → Event F
  -- `WithLabelValues(values...).SetToCurrentTime()`
  set_now : Metric → List Str → Event F
  -- `WithLabelValues(values...).Inc()`
  inc : Metric → List Str → Event F
  -- `log.Error("task failed", ...)` with the task, the version and the error
  task_failed : Str → Str → Str → Event F

-- The event sets a gauge that has labels, with a value for each of them; with another number of
-- values `WithLabelValues` panics.
abbrev pub SetsGauge : {F : Type 0} → Event F → Type 0
SetsGauge (set_to m values x) = (length values ≡ length (labels m)) × (kind m ≡ gauge_vec)
SetsGauge (set_now m values) = (length values ≡ length (labels m)) × (kind m ≡ gauge_vec)
SetsGauge (inc m values) = ⊥
SetsGauge (task_failed task version e) = ⊥
