-- ===== src/Metrics/Names.antt =====
-- The names of the series differ, so that a name and the values of the labels identify a gauge.
use hertz_reconciler.Prelude.{◌≡◌, refl, sym, ap, ◌∙◌, Str, str, str_eq, if◌then◌else◌}
use hertz_reconciler.Metrics.{
  Metric, series_name, vault_balance_native, vault_balance_usdt, role_members_count,
  timelock_min_delay, market_min_collateral_factor, market_borrowing_factor, market_liquidation_fee,
  market_claimable_fee, total_claimable_fee_usdt, fee_distribution_gap_usdt,
  market_funding_per_size, market_funding_imbalance_ratio, keeper_balance_native,
  fee_distributor_balance_usdt, reconciler_last_run_timestamp, reconciler_errors_total,
  reconciler_up, feature_disabled, queue_count, market_oi, market_max_oi, market_pool_amount,
  market_max_pool_amount, oracle_max_price_age, chainlink_feed_age,
}

-- The series of a name.
metric_named : Str → Metric
metric_named s =
    if str_eq s (str "reconciler_vault_balance_native")
    then vault_balance_native
    else (if str_eq s (str "reconciler_vault_balance_usdt")
        then vault_balance_usdt
        else (if str_eq s (str "reconciler_role_members_count")
            then role_members_count
            else (if str_eq s (str "reconciler_timelock_min_delay_seconds")
                then timelock_min_delay
                else (if str_eq s (str "reconciler_market_min_collateral_factor")
                    then market_min_collateral_factor
                    else (if str_eq s (str "reconciler_market_borrowing_factor")
                        then market_borrowing_factor
                        else (if str_eq s (str "reconciler_market_liquidation_fee_factor")
                            then market_liquidation_fee
                            else (if str_eq s (str "reconciler_market_claimable_fee_usdt")
                                then market_claimable_fee
                                else (if str_eq s (str "reconciler_total_claimable_fee_usdt")
                                    then total_claimable_fee_usdt
                                    else (if str_eq s (str "reconciler_fee_distribution_gap_usdt")
                                        then fee_distribution_gap_usdt
                                        else (if str_eq s
                                              (str "reconciler_market_funding_fee_per_size")
                                            then market_funding_per_size
                                            else (if str_eq s
                                                  (str "reconciler_market_funding_imbalance_ratio")
                                                then market_funding_imbalance_ratio
                                                else (if str_eq s
                                                      (str "reconciler_keeper_balance_native")
                                                    then keeper_balance_native
                                                    else (if str_eq s (
                                                          str
                                                            "reconciler_fee_distributor_balance_usdt")
                                                        then fee_distributor_balance_usdt
                                                        else (if str_eq s
                                                            (str "reconciler_last_run_timestamp")
                                                            then reconciler_last_run_timestamp
                                                            else (if str_eq s
                                                            (str "reconciler_errors_total")
                                                            then reconciler_errors_total
                                                            else (if str_eq s (str "reconciler_up")
                                                            then reconciler_up
                                                            else (if str_eq s
                                                            (str "reconciler_feature_disabled")
                                                            then feature_disabled
                                                            else (if str_eq s
                                                            (str "reconciler_queue_count")
                                                            then queue_count
                                                            else (if str_eq s
                                                            (str "reconciler_market_oi_usd")
                                                            then market_oi
                                                            else (if str_eq s
                                                            (str "reconciler_market_max_oi_usd")
                                                            then market_max_oi
                                                            else (if str_eq s (
                                                            str
                                                            "reconciler_market_pool_amount_usdt")
                                                            then market_pool_amount
                                                            else (if str_eq s (
                                                            str
                                                            "reconciler_market_max_pool_amount_usdt")
                                                            then market_max_pool_amount
                                                            else (if str_eq s (
                                                            str
                                                            "reconciler_oracle_max_price_age_seconds")
                                                            then oracle_max_price_age
                                                            else (chainlink_feed_age))))))))))))))))))))))))

metric_named-series_name : (m : Metric) → metric_named (series_name m) ≡ m
unfolding metric_named series_name str_eq str
metric_named-series_name vault_balance_native = refl
metric_named-series_name vault_balance_usdt = refl
metric_named-series_name role_members_count = refl
metric_named-series_name timelock_min_delay = refl
metric_named-series_name market_min_collateral_factor = refl
metric_named-series_name market_borrowing_factor = refl
metric_named-series_name market_liquidation_fee = refl
metric_named-series_name market_claimable_fee = refl
metric_named-series_name total_claimable_fee_usdt = refl
metric_named-series_name fee_distribution_gap_usdt = refl
metric_named-series_name market_funding_per_size = refl
metric_named-series_name market_funding_imbalance_ratio = refl
metric_named-series_name keeper_balance_native = refl
metric_named-series_name fee_distributor_balance_usdt = refl
metric_named-series_name reconciler_last_run_timestamp = refl
metric_named-series_name reconciler_errors_total = refl
metric_named-series_name reconciler_up = refl
metric_named-series_name feature_disabled = refl
metric_named-series_name queue_count = refl
metric_named-series_name market_oi = refl
metric_named-series_name market_max_oi = refl
metric_named-series_name market_pool_amount = refl
metric_named-series_name market_max_pool_amount = refl
metric_named-series_name oracle_max_price_age = refl
metric_named-series_name chainlink_feed_age = refl

pub series_name-injective : (m n : Metric) → series_name m ≡ series_name n → m ≡ n
series_name-injective m n e =
    sym (metric_named-series_name m) ∙ ap metric_named e ∙ metric_named-series_name n
