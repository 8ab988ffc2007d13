-- ===== src/Tasks/Gauges/Places.antt =====
-- Where a gauge belongs: the version, the task, the entry of the configuration.
use hertz_reconciler.Prelude.{ℕ, ◌≡◌, Bool, false, List, [], ◌∷◌, Str, str, str_eq, map, All}
use hertz_reconciler.Chain.Reply.{Reply, ok, err}
use hertz_reconciler.Config.{VersionConfig, Config}
use hertz_reconciler.Metrics.{
  Metric, Event, set_to, series_name, vault_balance_native, vault_balance_usdt, role_members_count,
  timelock_min_delay, market_min_collateral_factor, market_borrowing_factor, market_liquidation_fee,
  market_claimable_fee, total_claimable_fee_usdt, fee_distribution_gap_usdt,
  market_funding_per_size, market_funding_imbalance_ratio, keeper_balance_native,
  fee_distributor_balance_usdt, feature_disabled, queue_count, market_oi, market_max_oi,
  market_pool_amount, market_max_pool_amount, oracle_max_price_age, chainlink_feed_age,
}
use hertz_reconciler.Metrics.Values.{Gauge}
use hertz_reconciler.Metrics.Apart.{Differing, Apart, Apart-nil, is_stamp}
use hertz_reconciler.Runtime.Exports.{on_ok}
use hertz_reconciler.Tasks.Clean.Order.{
  TaskName, vaults_task, roles_task, timelock_task, params_task, fees_task, funding_task, gas_task,
  features_task, queue_task, oi_task, oracle_task, feeds_task,
}
use hertz_reconciler.Tasks.Gauges.Entries.{shown}

-- The version of a gauge: the keepers and the feeds are left to the first one.
abbrev pub owner : Gauge → Str
owner (keeper_balance_native, values) = str "v1"
owner (chainlink_feed_age, values) = str "v1"
owner (m, []) = []
owner (m, version ∷ values) = version

-- The name of the entry.
abbrev pub entry : Gauge → Str
entry (keeper_balance_native, label ∷ values) = label
entry (chainlink_feed_age, label ∷ values) = label
entry (m, version ∷ name ∷ values) = name
entry (m, values) = []

-- The last of three values: a side, or a handler.
abbrev pub part : Gauge → Str
part (m, version ∷ name ∷ last ∷ values) = last
part (m, values) = []

abbrev pub is_metric : Metric → Gauge → Bool
is_metric m g = str_eq (series_name m) (series_name g.0)

abbrev pub number_of : TaskName → ℕ
number_of vaults_task = 0
number_of roles_task = 1
number_of timelock_task = 2
number_of params_task = 3
number_of fees_task = 4
number_of funding_task = 5
number_of gas_task = 6
number_of features_task = 7
number_of queue_task = 8
number_of oi_task = 9
number_of oracle_task = 10
number_of feeds_task = 11

-- The number of the task that sets a gauge.
abbrev pub task_number : Gauge → ℕ
task_number (vault_balance_native, values) = 0
task_number (vault_balance_usdt, values) = 0
task_number (role_members_count, values) = 1
task_number (timelock_min_delay, values) = 2
task_number (market_min_collateral_factor, values) = 3
task_number (market_borrowing_factor, values) = 3
task_number (market_liquidation_fee, values) = 3
task_number (market_claimable_fee, values) = 4
task_number (total_claimable_fee_usdt, values) = 4
task_number (fee_distribution_gap_usdt, values) = 4
task_number (market_funding_per_size, values) = 5
task_number (market_funding_imbalance_ratio, values) = 5
task_number (keeper_balance_native, values) = 6
task_number (fee_distributor_balance_usdt, values) = 6
task_number (feature_disabled, values) = 7
task_number (queue_count, values) = 8
task_number (market_oi, values) = 9
task_number (market_max_oi, values) = 9
task_number (market_pool_amount, values) = 9
task_number (market_max_pool_amount, values) = 9
task_number (oracle_max_price_age, values) = 10
task_number (chainlink_feed_age, values) = 11
task_number (m, values) = 12

-- The gauge belongs to the version and to the task.
abbrev pub Of : VersionConfig → TaskName → Gauge → Type 0
Of vc n g = (Unit {0} × (owner g ≡ vc.name)) × (task_number g ≡ number_of n)

abbrev pub key_of : Str × Str → Str
key_of e = e.0

-- The keys of each map are different, as they are in Go, and no handler is named as the probe of
-- the protocol is.
pub record IsVersionNamed (vc : VersionConfig) : Type 0 where
  pub vaults : Differing (map key_of vc.vaults)
  pub markets : Differing (map key_of vc.markets)
  pub handlers : Differing (map key_of vc.handlers)
  pub not_root : All (λ h. str_eq (key_of h) (str "root") ≡ false) vc.handlers

-- The versions have different names, and so have the roles.
pub record IsNamed (cfg : Config) : Type 0 where
  pub versions : Differing (map (λ vc. vc.name) cfg.versions)
  pub roles : Differing (map (λ name. name) cfg.role_names)
  pub keepers : Differing (map key_of cfg.keepers)
  pub each : All IsVersionNamed cfg.versions

module _ {F : Type 0} {P : Gauge → Type 0} where
  pub Apart-one :
      (m : Metric) (values : List Str) (x : F)
      → P (m, values)
      → is_stamp m ≡ false
      → Apart P (set_to m values x ∷ [])
  Apart-one m values x p s = record { belong = ((p, s), tt); distinct = (tt, tt) }

  pub Apart-on_ok :
      {A : Type 0} (f : A → List (Event F)) (reply : Reply A)
      → ((a : A) → Apart P (f a))
      → Apart P (on_ok f reply)
  Apart-on_ok f (ok a) h = h a
  Apart-on_ok f (err e) h = Apart-nil

  pub Apart-shown :
      {A : Type 0} (m : Metric) (values : List Str) (unit : A → F) (reply : Reply A)
      → P (m, values)
      → is_stamp m ≡ false
      → Apart P (shown m values unit reply)
  Apart-shown m values unit reply p s = Apart-on_ok _ reply (λ a. Apart-one m values (unit a) p s)
