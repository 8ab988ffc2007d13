-- ===== src/Tasks/Gauges/Entries.antt =====
-- The gauges that each task sets for one entry of the configuration, from the answers of the node.
use hertz_reconciler.Prelude.{
  ℕ, ◌-◌, Bool, true, false, Option, none, some, List, [], ◌∷◌, ◌++◌, Str, str, ltb, gather,
  if◌then◌else◌,
}
use hertz_reconciler.Prelude.Int.{ℤ, pos, ◌-ℤ◌}
use hertz_reconciler.Chain.Geth.{Hash, Address}
use hertz_reconciler.Chain.Keys.{
  min_collateral_factor_key, borrowing_factor_key, liquidation_fee_factor_key,
  funding_fee_amount_per_size_key, open_interest_key, max_open_interest_key, pool_amount_key,
  max_pool_amount_key,
}
use hertz_reconciler.Chain.Reply.{Reply}
use hertz_reconciler.Chain.Client.Snapshot.{Snapshot, uint_at, int_at, count_at, updated_at}
use hertz_reconciler.Config.{VersionConfig, is_empty}
use hertz_reconciler.Metrics.{
  Metric, Event, set_to, set_now, vault_balance_native, vault_balance_usdt, role_members_count,
  timelock_min_delay, market_min_collateral_factor, market_borrowing_factor, market_liquidation_fee,
  market_claimable_fee, fee_distribution_gap_usdt, market_funding_per_size,
  market_funding_imbalance_ratio, keeper_balance_native, fee_distributor_balance_usdt,
  reconciler_last_run_timestamp, feature_disabled, queue_count, market_oi, market_max_oi,
  market_pool_amount, market_max_pool_amount, chainlink_feed_age,
}
use hertz_reconciler.Runtime.{Env}
use hertz_reconciler.Runtime.Exports.{on_ok}
use hertz_reconciler.Tasks.Params.{sides}
use hertz_reconciler.Tasks.Funding.Bounds.{distance, larger}
use hertz_reconciler.Tasks.Queue.{ListSpec}
use hertz_reconciler.Tasks.Clean.Order.{
  claim_at, usdt_of, delay_of, flag_of, handler_flag_of, count_of,
}

-- A gauge that shows what was read, in a unit of its own, and keeps its value if nothing was.
abbrev pub shown : {A F : Type 0} → Metric → List Str → (A → F) → Reply A → List (Event F)
shown m values unit reply = on_ok (λ v. set_to m values (unit v) ∷ []) reply

-- The timestamp of a run.
abbrev pub stamp : {F : Type 0} → Str → List (Event F)
stamp label = set_now reconciler_last_run_timestamp (label ∷ []) ∷ []

module _ {F W : Type 0} (env : Env F W) (snap : Snapshot) (vc : VersionConfig) where
  abbrev pub ether : ℕ → F
  ether v = env.floats.over_1e18 (pos v)

  abbrev pub scaled : ℕ → F
  scaled v = env.floats.over_1e30 (pos v)

  -- The number of the DataStore at a key.
  abbrev pub stored : (Address → Hash) → Str → Reply ℕ
  stored key hex =
      uint_at env snap (env.geth.hex_to_address vc.data_store) (key (env.geth.hex_to_address hex))

  -- The USDT balance is read only if the native one was.
  abbrev pub vault_gauges : Str × Str → List (Event F)
  vault_gauges (name, hex) =
      on_ok
        (λ native.
          set_to vault_balance_native (vc.name ∷ name ∷ []) (ether native)
          ∷ shown vault_balance_usdt (vc.name ∷ name ∷ []) ether (usdt_of env snap vc hex))
        (snap.balance_answer (env.geth.hex_to_address hex))

  abbrev pub role_gauges : Str → List (Event F)
  role_gauges name =
      shown role_members_count (vc.name ∷ name ∷ []) env.floats.of_uint (count_of env snap vc name)

  abbrev pub delay_gauges : Str × Str → List (Event F)
  delay_gauges (label, hex) =
      if is_empty hex
      then []
      else shown timelock_min_delay (vc.name ∷ label ∷ []) env.floats.of_uint
          (delay_of env snap vc hex)

  abbrev pub borrowing_gauges : Str → Str → Str × Bool → List (Event F)
  borrowing_gauges sym hex (side, is_long) =
      shown market_borrowing_factor (vc.name ∷ sym ∷ side ∷ []) scaled
        (stored (λ market. borrowing_factor_key env.geth market is_long) hex)

  abbrev pub params_gauges : Str × Str → List (Event F)
  params_gauges (sym, hex) =
      shown market_min_collateral_factor (vc.name ∷ sym ∷ []) scaled
        (stored (min_collateral_factor_key env.geth) hex)
      ++ (gather (borrowing_gauges sym hex) sides
          ++ shown market_liquidation_fee (vc.name ∷ sym ∷ []) scaled
              (stored (liquidation_fee_factor_key env.geth) hex))

  abbrev pub claim_gauges : Str × Str → List (Event F)
  claim_gauges (sym, hex) =
      shown market_claimable_fee (vc.name ∷ sym ∷ []) ether (claim_at env snap vc hex)

  -- The run leaves a timestamp only if the balance of the FeeDistributorVault was read.
  abbrev pub gap_gauges : ℕ → Option Str → List (Event F)
  gap_gauges total none = []
  gap_gauges total (some hex) =
      on_ok
        (λ balance.
          set_to fee_distribution_gap_usdt (vc.name ∷ [])
            (env.floats.over_1e18 (pos total -ℤ pos balance))
          ∷ stamp (str "fees_" ++ vc.name))
        (usdt_of env snap vc hex)

  abbrev pub ratio_gauges : Str → ℤ → ℤ → List (Event F)
  ratio_gauges sym long short =
      if ltb 0 (larger long short)
      then set_to market_funding_imbalance_ratio (vc.name ∷ sym ∷ [])
          (env.floats.ratio (distance long short) (larger long short))
        ∷ []
      else []

  abbrev pub funding_at : Bool → Str → Reply ℤ
  funding_at is_long hex = int_at env snap (env.geth.hex_to_address vc.data_store) (
      funding_fee_amount_per_size_key env.geth (env.geth.hex_to_address hex)
        (env.geth.hex_to_address vc.usdt_token) is_long)

  abbrev pub both_gauges : Str → ℤ → ℤ → List (Event F)
  both_gauges sym long short =
      set_to market_funding_per_size (vc.name ∷ sym ∷ str "long" ∷ []) (env.floats.over_1e30 long)
      ∷ set_to market_funding_per_size (vc.name ∷ sym ∷ str "short" ∷ [])
          (env.floats.over_1e30 short)
      ∷ ratio_gauges sym long short

  -- Nothing is exported unless both sides were read.
  abbrev pub funding_gauges : Str × Str → List (Event F)
  funding_gauges (sym, hex) =
      on_ok (λ long. on_ok (both_gauges sym long) (funding_at false hex)) (funding_at true hex)

  abbrev pub keeper_gauges : Str × Str → List (Event F)
  keeper_gauges (label, hex) =
      shown keeper_balance_native (label ∷ []) ether
        (snap.balance_answer (env.geth.hex_to_address hex))

  abbrev pub distributor_gauges : Option Str → List (Event F)
  distributor_gauges none = []
  distributor_gauges (some hex) =
      if is_empty vc.usdt_token
      then []
      else shown fee_distributor_balance_usdt (vc.name ∷ []) ether (usdt_of env snap vc hex)

  -- 1 for a feature that is disabled, and 0 else.
  abbrev pub flag : Bool → F
  flag v = env.floats.of_uint (if v then 1 else 0)

  abbrev pub handler_gauges : Str → Str × Str → List (Event F)
  handler_gauges name (handler, hex) =
      shown feature_disabled (vc.name ∷ name ∷ handler ∷ []) flag
        (handler_flag_of env snap vc name hex)

  abbrev pub feature_gauges : Str → List (Event F)
  feature_gauges name =
      shown feature_disabled (vc.name ∷ name ∷ str "root" ∷ []) flag (flag_of env snap vc name)
      ++ gather (handler_gauges name) vc.handlers

  abbrev pub queue_count_at : Hash → Bool → Reply ℕ
  queue_count_at key is_addr =
      count_at env snap
        (if is_addr then str "getAddressCount(bytes32)" else str "getBytes32Count(bytes32)")
        (env.geth.hex_to_address vc.data_store) key

  abbrev pub queue_gauges : ListSpec → List (Event F)
  queue_gauges l =
      shown queue_count (vc.name ∷ l.label ∷ []) env.floats.of_uint (queue_count_at l.key l.is_addr)

  abbrev pub interest_gauges : Str → Str → Str × Bool → List (Event F)
  interest_gauges sym hex (side, is_long) =
      let usdt = env.geth.hex_to_address vc.usdt_token in
      shown market_oi (vc.name ∷ sym ∷ side ∷ []) scaled
        (stored (λ market. open_interest_key env.geth market usdt is_long) hex)
      ++ shown market_max_oi (vc.name ∷ sym ∷ side ∷ []) scaled
          (stored (λ market. max_open_interest_key env.geth market is_long) hex)

  abbrev pub oi_gauges : Str × Str → List (Event F)
  oi_gauges (sym, hex) =
      let usdt = env.geth.hex_to_address vc.usdt_token in
      gather (interest_gauges sym hex) sides
      ++ (shown market_pool_amount (vc.name ∷ sym ∷ []) ether
            (stored (λ market. pool_amount_key env.geth market usdt) hex)
          ++ shown market_max_pool_amount (vc.name ∷ sym ∷ []) ether
              (stored (λ market. max_pool_amount_key env.geth market usdt) hex))

  -- An answer from the future has the age 0.
  abbrev pub feed_gauges : ℕ → Str × Str → List (Event F)
  feed_gauges now (label, hex) =
      shown chainlink_feed_age (label ∷ []) (λ updated. env.floats.of_uint (now - updated))
        (updated_at env snap (env.geth.hex_to_address hex))
