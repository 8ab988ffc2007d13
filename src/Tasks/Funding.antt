-- ===== src/Tasks/Funding.antt =====
-- internal/reconciler/funding.go: the funding fees of the long and of the short side.
pub mod Bounds
use hertz_reconciler.Prelude.{
  ℕ, ◌+◌, true, false, Option, none, [], ◌∷◌, ◌++◌, Str, str, cat, decimal, length, ltb, leb, ◌==◌,
  if◌then◌else◌,
}
use hertz_reconciler.Prelude.Int.{ℤ, ◌-ℤ◌, abs}
use hertz_reconciler.Chain.Geth.{Address}
use hertz_reconciler.Chain.Keys.{funding_fee_amount_per_size_key}
use hertz_reconciler.Chain.Client.{get_int}
use hertz_reconciler.Config.{VersionConfig}
use hertz_reconciler.Metrics
use hertz_reconciler.Metrics.{set_to, set_now, reconciler_last_run_timestamp}
use hertz_reconciler.Runtime.{Env, M, ask, emit, pure, foreach, on_reply, ◌>>=◌, ◌>>◌}
use hertz_reconciler.Reconciler.{Report, Task, empty_report, add_line, add_finding}

-- `absSub` and `absMax`: their results are not negative.
unfoldable pub abs_sub : ℤ → ℤ → ℕ
abs_sub a b = abs (a -ℤ b)

unfoldable pub abs_max : ℤ → ℤ → ℕ
abs_max a b = if leb (abs b) (abs a) then abs a else abs b

module _ {F W : Type 0} (env : Env F W) where
  unfoldable pub scaled_signed30 : ℤ → F
  scaled_signed30 v = env.floats.over_1e30 v

  -- The end of a round, with the two sides read.
  unfoldable pub record_imbalance : VersionConfig → Str → ℤ → ℤ → Report × ℕ → M F W (Report × ℕ)
  unfolding abs_sub abs_max
  record_imbalance vc sym long short (rep, imbalances) =
      let max_side = abs_max long short in
      if ltb 0 max_side
      then (do
        let r = env.floats.ratio (abs_sub long short) max_side
        emit (set_to Metrics.market_funding_imbalance_ratio (vc.name ∷ sym ∷ []) r)
        pure (rep, if env.floats.gt r env.floats.nine_tenths then imbalances + 1 else imbalances))
      else pure (rep, imbalances)

  -- One round of the loop over the markets; it carries the report and `imbalances`.
  unfoldable pub funding_round :
      VersionConfig → Address → Address → Str × Str → Report × ℕ → M F W (Report × ℕ)
  unfolding record_imbalance scaled_signed30
  funding_round vc ds usdt (sym, m_hex) (rep, imbalances) = do
    let market = env.geth.hex_to_address m_hex
    long_reply ← get_int env ds (funding_fee_amount_per_size_key env.geth market usdt true)
    on_reply long_reply
        (λ long. do
          short_reply ← get_int env ds (funding_fee_amount_per_size_key env.geth market usdt false)
          on_reply short_reply
              (λ short. do
                emit (
                    set_to Metrics.market_funding_per_size (vc.name ∷ sym ∷ str "long" ∷ [])
                      (scaled_signed30 long))
                emit (
                    set_to Metrics.market_funding_per_size (vc.name ∷ sym ∷ str "short" ∷ [])
                      (scaled_signed30 short))
                record_imbalance vc sym long short (rep, imbalances))
              (λ e. pure (
                add_finding (cat (str "market " ∷ sym ∷ str " funding short: " ∷ e ∷ [])) rep,
                imbalances,
              )))
        (λ e. pure (
          add_finding (cat (str "market " ∷ sym ∷ str " funding long: " ∷ e ∷ [])) rep,
          imbalances,
        ))

  unfoldable pub funding_run : VersionConfig → M F W (Report × Option Str)
  unfolding funding_round
  funding_run vc = if length vc.markets == 0 then pure (empty_report, none) else do
    let ds = env.geth.hex_to_address vc.data_store
    let usdt = env.geth.hex_to_address vc.usdt_token
    order ← ask (env.range_order vc.markets)
    (rep, imbalances) ← foreach order (funding_round vc ds usdt) (empty_report, 0)
    emit (set_now reconciler_last_run_timestamp ((str "funding_" ++ vc.name) ∷ []))
    pure (
      add_line
          (cat (
            str "funding snapshotted; markets with |long-short|/max > 0.9: "
            ∷ decimal imbalances
            ∷ []))
          rep,
      none,
    )

  unfoldable pub funding : Task F W
  unfolding funding_run
  funding = record { name = str "funding"; run = funding_run }
