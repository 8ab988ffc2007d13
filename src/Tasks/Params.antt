-- ===== src/Tasks/Params.antt =====
-- internal/reconciler/params.go: the safety parameters of each market.
use hertz_reconciler.Prelude.{
  ℕ, Bool, true, false, Option, none, List, [], ◌∷◌, ◌++◌, Str, str, cat, decimal, length, ◌==◌,
  if◌then◌else◌,
}
use hertz_reconciler.Prelude.Int.{pos}
use hertz_reconciler.Chain.Geth.{Address}
use hertz_reconciler.Chain.Keys.{
  min_collateral_factor_key, borrowing_factor_key, liquidation_fee_factor_key,
}
use hertz_reconciler.Chain.Client.{get_uint}
use hertz_reconciler.Config.{VersionConfig}
use hertz_reconciler.Metrics
use hertz_reconciler.Metrics.{set_to, set_now, reconciler_last_run_timestamp}
use hertz_reconciler.Runtime.{Env, M, ask, emit, pure, foreach, on_reply, ◌>>=◌, ◌>>◌}
use hertz_reconciler.Reconciler.{Report, Task, empty_report, add_line, add_finding}

-- The loop over `{"long", true}, {"short", false}`
abbrev pub sides : List (Str × Bool)
sides = (str "long", true) ∷ (str "short", false) ∷ []

module _ {F W : Type 0} (env : Env F W) where
  unfoldable pub scaled_float : ℕ → F
  scaled_float v = env.floats.over_1e30 (pos v)

  -- One side of one market.
  unfoldable pub borrowing_round :
      VersionConfig → Address → Str → Address → Str × Bool → Report → M F W Report
  unfolding scaled_float
  borrowing_round vc ds sym m_addr (side, is_long) rep = do
    bf ← get_uint env ds (borrowing_factor_key env.geth m_addr is_long)
    on_reply bf
        (λ v. do
          emit (set_to Metrics.market_borrowing_factor (vc.name ∷ sym ∷ side ∷ []) (scaled_float v))
          pure rep)
        (λ e. pure (
          add_finding
            (cat (str "market " ∷ sym ∷ str "/" ∷ side ∷ str " borrowingFactor: " ∷ e ∷ [])) rep))

  unfoldable pub params_round : VersionConfig → Address → Str × Str → Report → M F W Report
  unfolding borrowing_round
  params_round vc ds (sym, m_addr_hex) rep = do
    let m_addr = env.geth.hex_to_address m_addr_hex
    mc ← get_uint env ds (min_collateral_factor_key env.geth m_addr)
    rep₁ ←
        on_reply mc
          (λ v. do
            emit (set_to Metrics.market_min_collateral_factor (vc.name ∷ sym ∷ []) (scaled_float v))
            pure rep)
          (λ e.
            pure
              (add_finding (cat (str "market " ∷ sym ∷ str " minCollateralFactor: " ∷ e ∷ [])) rep))
    rep₂ ← foreach sides (borrowing_round vc ds sym m_addr) rep₁
    lf ← get_uint env ds (liquidation_fee_factor_key env.geth m_addr)
    on_reply lf
        (λ v. do
          emit (set_to Metrics.market_liquidation_fee (vc.name ∷ sym ∷ []) (scaled_float v))
          pure rep₂)
        (λ e.
          pure
            (add_finding (cat (str "market " ∷ sym ∷ str " liquidationFeeFactor: " ∷ e ∷ [])) rep₂))

  unfoldable pub params_run : VersionConfig → M F W (Report × Option Str)
  unfolding params_round
  params_run vc = if length vc.markets == 0 then pure (empty_report, none) else do
    let ds = env.geth.hex_to_address vc.data_store
    order ← ask (env.range_order vc.markets)
    rep ← foreach order (params_round vc ds) empty_report
    emit (set_now reconciler_last_run_timestamp ((str "market_params_" ++ vc.name) ∷ []))
    pure (
      add_line
          (cat (str "snapshotted params for " ∷ decimal (length vc.markets) ∷ str " markets" ∷ []))
          rep,
      none,
    )

  unfoldable pub market_params : Task F W
  unfolding params_run
  market_params = record { name = str "market_params"; run = params_run }
