-- ===== src/Tasks/MarketOi.antt =====
-- internal/reconciler/market_oi.go: open interest and pool amounts of each market.
use hertz_reconciler.Prelude.{
  ℕ, Bool, Option, none, [], ◌∷◌, ◌++◌, Str, str, cat, decimal, length, ◌==◌, if◌then◌else◌,
}
use hertz_reconciler.Prelude.Int.{pos}
use hertz_reconciler.Chain.Geth.{Address}
use hertz_reconciler.Chain.Keys.{
  open_interest_key, max_open_interest_key, pool_amount_key, max_pool_amount_key,
}
use hertz_reconciler.Chain.Client.{get_uint}
use hertz_reconciler.Tasks.Params.{sides}
use hertz_reconciler.Tasks.Fee.{scaled_float18}
use hertz_reconciler.Config.{VersionConfig}
use hertz_reconciler.Metrics
use hertz_reconciler.Metrics.{set_to, set_now, reconciler_last_run_timestamp}
use hertz_reconciler.Runtime.{Env, M, ask, emit, pure, foreach, on_reply, ◌>>=◌, ◌>>◌}
use hertz_reconciler.Reconciler.{Report, Task, empty_report, add_line, add_finding}

module _ {F W : Type 0} (env : Env F W) where
  unfoldable pub wei_to_30 : ℕ → F
  wei_to_30 v = env.floats.over_1e30 (pos v)

  unfoldable pub side_round :
      VersionConfig → Address → Address → Str → Address → Str × Bool → Report → M F W Report
  unfolding wei_to_30
  side_round vc ds usdt sym m_addr (side, is_long) rep = do
    oi ← get_uint env ds (open_interest_key env.geth m_addr usdt is_long)
    rep₁ ←
        on_reply oi
          (λ v. do
            emit (set_to Metrics.market_oi (vc.name ∷ sym ∷ side ∷ []) (wei_to_30 v))
            pure rep)
          (λ e.
            pure
              (add_finding (cat (str "market " ∷ sym ∷ str "/" ∷ side ∷ str " OI: " ∷ e ∷ [])) rep))
    max_oi ← get_uint env ds (max_open_interest_key env.geth m_addr is_long)
    on_reply max_oi
        (λ v. do
          emit (set_to Metrics.market_max_oi (vc.name ∷ sym ∷ side ∷ []) (wei_to_30 v))
          pure rep₁)
        (λ e.
          pure (
            add_finding (cat (str "market " ∷ sym ∷ str "/" ∷ side ∷ str " maxOI: " ∷ e ∷ []))
              rep₁))

  unfoldable pub market_round :
      VersionConfig → Address → Address → Str × Str → Report → M F W Report
  unfolding side_round
  market_round vc ds usdt (sym, m_addr_hex) rep = do
    let m_addr = env.geth.hex_to_address m_addr_hex
    rep₁ ← foreach sides (side_round vc ds usdt sym m_addr) rep
    pool ← get_uint env ds (pool_amount_key env.geth m_addr usdt)
    rep₂ ←
        on_reply pool
          (λ v. do
            emit (
                set_to Metrics.market_pool_amount (vc.name ∷ sym ∷ []) (scaled_float18 env (pos v)))
            pure rep₁)
          (λ e. pure (add_finding (cat (str "market " ∷ sym ∷ str " pool: " ∷ e ∷ [])) rep₁))
    max_pool ← get_uint env ds (max_pool_amount_key env.geth m_addr usdt)
    on_reply max_pool
        (λ v. do
          emit (
              set_to Metrics.market_max_pool_amount (vc.name ∷ sym ∷ [])
                (scaled_float18 env (pos v)))
          pure rep₂)
        (λ e. pure (add_finding (cat (str "market " ∷ sym ∷ str " maxPool: " ∷ e ∷ [])) rep₂))

  unfoldable pub market_oi_run : VersionConfig → M F W (Report × Option Str)
  unfolding market_round
  market_oi_run vc = if length vc.markets == 0 then pure (empty_report, none) else do
    let ds = env.geth.hex_to_address vc.data_store
    let usdt = env.geth.hex_to_address vc.usdt_token
    order ← ask (env.range_order vc.markets)
    rep ← foreach order (market_round vc ds usdt) empty_report
    emit (set_now reconciler_last_run_timestamp ((str "market_oi_" ++ vc.name) ∷ []))
    pure (
      add_line
          (cat (
            str "market OI/pool snapshotted for "
            ∷ decimal (length vc.markets)
            ∷ str " markets"
            ∷ []))
          rep,
      none,
    )

  unfoldable pub market_oi : Task F W
  unfolding market_oi_run
  market_oi = record { name = str "market_oi"; run = market_oi_run }
