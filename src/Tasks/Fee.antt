-- ===== src/Tasks/Fee.antt =====
-- internal/reconciler/fee.go: the claimable fees of all markets against the balance of the
-- FeeDistributorVault.
use hertz_reconciler.Prelude.{
  ℕ, ◌+◌, ◌*◌, ◌^◌, Option, none, some, [], ◌∷◌, ◌++◌, Str, str, cat, decimal, length, ◌==◌,
  if◌then◌else◌,
}
use hertz_reconciler.Prelude.Int.{ℤ, pos, ◌-ℤ◌, ltb_ℤ}
use hertz_reconciler.Chain.Geth.{Address}
use hertz_reconciler.Chain.Keys.{claimable_fee_amount_key}
use hertz_reconciler.Chain.Client.{get_uint, balance_of_erc20}
use hertz_reconciler.Config.{VersionConfig, lookup}
use hertz_reconciler.Metrics
use hertz_reconciler.Metrics.{set_to, set_now, reconciler_last_run_timestamp}
use hertz_reconciler.Runtime.{Env, M, ask, emit, pure, foreach, on_reply, ◌>>=◌, ◌>>◌}
use hertz_reconciler.Reconciler.{Report, Task, empty_report, add_line, add_finding}

-- 1000 USDT: `new(big.Int).Mul(big.NewInt(1000), big.NewInt(1e18))`
abbrev pub gap_threshold : ℕ
gap_threshold = 1000 * 10 ^ 18

module _ {F W : Type 0} (env : Env F W) where
  unfoldable pub scaled_float18 : ℤ → F
  scaled_float18 v = env.floats.over_1e18 v

  -- One round of the loop over the markets; it carries the report and `totalClaimable`.
  unfoldable pub fee_round :
      VersionConfig → Address → Address → Str × Str → Report × ℕ → M F W (Report × ℕ)
  unfolding scaled_float18
  fee_round vc ds usdt (sym, m_hex) (rep, total) = do
    claim_reply ←
        get_uint env ds (claimable_fee_amount_key env.geth (env.geth.hex_to_address m_hex) usdt)
    on_reply claim_reply
        (λ claim. do
          emit (
              set_to Metrics.market_claimable_fee (vc.name ∷ sym ∷ []) (scaled_float18 (pos claim)))
          pure (rep, total + claim))
        (λ e.
          pure
            (add_finding (cat (str "market " ∷ sym ∷ str " claimable fee: " ∷ e ∷ [])) rep, total))

  -- What is reported of the gap between the total and the balance of the vault.
  unfoldable pub report_gap : ℤ → Report → Report
  unfolding scaled_float18
  report_gap gap rep =
      let rep' =
        add_line
          (cat (
            str "undistributed fee gap: "
            ∷ env.floats.fixed 4 (scaled_float18 gap)
            ∷ str " USDT"
            ∷ []))
          rep in
      if ltb_ℤ (pos gap_threshold) gap
      then add_finding
          (cat (
            str "fee distribution gap "
            ∷ env.floats.fixed 2 (scaled_float18 gap)
            ∷ str " USDT — FEE_KEEPER may not be draining claimables"
            ∷ []))
          rep'
      else rep'

  -- The part of `Run` behind the test of `hasFD`.
  unfoldable pub fee_gap :
      VersionConfig → Address → ℕ → Option Str → Report → M F W (Report × Option Str)
  unfolding report_gap
  fee_gap vc usdt total none rep = pure (rep, none)
  fee_gap vc usdt total (some fd_vault_addr) rep = do
    fd_reply ← balance_of_erc20 env usdt (env.geth.hex_to_address fd_vault_addr)
    on_reply fd_reply
        (λ fd_bal. do
          let gap = pos total -ℤ pos fd_bal
          emit (set_to Metrics.fee_distribution_gap_usdt (vc.name ∷ []) (scaled_float18 gap))
          emit (set_now reconciler_last_run_timestamp ((str "fees_" ++ vc.name) ∷ []))
          pure (report_gap gap rep, none))
        (λ e.
          pure (add_finding (cat (str "FeeDistributorVault USDT balance: " ∷ e ∷ [])) rep, none))

  unfoldable pub fee_run : VersionConfig → M F W (Report × Option Str)
  unfolding fee_round fee_gap
  fee_run vc = if length vc.markets == 0 then pure (empty_report, none) else do
    let ds = env.geth.hex_to_address vc.data_store
    let usdt = env.geth.hex_to_address vc.usdt_token
    order ← ask (env.range_order vc.markets)
    (rep, total) ← foreach order (fee_round vc ds usdt) (empty_report, 0)
    emit (set_to Metrics.total_claimable_fee_usdt (vc.name ∷ []) (scaled_float18 (pos total)))
    fee_gap vc usdt total (lookup (str "FeeDistributorVault") vc.vaults) (
        add_line
          (cat (
            str "total claimable fee (USDT): "
            ∷ env.floats.fixed 4 (scaled_float18 (pos total))
            ∷ str " across "
            ∷ decimal (length vc.markets)
            ∷ str " markets"
            ∷ []))
          rep)

  unfoldable pub fees : Task F W
  unfolding fee_run
  fees = record { name = str "fees"; run = fee_run }
