-- ===== src/Tasks/Gas.antt =====
-- internal/reconciler/gas.go: the balances of the keepers, and that of the FeeDistributorVault.
use hertz_reconciler.Prelude.{
  ℕ, ◌+◌, Option, none, some, [], ◌∷◌, ◌++◌, Str, str, str_eq, cat, decimal, length, if◌then◌else◌,
}
use hertz_reconciler.Prelude.Int.{pos}
use hertz_reconciler.Chain.Client.{balance_of_native, balance_of_erc20}
use hertz_reconciler.Tasks.Vault.{wei_to_ether}
use hertz_reconciler.Tasks.Fee.{scaled_float18}
use hertz_reconciler.Config.{VersionConfig, StrMap, lookup, is_empty}
use hertz_reconciler.Metrics
use hertz_reconciler.Metrics.{set_to, set_now, reconciler_last_run_timestamp}
use hertz_reconciler.Runtime.{Env, M, ask, emit, pure, foreach, on_reply, ◌>>=◌, ◌>>◌}
use hertz_reconciler.Reconciler.{Report, Task, empty_report, add_line, add_finding}

module _ {F W : Type 0} (env : Env F W) where
  -- One round of the loop over the keepers; it carries the report and `totalWei`.
  unfoldable pub keeper_round : Str × Str → Report × ℕ → M F W (Report × ℕ)
  keeper_round (label, addr_hex) (rep, total_wei) = do
    bal_reply ← balance_of_native env (env.geth.hex_to_address addr_hex)
    on_reply bal_reply
        (λ bal. do
          emit (set_to Metrics.keeper_balance_native (label ∷ []) (wei_to_ether env bal))
          pure (rep, total_wei + bal))
        (λ e.
          pure
            (add_finding (cat (str "keeper " ∷ label ∷ str " balance: " ∷ e ∷ [])) rep, total_wei))

  -- The part for the keepers, which are shared by the versions.
  unfoldable pub keepers_part : StrMap → VersionConfig → Report → M F W Report
  unfolding keeper_round
  keepers_part keepers vc rep =
      if str_eq vc.name (str "v1")
      then (do
        order ← ask (env.range_order keepers)
        (rep', total_wei) ← foreach order keeper_round (rep, 0)
        pure (
            add_line
              (cat (
                str "total keeper BNB across "
                ∷ decimal (length keepers)
                ∷ str " wallets: "
                ∷ env.floats.fixed 4 (wei_to_ether env total_wei)
                ∷ []))
              rep'))
      else pure rep

  -- `if fdHex, ok := vc.Vaults["FeeDistributorVault"]; ok && vc.UsdtToken != "" { ... }`
  unfoldable pub distributor_part : VersionConfig → Option Str → Report → M F W Report
  distributor_part vc none rep = pure rep
  distributor_part vc (some fd_hex) rep = if is_empty vc.usdt_token then pure rep else do
    bal_reply ←
        balance_of_erc20 env (env.geth.hex_to_address vc.usdt_token)
          (env.geth.hex_to_address fd_hex)
    on_reply bal_reply
        (λ bal. do
          emit (
              set_to Metrics.fee_distributor_balance_usdt (vc.name ∷ [])
                (scaled_float18 env (pos bal)))
          pure (
              add_line
                (cat (
                  str "FeeDistributorVault USDT: "
                  ∷ env.floats.fixed 4 (scaled_float18 env (pos bal))
                  ∷ []))
                rep))
        (λ e. pure (add_finding (cat (str "FeeDistributor USDT: " ∷ e ∷ [])) rep))

  unfoldable pub gas_run : StrMap → VersionConfig → M F W (Report × Option Str)
  unfolding keepers_part distributor_part
  gas_run keepers vc = do
    rep ← keepers_part keepers vc empty_report
    rep' ← distributor_part vc (lookup (str "FeeDistributorVault") vc.vaults) rep
    emit (set_now reconciler_last_run_timestamp ((str "keeper_gas_" ++ vc.name) ∷ []))
    pure (rep', none)

  unfoldable pub keeper_gas : StrMap → Task F W
  unfolding gas_run
  keeper_gas keepers = record { name = str "keeper_gas"; run = gas_run keepers }
