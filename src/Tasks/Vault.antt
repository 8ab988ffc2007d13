-- ===== src/Tasks/Vault.antt =====
-- internal/reconciler/vault.go: the native and USDT balances of the vaults.
use hertz_reconciler.Prelude.{
  ℕ, ◌&&◌, ◌||◌, Option, none, [], ◌∷◌, ◌++◌, Str, str, str_eq, cat, length, ◌==◌, if◌then◌else◌,
}
use hertz_reconciler.Prelude.Int.{pos}
use hertz_reconciler.Chain.Geth.{Address}
use hertz_reconciler.Chain.Client.{balance_of_native, balance_of_erc20}
use hertz_reconciler.Config.{VersionConfig}
use hertz_reconciler.Metrics
use hertz_reconciler.Metrics.{set_to, set_now, reconciler_last_run_timestamp}
use hertz_reconciler.Runtime.{Env, M, ask, emit, pure, foreach, on_reply, ◌>>=◌, ◌>>◌}
use hertz_reconciler.Reconciler.{Report, Task, empty_report, add_line, add_finding}

module _ {F W : Type 0} (env : Env F W) where
  -- No client method returns a nil pointer beside a nil error, so `wei` is a number.
  unfoldable pub wei_to_ether : ℕ → F
  wei_to_ether wei = env.floats.over_1e18 (pos wei)

  -- The last test of a round.
  unfoldable pub check_stuck : Str → F → Report → Report
  check_stuck name usdt_units rep =
      if env.floats.gt usdt_units env.floats.one
        && (str_eq name (str "OrderVault") || str_eq name (str "DepositVault"))
      then add_finding
          (cat (
            name
            ∷ str " holds "
            ∷ env.floats.fixed 2 usdt_units
            ∷ str " USDT — possible stuck deposit/order"
            ∷ []))
          rep
      else rep

  -- What a round reports of two balances that were read.
  unfoldable pub report_vault : Str → ℕ → ℕ → Report → Report
  unfolding check_stuck wei_to_ether
  report_vault name bnb usdt_bal rep = check_stuck name (wei_to_ether usdt_bal) (
      add_line
        (cat (
          name
          ∷ str ": "
          ∷ env.floats.fixed 4 (wei_to_ether bnb)
          ∷ str " BNB / "
          ∷ env.floats.fixed 2 (wei_to_ether usdt_bal)
          ∷ str " USDT"
          ∷ []))
        rep)

  -- One round of the loop over the vaults.
  unfoldable pub vault_round : VersionConfig → Address → Str × Str → Report → M F W Report
  unfolding report_vault
  vault_round vc usdt (name, addr_hex) rep = do
    let addr = env.geth.hex_to_address addr_hex
    bnb_reply ← balance_of_native env addr
    on_reply bnb_reply
        (λ bnb. do
          emit (set_to Metrics.vault_balance_native (vc.name ∷ name ∷ []) (wei_to_ether bnb))
          usdt_reply ← balance_of_erc20 env usdt addr
          on_reply usdt_reply
              (λ usdt_bal. do
                emit (
                    set_to Metrics.vault_balance_usdt (vc.name ∷ name ∷ []) (wei_to_ether usdt_bal))
                pure (report_vault name bnb usdt_bal rep))
              (λ e. pure (add_finding (cat (name ∷ str " USDT balance: " ∷ e ∷ [])) rep)))
        (λ e. pure (add_finding (cat (name ∷ str " native balance: " ∷ e ∷ [])) rep))

  unfoldable pub vault_run : VersionConfig → M F W (Report × Option Str)
  unfolding vault_round
  vault_run vc = if length vc.vaults == 0 then pure (empty_report, none) else do
    let usdt = env.geth.hex_to_address vc.usdt_token
    order ← ask (env.range_order vc.vaults)
    rep ← foreach order (vault_round vc usdt) empty_report
    emit (set_now reconciler_last_run_timestamp ((str "vault_balances_" ++ vc.name) ∷ []))
    pure (rep, none)

  unfoldable pub vault_balances : Task F W
  unfolding vault_run
  vault_balances = record { name = str "vault_balances"; run = vault_run }
