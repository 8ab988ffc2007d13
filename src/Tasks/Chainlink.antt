-- ===== src/Tasks/Chainlink.antt =====
-- internal/reconciler/chainlink.go: the ages of the price feeds, which the versions share.
use hertz_reconciler.Prelude.{
  ℕ, ◌+◌, ◌-◌, Option, none, [], ◌∷◌, Str, str, str_eq, cat, decimal, length, ltb, if◌then◌else◌,
}
use hertz_reconciler.Chain.Client.{chainlink_latest_updated_at}
use hertz_reconciler.Config.{VersionConfig, StrMap}
use hertz_reconciler.Metrics
use hertz_reconciler.Metrics.{set_to, set_now, reconciler_last_run_timestamp}
use hertz_reconciler.Runtime.{Env, M, ask, emit, pure, foreach, on_reply, ◌>>=◌, ◌>>◌}
use hertz_reconciler.Reconciler.{Report, Task, empty_report, add_line, add_finding}

unfoldable pub default_bsc_testnet_feeds : StrMap
default_bsc_testnet_feeds =
    (str "BNB_USD", str "0x2514895c72f50D8bd4B4F9b1110F0D6bD2c97526")
    ∷ (str "BTC_USD", str "0x5741306c21795FdCBb9b265Ea0255F499DFe515C")
    ∷ (str "ETH_USD", str "0x143db3CEEfbdfe5631aDD3E50f7614B6ba708BA7")
    ∷ []

module _ {F W : Type 0} (env : Env F W) where
  -- `if now > updatedAt { age = float64(now - updatedAt) }`
  unfoldable pub age_of : ℕ → ℕ → F
  age_of now updated_at =
      if ltb updated_at now then env.floats.of_uint (now - updated_at) else env.floats.of_uint 0

  -- One round of the loop over the feeds; it carries the report and `stale`.
  unfoldable pub feed_round : ℕ → Str × Str → Report × ℕ → M F W (Report × ℕ)
  unfolding age_of
  feed_round now (label, addr_hex) (rep, stale) = do
    updated_reply ← chainlink_latest_updated_at env (env.geth.hex_to_address addr_hex)
    on_reply updated_reply
        (λ updated_at. do
          let age = age_of now updated_at
          emit (set_to Metrics.chainlink_feed_age (label ∷ []) age)
          pure (rep, if env.floats.gt age (env.floats.of_uint 600) then stale + 1 else stale))
        (λ e. pure (add_finding (cat (str "chainlink " ∷ label ∷ str ": " ∷ e ∷ [])) rep, stale))

  unfoldable pub chainlink_run : VersionConfig → M F W (Report × Option Str)
  unfolding default_bsc_testnet_feeds feed_round
  chainlink_run vc =
      if str_eq vc.name (str "v1")
      then (do
        now ← ask env.unix_now
        order ← ask (env.range_order default_bsc_testnet_feeds)
        (rep, stale) ← foreach order (feed_round now) (empty_report, 0)
        emit (set_now reconciler_last_run_timestamp (str "chainlink" ∷ []))
        pure (
          add_line
              (cat (
                str "chainlink probed ("
                ∷ decimal (length default_bsc_testnet_feeds)
                ∷ str " feeds); stale>600s: "
                ∷ decimal stale
                ∷ []))
              rep,
          none,
        ))
      else pure (empty_report, none)

  unfoldable pub chainlink : Task F W
  unfolding chainlink_run
  chainlink = record { name = str "chainlink"; run = chainlink_run }
