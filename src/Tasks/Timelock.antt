-- ===== src/Tasks/Timelock.antt =====
-- internal/reconciler/timelock.go: the minimal delays of the two timelocks.
use hertz_reconciler.Prelude.{
  ℕ, Option, none, [], ◌∷◌, ◌++◌, Str, str, cat, decimal, ltb, if◌then◌else◌,
}
use hertz_reconciler.Chain.Client.{get_min_delay}
use hertz_reconciler.Config.{VersionConfig, is_empty}
use hertz_reconciler.Metrics
use hertz_reconciler.Metrics.{set_to, set_now, reconciler_last_run_timestamp}
use hertz_reconciler.Runtime.{Env, M, ask, emit, pure, foreach, on_reply, ◌>>=◌, ◌>>◌}
use hertz_reconciler.Reconciler.{Report, Task, empty_report, add_line, add_finding}

module _ {F W : Type 0} (env : Env F W) where
  -- What a round reports of a delay that was read.
  unfoldable pub report_delay : Str → ℕ → Report → Report
  report_delay label delay rep =
      let rep' =
        add_line (cat (label ∷ str " timelock minDelay: " ∷ decimal delay ∷ str "s" ∷ [])) rep in
      if ltb delay 60
      then add_finding
          (cat (label ∷ str " timelock minDelay is only " ∷ decimal delay ∷ str "s — verify" ∷ []))
          rep'
      else rep'

  unfoldable pub timelock_round : VersionConfig → Str × Str → Report → M F W Report
  unfolding report_delay
  timelock_round vc (label, addr_hex) rep = if is_empty addr_hex then pure rep else do
    delay_reply ← get_min_delay env (env.geth.hex_to_address addr_hex)
    on_reply delay_reply
        (λ delay. do
          emit (set_to Metrics.timelock_min_delay (vc.name ∷ label ∷ []) (env.floats.of_uint delay))
          pure (report_delay label delay rep))
        (λ e. pure (add_finding (cat (label ∷ str " timelock minDelay: " ∷ e ∷ [])) rep))

  unfoldable pub timelock_run : VersionConfig → M F W (Report × Option Str)
  unfolding timelock_round
  timelock_run vc = do
    order ←
        ask
          (env.range_order ((str "gov", vc.gov_timelock) ∷ (str "config", vc.config_timelock) ∷ []))
    rep ← foreach order (timelock_round vc) empty_report
    emit (set_now reconciler_last_run_timestamp ((str "timelock_" ++ vc.name) ∷ []))
    pure (rep, none)

  unfoldable pub timelock : Task F W
  unfolding timelock_run
  timelock = record { name = str "timelock"; run = timelock_run }
