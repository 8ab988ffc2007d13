-- ===== src/Tasks/Oracle.antt =====
-- internal/reconciler/oracle.go: the bound on the age of an oracle price.
use hertz_reconciler.Prelude.{Option, none, [], ◌∷◌, ◌++◌, Str, str, cat}
use hertz_reconciler.Chain.Keys.{max_oracle_price_age_root}
use hertz_reconciler.Chain.Client.{get_uint}
use hertz_reconciler.Config.{VersionConfig}
use hertz_reconciler.Metrics
use hertz_reconciler.Metrics.{set_to, set_now, reconciler_last_run_timestamp}
use hertz_reconciler.Runtime.{Env, M, emit, pure, on_reply, ◌>>=◌, ◌>>◌}
use hertz_reconciler.Reconciler.{Report, Task, empty_report, add_line, add_finding}

module _ {F W : Type 0} (env : Env F W) where
  unfoldable pub oracle_run : VersionConfig → M F W (Report × Option Str)
  oracle_run vc = do
    let ds = env.geth.hex_to_address vc.data_store
    max_age_reply ← get_uint env ds (max_oracle_price_age_root env.geth)
    rep ←
        on_reply max_age_reply
          (λ max_age. do
            let secs = env.floats.of_uint max_age
            emit (set_to Metrics.oracle_max_price_age (vc.name ∷ []) secs)
            pure (
                add_line
                  (cat (str "MAX_ORACLE_PRICE_AGE = " ∷ env.floats.fixed 0 secs ∷ str "s" ∷ []))
                  empty_report))
          (λ e. pure (add_finding (cat (str "MAX_ORACLE_PRICE_AGE: " ∷ e ∷ [])) empty_report))
    emit (set_now reconciler_last_run_timestamp ((str "oracle_config_" ++ vc.name) ∷ []))
    pure (rep, none)

  unfoldable pub oracle_config : Task F W
  unfolding oracle_run
  oracle_config = record { name = str "oracle_config"; run = oracle_run }
