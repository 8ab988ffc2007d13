-- ===== src/Tasks/Features.antt =====
-- internal/reconciler/features.go: the flags that pause a feature, for the protocol as a whole and
-- for each handler.
use hertz_reconciler.Prelude.{
  ℕ, ◌+◌, Bool, Option, none, List, [], ◌∷◌, ◌++◌, Str, str, cat, decimal, length, if◌then◌else◌,
}
use hertz_reconciler.Chain.Geth.{Address}
use hertz_reconciler.Chain.Keys.{feature_key_root, feature_key_for_handler}
use hertz_reconciler.Chain.Client.{get_bool}
use hertz_reconciler.Config.{VersionConfig}
use hertz_reconciler.Metrics
use hertz_reconciler.Metrics.{set_to, set_now, reconciler_last_run_timestamp}
use hertz_reconciler.Runtime.{Env, M, ask, emit, pure, foreach, on_reply, ◌>>=◌, ◌>>◌}
use hertz_reconciler.Reconciler.{Report, Task, empty_report, add_line, add_finding}

unfoldable pub default_feature_names : List Str
default_feature_names =
    str "CREATE_DEPOSIT_FEATURE_DISABLED"
    ∷ str "CANCEL_DEPOSIT_FEATURE_DISABLED"
    ∷ str "EXECUTE_DEPOSIT_FEATURE_DISABLED"
    ∷ str "CREATE_WITHDRAWAL_FEATURE_DISABLED"
    ∷ str "CANCEL_WITHDRAWAL_FEATURE_DISABLED"
    ∷ str "EXECUTE_WITHDRAWAL_FEATURE_DISABLED"
    ∷ str "CREATE_ORDER_FEATURE_DISABLED"
    ∷ str "UPDATE_ORDER_FEATURE_DISABLED"
    ∷ str "CANCEL_ORDER_FEATURE_DISABLED"
    ∷ str "EXECUTE_ORDER_FEATURE_DISABLED"
    ∷ str "EXECUTE_ADL_FEATURE_DISABLED"
    ∷ str "CLAIM_FUNDING_FEES_FEATURE_DISABLED"
    ∷ str "CLAIM_COLLATERAL_FEATURE_DISABLED"
    ∷ []

module _ {F W : Type 0} (env : Env F W) where
  -- What a probe that was answered does: `handler` is "root" or the name of a handler.
  unfoldable pub record_flag : VersionConfig → Str → Str → Bool → Report × ℕ → M F W (Report × ℕ)
  record_flag vc name handler v (rep, disabled) = do
    emit (
        set_to Metrics.feature_disabled (vc.name ∷ name ∷ handler ∷ [])
          (env.floats.of_uint (if v then 1 else 0)))
    pure (
        if v
        then (
          add_finding
              (cat (
                str "FEATURE DISABLED: "
                ∷ name
                ∷ str " (handler="
                ∷ handler
                ∷ str ", version="
                ∷ vc.name
                ∷ str ")"
                ∷ []))
              rep,
          disabled + 1,
        )
        else (rep, disabled))

  unfoldable pub handler_round :
      VersionConfig → Address → Str → Str × Str → Report × ℕ → M F W (Report × ℕ)
  unfolding record_flag
  handler_round vc ds name (handler_name, handler_hex) (rep, disabled) = do
    v_reply ←
        get_bool env ds
          (feature_key_for_handler env.geth name (env.geth.hex_to_address handler_hex))
    on_reply v_reply (λ v. record_flag vc name handler_name v (rep, disabled))
        (λ e. pure (
          add_finding (cat (str "feature " ∷ name ∷ str "/" ∷ handler_name ∷ str ": " ∷ e ∷ []))
              rep,
          disabled,
        ))

  -- One round of the loop over the names; it carries the report and `disabled`.
  unfoldable pub feature_round : VersionConfig → Address → Str → Report × ℕ → M F W (Report × ℕ)
  unfolding handler_round
  feature_round vc ds name (rep, disabled) = do
    v_reply ← get_bool env ds (feature_key_root env.geth name)
    acc ←
        on_reply v_reply (λ v. record_flag vc name (str "root") v (rep, disabled))
          (λ e.
            pure (add_finding (cat (str "feature " ∷ name ∷ str " root: " ∷ e ∷ [])) rep, disabled))
    order ← ask (env.range_order vc.handlers)
    foreach order (handler_round vc ds name) acc

  unfoldable pub features_run : VersionConfig → M F W (Report × Option Str)
  unfolding default_feature_names feature_round
  features_run vc = do
    let ds = env.geth.hex_to_address vc.data_store
    (rep, disabled) ← foreach default_feature_names (feature_round vc ds) (empty_report, 0)
    emit (set_now reconciler_last_run_timestamp ((str "features_" ++ vc.name) ∷ []))
    pure (
      add_line
          (cat (
            str "features probed ("
            ∷ decimal (length default_feature_names)
            ∷ str " names × "
            ∷ decimal (length vc.handlers)
            ∷ str " handlers + root); disabled="
            ∷ decimal disabled
            ∷ []))
          rep,
      none,
    )

  unfoldable pub features : Task F W
  unfolding features_run
  features = record { name = str "features"; run = features_run }
