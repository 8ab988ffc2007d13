-- ===== src/Tasks/Gauges/Markets.antt =====
-- The series of `market_params`, `market_oi` and `funding`.
use hertz_reconciler.Prelude.{ℕ, refl, Bool, Str, length, ltb, ◌==◌}
use hertz_reconciler.Prelude.Int.{ℤ}
use hertz_reconciler.Chain.Client.Snapshot.{Snapshot, IsStable}
use hertz_reconciler.Chain.Client.Silent.{uint-Reads, int-Reads}
use hertz_reconciler.Config.{VersionConfig, Config}
use hertz_reconciler.Runtime.{Env}
use hertz_reconciler.Runtime.Total.{Anything}
use hertz_reconciler.Runtime.Exports.{
  Exports, Exports-pure, Exports-bind, Exports-read, Exports-emit_then, Exports-reply,
  Exports-if_post, Exports-foreach,
}
use hertz_reconciler.Reconciler.{Report, NoError, empty_report}
use hertz_reconciler.Tasks.Params.{sides, borrowing_round, params_round, params_run, scaled_float}
use hertz_reconciler.Tasks.MarketOi.{side_round, market_round, market_oi_run, wei_to_30}
use hertz_reconciler.Tasks.Fee.{scaled_float18}
use hertz_reconciler.Tasks.Funding.{record_imbalance, funding_round, funding_run, scaled_signed30}
use hertz_reconciler.Tasks.Funding.Bounds.{larger, abs_sub-distance, abs_max-larger}
use hertz_reconciler.Tasks.Clean.Loop.{VisitsAll}
use hertz_reconciler.Tasks.Clean.Order.{params_task, funding_task, oi_task}
use hertz_reconciler.Tasks.Gauges.Entries.{
  params_gauges, borrowing_gauges, interest_gauges, oi_gauges, ratio_gauges, funding_gauges,
}
use hertz_reconciler.Tasks.Gauges.Expected.{gauges_of}
use hertz_reconciler.Tasks.Gauges.Rules.{Exports-shown, Exports-run}

module _ {F W : Type 0} (env : Env F W) (snap : Snapshot) (stable : IsStable env snap)
    (vc : VersionConfig) where
  borrowing_round-Exports :
      (sym hex : Str) (side : Str × Bool) (rep : Report)
      → Exports (borrowing_gauges env snap vc sym hex side) Anything (
          borrowing_round env vc
            (env.geth.hex_to_address vc.data_store)
            sym
            (env.geth.hex_to_address hex)
            side
            rep)
  unfolding borrowing_round scaled_float
  borrowing_round-Exports symbol hex (side, is_long) rep =
      Exports-read _ _ (uint-Reads env snap stable _ _) λ x same. Exports-shown x _ _ _ same

  params_round-Exports :
      (market : Str × Str) (rep : Report)
      → Exports
          (params_gauges env snap vc market)
          Anything
          (params_round env vc (env.geth.hex_to_address vc.data_store) market rep)
  unfolding params_round scaled_float
  params_round-Exports (symbol, hex) rep =
      Exports-read _ _ (uint-Reads env snap stable _ _) λ x same.
        Exports-bind _ _ (Exports-shown x _ _ _ same) λ rep₁ _.
          Exports-bind _ _ (Exports-foreach _ _ sides (borrowing_round-Exports symbol hex) rep₁)
            λ rep₂ _.
              Exports-read _ _ (uint-Reads env snap stable _ _)
                λ y same'. Exports-shown y _ _ _ same'

  pub params_run-Exports :
      VisitsAll env
      → (cfg : Config) (now : ℕ)
      → Exports (gauges_of env snap vc cfg now params_task) NoError (params_run env vc)
  unfolding params_run
  params_run-Exports visits cfg now =
      Exports-if_post (length vc.markets == 0) (λ _. Exports-pure _ refl)
        (λ _.
          Exports-run env visits vc.markets _ _ empty_report _ _ (λ r. refl) params_round-Exports)

  side_round-Exports :
      (sym hex : Str) (side : Str × Bool) (rep : Report)
      → Exports (interest_gauges env snap vc sym hex side) Anything (
          side_round env vc
            (env.geth.hex_to_address vc.data_store)
            (env.geth.hex_to_address vc.usdt_token)
            sym
            (env.geth.hex_to_address hex)
            side
            rep)
  unfolding side_round wei_to_30
  side_round-Exports symbol hex (side, is_long) rep =
      Exports-read _ _ (uint-Reads env snap stable _ _) λ x same.
        Exports-bind _ _ (Exports-shown x _ _ _ same) λ rep₁ _.
          Exports-read _ _ (uint-Reads env snap stable _ _) λ y same'. Exports-shown y _ _ _ same'

  market_round-Exports :
      (market : Str × Str) (rep : Report)
      → Exports (oi_gauges env snap vc market) Anything (
          market_round env vc
            (env.geth.hex_to_address vc.data_store)
            (env.geth.hex_to_address vc.usdt_token)
            market
            rep)
  unfolding market_round scaled_float18
  market_round-Exports (symbol, hex) rep =
      Exports-bind _ _ (Exports-foreach _ _ sides (side_round-Exports symbol hex) rep) λ rep₁ _.
        Exports-read _ _ (uint-Reads env snap stable _ _) λ x same.
          Exports-bind _ _ (Exports-shown x _ _ _ same) λ rep₂ _.
            Exports-read _ _ (uint-Reads env snap stable _ _) λ y same'. Exports-shown y _ _ _ same'

  pub market_oi_run-Exports :
      VisitsAll env
      → (cfg : Config) (now : ℕ)
      → Exports (gauges_of env snap vc cfg now oi_task) NoError (market_oi_run env vc)
  unfolding market_oi_run
  market_oi_run-Exports visits cfg now =
      Exports-if_post (length vc.markets == 0) (λ _. Exports-pure _ refl)
        (λ _.
          Exports-run env visits vc.markets _ _ empty_report _ _ (λ r. refl) market_round-Exports)

  record_imbalance-Exports :
      (sym : Str) (long short : ℤ) (acc : Report × ℕ)
      → Exports
          (ratio_gauges env snap vc sym long short)
          Anything
          (record_imbalance env vc sym long short acc)
  unfolding record_imbalance
  record_imbalance-Exports symbol long short (rep, n) =
      rw (abs_sub-distance long short, abs_max-larger long short)
        (Exports-if_post (ltb 0 (larger long short))
          (λ _. Exports-emit_then _ _ (Exports-pure _ tt)) (λ _. Exports-pure _ tt))

  funding_round-Exports :
      (market : Str × Str) (acc : Report × ℕ)
      → Exports (funding_gauges env snap vc market) Anything (
          funding_round env vc
            (env.geth.hex_to_address vc.data_store)
            (env.geth.hex_to_address vc.usdt_token)
            market
            acc)
  unfolding funding_round scaled_signed30
  funding_round-Exports (symbol, hex) (rep, n) =
      Exports-read _ _ (int-Reads env snap stable _ _) λ x same.
        Exports-reply _ x same
          (λ long. Exports-read _ _ (int-Reads env snap stable _ _) λ y same'.
            Exports-reply _ y same'
              (λ short.
                Exports-emit_then _ _
                  (Exports-emit_then _ _ (record_imbalance-Exports symbol long short (rep, n))))
              (λ e. Exports-pure _ tt))
          (λ e. Exports-pure _ tt)

  pub funding_run-Exports :
      VisitsAll env
      → (cfg : Config) (now : ℕ)
      → Exports (gauges_of env snap vc cfg now funding_task) NoError (funding_run env vc)
  unfolding funding_run
  funding_run-Exports visits cfg now =
      Exports-if_post (length vc.markets == 0) (λ _. Exports-pure _ refl)
        (λ _.
          Exports-run env visits vc.markets _ _ (empty_report, 0) _ _ (λ r. refl)
            funding_round-Exports)
