-- ===== src/Tasks/Clean/Params.antt =====
-- The findings of `market_params`.
use hertz_reconciler.Prelude.{◌↔◌, refl, Bool, Str, All, length, ◌==◌}
use hertz_reconciler.Chain.Geth.{Address}
use hertz_reconciler.Chain.Keys.{
  min_collateral_factor_key, borrowing_factor_key, liquidation_fee_factor_key,
}
use hertz_reconciler.Chain.Client.Snapshot.{Snapshot, IsStable, uint_at, uint-Always}
use hertz_reconciler.Config.{VersionConfig}
use hertz_reconciler.Runtime.{Env}
use hertz_reconciler.Runtime.Total.{Total, Total-bind_post, Total-pure, Total-if_post}
use hertz_reconciler.Reconciler.{Report, empty_report}
use hertz_reconciler.Tasks.Params.{sides, borrowing_round, params_round, params_run}
use hertz_reconciler.Tasks.Clean.Loop.{VisitsAll, Total-range, All-empty}
use hertz_reconciler.Tasks.Clean.Probe.{
  IsRead, IsClean, IsClean-add_finding, Checks, Checks-then, Checks-read, Checks-export,
  Checks-foreach, Checks-range, Checks-run, unchanged,
}

module _ {F W : Type 0} (env : Env F W) (snap : Snapshot) where
  abbrev HasSides : Address → Address → Type 0
  HasSides ds market =
      All (λ side. IsRead (uint_at env snap ds (borrowing_factor_key env.geth market side.1))) sides

  abbrev HasCollateral : Address → Address → Type 0
  HasCollateral ds market = IsRead (uint_at env snap ds (min_collateral_factor_key env.geth market))

  abbrev HasLiquidation : Address → Address → Type 0
  HasLiquidation ds market =
      IsRead (uint_at env snap ds (liquidation_fee_factor_key env.geth market))

  -- The minimum of the collateral, the borrowing factor of each side and the liquidation fee of a
  -- market were read.
  abbrev pub CleanMarket : Address → Address → Type 0
  CleanMarket ds market = HasCollateral ds market × (HasSides ds market × HasLiquidation ds market)

  abbrev pub CleanParams : VersionConfig → Type 0
  CleanParams vc =
      All
        (λ market.
          CleanMarket (env.geth.hex_to_address vc.data_store) (env.geth.hex_to_address (market.1)))
        vc.markets

module _ {F W : Type 0} (env : Env F W) (snap : Snapshot) (stable : IsStable env snap)
    (vc : VersionConfig) where
  borrowing_round-Checks :
      (ds : Address) (symbol : Str) (market : Address) (side : Str × Bool) (rep : Report)
      → Checks IsClean
          (IsClean rep)
          (IsRead (uint_at env snap ds (borrowing_factor_key env.geth market side.1)))
          (borrowing_round env vc ds symbol market side rep)
  unfolding borrowing_round
  borrowing_round-Checks ds symbol market (label, is_long) rep =
      Checks-read _ _ (uint-Always env snap stable ds _) λ x e.
        Checks-export x _ _ _ e (λ v. unchanged) (λ t. Total-pure _ (IsClean-add_finding _ rep))

  params_round-Checks :
      (ds : Address) (market : Str × Str) (rep : Report)
      → Checks IsClean
          (IsClean rep)
          (CleanMarket env snap ds (env.geth.hex_to_address (market.1)))
          (params_round env vc ds market rep)
  unfolding params_round
  params_round-Checks ds (symbol, hex) rep =
      Checks-read _ _ (uint-Always env snap stable ds _) λ x e.
        Checks-then _ _
          (Checks-export x _ _ _ e (λ v. unchanged) (λ t. Total-pure _ (IsClean-add_finding _ rep)))
          λ rep₁.
            Checks-then _ _
              (Checks-foreach _ _ sides
                (borrowing_round-Checks ds symbol (env.geth.hex_to_address hex)) rep₁)
              λ rep₂. Checks-read _ _ (uint-Always env snap stable ds _) λ y e'.
                Checks-export y _ _ _ e' (λ v. unchanged)
                  (λ t. Total-pure _ (IsClean-add_finding _ rep₂))

  pub params_run-Clean :
      VisitsAll env
      → Total (λ result. IsClean (result.0) ↔ CleanParams env snap vc) (params_run env vc)
  unfolding params_run
  params_run-Clean visits =
      let ds = env.geth.hex_to_address vc.data_store in
      let clean =
        λ (market : Str × Str). CleanMarket env snap ds (env.geth.hex_to_address (market.1)) in
      Total-if_post (length vc.markets == 0)
        (λ e. Total-pure _ ((λ z. All-empty clean vc.markets e), (λ c. refl)))
        (λ e. Total-bind_post _ _ (Total-range env visits vc.markets) λ order p.
          Checks-run _ _ _ refl (λ rep. refl)
            (Checks-range (params_round env vc ds) clean p (params_round-Checks ds) empty_report))
