-- ===== src/Tasks/Clean/MarketOi.antt =====
-- The findings of `market_oi`.
use hertz_reconciler.Prelude.{◌↔◌, refl, Bool, Str, All, length, ◌==◌}
use hertz_reconciler.Chain.Geth.{Address}
use hertz_reconciler.Chain.Keys.{
  open_interest_key, max_open_interest_key, pool_amount_key, max_pool_amount_key,
}
use hertz_reconciler.Chain.Client.Snapshot.{Snapshot, IsStable, uint_at, uint-Always}
use hertz_reconciler.Config.{VersionConfig}
use hertz_reconciler.Runtime.{Env}
use hertz_reconciler.Runtime.Total.{Total, Total-bind_post, Total-pure, Total-if_post}
use hertz_reconciler.Reconciler.{Report, empty_report}
use hertz_reconciler.Tasks.Params.{sides}
use hertz_reconciler.Tasks.MarketOi.{side_round, market_round, market_oi_run}
use hertz_reconciler.Tasks.Clean.Loop.{VisitsAll, Total-range, All-empty}
use hertz_reconciler.Tasks.Clean.Probe.{
  IsRead, IsClean, IsClean-add_finding, Checks, Checks-then, Checks-read, Checks-export,
  Checks-foreach, Checks-range, Checks-run, unchanged,
}

module _ {F W : Type 0} (env : Env F W) (snap : Snapshot) where
  -- The open interest of a side and its maximum were read.
  abbrev HasSide : Address → Address → Address → Bool → Type 0
  HasSide ds usdt market is_long =
      IsRead (uint_at env snap ds (open_interest_key env.geth market usdt is_long))
      × IsRead (uint_at env snap ds (max_open_interest_key env.geth market is_long))

  -- So were the amount in the pool and its maximum.
  abbrev pub CleanMarketOi : Address → Address → Address → Type 0
  CleanMarketOi ds usdt market =
      All (λ side. HasSide ds usdt market side.1) sides
      × (IsRead (uint_at env snap ds (pool_amount_key env.geth market usdt))
          × IsRead (uint_at env snap ds (max_pool_amount_key env.geth market usdt)))

  abbrev pub CleanOi : VersionConfig → Type 0
  CleanOi vc =
      All
        (λ market.
          CleanMarketOi (env.geth.hex_to_address vc.data_store)
            (env.geth.hex_to_address vc.usdt_token) (env.geth.hex_to_address (market.1)))
        vc.markets

module _ {F W : Type 0} (env : Env F W) (snap : Snapshot) (stable : IsStable env snap)
    (vc : VersionConfig) where
  side_round-Checks :
      (ds usdt : Address) (symbol : Str) (market : Address) (side : Str × Bool) (rep : Report)
      → Checks IsClean
          (IsClean rep)
          (HasSide env snap ds usdt market (side.1))
          (side_round env vc ds usdt symbol market side rep)
  unfolding side_round
  side_round-Checks ds usdt symbol market (label, is_long) rep =
      Checks-read _ _ (uint-Always env snap stable ds _) λ x e.
        Checks-then _ _
          (Checks-export x _ _ _ e (λ v. unchanged) (λ t. Total-pure _ (IsClean-add_finding _ rep)))
          λ rep₁. Checks-read _ _ (uint-Always env snap stable ds _) λ y e'.
            Checks-export y _ _ _ e' (λ v. unchanged)
              (λ t. Total-pure _ (IsClean-add_finding _ rep₁))

  market_round-Checks :
      (ds usdt : Address) (market : Str × Str) (rep : Report)
      → Checks IsClean
          (IsClean rep)
          (CleanMarketOi env snap ds usdt (env.geth.hex_to_address (market.1)))
          (market_round env vc ds usdt market rep)
  unfolding market_round
  market_round-Checks ds usdt (symbol, hex) rep =
      Checks-then _ _
        (Checks-foreach _ _ sides (side_round-Checks ds usdt symbol (env.geth.hex_to_address hex))
          rep)
        λ rep₁. Checks-read _ _ (uint-Always env snap stable ds _) λ x e.
          Checks-then _ _
            (Checks-export x _ _ _ e (λ v. unchanged)
              (λ t. Total-pure _ (IsClean-add_finding _ rep₁)))
            λ rep₂. Checks-read _ _ (uint-Always env snap stable ds _) λ y e'.
              Checks-export y _ _ _ e' (λ v. unchanged)
                (λ t. Total-pure _ (IsClean-add_finding _ rep₂))

  pub market_oi_run-Clean :
      VisitsAll env
      → Total (λ result. IsClean (result.0) ↔ CleanOi env snap vc) (market_oi_run env vc)
  unfolding market_oi_run
  market_oi_run-Clean visits =
      let ds = env.geth.hex_to_address vc.data_store in
      let usdt = env.geth.hex_to_address vc.usdt_token in
      let clean = λ (market : Str × Str).
        CleanMarketOi env snap ds usdt (env.geth.hex_to_address (market.1)) in
      Total-if_post (length vc.markets == 0)
        (λ e. Total-pure _ ((λ z. All-empty clean vc.markets e), (λ c. refl)))
        (λ e. Total-bind_post _ _ (Total-range env visits vc.markets) λ order p.
          Checks-run _ _ _ refl (λ rep. refl)
            (Checks-range (market_round env vc ds usdt) clean p (market_round-Checks ds usdt)
              empty_report))
