-- ===== src/Tasks/Clean/Funding.antt =====
-- The findings of `funding`.
use hertz_reconciler.Prelude.{ℕ, ◌↔◌, refl, Bool, true, false, Str, All, length, ltb, ◌==◌}
use hertz_reconciler.Prelude.Int.{ℤ}
use hertz_reconciler.Chain.Geth.{Address}
use hertz_reconciler.Chain.Keys.{funding_fee_amount_per_size_key}
use hertz_reconciler.Chain.Client.Snapshot.{Snapshot, IsStable, int_at, int-Always}
use hertz_reconciler.Config.{VersionConfig}
use hertz_reconciler.Runtime.{Env, emit}
use hertz_reconciler.Runtime.Total.{
  Total, Total-bind, Total-bind_post, Total-emit, Total-pure, Total-if, Total-if_post,
}
use hertz_reconciler.Reconciler.{Report, empty_report}
use hertz_reconciler.Tasks.Funding.{abs_max, record_imbalance, funding_round, funding_run}
use hertz_reconciler.Tasks.Clean.Loop.{VisitsAll, Total-range, All-empty}
use hertz_reconciler.Tasks.Clean.Probe.{
  IsRead, IsClean, IsClean-add_finding, Checks, Checks-read, Checks-reply, Checks-last,
  Checks-range, Checks-run, unchanged,
}

abbrev CleanSoFar : Report × ℕ → Type 0
CleanSoFar acc = IsClean (acc.0)

module _ {F W : Type 0} (env : Env F W) (snap : Snapshot) where
  abbrev HasFee : Address → Address → Address → Bool → Type 0
  HasFee ds usdt market is_long =
      IsRead (int_at env snap ds (funding_fee_amount_per_size_key env.geth market usdt is_long))

  -- The funding fees of both sides were read.
  abbrev pub CleanSides : VersionConfig → Str → Type 0
  CleanSides vc hex =
      let ds = env.geth.hex_to_address vc.data_store in
      let usdt = env.geth.hex_to_address vc.usdt_token in
      let market = env.geth.hex_to_address hex in
      HasFee ds usdt market true × HasFee ds usdt market false

  abbrev pub CleanFunding : VersionConfig → Type 0
  CleanFunding vc = All (λ market. CleanSides vc (market.1)) vc.markets

module _ {F W : Type 0} (env : Env F W) (snap : Snapshot) (stable : IsStable env snap)
    (vc : VersionConfig) where
  record_imbalance-Clean :
      (symbol : Str) (long short : ℤ) (rep : Report) (n : ℕ)
      → Total
          (λ acc. CleanSoFar acc ↔ IsClean rep)
          (record_imbalance env vc symbol long short (rep, n))
  unfolding record_imbalance
  record_imbalance-Clean symbol long short rep n =
      Total-if (ltb 0 (abs_max long short))
        (Total-bind (emit _) _ (Total-emit _) λ _. Total-pure _ unchanged) (Total-pure _ unchanged)

  funding_round-Checks :
      (market : Str × Str) (acc : Report × ℕ)
      → Checks CleanSoFar (CleanSoFar acc) (CleanSides env snap vc (market.1)) (
          funding_round env vc
            (env.geth.hex_to_address vc.data_store)
            (env.geth.hex_to_address vc.usdt_token)
            market
            acc)
  unfolding funding_round
  funding_round-Checks (symbol, hex) (rep, n) =
      Checks-read _ _ (int-Always env snap stable _ _) λ x e.
        Checks-reply x e
          (λ long. Checks-read _ _ (int-Always env snap stable _ _) λ y e'.
            Checks-last y e'
              (λ short. Total-bind (emit _) _ (Total-emit _) λ _.
                Total-bind (emit _) _ (Total-emit _)
                  λ _. record_imbalance-Clean symbol long short rep n)
              (λ t. Total-pure _ (IsClean-add_finding _ rep)))
          (λ t. Total-pure _ (IsClean-add_finding _ rep))

  pub funding_run-Clean :
      VisitsAll env
      → Total (λ result. IsClean (result.0) ↔ CleanFunding env snap vc) (funding_run env vc)
  unfolding funding_run
  funding_run-Clean visits =
      let clean = λ (market : Str × Str). CleanSides env snap vc (market.1) in
      Total-if_post (length vc.markets == 0)
        (λ e. Total-pure _ ((λ z. All-empty clean vc.markets e), (λ c. refl)))
        (λ e. Total-bind_post _ _ (Total-range env visits vc.markets) λ order p.
          Checks-run _ _ _ refl (λ rep. refl)
            (Checks-range _ clean p funding_round-Checks (empty_report, 0)))
