-- ===== src/Tasks/Clean/Oracle.antt =====
-- The findings of `oracle_config`.
use hertz_reconciler.Prelude.{◌↔◌, refl}
use hertz_reconciler.Chain.Keys.{max_oracle_price_age_root}
use hertz_reconciler.Chain.Client.Snapshot.{Snapshot, IsStable, uint_at, uint-Always}
use hertz_reconciler.Config.{VersionConfig}
use hertz_reconciler.Runtime.{Env}
use hertz_reconciler.Runtime.Total.{Total, Total-bind_post, Total-pure}
use hertz_reconciler.Tasks.Oracle.{oracle_run}
use hertz_reconciler.Tasks.Clean.Probe.{IsRead, IsClean, Checks-export, Checks-run}

module _ {F W : Type 0} (env : Env F W) (snap : Snapshot) where
  -- The bound on the age was read.
  abbrev pub CleanOracle : VersionConfig → Type 0
  CleanOracle vc = IsRead (
      uint_at env snap (env.geth.hex_to_address vc.data_store) (max_oracle_price_age_root env.geth))

  pub oracle_run-Clean :
      IsStable env snap
      → (vc : VersionConfig)
      → Total (λ result. IsClean (result.0) ↔ CleanOracle vc) (oracle_run env vc)
  unfolding oracle_run
  oracle_run-Clean stable vc =
      let ds = env.geth.hex_to_address vc.data_store in
      Total-bind_post _ _ (uint-Always env snap stable ds _) λ x e.
        Checks-run {Clean = IsClean} {Before = Unit} _ _ _ tt (λ rep. refl)
          (Checks-export x _ _ _ e (λ v. ((λ z. tt), (λ z. refl))) (λ t. Total-pure _ (λ z. cc)))
