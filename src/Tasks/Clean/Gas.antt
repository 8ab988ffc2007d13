-- ===== src/Tasks/Clean/Gas.antt =====
-- The findings of `keeper_gas`.
use hertz_reconciler.Prelude.{
  ℕ, ◌≡◌, ◌↔◌, refl, true, false, Option, none, some, Str, str, str_eq, All,
}
use hertz_reconciler.Chain.Client.Snapshot.{
  Snapshot, IsStable, erc20_at, native-Always, erc20-Always,
}
use hertz_reconciler.Config.{VersionConfig, StrMap, lookup, is_empty}
use hertz_reconciler.Runtime.{Env}
use hertz_reconciler.Runtime.Total.{Total, Total-bind_post, Total-pure, Total-if_post, Total-weaken}
use hertz_reconciler.Reconciler.{Report, empty_report}
use hertz_reconciler.Tasks.Gas.{keeper_round, keepers_part, distributor_part, gas_run}
use hertz_reconciler.Tasks.Clean.Loop.{VisitsAll, Total-range}
use hertz_reconciler.Tasks.Clean.Probe.{
  IsRead, IsClean, IsClean-add_finding, Checks, Checks-read, Checks-export, Checks-range,
  Checks-end, unchanged,
}

abbrev CleanSoFar : Report × ℕ → Type 0
CleanSoFar acc = IsClean (acc.0)

module _ {F W : Type 0} (env : Env F W) (snap : Snapshot) where
  abbrev HasBalance : Str × Str → Type 0
  HasBalance keeper = IsRead (snap.balance_answer (env.geth.hex_to_address (keeper.1)))

  -- The version is not the first one, or the balance of every keeper was read.
  abbrev CleanKeepers : StrMap → VersionConfig → Type 0
  CleanKeepers keepers vc = str_eq vc.name (str "v1") ≡ true → All HasBalance keepers

  -- There is no FeeDistributorVault, or no token, or the balance was read.
  abbrev CleanDistributor : VersionConfig → Option Str → Type 0
  CleanDistributor vc none = Unit
  CleanDistributor vc (some hex) =
      is_empty vc.usdt_token ≡ false
      → IsRead
          (erc20_at env snap (env.geth.hex_to_address vc.usdt_token) (env.geth.hex_to_address hex))

  abbrev pub CleanGas : StrMap → VersionConfig → Type 0
  CleanGas keepers vc =
      CleanKeepers keepers vc × CleanDistributor vc (lookup (str "FeeDistributorVault") vc.vaults)

module _ {F W : Type 0} (env : Env F W) (snap : Snapshot) (stable : IsStable env snap) where
  keeper_round-Checks :
      (keeper : Str × Str) (acc : Report × ℕ)
      → Checks CleanSoFar
          (CleanSoFar acc)
          (HasBalance env snap keeper)
          (keeper_round env keeper acc)
  unfolding keeper_round
  keeper_round-Checks (label, hex) (rep, total) =
      Checks-read _ _ (native-Always env snap stable _) λ x e.
        Checks-export x _ _ _ e (λ v. unchanged) (λ t. Total-pure _ (IsClean-add_finding _ rep))

  keepers_part-Checks :
      VisitsAll env
      → (keepers : StrMap) (vc : VersionConfig) (rep : Report)
      → Checks IsClean
          (IsClean rep)
          (CleanKeepers env snap keepers vc)
          (keepers_part env keepers vc rep)
  unfolding keepers_part
  keepers_part-Checks visits keepers vc rep = record {
    total =
        Total-if_post (str_eq vc.name (str "v1"))
          (λ first. Total-bind_post _ _ (Total-range env visits keepers) λ order p.
            Total-bind_post _ _
              ((Checks-range (keeper_round env) (HasBalance env snap) p keeper_round-Checks
                (rep, 0)).total)
              λ acc e.
                Total-pure _
                  ((λ z. let (b, c) = e.0 z in (b, (λ _. c))), (λ (b, c). e.1 (b, c first))))
          (λ other. Total-pure _ ((λ z. (z, (λ first. cc))), (λ (b, c). b)));
  }

  distributor_part-Checks :
      (vc : VersionConfig) (fd : Option Str) (rep : Report)
      → Checks IsClean
          (IsClean rep)
          (CleanDistributor env snap vc fd)
          (distributor_part env vc fd rep)
  unfolding distributor_part
  distributor_part-Checks vc none rep = record { total = Total-pure _ ((λ z. (z, tt)), (λ z. z.0)) }
  distributor_part-Checks vc (some hex) rep = record {
    total =
        Total-if_post (is_empty vc.usdt_token)
          (λ empty. Total-pure _ ((λ z. (z, (λ some_token. cc))), (λ z. z.0)))
          (λ token.
            Total-weaken
              (λ r e. ((λ z. let (b, c) = e.0 z in (b, (λ _. c))), (λ (b, c). e.1 (b, c token))))
              ((Checks-read _ _ (erc20-Always env snap stable _ _) λ x e.
                Checks-export x _ _ _ e (λ v. unchanged)
                  (λ t. Total-pure _ (IsClean-add_finding _ rep))).total));
  }

  pub gas_run-Clean :
      VisitsAll env
      → (keepers : StrMap) (vc : VersionConfig)
      → Total (λ result. IsClean (result.0) ↔ CleanGas env snap keepers vc) (gas_run env keepers vc)
  unfolding gas_run
  gas_run-Clean visits keepers vc =
      Total-bind_post _ _ ((keepers_part-Checks visits keepers vc empty_report).total) λ rep e.
        Total-weaken
          (λ result e'.
            ((λ z. let (b, c) = e'.0 z in ((e.0 b).1, c)), (λ (b, c). e'.1 (e.1 (refl, b), c))))
          (Checks-end _ _ _ (λ r. refl)
            (distributor_part-Checks vc (lookup (str "FeeDistributorVault") vc.vaults) rep))
