-- ===== src/Tasks/Gauges/Feeds.antt =====
-- The series of `keeper_gas`, `oracle_config` and `chainlink`.
use hertz_reconciler.Prelude.{
  ℕ, ◌≡◌, refl, ap, Option, none, some, Str, str, str_eq, [], ◌∷◌, gather, if◌then◌else◌,
}
use hertz_reconciler.Chain.Client.Snapshot.{Snapshot, IsStable}
use hertz_reconciler.Chain.Client.Silent.{
  Reads, native-Reads, erc20-Reads, uint-Reads, updated-Reads,
}
use hertz_reconciler.Config.{VersionConfig, Config, lookup, is_empty}
use hertz_reconciler.Metrics.{set_to, chainlink_feed_age}
use hertz_reconciler.Runtime.{Env, ask}
use hertz_reconciler.Runtime.Keeps.{Keeps-ask}
use hertz_reconciler.Runtime.Total.{Anything}
use hertz_reconciler.Runtime.Exports.{
  Exports-emit_as, Exports, Exports-silent, Exports-pure, Exports-bind, Exports-read, Exports-reply,
  Exports-if_post, Exports-range, Exports-last,
}
use hertz_reconciler.Reconciler.{Report, NoError, empty_report}
use hertz_reconciler.Tasks.Vault.{wei_to_ether}
use hertz_reconciler.Tasks.Fee.{scaled_float18}
use hertz_reconciler.Tasks.Gas.{keeper_round, keepers_part, distributor_part, gas_run}
use hertz_reconciler.Tasks.Oracle.{oracle_run}
use hertz_reconciler.Tasks.Chainlink.{age_of, feed_round, chainlink_run, default_bsc_testnet_feeds}
use hertz_reconciler.Tasks.Lines.Chainlink.{age_of-minus}
use hertz_reconciler.Tasks.Clean.Loop.{VisitsAll, Total-range}
use hertz_reconciler.Tasks.Clean.Order.{gas_task, oracle_task, feeds_task}
use hertz_reconciler.Tasks.Gauges.Entries.{keeper_gauges, distributor_gauges, feed_gauges}
use hertz_reconciler.Tasks.Gauges.Expected.{gauges_of}
use hertz_reconciler.Tasks.Gauges.Rules.{Exports-shown, Exports-end, Exports-run}

-- The clock reads `now` during the run.
abbrev pub ReadsClock : {F W : Type 0} → Env F W → ℕ → Type 0
ReadsClock {W} env now = (w : W) → (env.unix_now w).0 ≡ now

module _ {F W : Type 0} (env : Env F W) (snap : Snapshot) (stable : IsStable env snap)
    (vc : VersionConfig) where
  keeper_round-Exports :
      (keeper : Str × Str) (acc : Report × ℕ)
      → Exports (keeper_gauges env snap vc keeper) Anything (keeper_round env keeper acc)
  unfolding keeper_round wei_to_ether
  keeper_round-Exports (label, hex) (rep, n) =
      Exports-read _ _ (native-Reads env snap stable _) λ x same. Exports-shown x _ _ _ same

  keepers_part-Exports :
      VisitsAll env
      → (cfg : Config) (rep : Report)
      → Exports
          (if str_eq vc.name (str "v1") then gather (keeper_gauges env snap vc) cfg.keepers else [])
          Anything
          (keepers_part env cfg.keepers vc rep)
  unfolding keepers_part
  keepers_part-Exports visits cfg rep =
      Exports-if_post (str_eq vc.name (str "v1"))
        (λ _.
          Exports-read _ _ (Exports-silent _ (Total-range env visits cfg.keepers) (Keeps-ask _))
            λ order p.
              Exports-last _ _ (Exports-range _ _ p keeper_round-Exports (rep, 0))
                λ acc _. Exports-pure _ tt)
        (λ _. Exports-pure rep tt)

  distributor_part-Exports :
      (fd : Option Str) (rep : Report)
      → Exports (distributor_gauges env snap vc fd) Anything (distributor_part env vc fd rep)
  unfolding distributor_part scaled_float18
  distributor_part-Exports none rep = Exports-pure rep tt
  distributor_part-Exports (some hex) rep =
      Exports-if_post (is_empty vc.usdt_token) (λ _. Exports-pure rep tt)
        (λ _.
          Exports-read _ _ (erc20-Reads env snap stable _ _) λ x same. Exports-shown x _ _ _ same)

  pub gas_run-Exports :
      VisitsAll env
      → (cfg : Config) (now : ℕ)
      → Exports (gauges_of env snap vc cfg now gas_task) NoError (gas_run env cfg.keepers vc)
  unfolding gas_run
  gas_run-Exports visits cfg now =
      Exports-bind _ _ (keepers_part-Exports visits cfg empty_report) λ rep _.
        Exports-end _ _ _ (λ r. refl)
          (distributor_part-Exports (lookup (str "FeeDistributorVault") vc.vaults) rep)

  pub oracle_run-Exports :
      (cfg : Config) (now : ℕ)
      → Exports (gauges_of env snap vc cfg now oracle_task) NoError (oracle_run env vc)
  unfolding oracle_run
  oracle_run-Exports cfg now =
      Exports-read _ _ (uint-Reads env snap stable _ _)
        λ x same. Exports-end _ _ _ (λ r. refl) (Exports-shown x _ _ _ same)

  feed_round-Exports :
      (now : ℕ) (feed : Str × Str) (acc : Report × ℕ)
      → Exports (feed_gauges env snap vc now feed) Anything (feed_round env now feed acc)
  unfolding feed_round age_of
  feed_round-Exports now (label, hex) (rep, n) =
      Exports-read _ _ (updated-Reads env snap stable _) λ x same.
        Exports-reply _ x same
          (λ updated.
            Exports-emit_as
              (ap (λ age. set_to chainlink_feed_age (label ∷ []) age)
                (age_of-minus env now updated))
              (Exports-pure _ tt))
          (λ e. Exports-pure _ tt)

  clock-Reads : (now : ℕ) → ReadsClock env now → Reads {F = F} (ask env.unix_now) now
  unfolding ask
  clock-Reads now h =
      Exports-silent _ (record { at = λ s. ((env.unix_now s.world).0, _, refl, h s.world) })
        (Keeps-ask _)

  pub chainlink_run-Exports :
      VisitsAll env
      → (cfg : Config) (now : ℕ) → ReadsClock env now
      → Exports (gauges_of env snap vc cfg now feeds_task) NoError (chainlink_run env vc)
  unfolding chainlink_run
  chainlink_run-Exports visits cfg now clock =
      Exports-if_post (str_eq vc.name (str "v1"))
        (λ _. Exports-read _ _ (clock-Reads now clock) λ now' same. rw same (
          Exports-run env visits default_bsc_testnet_feeds _ _ (empty_report, 0) _ _ (λ r. refl)
            (feed_round-Exports now)))
        (λ _. Exports-pure _ refl)
