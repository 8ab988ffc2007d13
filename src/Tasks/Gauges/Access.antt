-- ===== src/Tasks/Gauges/Access.antt =====
-- The series of `vault_balances`, `roles` and `timelock`.
use hertz_reconciler.Prelude.{ℕ, refl, Str, str, [], ◌∷◌, length, ◌==◌}
use hertz_reconciler.Chain.Client.Snapshot.{Snapshot, IsStable, HasArrays}
use hertz_reconciler.Chain.Client.Silent.{
  native-Reads, erc20-Reads, role_count-Reads, members-Reads, delay-Reads,
}
use hertz_reconciler.Config.{VersionConfig, Config, is_empty}
use hertz_reconciler.Runtime.{Env}
use hertz_reconciler.Runtime.Total.{Anything}
use hertz_reconciler.Runtime.Exports.{
  Exports, Exports-pure, Exports-read, Exports-emit_then, Exports-reply, Exports-if_post,
  Exports-foreach,
}
use hertz_reconciler.Reconciler.{Report, NoError, empty_report}
use hertz_reconciler.Tasks.Vault.{vault_round, vault_run}
use hertz_reconciler.Tasks.Role.{role_round, role_run}
use hertz_reconciler.Tasks.Timelock.{timelock_round, timelock_run}
use hertz_reconciler.Tasks.Clean.Loop.{VisitsAll}
use hertz_reconciler.Tasks.Clean.Order.{vaults_task, roles_task, timelock_task}
use hertz_reconciler.Tasks.Gauges.Entries.{vault_gauges, role_gauges, delay_gauges}
use hertz_reconciler.Tasks.Gauges.Expected.{gauges_of}
use hertz_reconciler.Tasks.Gauges.Rules.{
  Exports-if, Exports-ignore, Exports-shown, Exports-end, Exports-run,
}

module _ {F W : Type 0} (env : Env F W) (snap : Snapshot) (stable : IsStable env snap)
    (vc : VersionConfig) where
  vault_round-Exports :
      (vault : Str × Str) (rep : Report)
      → Exports
          (vault_gauges env snap vc vault)
          Anything
          (vault_round env vc (env.geth.hex_to_address vc.usdt_token) vault rep)
  unfolding vault_round
  vault_round-Exports (name, hex) rep =
      Exports-read _ _ (native-Reads env snap stable _) λ native same.
        Exports-reply _ native same
          (λ v. Exports-emit_then _ _ (
            Exports-read _ _ (erc20-Reads env snap stable _ _)
              λ usdt same'. Exports-shown usdt _ _ _ same'))
          (λ e. Exports-pure _ tt)

  pub vault_run-Exports :
      VisitsAll env
      → (cfg : Config) (now : ℕ)
      → Exports (gauges_of env snap vc cfg now vaults_task) NoError (vault_run env vc)
  unfolding vault_run
  vault_run-Exports visits cfg now =
      Exports-if_post (length vc.vaults == 0) (λ _. Exports-pure _ refl)
        (λ _. Exports-run env visits vc.vaults _ _ empty_report _ _ (λ r. refl) vault_round-Exports)

  role_round-Exports :
      HasArrays env snap
      → (name : Str) (rep : Report)
      → Exports
          (role_gauges env snap vc name)
          Anything
          (role_round env vc (env.geth.hex_to_address vc.role_store) name rep)
  unfolding role_round
  role_round-Exports arrays name rep =
      Exports-read _ _ (role_count-Reads env snap stable _ _) λ count same.
        Exports-reply _ count same
          (λ c. Exports-emit_then _ _ (
            Exports-if (c == 0) (Exports-pure _ tt) (
              Exports-read _ _ (members-Reads env snap stable arrays _ _ _ _) λ members same'.
                Exports-ignore members (λ m. Exports-pure _ tt) (λ e. Exports-pure _ tt))))
          (λ e. Exports-pure _ tt)

  pub role_run-Exports :
      HasArrays env snap
      → (cfg : Config) (now : ℕ)
      → Exports (gauges_of env snap vc cfg now roles_task) NoError (role_run env cfg.role_names vc)
  unfolding role_run
  role_run-Exports arrays cfg now =
      Exports-end _ _ _ (λ r. refl)
        (Exports-foreach _ _ cfg.role_names (role_round-Exports arrays) empty_report)

  timelock_round-Exports :
      (entry : Str × Str) (rep : Report)
      → Exports (delay_gauges env snap vc entry) Anything (timelock_round env vc entry rep)
  unfolding timelock_round
  timelock_round-Exports (label, hex) rep =
      Exports-if_post (is_empty hex) (λ _. Exports-pure rep tt)
        (λ _.
          Exports-read _ _ (delay-Reads env snap stable _)
            λ delay same. Exports-shown delay _ _ _ same)

  pub timelock_run-Exports :
      VisitsAll env
      → (cfg : Config) (now : ℕ)
      → Exports (gauges_of env snap vc cfg now timelock_task) NoError (timelock_run env vc)
  unfolding timelock_run
  timelock_run-Exports visits cfg now =
      Exports-run env visits
        ((str "gov", vc.gov_timelock) ∷ (str "config", vc.config_timelock) ∷ []) _ _ empty_report _
        _ (λ r. refl) timelock_round-Exports
