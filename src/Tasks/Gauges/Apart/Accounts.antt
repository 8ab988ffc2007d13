-- ===== src/Tasks/Gauges/Apart/Accounts.antt =====
-- The tasks on the accounts set different gauges: `vault_balances`, `roles`, `timelock`,
-- `keeper_gas` and `features`.
use hertz_reconciler.Prelude.{
  ℕ, ◌≡◌, refl, sym, true, false, Option, none, some, [], ◌∷◌, ◌++◌, Str, str, str_eq, str_eq_sound,
  length, map, gather, ◌==◌,
}
use hertz_reconciler.Prelude.Counts.{All-rounds, All-weaken}
use hertz_reconciler.Chain.Client.Snapshot.{Snapshot}
use hertz_reconciler.Config.{VersionConfig, Config, lookup, is_empty}
use hertz_reconciler.Metrics.{series_name, vault_balance_native, keeper_balance_native}
use hertz_reconciler.Metrics.Apart.{
  Differing, Apart, Apart-nil, Apart-append, Apart-stamp, Apart-if, Apart-gather, all_differ,
  none_equals, all_differ_sound,
}
use hertz_reconciler.Runtime.{Env}
use hertz_reconciler.Tasks.Features.{default_feature_names}
use hertz_reconciler.Tasks.Clean.Order.{
  vaults_task, roles_task, timelock_task, gas_task, features_task,
}
use hertz_reconciler.Tasks.Gauges.Entries.{
  vault_gauges, delay_gauges, keeper_gauges, distributor_gauges, feature_gauges, handler_gauges,
}
use hertz_reconciler.Tasks.Gauges.Expected.{gauges_of}
use hertz_reconciler.Tasks.Gauges.Places.{
  entry, part, is_metric, key_of, IsVersionNamed, Of, Apart-one, Apart-on_ok, Apart-shown,
}

module _ {F W : Type 0} (env : Env F W) (snap : Snapshot) (vc : VersionConfig) where
  vault_gauges-Apart :
      (vault : Str × Str)
      → Apart (λ g. Of vc vaults_task g × (entry g ≡ key_of vault)) (vault_gauges env snap vc vault)
  unfolding series_name str_eq str
  vault_gauges-Apart (name, hex) = Apart-on_ok _ _ λ native.
      Apart-append (is_metric vault_balance_native) (_ ∷ []) _
        (Apart-one _ _ _ ((((tt, refl), refl), refl), refl) refl)
        (Apart-shown _ _ _ _ ((((tt, refl), refl), refl), refl) refl)

  pub vaults-Apart :
      (cfg : Config) (now : ℕ)
      → IsVersionNamed vc
      → Apart (Of vc vaults_task) (gauges_of env snap vc cfg now vaults_task)
  vaults-Apart cfg now named =
      Apart-if (length vc.vaults == 0) (λ _. Apart-nil)
        (λ _. Apart-stamp _ _ (
          Apart-gather _ entry key_of _ vc.vaults named.vaults
            (All-rounds vault_gauges-Apart vc.vaults)))

  pub roles-Apart :
      (cfg : Config) (now : ℕ)
      → Differing (map (λ name. name) cfg.role_names)
      → Apart (Of vc roles_task) (gauges_of env snap vc cfg now roles_task)
  roles-Apart cfg now named = Apart-stamp _ _ (
      Apart-gather _ entry (λ name. name) _ cfg.role_names named
        (All-rounds (λ name. Apart-shown _ _ _ _ (((tt, refl), refl), refl) refl) cfg.role_names))

  delay_gauges-Apart :
      (timelock : Str × Str)
      → Apart
          (λ g. Of vc timelock_task g × (entry g ≡ key_of timelock))
          (delay_gauges env snap vc timelock)
  delay_gauges-Apart (label, hex) =
      Apart-if (is_empty hex) (λ _. Apart-nil)
        (λ _. Apart-shown _ _ _ _ (((tt, refl), refl), refl) refl)

  pub timelock-Apart :
      (cfg : Config) (now : ℕ)
      → Apart (Of vc timelock_task) (gauges_of env snap vc cfg now timelock_task)
  unfolding all_differ none_equals str_eq str
  timelock-Apart cfg now =
      let timelocks = (str "gov", vc.gov_timelock) ∷ (str "config", vc.config_timelock) ∷ [] in
      Apart-stamp _ _ (
        Apart-gather _ entry key_of (delay_gauges env snap vc) timelocks
          (all_differ_sound (map key_of timelocks) refl) (All-rounds delay_gauges-Apart timelocks))

  distributor-Apart :
      (fd : Option Str)
      → Apart
          (λ g. Of vc gas_task g × (is_metric keeper_balance_native g ≡ false))
          (distributor_gauges env snap vc fd)
  unfolding series_name str_eq str
  distributor-Apart none = Apart-nil
  distributor-Apart (some hex) =
      Apart-if (is_empty vc.usdt_token) (λ _. Apart-nil)
        (λ _. Apart-shown _ _ _ _ (((tt, refl), refl), refl) refl)

  keepers-Apart :
      (cfg : Config)
      → Differing (map key_of cfg.keepers)
      → vc.name ≡ str "v1"
      → Apart
          (λ g. Of vc gas_task g × (is_metric keeper_balance_native g ≡ true))
          (gather (keeper_gauges env snap vc) cfg.keepers)
  unfolding series_name str_eq str
  keepers-Apart cfg named first = Apart-gather _ entry key_of _ cfg.keepers named (
      All-rounds (λ (label, hex). Apart-shown _ _ _ _ ((((tt, sym first), refl), refl), refl) refl)
        cfg.keepers)

  pub gas-Apart :
      (cfg : Config) (now : ℕ)
      → Differing (map key_of cfg.keepers)
      → Apart (Of vc gas_task) (gauges_of env snap vc cfg now gas_task)
  gas-Apart cfg now named =
      let fd = lookup (str "FeeDistributorVault") vc.vaults in
      Apart-append (is_metric keeper_balance_native) _ (distributor_gauges env snap vc fd ++ _)
        (Apart-if (str_eq vc.name (str "v1"))
          (λ first. keepers-Apart cfg named (str_eq_sound vc.name (str "v1") first))
          (λ _. Apart-nil))
        (Apart-stamp _ _ (distributor-Apart fd))

  -- The probe of the protocol, and those of the handlers.
  feature_gauges-Apart :
      (name : Str)
      → IsVersionNamed vc
      → Apart (λ g. Of vc features_task g × (entry g ≡ name)) (feature_gauges env snap vc name)
  unfolding str_eq str
  feature_gauges-Apart name named =
      Apart-append (λ g. str_eq (part g) (str "root")) _ _
        (Apart-shown _ _ _ _ ((((tt, refl), refl), refl), refl) refl)
        (Apart-gather _ part key_of (handler_gauges env snap vc name) vc.handlers named.handlers (
          All-weaken
            (λ (handler, hex) other.
              Apart-shown _ _ _ _ (((((tt, refl), refl), refl), other), refl) refl)
            vc.handlers named.not_root))

  pub features-Apart :
      (cfg : Config) (now : ℕ)
      → IsVersionNamed vc
      → Apart (Of vc features_task) (gauges_of env snap vc cfg now features_task)
  unfolding default_feature_names all_differ none_equals str_eq str
  features-Apart cfg now named = Apart-stamp _ _ (
      Apart-gather _ entry (λ name. name) (feature_gauges env snap vc) default_feature_names
        (all_differ_sound (map (λ name. name) default_feature_names) refl)
        (All-rounds (λ name. feature_gauges-Apart name named) default_feature_names))
