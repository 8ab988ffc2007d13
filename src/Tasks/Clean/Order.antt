-- ===== src/Tasks/Clean/Order.antt =====
-- What each task of main.go finds in order, as a condition on the answers of the node.
use hertz_reconciler.Prelude.{
  ℕ, ◌≡◌, refl, Bool, false, List, [], ◌∷◌, Str, str, length, map, All, ◌==◌,
}
use hertz_reconciler.Prelude.Counts.{sum_of}
use hertz_reconciler.Chain.Keys.{
  claimable_fee_amount_key, feature_key_root, feature_key_for_handler, role_hash,
}
use hertz_reconciler.Chain.Geth.{Address}
use hertz_reconciler.Chain.Reply.{Reply}
use hertz_reconciler.Chain.Client.Snapshot.{
  Snapshot, erc20_at, uint_at, bool_at, count_at, members_at, delay_at,
}
use hertz_reconciler.Config.{VersionConfig, Config, lookup}
use hertz_reconciler.Runtime.{Env}
use hertz_reconciler.Reconciler.{Task}
use hertz_reconciler.Tasks.{tasks}
use hertz_reconciler.Tasks.Vault.{vault_balances}
use hertz_reconciler.Tasks.Role.{roles}
use hertz_reconciler.Tasks.Timelock.{timelock}
use hertz_reconciler.Tasks.Params.{market_params}
use hertz_reconciler.Tasks.Fee.{fees}
use hertz_reconciler.Tasks.Funding.{funding}
use hertz_reconciler.Tasks.Gas.{keeper_gas}
use hertz_reconciler.Tasks.Features.{features, default_feature_names}
use hertz_reconciler.Tasks.Queue.{queue}
use hertz_reconciler.Tasks.MarketOi.{market_oi}
use hertz_reconciler.Tasks.Oracle.{oracle_config}
use hertz_reconciler.Tasks.Chainlink.{chainlink}
use hertz_reconciler.Tasks.Clean.Vault.{CleanVault}
use hertz_reconciler.Tasks.Clean.Role.{CleanRole, enumerated}
use hertz_reconciler.Tasks.Clean.Timelock.{CleanDelay}
use hertz_reconciler.Tasks.Clean.Params.{CleanParams}
use hertz_reconciler.Tasks.Clean.Fee.{CleanClaim, CleanGap, claimed}
use hertz_reconciler.Tasks.Clean.Funding.{CleanFunding}
use hertz_reconciler.Tasks.Clean.Gas.{CleanGas}
use hertz_reconciler.Tasks.Clean.Features.{IsActive}
use hertz_reconciler.Tasks.Clean.Queue.{CleanQueue}
use hertz_reconciler.Tasks.Clean.MarketOi.{CleanOi}
use hertz_reconciler.Tasks.Clean.Oracle.{CleanOracle}
use hertz_reconciler.Tasks.Clean.Chainlink.{CleanFeeds}

-- The tasks of main.go, in their order.
pub data TaskName : Type 0 where
  vaults_task roles_task timelock_task params_task fees_task funding_task gas_task features_task
        queue_task oi_task oracle_task feeds_task :
      TaskName

abbrev pub every_task : List TaskName
every_task =
    vaults_task ∷ roles_task ∷ timelock_task ∷ params_task ∷ fees_task ∷ funding_task ∷ gas_task
    ∷ features_task ∷ queue_task ∷ oi_task ∷ oracle_task ∷ feeds_task ∷ []

module _ {F W : Type 0} (env : Env F W) (cfg : Config) where
  abbrev pub task_of : TaskName → Task F W
  task_of vaults_task = vault_balances env
  task_of roles_task = roles env cfg.role_names
  task_of timelock_task = timelock env
  task_of params_task = market_params env
  task_of fees_task = fees env
  task_of funding_task = funding env
  task_of gas_task = keeper_gas env cfg.keepers
  task_of features_task = features env
  task_of queue_task = queue env
  task_of oi_task = market_oi env
  task_of oracle_task = oracle_config env
  task_of feeds_task = chainlink env

  pub tasks-map : tasks env cfg ≡ map task_of every_task
  unfolding tasks
  tasks-map = refl

module _ {F W : Type 0} (env : Env F W) (snap : Snapshot) (vc : VersionConfig) where
  abbrev pub claim_at : Str → Reply ℕ
  claim_at hex = uint_at env snap (env.geth.hex_to_address vc.data_store) (
      claimable_fee_amount_key env.geth (env.geth.hex_to_address hex)
        (env.geth.hex_to_address vc.usdt_token))

  abbrev pub usdt_of : Str → Reply ℕ
  usdt_of hex =
      erc20_at env snap (env.geth.hex_to_address vc.usdt_token) (env.geth.hex_to_address hex)

  abbrev pub delay_of : Str → Reply ℕ
  delay_of hex = delay_at env snap (env.geth.hex_to_address hex)

  abbrev pub flag_of : Str → Reply Bool
  flag_of name =
      bool_at env snap (env.geth.hex_to_address vc.data_store) (feature_key_root env.geth name)

  abbrev pub handler_flag_of : Str → Str → Reply Bool
  handler_flag_of name hex =
      bool_at env snap (env.geth.hex_to_address vc.data_store)
        (feature_key_for_handler env.geth name (env.geth.hex_to_address hex))

  abbrev pub count_of : Str → Reply ℕ
  count_of name =
      count_at env snap (str "getRoleMemberCount(bytes32)") (env.geth.hex_to_address vc.role_store)
        (role_hash env.geth name)

  abbrev pub members_of : Str → ℕ → Reply (List Address)
  members_of name c =
      members_at env snap (env.geth.hex_to_address vc.role_store) (role_hash env.geth name) 0
        (enumerated c)

  -- A version without markets has no fees to look at.
  abbrev CleanFees : Type 0
  CleanFees =
      (length vc.markets == 0) ≡ false
      → All (λ market. CleanClaim (claim_at (market.1))) vc.markets
        × CleanGap (sum_of (λ market. claimed (claim_at (market.1))) vc.markets)
            (lookup (str "FeeDistributorVault") vc.vaults) usdt_of

  -- All that the task reads of the version can be read and is in order.
  abbrev pub IsInOrder : Config → TaskName → Type 0
  IsInOrder cfg vaults_task =
      All
        (λ vault.
          CleanVault env (vault.0) (snap.balance_answer (env.geth.hex_to_address (vault.1)))
            (usdt_of (vault.1)))
        vc.vaults
  IsInOrder cfg roles_task =
      All (λ name. CleanRole name (count_of name) (members_of name)) cfg.role_names
  IsInOrder cfg timelock_task =
      CleanDelay vc.gov_timelock (delay_of vc.gov_timelock)
      × CleanDelay vc.config_timelock (delay_of vc.config_timelock)
  IsInOrder cfg params_task = CleanParams env snap vc
  IsInOrder cfg fees_task = CleanFees
  IsInOrder cfg funding_task = CleanFunding env snap vc
  IsInOrder cfg gas_task = CleanGas env snap cfg.keepers vc
  IsInOrder cfg features_task =
      All
        (λ name.
          IsActive (flag_of name) × All (λ h. IsActive (handler_flag_of name (h.1))) vc.handlers)
        default_feature_names
  IsInOrder cfg queue_task = CleanQueue env snap vc
  IsInOrder cfg oi_task = CleanOi env snap vc
  IsInOrder cfg oracle_task = CleanOracle env snap vc
  IsInOrder cfg feeds_task = CleanFeeds env snap vc
