-- ===== src/Tasks.antt =====
-- internal/reconciler: the twelve tasks, and the list of them that main.go builds.
pub mod Vault
pub mod Role
pub mod Timelock
pub mod Params
pub mod Fee
pub mod Funding
pub mod Gas
pub mod Features
pub mod Queue
pub mod MarketOi
pub mod Oracle
pub mod Chainlink
pub mod Sound
pub mod Returns
pub mod Whole
pub mod Clean
pub mod Lines
pub mod Gauges
use hertz_reconciler.Prelude.{Str, List, [], ◌∷◌}
use hertz_reconciler.Config.{Config}
use hertz_reconciler.Runtime.{Env}
use hertz_reconciler.Reconciler.{Task}

-- `tasks := []reconciler.Task{...}` of main.go
unfoldable pub tasks : {F W : Type 0} → Env F W → Config → List (Task F W)
tasks env cfg =
    Vault.vault_balances env
    ∷ Role.roles env cfg.role_names
    ∷ Timelock.timelock env
    ∷ Params.market_params env
    ∷ Fee.fees env
    ∷ Funding.funding env
    ∷ Gas.keeper_gas env cfg.keepers
    ∷ Features.features env
    ∷ Queue.queue env
    ∷ MarketOi.market_oi env
    ∷ Oracle.oracle_config env
    ∷ Chainlink.chainlink env
    ∷ []
