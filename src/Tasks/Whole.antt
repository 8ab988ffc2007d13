-- ===== src/Tasks/Whole.antt =====
-- A whole run of `RunAll` over the tasks of main.go.
use hertz_reconciler.Prelude.{ℕ, ◌≡◌, ◌≢◌, refl, Option, none, some, List, map, Bytes, Str, All}
use hertz_reconciler.Chain.Geth.{Hash, Address}
use hertz_reconciler.Chain.Reply.{Reply, ok, err}
use hertz_reconciler.Chain.Hex.{hex_to_bytes}
use hertz_reconciler.Chain.Abi.{decode_address_array}
use hertz_reconciler.Chain.Client.{hex_data, answer, call, get_role_members, or_crash}
use hertz_reconciler.Chain.Client.Returns.{client_total_rules}
use hertz_reconciler.Config.{VersionConfig, Config}
use hertz_reconciler.Metrics.{SetsGauge}
use hertz_reconciler.Runtime.{Env, State, M, ret, pure, on_reply, ◌>>=◌}
use hertz_reconciler.Runtime.Keeps
use hertz_reconciler.Runtime.Keeps.{
  Keeps, Holds, AllEvents, Keeps-bind_post, Keeps-pure, Keeps-bind,
}
use hertz_reconciler.Runtime.Total.{Total, Anything, Total-bind_post, Total-weaken, total_rules}
use hertz_reconciler.Reconciler.{Report, run_all, NoError}
use hertz_reconciler.Reconciler.RunAll.{AllReturn, origin, all_pairs, run_all-origin}
use hertz_reconciler.Reconciler.Quiet.{IsQuiet, run_all-SetsGauge}
use hertz_reconciler.Tasks.{tasks}
use hertz_reconciler.Tasks.Role.{role_round, role_run, roles}
use hertz_reconciler.Tasks.Sound.{
  vault_run-SetsGauge, role_run-SetsGauge, timelock_run-SetsGauge, params_run-SetsGauge,
  fee_run-SetsGauge, funding_run-SetsGauge, gas_run-SetsGauge, features_run-SetsGauge,
  queue_run-SetsGauge, market_oi_run-SetsGauge, oracle_run-SetsGauge, chainlink_run-SetsGauge,
}
use hertz_reconciler.Tasks.Returns.{
  vault_run-Returns, timelock_run-Returns, params_run-Returns, fee_run-Returns, funding_run-Returns,
  gas_run-Returns, features_run-Returns, queue_run-Returns, market_oi_run-Returns,
  oracle_run-Returns, chainlink_run-Returns,
}
use hertz_reconciler.Tasks.Vault
use hertz_reconciler.Tasks.Timelock
use hertz_reconciler.Tasks.Params
use hertz_reconciler.Tasks.Fee
use hertz_reconciler.Tasks.Funding
use hertz_reconciler.Tasks.Gas
use hertz_reconciler.Tasks.Features
use hertz_reconciler.Tasks.Queue
use hertz_reconciler.Tasks.MarketOi
use hertz_reconciler.Tasks.Oracle
use hertz_reconciler.Tasks.Chainlink

module _ {F W : Type 0} where
  tasks-IsQuiet : (env : Env F W) (cfg : Config) → All IsQuiet (tasks env cfg)
  unfolding tasks Vault.vault_balances roles Timelock.timelock Params.market_params Fee.fees
      Funding.funding Gas.keeper_gas Features.features Queue.queue MarketOi.market_oi
      Oracle.oracle_config Chainlink.chainlink
  tasks-IsQuiet env cfg = (
    vault_run-SetsGauge env,
    (
      role_run-SetsGauge env cfg.role_names,
      (
        timelock_run-SetsGauge env,
        (
          params_run-SetsGauge env,
          (
            fee_run-SetsGauge env,
            (
              funding_run-SetsGauge env,
              (
                gas_run-SetsGauge env cfg.keepers,
                (
                  features_run-SetsGauge env,
                  (
                    queue_run-SetsGauge env,
                    (
                      market_oi_run-SetsGauge env,
                      (oracle_run-SetsGauge env, (chainlink_run-SetsGauge env, tt)),
                    ),
                  ),
                ),
              ),
            ),
          ),
        ),
      ),
    ),
  )

-- Whatever the node, the clock and the configuration are: all that a run of `RunAll` over the tasks
-- of main.go does to the exported series is to set gauges that have labels, each under as many
-- values as it has labels. So it never logs a failed task, never increments
-- `reconciler_errors_total` and never sets `reconciler_up`, also if it panics in between.
pub run_all-tasks-SetsGauge :
    {F W : Type 0} (env : Env F W) (cfg : Config) (s : State F W)
    → Holds SetsGauge Keeps.Anything s.trace (run_all cfg (tasks env cfg) s)
run_all-tasks-SetsGauge env cfg s =
    (run_all-SetsGauge cfg (tasks env cfg) (tasks-IsQuiet env cfg)).at s

module _ {F W : Type 0} (env : Env F W) where
  -- No answer of the node is one on which `decodeAddressArray` panics.
  abbrev pub IsDecodable : Type 0
  IsDecodable =
      (to call_data : Str) (w : W) (hex : Str)
      → (env.eth_call to call_data w).0 ≡ ok hex
      → decode_address_array env.geth (hex_to_bytes hex) ≢ none

  -- The result of a call can be decoded as an array.
  Decodes : Reply Bytes → Type 0
  Decodes (ok bytes) = decode_address_array env.geth bytes ≢ none
  Decodes (err e) = Unit

  answer-Decodes :
      (to : Str) (r : Reply Str)
      → ((hex : Str) → r ≡ ok hex → decode_address_array env.geth (hex_to_bytes hex) ≢ none)
      → Decodes (answer to r)
  unfolding Decodes
  answer-Decodes to (ok hex) h = h hex refl
  answer-Decodes to (err e) h = tt

  call-Decodes :
      IsDecodable → (to : Address) (call_data : Bytes) → Total Decodes (call env to call_data)
  unfolding call ◌>>=◌
  call-Decodes h to call_data = record {
    at = λ s.
        let hex = env.geth.address_hex to in
        let r = env.eth_call hex (hex_data call_data) s.world in
        (
          answer hex r.0,
          record s { world = r.1 },
          refl,
          answer-Decodes hex r.0 (h hex (hex_data call_data) s.world),
        );
  }

  or_crash-Total :
      {A : Type 0} (o : Option A) → o ≢ none → Total Anything (or_crash {F = F} {W = W} o)
  unfolding or_crash
  or_crash-Total none h = absurd (h refl)
  or_crash-Total (some a) h = search (total_rules, tt)

  members_of-Total :
      (r : Reply Bytes)
      → Decodes r
      → Total Anything (
          on_reply {F = F} {W = W} r
            (λ bytes. or_crash (decode_address_array env.geth bytes))
            (λ e. pure (err e)))
  unfolding Decodes
  members_of-Total (ok bytes) h = or_crash-Total _ h
  members_of-Total (err e) h = search (total_rules, tt)

  get_role_members-Total :
      IsDecodable
      → (rs : Address) (role : Hash) (start end : ℕ)
      → Total Anything (get_role_members env rs role start end)
  unfolding get_role_members
  get_role_members-Total h rs role start end =
      Total-bind_post (call env rs _) _ (call-Decodes h rs _) members_of-Total

  role_round-Total :
      IsDecodable
      → (vc : VersionConfig) (rs : Address) (name : Str) (rep : Report)
      → Total Anything (role_round env vc rs name rep)
  unfolding role_round
  role_round-Total h vc rs name rep =
      search (client_total_rules, tt, get_role_members-Total, h) depth 12

  pub role_run-Total :
      IsDecodable
      → (role_names : List Str) (vc : VersionConfig) → Total NoError (role_run env role_names vc)
  unfolding role_run
  role_run-Total h role_names vc =
      search (client_total_rules, tt, refl, role_round-Total, h) depth 12

  any_result : {m : M F W (Report × Option Str)} → Total NoError m → Total Anything m
  any_result = Total-weaken (λ a _. tt)

  tasks_return : IsDecodable → (cfg : Config) → AllReturn (tasks env cfg)
  unfolding tasks Vault.vault_balances roles Timelock.timelock Params.market_params Fee.fees
      Funding.funding Gas.keeper_gas Features.features Queue.queue MarketOi.market_oi
      Oracle.oracle_config Chainlink.chainlink
  tasks_return h cfg = (
    λ v. any_result (vault_run-Returns env v),
    (
      λ v. any_result (role_run-Total h cfg.role_names v),
      (
        λ v. any_result (timelock_run-Returns env v),
        (
          λ v. any_result (params_run-Returns env v),
          (
            λ v. any_result (fee_run-Returns env v),
            (
              λ v. any_result (funding_run-Returns env v),
              (
                λ v. any_result (gas_run-Returns env cfg.keepers v),
                (
                  λ v. any_result (features_run-Returns env v),
                  (
                    λ v. any_result (queue_run-Returns env v),
                    (
                      λ v. any_result (market_oi_run-Returns env v),
                      (
                        λ v. any_result (oracle_run-Returns env v),
                        (λ v. any_result (chainlink_run-Returns env v), tt),
                      ),
                    ),
                  ),
                ),
              ),
            ),
          ),
        ),
      ),
    ),
  )

-- Unless the node sends a payload on which `decodeAddressArray` panics, a run over the tasks of
-- main.go returns one report for every version and every task, versions outermost, however many
-- calls fail.
pub run_all-tasks-origin :
    {F W : Type 0} (env : Env F W) (cfg : Config) (s : State F W)
    → IsDecodable env
    → (rs : List Report) × (s' : State F W) × (run_all cfg (tasks env cfg) s ≡ ret rs s')
      × (map origin rs ≡ all_pairs cfg.versions (tasks env cfg))
run_all-tasks-origin env cfg s h = run_all-origin cfg (tasks env cfg) s (tasks_return env h cfg)
