-- ===== src/Tasks/Gauges/Fees.antt =====
-- The series of `fees`.
use mathlib.Core.List.{Permᴰ}
use hertz_reconciler.Prelude.{
  ℕ, ◌+◌, ◌≡◌, refl, Option, none, some, Str, str, List, length, gather, arith, ◌==◌,
}
use hertz_reconciler.Prelude.Counts.{sum_of, sum_of-perm}
use hertz_reconciler.Chain.Client.Snapshot.{Snapshot, IsStable, uint-Always}
use hertz_reconciler.Chain.Client.Silent.{uint-Reads, erc20-Reads}
use hertz_reconciler.Config.{VersionConfig, Config, lookup}
use hertz_reconciler.Runtime.{Env, M, foreach}
use hertz_reconciler.Runtime.Keeps.{Keeps-ask}
use hertz_reconciler.Runtime.Total.{Anything, Total-foreach_sum}
use hertz_reconciler.Runtime.Exports.{
  Exports, Exports-silent, Exports-pure, Exports-bind, Exports-read, Exports-emit_then,
  Exports-reply, Exports-if_post, Exports-range, Exports-both,
}
use hertz_reconciler.Reconciler.{Report, NoError, empty_report}
use hertz_reconciler.Tasks.Fee.{scaled_float18, fee_round, fee_gap, fee_run}
use hertz_reconciler.Tasks.Clean.Fee.{claimed, round-claimed}
use hertz_reconciler.Tasks.Clean.Loop.{VisitsAll, Total-range, All-rounds}
use hertz_reconciler.Tasks.Clean.Order.{fees_task, claim_at, usdt_of}
use hertz_reconciler.Tasks.Gauges.Entries.{claim_gauges, gap_gauges}
use hertz_reconciler.Tasks.Gauges.Expected.{gauges_of}
use hertz_reconciler.Tasks.Gauges.Rules.{Exports-shown}

module _ {F W : Type 0} (env : Env F W) (snap : Snapshot) (stable : IsStable env snap)
    (vc : VersionConfig) where
  abbrev round : Str × Str → Report × ℕ → M F W (Report × ℕ)
  round =
      fee_round env vc (env.geth.hex_to_address vc.data_store)
        (env.geth.hex_to_address vc.usdt_token)

  fee_round-Exports :
      (market : Str × Str) (acc : Report × ℕ)
      → Exports (claim_gauges env snap vc market) Anything (round market acc)
  unfolding fee_round scaled_float18
  fee_round-Exports (symbol, hex) (rep, n) =
      Exports-read _ _ (uint-Reads env snap stable _ _) λ x same. Exports-shown x _ _ _ same

  fee_gap-Exports :
      (total : ℕ) (fd : Option Str) (rep : Report)
      → Exports
          (gap_gauges env snap vc total fd)
          NoError
          (fee_gap env vc (env.geth.hex_to_address vc.usdt_token) total fd rep)
  unfolding fee_gap scaled_float18
  fee_gap-Exports total none rep = Exports-pure _ refl
  fee_gap-Exports total (some hex) rep =
      Exports-read _ _ (erc20-Reads env snap stable _ _) λ x same.
        Exports-reply _ x same
          (λ b. Exports-emit_then _ _ (Exports-emit_then _ _ (Exports-pure _ refl)))
          (λ e. Exports-pure _ refl)

  abbrev claimed_at : Str × Str → ℕ
  claimed_at market = claimed (claim_at env snap vc market.1)

  -- The loop, and what it adds up.
  claims-Exports :
      (order : List (Str × Str))
      → Permᴰ order vc.markets
      → Exports
          (gather (claim_gauges env snap vc) vc.markets)
          (λ acc. Anything acc × (acc.1 ≡ 0 + sum_of claimed_at order))
          (foreach order round (empty_report, 0))
  claims-Exports order p = Exports-both (Exports-range _ _ p fee_round-Exports (empty_report, 0)) (
      Total-foreach_sum round (λ acc. acc.1) claimed_at order
        (All-rounds
          (λ market acc.
            round-claimed env vc (claim_at env snap vc) (usdt_of env snap vc) market.0 market.1
              acc.0 acc.1 (uint-Always env snap stable _ _))
          order)
        (empty_report, 0))

  pub fee_run-Exports :
      VisitsAll env
      → (cfg : Config) (now : ℕ)
      → Exports (gauges_of env snap vc cfg now fees_task) NoError (fee_run env vc)
  unfolding fee_run scaled_float18
  fee_run-Exports visits cfg now =
      Exports-if_post (length vc.markets == 0) (λ _. Exports-pure _ refl)
        (λ _.
          Exports-read _ _ (Exports-silent _ (Total-range env visits vc.markets) (Keeps-ask _))
            λ order p. Exports-bind _ _ (claims-Exports order p) λ acc (_, added).
              let total : acc.1 ≡ sum_of claimed_at vc.markets =
                omega (arith, added, sum_of-perm claimed_at p) in
              rw (← total) (
                Exports-emit_then _ _
                  (fee_gap-Exports acc.1 (lookup (str "FeeDistributorVault") vc.vaults) _)))
