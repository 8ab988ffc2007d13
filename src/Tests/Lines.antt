-- ===== src/Tests/Lines.antt =====
-- The lines of three tasks against a chain that does not change.
use hertz_reconciler.Prelude.{◌≡◌, refl, [], ◌∷◌, str}
use hertz_reconciler.Prelude.Counts.{sum_of}
use hertz_reconciler.Chain.Reply.{ok}
use hertz_reconciler.Config.{StrMap, lookup}
use hertz_reconciler.Runtime.Total.{ReturnsWith}
use hertz_reconciler.Tasks.Chainlink.{default_bsc_testnet_feeds, chainlink_run}
use hertz_reconciler.Tasks.Funding.{funding_run}
use hertz_reconciler.Tasks.Gas.{gas_run}
use hertz_reconciler.Tasks.Lines.Chainlink.{stale_line, stale_at, chainlink_run-lines}
use hertz_reconciler.Tasks.Lines.Funding.{imbalance_line, imbalanced_at, funding_run-lines}
use hertz_reconciler.Tasks.Lines.Gas.{keepers_line, distributor_lines, gas_run-lines}
use hertz_reconciler.Tests.Demo.{constant_node-VisitsAll, demo_state, demo_version}
use hertz_reconciler.Tests.Order.{demo_snapshot, short-IsStable}
use hertz_reconciler.Tests.Runs.{short}

chainlink_run-lines_example :
    ReturnsWith
      (λ result.
        result.0.lines
        ≡ stale_line (sum_of (stale_at short demo_snapshot 1700000000) default_bsc_testnet_feeds)
          ∷ [])
      (chainlink_run short demo_version demo_state)
chainlink_run-lines_example =
    chainlink_run-lines short demo_snapshot demo_version demo_state short-IsStable
      (constant_node-VisitsAll (ok (str "0x3c"))) refl

funding_run-lines_example :
    ReturnsWith
      (λ result.
        result.0.lines
        ≡ imbalance_line
            (sum_of (imbalanced_at short demo_snapshot demo_version) demo_version.markets)
          ∷ [])
      (funding_run short demo_version demo_state)
funding_run-lines_example =
    funding_run-lines short demo_snapshot demo_version demo_state short-IsStable
      (constant_node-VisitsAll (ok (str "0x3c"))) refl

-- Two keepers with a balance of 7 each.
abbrev keepers : StrMap
keepers = (str "liquidator", str "k") ∷ (str "orders", str "l") ∷ []

gas_run-lines_example :
    ReturnsWith
      (λ result.
        result.0.lines
        ≡ keepers_line short keepers 14
          ∷ distributor_lines short demo_snapshot demo_version
              (lookup (str "FeeDistributorVault") demo_version.vaults))
      (gas_run short keepers demo_version demo_state)
gas_run-lines_example =
    gas_run-lines short demo_snapshot keepers demo_version demo_state short-IsStable
      (constant_node-VisitsAll (ok (str "0x3c"))) refl
