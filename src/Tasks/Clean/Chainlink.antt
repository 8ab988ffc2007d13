-- ===== src/Tasks/Clean/Chainlink.antt =====
-- The findings of `chainlink`.
use hertz_reconciler.Prelude.{ℕ, ◌≡◌, ◌↔◌, refl, true, Str, str, str_eq, All}
use hertz_reconciler.Chain.Client.Snapshot.{Snapshot, IsStable, updated_at, updated-Always}
use hertz_reconciler.Config.{VersionConfig}
use hertz_reconciler.Runtime.{Env, ask}
use hertz_reconciler.Runtime.Total.{
  Total, Total-bind, Total-bind_post, Total-pure, Total-ask, Total-if_post, Total-weaken,
}
use hertz_reconciler.Reconciler.{Report, empty_report}
use hertz_reconciler.Tasks.Chainlink.{default_bsc_testnet_feeds, feed_round, chainlink_run}
use hertz_reconciler.Tasks.Clean.Loop.{VisitsAll, Total-range}
use hertz_reconciler.Tasks.Clean.Probe.{
  IsRead, IsClean, IsClean-add_finding, Checks, Checks-read, Checks-export, Checks-range,
  Checks-run, unchanged,
}

abbrev CleanSoFar : Report × ℕ → Type 0
CleanSoFar acc = IsClean (acc.0)

module _ {F W : Type 0} (env : Env F W) (snap : Snapshot) where
  abbrev HasFeed : Str × Str → Type 0
  HasFeed feed = IsRead (updated_at env snap (env.geth.hex_to_address (feed.1)))

  -- The version is not the first one, or the time of the last answer of each feed was read.
  abbrev pub CleanFeeds : VersionConfig → Type 0
  CleanFeeds vc = str_eq vc.name (str "v1") ≡ true → All HasFeed default_bsc_testnet_feeds

module _ {F W : Type 0} (env : Env F W) (snap : Snapshot) (stable : IsStable env snap) where
  feed_round-Checks :
      (now : ℕ) (feed : Str × Str) (acc : Report × ℕ)
      → Checks CleanSoFar (CleanSoFar acc) (HasFeed env snap feed) (feed_round env now feed acc)
  unfolding feed_round
  feed_round-Checks now (label, hex) (rep, stale) =
      Checks-read _ _ (updated-Always env snap stable _) λ x e.
        Checks-export x _ _ _ e (λ v. unchanged) (λ t. Total-pure _ (IsClean-add_finding _ rep))

  pub chainlink_run-Clean :
      VisitsAll env
      → (vc : VersionConfig)
      → Total (λ result. IsClean (result.0) ↔ CleanFeeds env snap vc) (chainlink_run env vc)
  unfolding chainlink_run
  chainlink_run-Clean visits vc =
      Total-if_post (str_eq vc.name (str "v1"))
        (λ first. Total-bind (ask env.unix_now) _ (Total-ask _) λ now.
          Total-bind_post _ _ (Total-range env visits default_bsc_testnet_feeds) λ order p.
            Total-weaken (λ result e. ((λ z _. e.0 z), (λ c. e.1 (c first))))
              (Checks-run _ _ _ refl (λ acc. refl)
                (Checks-range (feed_round env now) (HasFeed env snap) p (feed_round-Checks now)
                  (empty_report, 0))))
        (λ other. Total-pure _ ((λ z first. cc), (λ c. refl)))
