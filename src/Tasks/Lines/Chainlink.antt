-- ===== src/Tasks/Lines/Chainlink.antt =====
-- The number of stale feeds that `chainlink` reports.
use hertz_reconciler.Prelude.{
  ℕ, ◌-◌, ◌≡◌, refl, ◌∙◌, true, none, [], ◌∷◌, arith, Str, str, str_eq, str_eq_refl, cat, decimal,
  length, if◌then◌else◌,
}
use hertz_reconciler.Prelude.Counts.{sum_of}
use hertz_reconciler.Chain.Client.Snapshot.{Snapshot, IsStable, updated_at, updated-Always}
use hertz_reconciler.Config.{VersionConfig}
use hertz_reconciler.Runtime.{Env, State, emit}
use hertz_reconciler.Runtime.Total.{
  Total, ReturnsWith, ReturnsWith-ask, Total-bind, Total-bind_post, Total-emit, Total-pure,
  Total-reply_post,
}
use hertz_reconciler.Reconciler.{Report, empty_report, add_line}
use hertz_reconciler.Tasks.Chainlink.{age_of, default_bsc_testnet_feeds, feed_round, chainlink_run}
use hertz_reconciler.Tasks.Clean.Loop.{VisitsAll, Total-range}
use hertz_reconciler.Tasks.Lines.Loop.{Adds, Adds-range, bump, counted, counted_of, none_counted}

-- The line that gives the number of stale feeds.
abbrev pub stale_line : ℕ → Str
stale_line n = cat (
    str "chainlink probed ("
    ∷ decimal (length default_bsc_testnet_feeds)
    ∷ str " feeds); stale>600s: "
    ∷ decimal n
    ∷ [])

module _ {F W : Type 0} (env : Env F W) where
  -- An answer from the future has the age 0.
  pub age_of-minus : (now updated : ℕ) → age_of env now updated ≡ env.floats.of_uint (now - updated)
  unfolding age_of
  age_of-minus now updated = ground arith

  -- One if the answer of the feed is older than 600 seconds.
  abbrev is_stale : ℕ → ℕ → ℕ
  is_stale now updated =
      if env.floats.gt (env.floats.of_uint (now - updated)) (env.floats.of_uint 600) then 1 else 0

  abbrev pub stale_at : Snapshot → ℕ → Str × Str → ℕ
  stale_at snap now feed =
      counted (is_stale now) (updated_at env snap (env.geth.hex_to_address (feed.1)))

module _ {F W : Type 0} (env : Env F W) (snap : Snapshot) (stable : IsStable env snap) where
  feed_round-Adds :
      (now : ℕ) (feed : Str × Str) (acc : Report × ℕ)
      → Total (Adds (stale_at env snap now feed) acc) (feed_round env now feed acc)
  unfolding feed_round
  feed_round-Adds now (label, hex) (rep, stale) =
      Total-bind_post _ _ (updated-Always env snap stable _) λ x e.
        Total-reply_post x
          (λ v p. Total-bind (emit _) _ (Total-emit _) λ _. Total-pure _ (
            rw (age_of-minus env now v)
              (refl, bump _ stale ∙ counted_of (is_stale env now) stale e p)))
          (λ t p. Total-pure _ (refl, none_counted stale ∙ counted_of (is_stale env now) stale e p))

-- When the answers of the feeds do not change during the run, and a range visits every entry of a
-- map once, in any order: for the version v1 the one line of `chainlink` gives the number of the
-- feeds that were read and whose last answer is more than 600 seconds older than the time at the
-- start of the run, as the comparison of floats has it.
pub chainlink_run-lines :
    {F W : Type 0} (env : Env F W) (snap : Snapshot) (vc : VersionConfig) (s : State F W)
    → IsStable env snap
    → VisitsAll env
    → vc.name ≡ str "v1"
    → ReturnsWith
        (λ result.
          result.0.lines
          ≡ stale_line
              (sum_of (stale_at env snap (env.unix_now s.world).0) default_bsc_testnet_feeds)
            ∷ [])
        (chainlink_run env vc s)
unfolding chainlink_run
chainlink_run-lines env snap vc s stable visits first =
    let same : str_eq vc.name (str "v1") ≡ true = rw first (str_eq_refl (str "v1")) in
    rw same (
      ReturnsWith-ask env.unix_now _ s λ now asked.
        Total-bind_post _ _ (Total-range env visits default_bsc_testnet_feeds) λ order p.
          Total-bind_post _ _
            (Adds-range (feed_round env now) (stale_at env snap now) p
              (feed_round-Adds env snap stable now) (empty_report, 0))
            λ acc (l, n). Total-bind (emit _) _ (Total-emit _) λ _.
              let total : acc.1 ≡ sum_of (stale_at env snap now) default_bsc_testnet_feeds =
                omega (arith, n) in
              Total-pure (add_line (stale_line acc.1) acc.0, none) (rw (l, total, asked) refl))
