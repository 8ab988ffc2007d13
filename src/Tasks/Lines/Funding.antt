-- ===== src/Tasks/Lines/Funding.antt =====
-- The number of imbalanced markets that `funding` reports.
use hertz_reconciler.Prelude.{
  ℕ, ◌≡◌, refl, ◌∙◌, Bool, true, false, none, [], ◌∷◌, arith, Str, str, cat, decimal, length, ltb,
  ◌==◌, if◌then◌else◌,
}
use hertz_reconciler.Prelude.Int.{ℤ}
use hertz_reconciler.Prelude.Counts.{sum_of}
use hertz_reconciler.Chain.Keys.{funding_fee_amount_per_size_key}
use hertz_reconciler.Chain.Client.Snapshot.{Snapshot, IsStable, int_at, int-Always}
use hertz_reconciler.Chain.Reply.{Reply}
use hertz_reconciler.Config.{VersionConfig}
use hertz_reconciler.Runtime.{Env, State, emit}
use hertz_reconciler.Runtime.Total.{
  Total, ReturnsWith, Total-bind, Total-bind_post, Total-emit, Total-pure, Total-reply_post,
  Total-if_post, Total-weaken,
}
use hertz_reconciler.Reconciler.{Report, empty_report, add_line}
use hertz_reconciler.Tasks.Funding.{record_imbalance, funding_round, funding_run}
use hertz_reconciler.Tasks.Funding.Bounds.{distance, larger, abs_sub-distance, abs_max-larger}
use hertz_reconciler.Tasks.Clean.Loop.{VisitsAll, Total-range}
use hertz_reconciler.Tasks.Lines.Loop.{Adds, Adds-range, bump, counted, counted_of, none_counted}

-- The line that gives the number of imbalanced markets.
abbrev pub imbalance_line : ℕ → Str
imbalance_line n =
    cat (str "funding snapshotted; markets with |long-short|/max > 0.9: " ∷ decimal n ∷ [])

module _ {F W : Type 0} (env : Env F W) where
  -- One if the two fees are not both 0 and their ratio is above 0.9.
  abbrev is_imbalanced : ℤ → ℤ → ℕ
  is_imbalanced long short =
      if ltb 0 (larger long short)
      then (if env.floats.gt (env.floats.ratio (distance long short) (larger long short))
            env.floats.nine_tenths
          then 1
          else 0)
      else 0

  abbrev fee_at : Snapshot → VersionConfig → Str → Bool → Reply ℤ
  fee_at snap vc hex is_long = int_at env snap (env.geth.hex_to_address vc.data_store) (
      funding_fee_amount_per_size_key env.geth (env.geth.hex_to_address hex)
        (env.geth.hex_to_address vc.usdt_token) is_long)

  -- A market whose fees cannot both be read does not count.
  abbrev pub imbalanced_at : Snapshot → VersionConfig → Str × Str → ℕ
  imbalanced_at snap vc market =
      counted (λ long. counted (is_imbalanced long) (fee_at snap vc (market.1) false))
        (fee_at snap vc (market.1) true)

module _ {F W : Type 0} (env : Env F W) (snap : Snapshot) (stable : IsStable env snap)
    (vc : VersionConfig) where
  record_imbalance-Adds :
      (symbol : Str) (long short : ℤ) (rep : Report) (n : ℕ)
      → Total
          (Adds (is_imbalanced env long short) (rep, n))
          (record_imbalance env vc symbol long short (rep, n))
  unfolding record_imbalance
  record_imbalance-Adds symbol long short rep n =
      rw (abs_sub-distance long short, abs_max-larger long short)
        (Total-if_post (ltb 0 (larger long short))
          (λ e. Total-bind (emit _) _ (Total-emit _) λ _. Total-pure _ (rw e (refl, bump _ n)))
          (λ e. Total-pure _ (rw e (refl, omega arith))))

  funding_round-Adds :
      (market : Str × Str) (acc : Report × ℕ)
      → Total (Adds (imbalanced_at env snap vc market) acc) (
          funding_round env vc
            (env.geth.hex_to_address vc.data_store)
            (env.geth.hex_to_address vc.usdt_token)
            market
            acc)
  unfolding funding_round
  funding_round-Adds (symbol, hex) (rep, n) =
      let count = λ (long : ℤ). counted (is_imbalanced env long) (fee_at env snap vc hex false) in
      Total-bind_post _ _ (int-Always env snap stable _ _) λ x e.
        Total-reply_post x
          (λ long p. Total-bind_post _ _ (int-Always env snap stable _ _) λ y e'.
            Total-reply_post y
              (λ short p'. Total-bind (emit _) _ (Total-emit _) λ _.
                Total-bind (emit _) _ (Total-emit _) λ _.
                  Total-weaken
                    (λ acc (l, k).
                      (l, k ∙ counted_of (is_imbalanced env long) n e' p' ∙ counted_of count n e p))
                    (record_imbalance-Adds symbol long short rep n))
              (λ t p'. Total-pure _ (
                refl,
                none_counted n
                    ∙ counted_of (is_imbalanced env long) n e' p'
                    ∙ counted_of count n e p,
              )))
          (λ t p. Total-pure _ (refl, none_counted n ∙ counted_of count n e p))

-- When the fees do not change during the run, and a range visits every entry of a map once, in any
-- order: for a version with markets the one line of `funding` gives the number of the markets whose
-- two fees were read, are not both 0, and differ by more than 0.9 of the larger one, as the
-- operations on floats have it.
pub funding_run-lines :
    {F W : Type 0} (env : Env F W) (snap : Snapshot) (vc : VersionConfig) (s : State F W)
    → IsStable env snap
    → VisitsAll env
    → (length vc.markets == 0) ≡ false
    → ReturnsWith
        (λ result.
          result.0.lines ≡ imbalance_line (sum_of (imbalanced_at env snap vc) vc.markets) ∷ [])
        (funding_run env vc s)
unfolding funding_run
funding_run-lines env snap vc s stable visits some_market = rw some_market (
    (Total-bind_post _ _ (Total-range env visits vc.markets) λ order p.
        Total-bind_post _ _
          (Adds-range _ (imbalanced_at env snap vc) p (funding_round-Adds env snap stable vc)
            (empty_report, 0))
          λ acc (l, n). Total-bind (emit _) _ (Total-emit _) λ _.
            let total : acc.1 ≡ sum_of (imbalanced_at env snap vc) vc.markets = omega (arith, n) in
            Total-pure (add_line (imbalance_line acc.1) acc.0, none) (rw (l, total) refl)).at
      s)
