-- ===== src/Tasks/Gauges/Apart/Markets.antt =====
-- The tasks on the markets, the lists and the feeds set different gauges.
use hertz_reconciler.Prelude.{
  ℕ, ◌≡◌, refl, sym, Bool, true, false, Option, none, some, List, [], ◌∷◌, ◌++◌, Str, str, str_eq,
  str_eq_sound, length, ltb, map, gather, ◌==◌, if◌then◌else◌,
}
use hertz_reconciler.Prelude.Int.{ℤ}
use hertz_reconciler.Prelude.Counts.{All-rounds}
use hertz_reconciler.Chain.Client.Snapshot.{Snapshot}
use hertz_reconciler.Config.{VersionConfig, Config, lookup}
use hertz_reconciler.Metrics.{
  Event, series_name, market_min_collateral_factor, market_borrowing_factor,
  total_claimable_fee_usdt, market_oi, market_pool_amount,
}
use hertz_reconciler.Metrics.Values.{Gauge}
use hertz_reconciler.Metrics.Apart.{
  Apart, Apart-nil, Apart-append, Apart-stamp, Apart-if, Apart-gather, all_differ, none_equals,
  all_differ_sound,
}
use hertz_reconciler.Runtime.{Env}
use hertz_reconciler.Tasks.Params.{sides}
use hertz_reconciler.Tasks.Funding.Bounds.{larger}
use hertz_reconciler.Tasks.Queue.{ListSpec, lists}
use hertz_reconciler.Tasks.Chainlink.{default_bsc_testnet_feeds}
use hertz_reconciler.Tasks.Clean.Order.{
  params_task, fees_task, funding_task, queue_task, oi_task, oracle_task, feeds_task,
}
use hertz_reconciler.Tasks.Gauges.Entries.{
  stamp, params_gauges, borrowing_gauges, claim_gauges, gap_gauges, ratio_gauges, both_gauges,
  funding_at, funding_gauges, queue_gauges, interest_gauges, oi_gauges, feed_gauges,
}
use hertz_reconciler.Tasks.Gauges.Expected.{gauges_of}
use hertz_reconciler.Tasks.Gauges.Places.{
  entry, part, is_metric, key_of, IsVersionNamed, Of, Apart-one, Apart-on_ok, Apart-shown,
}

module _ {F W : Type 0} (env : Env F W) (snap : Snapshot) (vc : VersionConfig) where
  -- A task that visits the markets.
  markets-Apart :
      {P : Gauge → Type 0} (f : Str × Str → List (Event F)) (label : Str)
      → IsVersionNamed vc
      → ((market : Str × Str) → Apart (λ g. P g × (entry g ≡ key_of market)) (f market))
      → Apart P (if length vc.markets == 0 then [] else gather f vc.markets ++ stamp label)
  markets-Apart f label named h =
      Apart-if (length vc.markets == 0) (λ _. Apart-nil)
        (λ _.
          Apart-stamp _ _
            (Apart-gather _ entry key_of f vc.markets named.markets (All-rounds h vc.markets)))

  -- The two sides of a market.
  sides-Apart :
      {P : Gauge → Type 0} (f : Str × Bool → List (Event F))
      → ((side : Str × Bool) → Apart (λ g. P g × (part g ≡ side.0)) (f side))
      → Apart P (gather f sides)
  unfolding all_differ none_equals str_eq str
  sides-Apart f h =
      Apart-gather _ part (λ side. side.0) f sides
        (all_differ_sound (map (λ (side : Str × Bool). side.0) sides) refl) (All-rounds h sides)

  params_gauges-Apart :
      (market : Str × Str)
      → Apart
          (λ g. Of vc params_task g × (entry g ≡ key_of market))
          (params_gauges env snap vc market)
  unfolding series_name str_eq str
  params_gauges-Apart (symbol, hex) =
      Apart-append (is_metric market_min_collateral_factor) _
        (gather (borrowing_gauges env snap vc symbol hex) sides ++ _)
        (Apart-shown _ _ _ _ ((((tt, refl), refl), refl), refl) refl)
        (Apart-append (is_metric market_borrowing_factor)
          (gather (borrowing_gauges env snap vc symbol hex) sides) _
          (sides-Apart (borrowing_gauges env snap vc symbol hex) λ (side, is_long).
            Apart-shown _ _ _ _ ((((((tt, refl), refl), refl), refl), refl), refl) refl)
          (Apart-shown _ _ _ _ (((((tt, refl), refl), refl), refl), refl) refl))

  pub params-Apart :
      (cfg : Config) (now : ℕ)
      → IsVersionNamed vc
      → Apart (Of vc params_task) (gauges_of env snap vc cfg now params_task)
  params-Apart cfg now named = markets-Apart _ _ named params_gauges-Apart

  oi_gauges-Apart :
      (market : Str × Str)
      → Apart (λ g. Of vc oi_task g × (entry g ≡ key_of market)) (oi_gauges env snap vc market)
  unfolding series_name str_eq str
  oi_gauges-Apart (symbol, hex) =
      Apart-append (λ g. length g.1 == 3) (gather (interest_gauges env snap vc symbol hex) sides) _
        (sides-Apart (interest_gauges env snap vc symbol hex) λ (side, is_long).
          Apart-append (is_metric market_oi) _ _
            (Apart-shown _ _ _ _ ((((((tt, refl), refl), refl), refl), refl), refl) refl)
            (Apart-shown _ _ _ _ ((((((tt, refl), refl), refl), refl), refl), refl) refl))
        (Apart-append (is_metric market_pool_amount) _ _
          (Apart-shown _ _ _ _ (((((tt, refl), refl), refl), refl), refl) refl)
          (Apart-shown _ _ _ _ (((((tt, refl), refl), refl), refl), refl) refl))

  pub oi-Apart :
      (cfg : Config) (now : ℕ)
      → IsVersionNamed vc
      → Apart (Of vc oi_task) (gauges_of env snap vc cfg now oi_task)
  oi-Apart cfg now named = markets-Apart _ _ named oi_gauges-Apart

  both_gauges-Apart :
      (symbol : Str) (long short : ℤ)
      → Apart
          (λ g. Of vc funding_task g × (entry g ≡ symbol))
          (both_gauges env snap vc symbol long short)
  unfolding series_name str_eq str
  both_gauges-Apart symbol long short =
      let ratio = ratio_gauges env snap vc symbol long short in
      Apart-append (λ g. str_eq (part g) (str "long")) (_ ∷ []) (_ ∷ ratio)
        (Apart-one _ _ _ ((((tt, refl), refl), refl), refl) refl)
        (Apart-append (λ g. str_eq (part g) (str "short")) (_ ∷ []) ratio
          (Apart-one _ _ _ (((((tt, refl), refl), refl), refl), refl) refl)
          (Apart-if (ltb 0 (larger long short))
            (λ _. Apart-one _ _ _ (((((tt, refl), refl), refl), refl), refl) refl)
            (λ _. Apart-nil)))

  funding_gauges-Apart :
      (market : Str × Str)
      → Apart
          (λ g. Of vc funding_task g × (entry g ≡ key_of market))
          (funding_gauges env snap vc market)
  funding_gauges-Apart (symbol, hex) = Apart-on_ok _ (funding_at env snap vc true hex) λ long.
      Apart-on_ok _ (funding_at env snap vc false hex) λ short. both_gauges-Apart symbol long short

  pub funding-Apart :
      (cfg : Config) (now : ℕ)
      → IsVersionNamed vc
      → Apart (Of vc funding_task) (gauges_of env snap vc cfg now funding_task)
  funding-Apart cfg now named = markets-Apart _ _ named funding_gauges-Apart

  gap_gauges-Apart :
      (total : ℕ) (fd : Option Str)
      → Apart
          (λ g.
            (Of vc fees_task g × ((length g.1 == 2) ≡ false))
            × (is_metric total_claimable_fee_usdt g ≡ false))
          (gap_gauges env snap vc total fd)
  unfolding series_name str_eq str
  gap_gauges-Apart total none = Apart-nil
  gap_gauges-Apart total (some hex) =
      Apart-on_ok _ _
        λ balance. Apart-stamp (_ ∷ []) _ (Apart-one _ _ _ ((((tt, refl), refl), refl), refl) refl)

  pub fees-Apart :
      (cfg : Config) (now : ℕ)
      → IsVersionNamed vc
      → Apart (Of vc fees_task) (gauges_of env snap vc cfg now fees_task)
  unfolding series_name str_eq str
  fees-Apart cfg now named =
      Apart-if (length vc.markets == 0) (λ _. Apart-nil)
        (λ _.
          Apart-append (λ g. length g.1 == 2) _
            (_ ∷ gap_gauges env snap vc _ (lookup (str "FeeDistributorVault") vc.vaults))
            (Apart-gather _ entry key_of (claim_gauges env snap vc) vc.markets named.markets (
              All-rounds
                (λ (symbol, hex). Apart-shown _ _ _ _ ((((tt, refl), refl), refl), refl) refl)
                vc.markets))
            (Apart-append (is_metric total_claimable_fee_usdt) (_ ∷ []) _
              (Apart-one _ _ _ ((((tt, refl), refl), refl), refl) refl) (gap_gauges-Apart _ _)))

  queue_gauges-Apart :
      (l : ListSpec)
      → Apart (λ g. Of vc queue_task g × (entry g ≡ l.label)) (queue_gauges env snap vc l)
  queue_gauges-Apart l = Apart-shown _ _ _ _ (((tt, refl), refl), refl) refl

  pub queue-Apart :
      (cfg : Config) (now : ℕ) → Apart (Of vc queue_task) (gauges_of env snap vc cfg now queue_task)
  unfolding lists all_differ none_equals str_eq str
  queue-Apart cfg now = Apart-stamp _ _ (
      Apart-gather _ entry (λ l. l.label) (queue_gauges env snap vc) (lists env.geth)
        (all_differ_sound (map (λ (l : ListSpec). l.label) (lists env.geth)) refl)
        (All-rounds queue_gauges-Apart (lists env.geth)))

  pub oracle-Apart :
      (cfg : Config) (now : ℕ)
      → Apart (Of vc oracle_task) (gauges_of env snap vc cfg now oracle_task)
  oracle-Apart cfg now = Apart-stamp _ _ (Apart-shown _ _ _ _ ((tt, refl), refl) refl)

  feed_gauges-Apart :
      (now : ℕ)
      → vc.name ≡ str "v1"
      → (feed : Str × Str)
      → Apart (λ g. Of vc feeds_task g × (entry g ≡ key_of feed)) (feed_gauges env snap vc now feed)
  feed_gauges-Apart now first (label, hex) =
      Apart-shown _ _ _ _ (((tt, sym first), refl), refl) refl

  pub feeds-Apart :
      (cfg : Config) (now : ℕ) → Apart (Of vc feeds_task) (gauges_of env snap vc cfg now feeds_task)
  unfolding default_bsc_testnet_feeds all_differ none_equals str_eq str
  feeds-Apart cfg now =
      Apart-if (str_eq vc.name (str "v1"))
        (λ first. Apart-stamp _ _ (
          Apart-gather _ entry key_of (feed_gauges env snap vc now) default_bsc_testnet_feeds
            (all_differ_sound (map key_of default_bsc_testnet_feeds) refl)
            (All-rounds (feed_gauges-Apart now (str_eq_sound vc.name (str "v1") first))
              default_bsc_testnet_feeds)))
        (λ _. Apart-nil)
