-- ===== src/Tasks/Clean/Fee.antt =====
-- The findings of `fees`, and the total that it adds up.
use hertz_reconciler.Prelude.{
  ℕ, ◌+◌, ◌*◌, ◌^◌, ◌≤◌, ◌≡◌, ◌↔◌, inl, inr, refl, sym, ◌∙◌, false, Option, none, some, List, [],
  ◌∷◌, ◌++◌, append-nil, Str, str, cat, length, All, arith, ◌==◌, Bool-cases,
}
use hertz_reconciler.Prelude.Counts.{sum_of, sum_of-perm, append-eq-nil}
use hertz_reconciler.Prelude.Int.{ℤ, pos, ◌-ℤ◌, ltb_ℤ}
use hertz_reconciler.Chain.Keys.{claimable_fee_amount_key}
use hertz_reconciler.Chain.Client.{get_uint, balance_of_erc20}
use hertz_reconciler.Chain.Reply.{Reply, ok, err}
use hertz_reconciler.Config.{VersionConfig, lookup}
use hertz_reconciler.Runtime.{Env, State, M, emit}
use hertz_reconciler.Runtime.Total.{
  Total, ReturnsWith, Always, Total-bind, Total-bind_post, Total-pure, Total-emit, Total-weaken,
  Total-both, Total-reply_post, Total-foreach-gather, Total-foreach_sum,
}
use hertz_reconciler.Reconciler.{Report, empty_report}
use hertz_reconciler.Tasks.Fee.{gap_threshold, report_gap, fee_round, fee_gap, fee_run}
use hertz_reconciler.Tasks.Clean.Loop.{VisitsAll, Total-range, none_found_iff, All-rounds}

-- The claimable fee was read.
abbrev pub CleanClaim : Reply ℕ → Type 0
CleanClaim claim = (c : ℕ) × (claim ≡ ok c)

-- What a claim adds to the total: a claim that cannot be read adds nothing.
abbrev pub claimed : Reply ℕ → ℕ
claimed (ok c) = c
claimed (err e) = 0

-- There is no FeeDistributorVault, or its balance was read and the total is at most 1000 USDT
-- above it.
abbrev pub CleanGap : ℕ → Option Str → (Str → Reply ℕ) → Type 0
CleanGap total none balance = Unit
CleanGap total (some hex) balance = (b : ℕ) × (balance hex ≡ ok b) × (total ≤ b + 1000 * 10 ^ 18)

found : Str → Reply ℕ → List Str
found sym (err e) = cat (str "market " ∷ sym ∷ str " claimable fee: " ∷ e ∷ []) ∷ []
found sym (ok c) = []

found_iff : (sym : Str) (claim : Reply ℕ) → (found sym claim ≡ []) ↔ CleanClaim claim
unfolding found
found_iff sym (err e) = ((λ h. cc), (λ (c, p). cc))
found_iff sym (ok c) = ((λ h. (c, refl)), (λ h. refl))

-- The gap is flagged exactly when the total is more than 1000 USDT above the balance.
flagged_iff :
    (total b : ℕ)
    → (ltb_ℤ (pos gap_threshold) (pos total -ℤ pos b) ≡ false) ↔ (total ≤ b + 1000 * 10 ^ 18)
unfolding ◌-ℤ◌
flagged_iff total b = ground arith

report_gap-findings :
    {F W : Type 0} (env : Env F W) (gap : ℤ) (rep : Report)
    → ((report_gap env gap rep).findings ≡ [])
      ↔ ((rep.findings ≡ []) × (ltb_ℤ (pos gap_threshold) gap ≡ false))
unfolding report_gap
report_gap-findings env gap rep = elim (Bool-cases (ltb_ℤ (pos gap_threshold) gap)) [
  | inl e ↦ rw e ((λ h. cc ((append-eq-nil rep.findings _ h).1)), (λ (p, q). cc))
  | inr e ↦ rw e ((λ h. (h, refl)), (λ h. h.0))
]

module _ {F W : Type 0} (env : Env F W) (vc : VersionConfig) (claim balance : Str → Reply ℕ) where
  abbrev pub ReadsClaim : Str → Type 0
  ReadsClaim hex =
      Always
        (get_uint env (env.geth.hex_to_address vc.data_store) (
          claimable_fee_amount_key env.geth (env.geth.hex_to_address hex)
            (env.geth.hex_to_address vc.usdt_token)))
        (claim hex)

  abbrev pub body : Str × Str → Report × ℕ → M F W (Report × ℕ)
  body =
      fee_round env vc (env.geth.hex_to_address vc.data_store)
        (env.geth.hex_to_address vc.usdt_token)

  round-found :
      (sym hex : Str) (rep : Report) (n : ℕ)
      → ReadsClaim hex
      → Total
          (λ acc. acc.0.findings ≡ rep.findings ++ found sym (claim hex))
          (body (sym, hex) (rep, n))
  unfolding fee_round found
  round-found symbol hex rep n h = Total-bind_post (get_uint env _ _) _ h λ r e.
      Total-reply_post r
        (λ c p.
          Total-bind (emit _) _ (Total-emit _)
            λ _. Total-pure _ (rw (sym e ∙ p) (sym (append-nil rep.findings))))
        (λ x p. Total-pure _ (rw (sym e ∙ p)))

  pub round-claimed :
      (sym hex : Str) (rep : Report) (n : ℕ)
      → ReadsClaim hex
      → Total (λ acc. acc.1 ≡ n + claimed (claim hex)) (body (sym, hex) (rep, n))
  unfolding fee_round
  round-claimed symbol hex rep n h = Total-bind_post (get_uint env _ _) _ h λ r e.
      Total-reply_post r
        (λ c p. Total-bind (emit _) _ (Total-emit _) λ _. Total-pure _ (rw (sym e ∙ p)))
        (λ x p. Total-pure _ (rw (sym e ∙ p) (omega arith)))

  gap-found :
      (total : ℕ) (fd : Option Str) (rep : Report)
      → ((hex : Str)
          → Always
              (balance_of_erc20 env
                (env.geth.hex_to_address vc.usdt_token)
                (env.geth.hex_to_address hex))
              (balance hex))
      → Total
          (λ result. (result.0.findings ≡ []) ↔ ((rep.findings ≡ []) × CleanGap total fd balance))
          (fee_gap env vc (env.geth.hex_to_address vc.usdt_token) total fd rep)
  unfolding fee_gap
  gap-found total none rep h = Total-pure _ ((λ e. (e, tt)), (λ e. e.0))
  gap-found total (some hex) rep h = Total-bind_post (balance_of_erc20 env _ _) _ (h hex) λ r e.
      Total-reply_post r
        (λ b p. Total-bind (emit _) _ (Total-emit _) λ _. Total-bind (emit _) _ (Total-emit _) λ _.
          Total-pure _ (
            let both = report_gap-findings env (pos total -ℤ pos b) rep in
            let flag = flagged_iff total b in
            (
              (λ z. let (x, y) = both.0 z in (x, (b, sym e ∙ p, flag.0 y))),
              (λ (x, (b', q, y)). let same : b' ≡ b = cc in both.1 (x, flag.1 (rw (← same) y))),
            )))
        (λ x p.
          Total-pure _ ((λ z. cc ((append-eq-nil rep.findings _ z).1)), (λ (y, (b, q, z)). cc)))

-- When the answers do not change during the run, and a range visits every entry of a map once, in
-- any order, `fees` reports no finding for a version with
-- markets exactly when every claimable fee was read and the FeeDistributorVault, if there is one,
-- was read and is short of the sum of the fees by at most 1000 USDT.
pub fee_run-findings :
    {F W : Type 0} (env : Env F W) (vc : VersionConfig) (claim balance : Str → Reply ℕ)
    (s : State F W)
    → (length vc.markets == 0) ≡ false
    → VisitsAll env
    → ((hex : Str) → ReadsClaim env vc claim balance hex)
    → ((hex : Str)
        → Always
            (balance_of_erc20 env
              (env.geth.hex_to_address vc.usdt_token)
              (env.geth.hex_to_address hex))
            (balance hex))
    → ReturnsWith
        (λ result. (result.0.findings ≡ []) ↔ (
          All (λ market. CleanClaim (claim market.1)) vc.markets
          × CleanGap
              (sum_of (λ market. claimed (claim market.1)) vc.markets)
              (lookup (str "FeeDistributorVault") vc.vaults)
              balance))
        (fee_run env vc s)
unfolding fee_run
fee_run-findings env vc claim balance s some_market visits hc hb =
    let round = body env vc claim balance in
    let found_at = λ (market : Str × Str). found market.0 (claim market.1) in
    let clean_at = λ (market : Str × Str). CleanClaim (claim market.1) in
    let claimed_at = λ (market : Str × Str). claimed (claim market.1) in
    let fd = lookup (str "FeeDistributorVault") vc.vaults in
    rw some_market (
      (Total-bind_post _ _ (Total-range env visits vc.markets) λ order p.
          Total-bind_post _ _
            (Total-both
              (Total-foreach-gather round (λ acc. acc.0.findings) found_at order
                (All-rounds
                  (λ market acc.
                    round-found env vc claim balance market.0 market.1 acc.0 acc.1 (hc market.1))
                  order)
                (empty_report, 0))
              (Total-foreach_sum round (λ acc. acc.1) claimed_at order
                (All-rounds
                  (λ market acc.
                    round-claimed env vc claim balance market.0 market.1 acc.0 acc.1 (hc market.1))
                  order)
                (empty_report, 0)))
            λ acc (q, t). Total-bind (emit _) _ (Total-emit _) λ _.
              Total-weaken
                (λ result both.
                  let total : acc.1 ≡ sum_of claimed_at vc.markets =
                    omega (arith, t, sum_of-perm claimed_at p) in
                  let clean =
                    none_found_iff found_at clean_at (λ market. found_iff market.0 (claim market.1))
                      order vc.markets p in
                  (
                    (λ z. let (x, y) = both.0 z in (clean.0 (sym q ∙ x), rw (← total) y)),
                    (λ (x, y). both.1 (q ∙ clean.1 x, rw total y)),
                  ))
                (gap-found env vc claim balance acc.1 fd _ hb)).at
        s)
