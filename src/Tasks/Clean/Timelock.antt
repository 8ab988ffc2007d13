-- ===== src/Tasks/Clean/Timelock.antt =====
-- The findings of `timelock`.
use hertz_reconciler.Prelude.{
  ℕ, ◌≤◌, ◌≡◌, ◌↔◌, ◌⊎◌, inl, inr, refl, sym, ◌∙◌, true, List, [], ◌∷◌, ◌++◌, append-nil, Str, str,
  cat, decimal, arith, ltb, ltb→lt, if◌then◌else◌, Bool-cases,
}
use hertz_reconciler.Chain.Client.{get_min_delay}
use hertz_reconciler.Chain.Reply.{Reply, ok, err}
use hertz_reconciler.Config.{VersionConfig, is_empty}
use hertz_reconciler.Runtime.{Env, State, emit}
use hertz_reconciler.Runtime.Total.{
  Total, ReturnsWith, Always, Total-bind, Total-bind_post, Total-pure, Total-emit, Total-reply_post,
  Total-foreach-gather,
}
use hertz_reconciler.Reconciler.{Report, empty_report}
use hertz_reconciler.Tasks.Timelock.{report_delay, timelock_round, timelock_run}
use hertz_reconciler.Tasks.Clean.Loop.{VisitsAll, Total-range, none_found_iff, All-rounds}

-- There is no such timelock, or its delay was read and is at least 60 seconds.
abbrev pub CleanDelay : Str → Reply ℕ → Type 0
CleanDelay hex delay = (is_empty hex ≡ true) ⊎ ((d : ℕ) × (delay ≡ ok d) × (60 ≤ d))

-- The findings of one timelock, by what its delay reads as.
found : Str → Str → Reply ℕ → List Str
found label hex (err e) =
    if is_empty hex then [] else cat (label ∷ str " timelock minDelay: " ∷ e ∷ []) ∷ []
found label hex (ok d) =
    if is_empty hex
    then []
    else if ltb d 60
    then cat (label ∷ str " timelock minDelay is only " ∷ decimal d ∷ str "s — verify" ∷ []) ∷ []
    else []

found_iff :
    (label hex : Str) (delay : Reply ℕ) → (found label hex delay ≡ []) ↔ CleanDelay hex delay
unfolding found
found_iff label [] (err e) = ((λ h. inl refl), (λ h. refl))
found_iff label [] (ok d) = ((λ h. inl refl), (λ h. refl))
found_iff label (c ∷ hex) (err e) = ((λ h. cc), (λ h. elim h [ inl p ↦ cc | inr (d, p, q) ↦ cc ]))
found_iff label (c ∷ hex) (ok d) = elim (Bool-cases (ltb d 60)) [
  | inl low ↦
      rw (low, found)
        (
          (λ h. cc),
          (λ h. elim h [
            | inl p ↦ cc
            | inr (d', p, q) ↦
                let same : d ≡ d' = cc in absurd (omega (arith, same, ltb→lt d 60 low))
          ]),
        )
  | inr high ↦ rw (high, found) ((λ h. inr (d, refl, ground arith)), (λ h. refl))
]

module _ {F W : Type 0} (env : Env F W) (vc : VersionConfig) (delay : Str → Reply ℕ) where
  round-found :
      (label hex : Str) (rep : Report)
      → Always (get_min_delay env (env.geth.hex_to_address hex)) (delay hex)
      → Total
          (λ r. r.findings ≡ rep.findings ++ found label hex (delay hex))
          (timelock_round env vc (label, hex) rep)
  unfolding timelock_round report_delay found
  round-found label [] rep h = Total-pure rep (sym (empty_found (delay [])))
    where
      empty_found : (r : Reply ℕ) → rep.findings ++ found label [] r ≡ rep.findings
      empty_found (ok d) = append-nil rep.findings
      empty_found (err e) = append-nil rep.findings
  round-found label (c ∷ hex) rep h = Total-bind_post (get_min_delay env _) _ h λ r e.
      Total-reply_post r
        (λ d p. Total-bind (emit _) _ (Total-emit _) λ _.
          Total-pure _ (elim (Bool-cases (ltb d 60)) [
            | inl low ↦ rw (sym e ∙ p, low)
            | inr high ↦ rw (sym e ∙ p, high) (sym (append-nil rep.findings))
          ]))
        (λ x p. Total-pure _ (rw (sym e ∙ p)))

-- When the delays do not change during the run, and a range visits every entry of a map once, in
-- any order, `timelock` reports no finding exactly when each of
-- the two configured timelocks is absent, or its delay was read and is at least 60 seconds.
pub timelock_run-findings :
    {F W : Type 0} (env : Env F W) (vc : VersionConfig) (delay : Str → Reply ℕ) (s : State F W)
    → VisitsAll env
    → ((hex : Str) → Always (get_min_delay env (env.geth.hex_to_address hex)) (delay hex))
    → ReturnsWith
        (λ result. (result.0.findings ≡ []) ↔ (
          CleanDelay vc.gov_timelock (delay vc.gov_timelock)
          × CleanDelay vc.config_timelock (delay vc.config_timelock)))
        (timelock_run env vc s)
unfolding timelock_run
timelock_run-findings env vc delay s visits hd =
    let timelocks = (str "gov", vc.gov_timelock) ∷ (str "config", vc.config_timelock) ∷ [] in
    let found_at = λ (entry : Str × Str). found entry.0 entry.1 (delay entry.1) in
    let clean_at = λ (entry : Str × Str). CleanDelay entry.1 (delay entry.1) in
    (Total-bind_post _ _ (Total-range env visits timelocks) λ order p.
        Total-bind_post _ _
          (Total-foreach-gather (timelock_round env vc) (λ r. r.findings) found_at order
            (All-rounds (λ entry rep. round-found env vc delay entry.0 entry.1 rep (hd entry.1))
              order)
            empty_report)
          λ rep q. Total-bind (emit _) _ (Total-emit _) λ _. Total-pure _ (
            let both =
              none_found_iff found_at clean_at (λ entry. found_iff entry.0 entry.1 (delay entry.1))
                order timelocks p in
            rw q ((λ h. let (a, (b, _)) = both.0 h in (a, b)), (λ (a, b). both.1 (a, (b, tt)))))).at
      s
