-- ===== src/Tasks/Clean/Vault.antt =====
-- The findings of `vault_balances`.
use hertz_reconciler.Prelude.{
  ℕ, ◌≡◌, ◌↔◌, inl, inr, refl, sym, ap, ◌∙◌, Bool, false, ◌&&◌, ◌||◌, List, [], ◌∷◌, ◌++◌,
  append-nil, Str, str, str_eq, cat, length, All, ◌==◌, Bool-cases,
}
use hertz_reconciler.Prelude.Int.{pos}
use hertz_reconciler.Chain.Reply.{Reply, ok, err}
use hertz_reconciler.Chain.Client.{balance_of_native, balance_of_erc20}
use hertz_reconciler.Config.{VersionConfig}
use hertz_reconciler.Runtime.{Env, State, emit}
use hertz_reconciler.Runtime.Total.{
  Total, ReturnsWith, Always, Total-bind, Total-bind_post, Total-pure, Total-emit, Total-reply_post,
  Total-if_post, Total-foreach-gather,
}
use hertz_reconciler.Reconciler.{Report, empty_report}
use hertz_reconciler.Tasks.Vault.{report_vault, vault_round, vault_run}
use hertz_reconciler.Tasks.Clean.Loop.{
  VisitsAll, Total-range, none_found_iff, All-empty, All-rounds,
}

module _ {F W : Type 0} (env : Env F W) where
  -- An OrderVault or a DepositVault whose USDT balance, as a float, is above 1.
  abbrev pub is_stuck : Str → ℕ → Bool
  is_stuck name usdt =
      env.floats.gt (env.floats.over_1e18 (pos usdt)) env.floats.one
      && (str_eq name (str "OrderVault") || str_eq name (str "DepositVault"))

  -- Both balances were read, and the vault is not stuck.
  abbrev pub CleanVault : Str → Reply ℕ → Reply ℕ → Type 0
  CleanVault name native usdt =
      (b : ℕ) × (u : ℕ) × (native ≡ ok b) × (usdt ≡ ok u) × (is_stuck name u ≡ false)

  -- The findings of one vault, by what its two balances read as.
  found : Str → Reply ℕ → Reply ℕ → List Str
  unfolding report_vault
  found name (err e) usdt = cat (name ∷ str " native balance: " ∷ e ∷ []) ∷ []
  found name (ok b) (err e) = cat (name ∷ str " USDT balance: " ∷ e ∷ []) ∷ []
  found name (ok b) (ok u) = (report_vault env name b u empty_report).findings

  report_vault-findings :
      (name : Str) (b u : ℕ) (rep : Report)
      → (report_vault env name b u rep).findings
        ≡ rep.findings ++ (report_vault env name b u empty_report).findings
  unfolding report_vault
  report_vault-findings name b u rep = elim (Bool-cases (is_stuck name u)) [
    | inl e ↦ rw e
    | inr e ↦ rw e (sym (append-nil rep.findings))
  ]

  found_iff :
      (name : Str) (native usdt : Reply ℕ)
      → (found name native usdt ≡ []) ↔ CleanVault name native usdt
  unfolding found
  found_iff name (err e) usdt = ((λ h. cc), (λ (b, u, p, q, c). cc))
  found_iff name (ok b) (err e) = ((λ h. cc), (λ (b, u, p, q, c). cc))
  found_iff name (ok b) (ok u) = elim (Bool-cases (is_stuck name u)) [
    | inl e ↦
        rw (e, found)
          (
            (λ h. cc),
            (λ (b', u', p, q, c). let same : u ≡ u' = cc in cc (e, c, ap (is_stuck name) same)),
          )
    | inr e ↦ rw (e, found) ((λ h. (b, u, refl, refl, e)), (λ h. refl))
  ]

module _ {F W : Type 0} (env : Env F W) (vc : VersionConfig) (native usdt : Str → Reply ℕ) where
  round-found :
      (name hex : Str) (rep : Report)
      → Always (balance_of_native env (env.geth.hex_to_address hex)) (native hex)
      → Always
          (balance_of_erc20 env
            (env.geth.hex_to_address vc.usdt_token)
            (env.geth.hex_to_address hex))
          (usdt hex)
      → Total
          (λ r. r.findings ≡ rep.findings ++ found env name (native hex) (usdt hex))
          (vault_round env vc (env.geth.hex_to_address vc.usdt_token) (name, hex) rep)
  unfolding vault_round found
  round-found name hex rep hn hu = Total-bind_post (balance_of_native env _) _ hn λ r e.
      Total-reply_post r
        (λ b p. Total-bind (emit _) _ (Total-emit _) λ _.
          Total-bind_post (balance_of_erc20 env _ _) _ hu λ r' e'.
            Total-reply_post r'
              (λ u p'. Total-bind (emit _) _ (Total-emit _) λ _.
                Total-pure _ (rw (sym e ∙ p, sym e' ∙ p') (report_vault-findings env name b u rep)))
              (λ x p'. Total-pure _ (rw (sym e ∙ p, sym e' ∙ p'))))
        (λ x p. Total-pure _ (rw (sym e ∙ p)))

-- When the balances do not change during the run, and a range visits every entry of a map once, in
-- any order, `vault_balances` reports no finding exactly when both balances of every vault of the
-- version were read and no OrderVault or DepositVault has a USDT balance that, converted to a float
-- and divided by 1e18, is above 1 as the comparison of floats has it. No other vault is a finding for
-- what it holds, however much that is.
pub vault_run-findings :
    {F W : Type 0} (env : Env F W) (vc : VersionConfig) (native usdt : Str → Reply ℕ)
    (s : State F W)
    → VisitsAll env
    → ((hex : Str) → Always (balance_of_native env (env.geth.hex_to_address hex)) (native hex))
    → ((hex : Str)
        → Always
            (balance_of_erc20 env
              (env.geth.hex_to_address vc.usdt_token)
              (env.geth.hex_to_address hex))
            (usdt hex))
    → ReturnsWith
        (λ result.
          (result.0.findings ≡ [])
          ↔ All (λ entry. CleanVault env entry.0 (native entry.1) (usdt entry.1)) vc.vaults)
        (vault_run env vc s)
unfolding vault_run
vault_run-findings env vc native usdt s visits hn hu =
    let body = vault_round env vc (env.geth.hex_to_address vc.usdt_token) in
    let found_at = λ (entry : Str × Str). found env entry.0 (native entry.1) (usdt entry.1) in
    let clean_at = λ (entry : Str × Str). CleanVault env entry.0 (native entry.1) (usdt entry.1) in
    (Total-if_post (length vc.vaults == 0)
        (λ e. Total-pure _ ((λ h. All-empty clean_at vc.vaults e), (λ h. refl)))
        (λ e. Total-bind_post _ _ (Total-range env visits vc.vaults) λ order p.
          Total-bind_post _ _
            (Total-foreach-gather body (λ r. r.findings) found_at order
              (All-rounds
                (λ entry rep.
                  round-found env vc native usdt entry.0 entry.1 rep (hn entry.1) (hu entry.1))
                order)
              empty_report)
            λ rep q. Total-bind (emit _) _ (Total-emit _) λ _. Total-pure _ (
              rw q (
                none_found_iff found_at clean_at
                  (λ entry. found_iff env entry.0 (native entry.1) (usdt entry.1)) order vc.vaults
                  p)))).at
      s
