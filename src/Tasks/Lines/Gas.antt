-- ===== src/Tasks/Lines/Gas.antt =====
-- The sum of the balances that `keeper_gas` reports.
use hertz_reconciler.Prelude.{
  ℕ, ◌≡◌, refl, sym, ◌∙◌, true, Option, none, some, List, [], ◌∷◌, ◌++◌, append-nil, arith, Str,
  str, str_eq, str_eq_refl, cat, decimal, length, if◌then◌else◌,
}
use hertz_reconciler.Prelude.Int.{pos}
use hertz_reconciler.Prelude.Counts.{sum_of}
use hertz_reconciler.Chain.Client.Snapshot.{
  Snapshot, IsStable, erc20_at, native-Always, erc20-Always,
}
use hertz_reconciler.Chain.Reply.{Reply, ok, err}
use hertz_reconciler.Config.{VersionConfig, StrMap, lookup, is_empty}
use hertz_reconciler.Runtime.{Env, State, emit}
use hertz_reconciler.Runtime.Total.{
  Total, ReturnsWith, Total-bind, Total-bind_post, Total-emit, Total-pure, Total-reply_post,
  Total-if_post,
}
use hertz_reconciler.Reconciler.{Report, empty_report, add_line}
use hertz_reconciler.Tasks.Vault.{wei_to_ether}
use hertz_reconciler.Tasks.Fee.{scaled_float18}
use hertz_reconciler.Tasks.Gas.{keeper_round, keepers_part, distributor_part, gas_run}
use hertz_reconciler.Tasks.Clean.Loop.{VisitsAll, Total-range}
use hertz_reconciler.Tasks.Lines.Loop.{Adds, Adds-range, counted, counted_of, none_counted}

module _ {F W : Type 0} (env : Env F W) where
  -- The line that gives the sum of the balances, in ether.
  abbrev pub keepers_line : StrMap → ℕ → Str
  keepers_line keepers total = cat (
      str "total keeper BNB across "
      ∷ decimal (length keepers)
      ∷ str " wallets: "
      ∷ env.floats.fixed 4 (wei_to_ether env total)
      ∷ [])

  -- A balance that cannot be read counts for nothing.
  abbrev pub balance_of : Snapshot → Str × Str → ℕ
  balance_of snap keeper =
      counted (λ b. b) (snap.balance_answer (env.geth.hex_to_address (keeper.1)))

  -- The line on the FeeDistributorVault, if its balance can be read.
  abbrev balance_line : Reply ℕ → List Str
  balance_line (ok b) =
      cat (str "FeeDistributorVault USDT: " ∷ env.floats.fixed 4 (scaled_float18 env (pos b)) ∷ [])
      ∷ []
  balance_line (err e) = []

  abbrev pub distributor_lines : Snapshot → VersionConfig → Option Str → List Str
  distributor_lines snap vc none = []
  distributor_lines snap vc (some hex) =
      if is_empty vc.usdt_token
      then []
      else balance_line
          (erc20_at env snap (env.geth.hex_to_address vc.usdt_token) (env.geth.hex_to_address hex))

module _ {F W : Type 0} (env : Env F W) (snap : Snapshot) (stable : IsStable env snap) where
  keeper_round-Adds :
      (keeper : Str × Str) (acc : Report × ℕ)
      → Total (Adds (balance_of env snap keeper) acc) (keeper_round env keeper acc)
  unfolding keeper_round
  keeper_round-Adds (label, hex) (rep, total) =
      Total-bind_post _ _ (native-Always env snap stable _) λ x e.
        Total-reply_post x
          (λ b p.
            Total-bind (emit _) _ (Total-emit _)
              λ _. Total-pure _ (refl, counted_of (λ (n : ℕ). n) total e p))
          (λ t p. Total-pure _ (refl, none_counted total ∙ counted_of (λ (n : ℕ). n) total e p))

  keepers_part-lines :
      VisitsAll env
      → (keepers : StrMap) (vc : VersionConfig) (rep : Report) → str_eq vc.name (str "v1") ≡ true
      → Total
          (λ r.
            r.lines
            ≡ rep.lines ++ keepers_line env keepers (sum_of (balance_of env snap) keepers) ∷ [])
          (keepers_part env keepers vc rep)
  unfolding keepers_part
  keepers_part-lines visits keepers vc rep first = rw first (
      Total-bind_post _ _ (Total-range env visits keepers) λ order p.
        Total-bind_post _ _
          (Adds-range (keeper_round env) (balance_of env snap) p keeper_round-Adds (rep, 0))
          λ acc (l, n).
            let total : acc.1 ≡ sum_of (balance_of env snap) keepers = omega (arith, n) in
            Total-pure (add_line (keepers_line env keepers acc.1) acc.0) (rw (l, total) refl))

  distributor_part-lines :
      (vc : VersionConfig) (fd : Option Str) (rep : Report)
      → Total
          (λ r. r.lines ≡ rep.lines ++ distributor_lines env snap vc fd)
          (distributor_part env vc fd rep)
  unfolding distributor_part
  distributor_part-lines vc none rep = Total-pure rep (sym (append-nil rep.lines))
  distributor_part-lines vc (some hex) rep =
      Total-if_post (is_empty vc.usdt_token)
        (λ empty. Total-pure rep (rw empty (sym (append-nil rep.lines))))
        (λ token. Total-bind_post _ _ (erc20-Always env snap stable _ _) λ x e.
          Total-reply_post x
            (λ b p.
              Total-bind (emit _) _ (Total-emit _) λ _. Total-pure _ (rw (token, ← e, p) refl))
            (λ t p. Total-pure _ (rw (token, ← e, p) (sym (append-nil rep.lines)))))

-- When the balances do not change during the run, and a range visits every entry of a map once, in
-- any order: for the version v1 the lines of `keeper_gas` are one with the sum of the balances that
-- were read, and one with the balance of the FeeDistributorVault if there is one, a token is
-- configured and it was read.
pub gas_run-lines :
    {F W : Type 0} (env : Env F W) (snap : Snapshot) (keepers : StrMap) (vc : VersionConfig)
    (s : State F W)
    → IsStable env snap
    → VisitsAll env
    → vc.name ≡ str "v1"
    → ReturnsWith
        (λ result.
          result.0.lines
          ≡ keepers_line env keepers (sum_of (balance_of env snap) keepers)
            ∷ distributor_lines env snap vc (lookup (str "FeeDistributorVault") vc.vaults))
        (gas_run env keepers vc s)
unfolding gas_run
gas_run-lines env snap keepers vc s stable visits first =
    let same : str_eq vc.name (str "v1") ≡ true = rw first (str_eq_refl (str "v1")) in
    (Total-bind_post _ _ (keepers_part-lines env snap stable visits keepers vc empty_report same)
        λ rep l.
          Total-bind_post _ _
            (distributor_part-lines env snap stable vc
              (lookup (str "FeeDistributorVault") vc.vaults) rep)
            λ rep' l'.
              Total-bind (emit _) _ (Total-emit _)
                λ _. Total-pure (rep', none) (rw (l', l) refl)).at
      s
