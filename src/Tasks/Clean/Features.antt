-- ===== src/Tasks/Clean/Features.antt =====
-- The findings of `features`.
use mathlib.Core.List.Permᴰ
use hertz_reconciler.Prelude.{ℕ, ◌≡◌, ◌↔◌, refl, Bool, true, false, [], Str, str, All}
use hertz_reconciler.Prelude.Counts.{append-eq-nil, All-perm}
use hertz_reconciler.Chain.Keys.{feature_key_root, feature_key_for_handler}
use hertz_reconciler.Chain.Client.{get_bool}
use hertz_reconciler.Chain.Reply.{Reply, ok}
use hertz_reconciler.Config.{VersionConfig}
use hertz_reconciler.Runtime.{Env, State, M, emit, on_reply}
use hertz_reconciler.Runtime.Total.{
  Total, ReturnsWith, Always, Total-bind, Total-bind_post, Total-pure, Total-emit, Total-weaken,
  Total-reply_post, Total-foreach_iff,
}
use hertz_reconciler.Reconciler.{Report, empty_report}
use hertz_reconciler.Tasks.Features.{
  default_feature_names, record_flag, handler_round, feature_round, features_run,
}
use hertz_reconciler.Tasks.Clean.Loop.{VisitsAll, Total-range}

-- No finding yet.
abbrev Clean : Report × ℕ → Type 0
Clean acc = acc.0.findings ≡ []

-- The flag was read, and the feature is not paused.
abbrev pub IsActive : Reply Bool → Type 0
IsActive flag = flag ≡ ok false

module _ {F W : Type 0} (env : Env F W) (vc : VersionConfig) (root : Str → Reply Bool)
    (handler : Str → Str → Reply Bool) where
  record_flag-Clean :
      (name label : Str) (v : Bool) (rep : Report) (n : ℕ)
      → Total
          (λ acc. Clean acc ↔ ((rep.findings ≡ []) × (v ≡ false)))
          (record_flag env vc name label v (rep, n))
  unfolding record_flag
  record_flag-Clean name label true rep n =
      Total-bind (emit _) _ (Total-emit _)
        λ _. Total-pure _ ((λ z. cc ((append-eq-nil rep.findings _ z).1)), (λ (x, y). cc))
  record_flag-Clean name label false rep n =
      Total-bind (emit _) _ (Total-emit _) λ _. Total-pure _ ((λ z. (z, refl)), (λ z. z.0))

  -- What follows a probe whose answer is known.
  answered-Clean :
      (flag r : Reply Bool) (name label : Str) (rep : Report) (n : ℕ) (g : Str → M F W (Report × ℕ))
      → r ≡ flag
      → ((e : Str) → Total (λ acc. ¬ Clean acc) (g e))
      → Total
          (λ acc. Clean acc ↔ ((rep.findings ≡ []) × IsActive flag))
          (on_reply r (λ v. record_flag env vc name label v (rep, n)) g)
  answered-Clean flag r name label rep n g e k =
      Total-reply_post r
        (λ v p.
          Total-weaken
            (λ acc both. (
              (λ z. let (x, y) = both.0 z in (x, cc)),
              (λ (x, y). let off : v ≡ false = cc in both.1 (x, off)),
            ))
            (record_flag-Clean name label v rep n))
        (λ x p. Total-weaken (λ acc no. ((λ z. absurd (no z)), (λ (y, q). cc))) (k x))

  handler_round-Clean :
      (name label hex : Str) (rep : Report) (n : ℕ)
      → Always
          (get_bool env
            (env.geth.hex_to_address vc.data_store)
            (feature_key_for_handler env.geth name (env.geth.hex_to_address hex)))
          (handler name hex)
      → Total
          (λ acc. Clean acc ↔ ((rep.findings ≡ []) × IsActive (handler name hex)))
          (handler_round env vc (env.geth.hex_to_address vc.data_store) name (label, hex) (rep, n))
  unfolding handler_round
  handler_round-Clean name label hex rep n h = Total-bind_post _ _ h λ r e.
      answered-Clean (handler name hex) r name label rep n _ e
        (λ x. Total-pure _ (λ z. cc ((append-eq-nil rep.findings _ z).1)))

  feature_round-Clean :
      VisitsAll env
      → (name : Str) (rep : Report) (n : ℕ)
      → Always
          (get_bool env (env.geth.hex_to_address vc.data_store) (feature_key_root env.geth name))
          (root name)
      → ((hex : Str)
          → Always
              (get_bool env
                (env.geth.hex_to_address vc.data_store)
                (feature_key_for_handler env.geth name (env.geth.hex_to_address hex)))
              (handler name hex))
      → Total
          (λ acc. Clean acc ↔ (
            (rep.findings ≡ [])
            × (IsActive (root name) × All (λ h. IsActive (handler name h.1)) vc.handlers)))
          (feature_round env vc (env.geth.hex_to_address vc.data_store) name (rep, n))
  unfolding feature_round
  feature_round-Clean visits name rep n hr hh =
      let active = λ (h : Str × Str). IsActive (handler name h.1) in
      Total-bind_post _ _ hr λ r e.
        Total-bind_post _ _
          (answered-Clean (root name) r name (str "root") rep n _ e
            (λ x. Total-pure _ (λ z. cc ((append-eq-nil rep.findings _ z).1))))
          λ acc both. Total-bind_post _ _ (Total-range env visits vc.handlers) λ order p.
            Total-weaken
              (λ acc' each. (
                (λ z.
                    let (x, y) = each.0 z in
                    let (u, v) = both.0 x in (u, (v, All-perm active p y))),
                (λ (u, (v, y)). each.1 (both.1 (u, v), All-perm active (Permᴰ.symm p) y)),
              ))
              (Total-foreach_iff (handler_round env vc (env.geth.hex_to_address vc.data_store) name)
                Clean active order (λ h a. handler_round-Clean name h.0 h.1 a.0 a.1 (hh h.1)) acc)

-- When the flags do not change during the run, and a range visits every entry of a map once, in
-- any order, `features` reports no finding exactly when, for each
-- of the feature names, the flag of the protocol and that of every handler were read and are off.
pub features_run-findings :
    {F W : Type 0} (env : Env F W) (vc : VersionConfig) (root : Str → Reply Bool)
    (handler : Str → Str → Reply Bool) (s : State F W)
    → VisitsAll env
    → ((name : Str)
        → Always
            (get_bool env (env.geth.hex_to_address vc.data_store) (feature_key_root env.geth name))
            (root name))
    → ((name hex : Str)
        → Always
            (get_bool env
              (env.geth.hex_to_address vc.data_store)
              (feature_key_for_handler env.geth name (env.geth.hex_to_address hex)))
            (handler name hex))
    → ReturnsWith
        (λ result.
          (result.0.findings ≡ [])
          ↔ All
              (λ name. IsActive (root name) × All (λ h. IsActive (handler name h.1)) vc.handlers)
              default_feature_names)
        (features_run env vc s)
unfolding features_run
features_run-findings env vc root handler s visits hr hh =
    (Total-bind_post _ _
        (Total-foreach_iff (feature_round env vc (env.geth.hex_to_address vc.data_store)) Clean
          (λ name. IsActive (root name) × All (λ h. IsActive (handler name h.1)) vc.handlers)
          default_feature_names
          (λ name acc.
            feature_round-Clean env vc root handler visits name acc.0 acc.1 (hr name) (hh name))
          (empty_report, 0))
        λ acc both.
          Total-bind (emit _) _ (Total-emit _)
            λ _. Total-pure _ ((λ z. (both.0 z).1), (λ y. both.1 (refl, y)))).at
      s
