-- ===== src/Metrics/Reorder.antt =====
-- What the gauges show behind events that set different gauges does not depend on their order.
use mathlib.Core.List.{Permᴰ}
use mathlib.Core.Path.{subst}
use hertz_reconciler.Prelude.{
  ◌≡◌, refl, sym, ap, ◌∙◌, inl, inr, Option, some, List, ◌∷◌, Str, All, Bool-cases, arith,
}
use hertz_reconciler.Prelude.Counts.{All-perm}
use hertz_reconciler.Metrics.{Metric, Event, set_to, set_now, inc, task_failed}
use hertz_reconciler.Metrics.Values.{
  Gauge, same_gauge, same_gauge_sound, set_gauge, set_gauge-Leaves, value_after, Leaves, Differs,
  Distinct,
}

module _ {F : Type 0} where
  pub Differs-symm : (e e' : Event F) → Differs e e' → Differs e' e
  Differs-symm (set_to m vs x) (set_to n ws y) h = λ p. h (sym p)
  Differs-symm (set_to m vs x) (set_now n ws) h = h
  Differs-symm (set_to m vs x) (inc n ws) h = tt
  Differs-symm (set_to m vs x) (task_failed a b c) h = tt
  Differs-symm (set_now m vs) (set_to n ws y) h = h
  Differs-symm (set_now m vs) (set_now n ws) h = tt
  Differs-symm (set_now m vs) (inc n ws) h = tt
  Differs-symm (set_now m vs) (task_failed a b c) h = tt
  Differs-symm (inc m vs) (set_to n ws y) h = tt
  Differs-symm (inc m vs) (set_now n ws) h = tt
  Differs-symm (inc m vs) (inc n ws) h = tt
  Differs-symm (inc m vs) (task_failed a b c) h = tt
  Differs-symm (task_failed d e f) (set_to n ws y) h = tt
  Differs-symm (task_failed d e f) (set_now n ws) h = tt
  Differs-symm (task_failed d e f) (inc n ws) h = tt
  Differs-symm (task_failed d e f) (task_failed a b c) h = tt

  pub Distinct-perm : {es fs : List (Event F)} → Permᴰ es fs → Distinct es → Distinct fs
  Distinct-perm Permᴰ.nil h = tt
  Distinct-perm (Permᴰ.cons {l₂ = l₂} e p) (he, h) =
      (subst (λ (x : Event F). All (Differs x) l₂) e (All-perm _ p he), Distinct-perm p h)
  Distinct-perm (Permᴰ.swap {a = a} {b = b} {a' = a'} {b' = b'} {l = l} e f) ((hab, ha), (hb, h)) =
      subst (λ (x : Event F). Distinct (x ∷ b' ∷ l)) f
        (subst (λ (x : Event F). Distinct (b ∷ x ∷ l)) e ((Differs-symm a b hab, hb), (ha, h)))
  Distinct-perm (Permᴰ.trans p q) h = Distinct-perm q (Distinct-perm p h)

  swap_to :
      (g : Gauge) (m : Metric) (vs : List Str) (x : F) (e : Event F) (old : Option F)
      → Leaves (m, vs) e
      → set_gauge g e (set_gauge g (set_to m vs x) old)
        ≡ set_gauge g (set_to m vs x) (set_gauge g e old)
  unfolding set_gauge
  swap_to g m vs x e old h = elim (Bool-cases (same_gauge g (m, vs))) [
    | inl same ↦ rw same (
        set_gauge-Leaves g e (some x)
          (subst (λ (k : Gauge). Leaves k e) (sym (same_gauge_sound g (m, vs) same)) h))
    | inr other ↦ rw other refl
  ]

  set_gauge-swap :
      (g : Gauge) (e e' : Event F) (old : Option F)
      → Differs e e'
      → set_gauge g e' (set_gauge g e old) ≡ set_gauge g e (set_gauge g e' old)
  unfolding set_gauge
  set_gauge-swap g (set_to m vs x) e' old h = swap_to g m vs x e' old h
  set_gauge-swap g (set_now m vs) (set_to n ws y) old h =
      sym (swap_to g n ws y (set_now m vs) old h)
  set_gauge-swap g (set_now m vs) (set_now n ws) old h = ground arith
  set_gauge-swap g (set_now m vs) (inc n ws) old h = refl
  set_gauge-swap g (set_now m vs) (task_failed a b c) old h = refl
  set_gauge-swap g (inc m vs) e' old h = refl
  set_gauge-swap g (task_failed a b c) e' old h = refl

  -- The order of distinct events does not matter.
  pub value_after-perm :
      (g : Gauge) {es fs : List (Event F)}
      → Permᴰ es fs
      → Distinct es
      → (old : Option F) → value_after g old es ≡ value_after g old fs
  unfolding value_after
  value_after-perm g Permᴰ.nil h old = refl
  value_after-perm g (Permᴰ.cons e p) (he, h) old = rw e (value_after-perm g p h _)
  value_after-perm g (Permᴰ.swap {a = a} {b = b} {l = l} e f) ((hab, ha), hb) old =
      rw (← e, ← f) (ap (λ v. value_after g v l) (set_gauge-swap g a b old hab))
  value_after-perm g (Permᴰ.trans p q) h old =
      value_after-perm g p h old ∙ value_after-perm g q (Distinct-perm p h) old
