-- ===== src/Metrics/Steady.antt =====
-- A gauge that is always set to the same value.
use hertz_reconciler.Prelude.{
  ◌≡◌, ◌≢◌, refl, ap, inl, inr, Bool-cases, Option, some, List, [], ◌∷◌, All,
}
use hertz_reconciler.Prelude.Members.{Member, All-Member}
use hertz_reconciler.Metrics.{Event, set_to, set_now, inc, task_failed}
use hertz_reconciler.Metrics.Values.{
  Gauge, same_gauge, same_gauge_refl, same_gauge_sound, set_gauge, value_after, Leaves, Differs,
  Distinct,
}
use hertz_reconciler.Metrics.Reorder.{Differs-symm}
use hertz_reconciler.Prelude.Counts.{All-weaken}

-- The event does not set the gauge, or sets it to the value.
abbrev pub Agrees : {F : Type 0} → Gauge → F → Event F → Type 0
Agrees g x (set_to m values y) = g ≡ (m, values) → y ≡ x
Agrees g x (set_now m values) = g ≢ (m, values)
Agrees g x (inc m values) = Unit
Agrees g x (task_failed task version e) = Unit

module _ {F : Type 0} where
  keeps_value : (g : Gauge) (x : F) (e : Event F) → Agrees g x e → set_gauge g e (some x) ≡ some x
  unfolding set_gauge
  keeps_value g x (set_to m values y) h = elim (Bool-cases (same_gauge g (m, values))) [
    | inl same ↦ rw same (ap some (h (same_gauge_sound g (m, values) same)))
    | inr other ↦ rw other refl
  ]
  keeps_value g x (set_now m values) h = elim (Bool-cases (same_gauge g (m, values))) [
    | inl same ↦ absurd (h (same_gauge_sound g (m, values) same))
    | inr other ↦ rw other refl
  ]
  keeps_value g x (inc m values) h = refl
  keeps_value g x (task_failed task version e) h = refl

  keeps_values :
      (g : Gauge) (x : F) (es : List (Event F))
      → All (Agrees g x) es
      → value_after g (some x) es ≡ some x
  unfolding value_after
  keeps_values g x [] h = refl
  keeps_values g x (e ∷ es) (he, h) = rw (keeps_value g x e he) (keeps_values g x es h)

  sets_value : (g : Gauge) (x : F) (old : Option F) → set_gauge g (set_to g.0 g.1 x) old ≡ some x
  unfolding set_gauge
  sets_value g x old = rw (same_gauge_refl g) refl

  -- Set once, the gauge shows the value from then on.
  pub value_after-Agrees :
      (g : Gauge) (x : F) (old : Option F) (es : List (Event F))
      → Member (set_to g.0 g.1 x) es
      → All (Agrees g x) es
      → value_after g old es ≡ some x
  unfolding value_after
  value_after-Agrees g x old [] there h = absurd there
  value_after-Agrees g x old (e ∷ es) (inl same) (he, h) =
      rw (same, sets_value g x old) (keeps_values g x es h)
  value_after-Agrees g x old (e ∷ es) (inr there) (he, h) =
      value_after-Agrees g x (set_gauge g e old) es there h

  Agrees-Leaves : (g : Gauge) (x : F) (e : Event F) → Leaves g e → Agrees g x e
  Agrees-Leaves g x (set_to m values y) h = λ same. absurd (h same)
  Agrees-Leaves g x (set_now m values) h = h
  Agrees-Leaves g x (inc m values) h = tt
  Agrees-Leaves g x (task_failed task version e) h = tt

  -- The other events of a list of distinct ones agree with each of them.
  pub Distinct-Agrees :
      (g : Gauge) (x : F) (es : List (Event F))
      → Distinct es
      → Member (set_to g.0 g.1 x) es
      → All (Agrees g x) es
  Distinct-Agrees g x [] h there = tt
  Distinct-Agrees g x (e ∷ es) (he, h) (inl same) =
      let differs : All (Leaves g) es = rw same at he in
      (rw same (λ _. refl), All-weaken (Agrees-Leaves g x) es differs)
  Distinct-Agrees g x (e ∷ es) (he, h) (inr there) = (
    Agrees-Leaves g x e
        (Differs-symm e (set_to g.0 g.1 x) (All-Member (set_to g.0 g.1 x) (Differs e) es there he)),
    Distinct-Agrees g x es h there,
  )
