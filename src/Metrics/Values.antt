-- ===== src/Metrics/Values.antt =====
-- The value that a gauge shows behind a list of events.
use hertz_reconciler.Prelude.{
  ◌≡◌, ◌≢◌, refl, inl, inr, Bool, true, false, ◌&&◌, Option, none, some, List, [], ◌∷◌, ◌++◌, Str,
  str_eq, str_eq_refl, str_eq_sound, All, Bool-cases, arith, if◌then◌else◌,
}
use hertz_reconciler.Prelude.Counts.{All-weaken}
use hertz_reconciler.Metrics.{Metric, Event, set_to, set_now, inc, task_failed, series_name}
use hertz_reconciler.Metrics.Names.{series_name-injective}

-- A series and the values of its labels.
abbrev pub Gauge : Type 0
Gauge = Metric × List Str

unfoldable pub strs_eq : List Str → List Str → Bool
strs_eq [] [] = true
strs_eq (s ∷ ss) (t ∷ ts) = str_eq s t && strs_eq ss ts
strs_eq ss ts = false

strs_eq_refl : (ss : List Str) → strs_eq ss ss ≡ true
unfolding strs_eq
strs_eq_refl [] = refl
strs_eq_refl (s ∷ ss) = ground (arith, str_eq_refl s, strs_eq_refl ss)

strs_eq_sound : (ss ts : List Str) → strs_eq ss ts ≡ true → ss ≡ ts
unfolding strs_eq
strs_eq_sound [] [] h = refl
strs_eq_sound [] (t ∷ ts) h = cc
strs_eq_sound (s ∷ ss) [] h = cc
strs_eq_sound (s ∷ ss) (t ∷ ts) h = ground (arith, str_eq_sound s t, strs_eq_sound ss ts)

unfoldable pub same_gauge : Gauge → Gauge → Bool
same_gauge (m, vs) (n, ws) = str_eq (series_name m) (series_name n) && strs_eq vs ws

pub same_gauge_refl : (g : Gauge) → same_gauge g g ≡ true
unfolding same_gauge
same_gauge_refl (m, vs) = ground (arith, str_eq_refl (series_name m), strs_eq_refl vs)

pub and_true : (a b : Bool) → (a && b) ≡ true → (a ≡ true) × (b ≡ true)
and_true true b h = (refl, h)
and_true false b h = cc

pub same_gauge_sound : (g h : Gauge) → same_gauge g h ≡ true → g ≡ h
unfolding same_gauge
same_gauge_sound (m, vs) (n, ws) e =
    let (p, q) = and_true _ _ e in
    let same : m ≡ n = series_name-injective m n (str_eq_sound _ _ p) in
    λ i. (same i, strs_eq_sound vs ws q i)

-- Behind `SetToCurrentTime` the value is a time, which is not known.
unfoldable pub set_gauge : {F : Type 0} → Gauge → Event F → Option F → Option F
unfolding same_gauge strs_eq
set_gauge g (set_to m values x) old = if same_gauge g (m, values) then some x else old
set_gauge g (set_now m values) old = if same_gauge g (m, values) then none else old
set_gauge g (inc m values) old = old
set_gauge g (task_failed task version e) old = old

-- The value that the gauge shows behind the events, from the value before them.
unfoldable pub value_after : {F : Type 0} → Gauge → Option F → List (Event F) → Option F
unfolding set_gauge
value_after g old [] = old
value_after g old (e ∷ es) = value_after g (set_gauge g e old) es

pub value_after-append :
    {F : Type 0} (g : Gauge) (old : Option F) (es fs : List (Event F))
    → value_after g old (es ++ fs) ≡ value_after g (value_after g old es) fs
unfolding value_after
value_after-append g old [] fs = refl
value_after-append g old (e ∷ es) fs = value_after-append g (set_gauge g e old) es fs

-- The event leaves the gauge as it is.
abbrev pub Leaves : {F : Type 0} → Gauge → Event F → Type 0
Leaves g (set_to m values x) = g ≢ (m, values)
Leaves g (set_now m values) = g ≢ (m, values)
Leaves g (inc m values) = Unit
Leaves g (task_failed task version e) = Unit

-- No gauge that one of the events sets to a value is set by the other.
abbrev pub Differs : {F : Type 0} → Event F → Event F → Type 0
Differs (set_to m values x) e = Leaves (m, values) e
Differs {F} (set_now m values) (set_to n values' x) = Leaves {F = F} (n, values') (set_now m values)
Differs (set_now m values) (set_now n values') = Unit
Differs (set_now m values) (inc n values') = Unit
Differs (set_now m values) (task_failed task version e) = Unit
Differs (inc m values) e = Unit
Differs (task_failed task version e) e' = Unit

-- The gauge of the event, if it sets one to a value, shows this value behind the events.
abbrev pub Shows : {F : Type 0} → List (Event F) → Event F → Type 0
Shows {F} es (set_to m values x) = (old : Option F) → value_after (m, values) old es ≡ some x
Shows es (set_now m values) = Unit
Shows es (inc m values) = Unit
Shows es (task_failed task version e) = Unit

-- No gauge is set twice, but for the timestamps of `SetToCurrentTime`.
abbrev pub Distinct : {F : Type 0} → List (Event F) → Type 0
Distinct [] = Unit
Distinct (e ∷ es) = All (Differs e) es × Distinct es

other_gauge : (g h : Gauge) → g ≢ h → same_gauge g h ≡ false
other_gauge g h differ = elim (Bool-cases (same_gauge g h)) [
  | inl e ↦ absurd (differ (same_gauge_sound g h e))
  | inr e ↦ e
]

module _ {F : Type 0} where
  pub set_gauge-Leaves :
      (g : Gauge) (e : Event F) (old : Option F) → Leaves g e → set_gauge g e old ≡ old
  unfolding set_gauge
  set_gauge-Leaves g (set_to m values x) old h = rw (other_gauge g (m, values) h) refl
  set_gauge-Leaves g (set_now m values) old h = rw (other_gauge g (m, values) h) refl
  set_gauge-Leaves g (inc m values) old h = refl
  set_gauge-Leaves g (task_failed task version e) old h = refl

  value_after-Leaves :
      (g : Gauge) (old : Option F) (es : List (Event F))
      → All (Leaves g) es
      → value_after g old es ≡ old
  unfolding value_after
  value_after-Leaves g old [] h = refl
  value_after-Leaves g old (e ∷ es) (he, h) =
      rw (set_gauge-Leaves g e old he) (value_after-Leaves g old es h)

  Shows-first : (e : Event F) (es : List (Event F)) → All (Differs e) es → Shows (e ∷ es) e
  unfolding value_after set_gauge
  Shows-first (set_to m vs x) es h =
      λ old. rw (same_gauge_refl (m, vs)) (value_after-Leaves (m, vs) (some x) es h)
  Shows-first (set_now m vs) es h = tt
  Shows-first (inc m vs) es h = tt
  Shows-first (task_failed a b c) es h = tt

  Shows-later : (e e' : Event F) (es : List (Event F)) → Shows es e' → Shows (e ∷ es) e'
  unfolding value_after
  Shows-later e (set_to m vs x) es h = λ old. h (set_gauge (m, vs) e old)
  Shows-later e (set_now m vs) es h = tt
  Shows-later e (inc m vs) es h = tt
  Shows-later e (task_failed a b c) es h = tt

  pub Distinct-Shows : (es : List (Event F)) → Distinct es → All (Shows es) es
  Distinct-Shows [] h = tt
  Distinct-Shows (e ∷ es) (he, h) =
      (Shows-first e es he, All-weaken (λ e' k. Shows-later e e' es k) es (Distinct-Shows es h))
