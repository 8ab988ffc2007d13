-- ===== src/Metrics/Apart.antt =====
-- Lists of events that set different gauges, by where the gauges belong.
use hertz_reconciler.Prelude.{
  ◌≡◌, ◌≢◌, refl, sym, ap, ◌∙◌, Bool, true, false, not, List, [], ◌∷◌, ◌++◌, Str, str_eq,
  str_eq_refl, map, gather, All, ◌&&◌, if◌then◌else◌,
}
use hertz_reconciler.Prelude.Counts.{All-weaken}
use hertz_reconciler.Metrics.{
  Metric, Event, set_to, set_now, inc, task_failed, reconciler_last_run_timestamp,
}
use hertz_reconciler.Metrics.Values.{and_true, Gauge, Differs, Distinct}

-- The elements are different.
abbrev pub Differing : {A : Type 0} → List A → Type 0
Differing [] = Unit
Differing (x ∷ xs) = All (λ y. x ≢ y) xs × Differing xs

abbrev pub is_stamp : Metric → Bool
is_stamp reconciler_last_run_timestamp = true
is_stamp _ = false

-- The event is a timestamp, or sets a gauge that belongs to `P`.
abbrev pub Belongs : {F : Type 0} → (Gauge → Type 0) → Event F → Type 0
Belongs P (set_to m values x) = P (m, values) × (is_stamp m ≡ false)
Belongs P (set_now m values) = m ≡ reconciler_last_run_timestamp
Belongs P (inc m values) = Unit
Belongs P (task_failed task version e) = Unit

-- The events set different gauges, and these belong to `P`.
pub record Apart {F : Type 0} (P : Gauge → Type 0) (es : List (Event F)) : Type 0 where
  pub belong : All (Belongs P) es
  pub distinct : Distinct es

not_stamp : (m : Metric) → is_stamp m ≡ false → m ≢ reconciler_last_run_timestamp
not_stamp m h e = let stamped : is_stamp m ≡ true = ap is_stamp e in cc

module _ {F : Type 0} where
  -- Events of gauges that belong to clashing conditions differ.
  Differs-clash :
      {P Q : Gauge → Type 0} (e e' : Event F)
      → ((g : Gauge) → P g → Q g → ⊥)
      → Belongs P e
      → Belongs Q e'
      → Differs e e'
  Differs-clash {P} (set_to m vs x) (set_to n ws y) no_both (p, s) (q, t) =
      λ same. no_both (n, ws) (rw same at p) q
  Differs-clash (set_to m vs x) (set_now n ws) no_both (p, s) q =
      λ same. not_stamp m s (ap (λ g. g.0) same ∙ q)
  Differs-clash (set_to m vs x) (inc n ws) no_both p q = tt
  Differs-clash (set_to m vs x) (task_failed a b c) no_both p q = tt
  Differs-clash (set_now m vs) (set_to n ws y) no_both p (q, t) =
      λ same. not_stamp n t (ap (λ g. g.0) same ∙ p)
  Differs-clash (set_now m vs) (set_now n ws) no_both p q = tt
  Differs-clash (set_now m vs) (inc n ws) no_both p q = tt
  Differs-clash (set_now m vs) (task_failed a b c) no_both p q = tt
  Differs-clash (inc m vs) e' no_both p q = tt
  Differs-clash (task_failed d f g) e' no_both p q = tt

  Belongs-weaken :
      {P Q : Gauge → Type 0} → ((g : Gauge) → P g → Q g) → (e : Event F) → Belongs P e → Belongs Q e
  Belongs-weaken f (set_to m vs x) (p, s) = (f (m, vs) p, s)
  Belongs-weaken f (set_now m vs) p = p
  Belongs-weaken f (inc m vs) p = tt
  Belongs-weaken f (task_failed a b c) p = tt

  All-append :
      (P : Event F → Type 0) (es fs : List (Event F)) → All P es → All P fs → All P (es ++ fs)
  All-append P [] fs h k = k
  All-append P (e ∷ es) fs (he, h) k = (he, All-append P es fs h k)

  Distinct-append :
      {P Q : Gauge → Type 0} (es fs : List (Event F))
      → ((g : Gauge) → P g → Q g → ⊥)
      → Apart P es
      → Apart Q fs
      → Distinct (es ++ fs)
  Distinct-append [] fs no_both h k = k.distinct
  Distinct-append (e ∷ es) fs no_both h k = (
    All-append _ es fs (h.distinct.0)
        (All-weaken (λ e' b. Differs-clash e e' no_both (h.belong.0) b) fs k.belong),
    Distinct-append es fs no_both (record { belong = h.belong.1; distinct = h.distinct.1 }) k,
  )

  pub Apart-weaken :
      {P Q : Gauge → Type 0} {es : List (Event F)}
      → ((g : Gauge) → P g → Q g)
      → Apart P es
      → Apart Q es
  Apart-weaken {es} f h = record {
    belong = All-weaken (Belongs-weaken f) es h.belong;
    distinct = h.distinct;
  }

  pub Apart-nil : {P : Gauge → Type 0} → Apart {F = F} P []
  Apart-nil = record { belong = tt; distinct = tt }

  -- The gauges of the two lists are told apart by a test.
  pub Apart-append :
      {P : Gauge → Type 0} (test : Gauge → Bool) (es fs : List (Event F))
      → Apart (λ g. P g × (test g ≡ true)) es
      → Apart (λ g. P g × (test g ≡ false)) fs
      → Apart P (es ++ fs)
  Apart-append test es fs h k = record {
    belong =
        All-append _ es fs ((Apart-weaken (λ g p. p.0) h).belong)
          ((Apart-weaken (λ g p. p.0) k).belong);
    distinct = Distinct-append es fs (λ g p q. cc (p.1, q.1)) h k;
  }

  -- A timestamp may follow, whatever its label.
  pub Apart-stamp :
      {P : Gauge → Type 0} (es : List (Event F)) (values : List Str)
      → Apart P es
      → Apart P (es ++ set_now reconciler_last_run_timestamp values ∷ [])
  Apart-stamp es values h = record {
    belong = All-append _ es _ h.belong (refl, tt);
    distinct =
        Distinct-append {P = λ g. Unit} {Q = λ g. ⊥} es _ (λ g p q. q) (Apart-weaken (λ g p. tt) h)
          (record { belong = (refl, tt); distinct = (tt, tt) });
  }

  pub Apart-if :
      {P : Gauge → Type 0} (b : Bool) {es fs : List (Event F)}
      → (b ≡ true → Apart P es)
      → (b ≡ false → Apart P fs)
      → Apart P (if b then es else fs)
  Apart-if true h k = h refl
  Apart-if false h k = k refl

module _ {F A T : Type 0} (P : Gauge → Type 0) (tag : Gauge → T) (key : A → T)
    (f : A → List (Event F)) where
  tag_gather :
      (x : A) (xs : List A)
      → All (λ t. key x ≢ t) (map key xs)
      → All (λ y. Apart (λ g. P g × (tag g ≡ key y)) (f y)) xs
      → All (Belongs (λ g. P g × (tag g ≢ key x))) (gather f xs)
  tag_gather x [] h k = tt
  tag_gather x (y ∷ ys) (hy, h) (ky, k) =
      All-append _ (f y) (gather f ys)
        ((Apart-weaken {Q = λ g. P g × (tag g ≢ key x)} (λ g p. (p.0, λ e. hy (sym e ∙ p.1)))
          ky).belong)
        (tag_gather x ys h k)

  -- The gauges of the elements have different tags.
  pub Apart-gather :
      (xs : List A)
      → Differing (map key xs)
      → All (λ x. Apart (λ g. P g × (tag g ≡ key x)) (f x)) xs
      → Apart P (gather f xs)
  Apart-gather [] h k = record { belong = tt; distinct = tt }
  Apart-gather (x ∷ xs) (hx, h) (kx, k) =
      let rest = Apart-gather xs h k in
      let others : Apart (λ g. P g × (tag g ≢ key x)) (gather f xs) = record {
        belong = tag_gather x xs hx k;
        distinct = rest.distinct;
      } in
      record {
        belong =
            All-append _ (f x) (gather f xs) ((Apart-weaken (λ g p. p.0) kx).belong) rest.belong;
        distinct = Distinct-append (f x) (gather f xs) (λ g p q. q.1 (p.1)) kx others;
      }

-- A test of texts for differences.
unfoldable pub none_equals : Str → List Str → Bool
none_equals s [] = true
none_equals s (t ∷ ts) = not (str_eq s t) && none_equals s ts

unfoldable pub all_differ : List Str → Bool
all_differ [] = true
all_differ (s ∷ ss) = none_equals s ss && all_differ ss

none_equals_sound : (s : Str) (ts : List Str) → none_equals s ts ≡ true → All (λ t. s ≢ t) ts
unfolding none_equals
none_equals_sound s [] h = tt
none_equals_sound s (t ∷ ts) h =
    let (p, q) = and_true (not (str_eq s t)) (none_equals s ts) h in
    (λ same. cc (p, rw same at (str_eq_refl s)), none_equals_sound s ts q)

pub all_differ_sound : (ss : List Str) → all_differ ss ≡ true → Differing ss
unfolding all_differ
all_differ_sound [] h = tt
all_differ_sound (s ∷ ss) h =
    let (p, q) = and_true (none_equals s ss) (all_differ ss) h in
    (none_equals_sound s ss p, all_differ_sound ss q)
