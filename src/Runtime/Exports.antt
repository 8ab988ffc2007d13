-- ===== src/Runtime/Exports.antt =====
-- Actions that return in every state and whose events are known up to their order, which a `range`
-- over a map leaves open.
use mathlib.Core.Path.{subst}
use mathlib.Core.List.{Permᴰ}
use mathlib.Core.List.Permᴰ
use hertz_reconciler.Prelude.{
  ◌≡◌, refl, sym, ap, ◌∙◌, Bool, true, false, List, [], ◌∷◌, ◌++◌, append-nil, append_assoc, gather,
  if◌then◌else◌, Str,
}
use hertz_reconciler.Prelude.Perms.{gather-perm, append-perm}
use hertz_reconciler.Metrics.{Event}
use hertz_reconciler.Chain.Reply.{Reply, ok, err}
use hertz_reconciler.Runtime.{
  State, Outcome, ret, M, emit, pure, continue, ◌>>=◌, ◌>>◌, foreach, on_reply,
}
use hertz_reconciler.Runtime.Keeps.{Keeps, Holds, AllEvents}
use hertz_reconciler.Runtime.Total.{ret-injective, Total, ReturnsWith, Anything}

-- The outcome is a return; the events `xs` are added to `t` in some order, and the result meets `Q`.
abbrev pub ExportsTo :
    {F W A : Type 0} → List (Event F) → (A → Type 0) → List (Event F) → Outcome F W A → Type 0
ExportsTo {F} {W} {A} xs Q t o =
    (a : A) × (s : State F W) × (es : List (Event F)) × (o ≡ ret a s)
    × (s.trace ≡ t ++ es)
    × Permᴰ es xs
    × Q a

pub record Exports {F W A : Type 0} (xs : List (Event F)) (Q : A → Type 0) (m : M F W A)
    : Type 0 where
  pub at : (s : State F W) → ExportsTo xs Q s.trace (m s)

module _ {F W : Type 0} where
  pub Exports-emit : (e : Event F) → Exports {W = W} (e ∷ []) Anything (emit e)
  unfolding emit
  Exports-emit e = record {
    at = λ s.
        (tt, record s { trace = s.trace ++ e ∷ [] }, e ∷ [], refl, refl, Permᴰ.refl (e ∷ []), tt);
  }

no_events : {F : Type 0} (es : List (Event F)) → AllEvents (λ e. ⊥) es → es ≡ []
no_events [] h = refl
no_events (e ∷ es) h = absurd h.0

module _ {F W A : Type 0} where
  pub Exports-pure : {Q : A → Type 0} (a : A) → Q a → Exports {F = F} {W = W} [] Q (pure a)
  unfolding pure
  Exports-pure a h = record { at = λ s. (a, s, [], refl, sym (append-nil s.trace), Permᴰ.nil, h) }

  silent :
      {Q : A → Type 0} (R : A → Type 0) (t : List (Event F)) (o : Outcome F W A)
      → ReturnsWith Q o
      → Holds (λ e. ⊥) R t o
      → ExportsTo [] Q t o
  silent R t o (a, s, e, q) h =
      let ((es, f, none_there), r) = rw e at h in
      (a, s, [], e, f ∙ ap (λ l. t ++ l) (no_events es none_there), Permᴰ.nil, q)

  -- An action whose events meet no condition has none.
  pub Exports-silent :
      {Q R : A → Type 0} (m : M F W A) → Total Q m → Keeps (λ e. ⊥) R m → Exports [] Q m
  Exports-silent {R} m h k = record { at = λ s. silent R s.trace (m s) (h.at s) (k.at s) }

module _ {F W A B : Type 0} {xs ys : List (Event F)} {I : A → Type 0} {Q : B → Type 0} where
  Exports-continue :
      (t : List (Event F)) (o : Outcome F W A) (f : A → M F W B)
      → ExportsTo xs I t o
      → ((a : A) → I a → Exports ys Q (f a))
      → ExportsTo (xs ++ ys) Q t (continue o f)
  Exports-continue t o f (a, s, es, e, g, p, i) k =
      let (b, s', fs, e', g', p', q) = (k a i).at s in
      (
        b,
        s',
        es ++ fs,
        rw e e',
        g' ∙ ap (λ l. l ++ fs) g ∙ append_assoc t es fs,
        append-perm p p',
        q,
      )

  pub Exports-bind :
      (m : M F W A) (f : A → M F W B)
      → Exports xs I m
      → ((a : A) → I a → Exports ys Q (f a))
      → Exports (xs ++ ys) Q (m >>= f)
  unfolding ◌>>=◌
  Exports-bind m f h k = record { at = λ s. Exports-continue s.trace (m s) f (h.at s) k }

module _ {F W A B : Type 0} {ys : List (Event F)} {Q : B → Type 0} where
  -- The first action has no events.
  pub Exports-read :
      {I : A → Type 0} (m : M F W A) (f : A → M F W B)
      → Exports [] I m
      → ((a : A) → I a → Exports ys Q (f a))
      → Exports ys Q (m >>= f)
  Exports-read m f h k = Exports-bind m f h k

module _ {F W A B : Type 0} {xs : List (Event F)} {Q : B → Type 0} where
  -- The second action has no events.
  pub Exports-last :
      {I : A → Type 0} (m : M F W A) (f : A → M F W B)
      → Exports xs I m
      → ((a : A) → I a → Exports [] Q (f a))
      → Exports xs Q (m >>= f)
  Exports-last m f h k = rw (← append-nil xs) (Exports-bind m f h k)

module _ {F W B : Type 0} {ys : List (Event F)} {Q : B → Type 0} where
  pub Exports-emit_then :
      (e : Event F) (m : M F W B) → Exports ys Q m → Exports (e ∷ ys) Q (emit e >> m)
  Exports-emit_then e m h = Exports-bind (emit e) (λ _. m) (Exports-emit e) (λ _ _. h)

  -- The event in other words.
  pub Exports-emit_as :
      {e e' : Event F} {m : M F W B} → e ≡ e' → Exports ys Q m → Exports (e' ∷ ys) Q (emit e >> m)
  Exports-emit_as {e} {e'} {m} same h =
      subst (λ (x : Event F). Exports (x ∷ ys) Q (emit e >> m)) same (Exports-emit_then e m h)

module _ {F W A : Type 0} where
  pub Exports-weaken :
      {xs : List (Event F)} {P Q : A → Type 0} {m : M F W A}
      → ((a : A) → P a → Q a)
      → Exports xs P m
      → Exports xs Q m
  Exports-weaken f h = record {
    at = λ s. let (a, s', es, e, g, p, q) = h.at s in (a, s', es, e, g, p, f a q);
  }

  -- The events may be listed in another order.
  pub Exports-perm :
      {xs ys : List (Event F)} {Q : A → Type 0} {m : M F W A}
      → Permᴰ xs ys
      → Exports xs Q m
      → Exports ys Q m
  Exports-perm p h = record {
    at = λ s. let (a, s', es, e, g, r, q) = h.at s in (a, s', es, e, g, Permᴰ.trans r p, q);
  }

  -- What the action returns may be known by other means.
  pub Exports-both :
      {xs : List (Event F)} {P Q : A → Type 0} {m : M F W A}
      → Exports xs P m
      → Total Q m
      → Exports xs (λ a. P a × Q a) m
  Exports-both h k = record {
    at = λ s.
        let (a, s', es, e, g, r, p) = h.at s in
        let (b, t, f, q) = k.at s in
        let same : b ≡ a = ret-injective (sym f ∙ e) in (a, s', es, e, g, r, (p, rw same at q));
  }

  pub Exports-if_post :
      {xs ys : List (Event F)} {Q : A → Type 0} (b : Bool) {m n : M F W A}
      → (b ≡ true → Exports xs Q m)
      → (b ≡ false → Exports ys Q n)
      → Exports (if b then xs else ys) Q (if b then m else n)
  Exports-if_post true km kn = km refl
  Exports-if_post false km kn = kn refl

-- The events of a reply: none if it is an error.
abbrev pub on_ok : {A E : Type 0} → (A → List E) → Reply A → List E
on_ok f (ok a) = f a
on_ok f (err e) = []

module _ {F W A B : Type 0} {Q : B → Type 0} where
  -- A case split on a reply that is known.
  pub Exports-reply :
      (ys : A → List (Event F)) (x : Reply A) {reply : Reply A} {f : A → M F W B}
      {g : Str → M F W B}
      → x ≡ reply
      → ((a : A) → Exports (ys a) Q (f a))
      → ((e : Str) → Exports [] Q (g e))
      → Exports (on_ok ys reply) Q (on_reply x f g)
  Exports-reply ys (ok a) same kf kg = rw (← same) (kf a)
  Exports-reply ys (err e) same kf kg = rw (← same) (kg e)

module _ {F W A R : Type 0} (body : A → R → M F W R) (f : A → List (Event F)) where
  pub Exports-foreach :
      (xs : List A)
      → ((x : A) (r : R) → Exports (f x) Anything (body x r))
      → (r : R) → Exports (gather f xs) Anything (foreach xs body r)
  unfolding foreach
  Exports-foreach [] h r = Exports-pure r tt
  Exports-foreach (x ∷ xs) h r =
      Exports-bind (body x r) (foreach xs body) (h x r) (λ r' _. Exports-foreach xs h r')

  -- The same over the entries of a map, in any order.
  pub Exports-range :
      {order xs : List A}
      → Permᴰ order xs
      → ((x : A) (r : R) → Exports (f x) Anything (body x r))
      → (r : R) → Exports (gather f xs) Anything (foreach order body r)
  Exports-range {order} p h r = Exports-perm (gather-perm f p) (Exports-foreach order h r)
