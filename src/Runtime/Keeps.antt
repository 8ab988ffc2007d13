-- ===== src/Runtime/Keeps.antt =====
-- A rule for each way to build an action: every event that it adds meets a condition, whether the
-- action returns or panics, and what it returns meets a postcondition.
use hertz_reconciler.Prelude.{
  ◌≡◌, refl, sym, ap, ◌∙◌, Bool, true, false, List, [], ◌∷◌, ◌++◌, append-nil, append_assoc,
  if◌then◌else◌, Str,
}
use hertz_reconciler.Metrics.{Event}
use hertz_reconciler.Chain.Reply.{Reply, ok, err}
use hertz_reconciler.Runtime.{
  State, Outcome, ret, panic, M, emit, ask, pure, crash, continue, ◌>>=◌, foreach, on_reply,
}

-- Every event of the list meets `P`.
abbrev pub AllEvents : {F : Type 0} → (Event F → Type 0) → List (Event F) → Type 0
AllEvents P [] = Unit
AllEvents P (e ∷ es) = P e × AllEvents P es

pub AllEvents-append :
    {F : Type 0} (P : Event F → Type 0) (es fs : List (Event F))
    → AllEvents P es
    → AllEvents P fs
    → AllEvents P (es ++ fs)
AllEvents-append P [] fs he hf = hf
AllEvents-append P (e ∷ es) fs (h, he) hf = (h, AllEvents-append P es fs he hf)

-- The second list of events is the first one with events added that meet `P`.
abbrev pub Extends : {F : Type 0} → (Event F → Type 0) → List (Event F) → List (Event F) → Type 0
Extends {F} P t u = (es : List (Event F)) × (u ≡ t ++ es) × AllEvents P es

pub Extends-refl : {F : Type 0} (P : Event F → Type 0) (t : List (Event F)) → Extends P t t
Extends-refl P t = ([], sym (append-nil t), tt)

pub Extends-trans :
    {F : Type 0} (P : Event F → Type 0) (t u v : List (Event F))
    → Extends P t u
    → Extends P u v
    → Extends P t v
Extends-trans P t u v (es, e, h) (fs, f, k) =
    (es ++ fs, f ∙ ap (λ l. l ++ fs) e ∙ append_assoc t es fs, AllEvents-append P es fs h k)

-- The action adds only events that meet `P` to `t`, and what it returns meets `Q`.
abbrev pub Holds :
    {F W A : Type 0} → (Event F → Type 0) → (A → Type 0) → List (Event F) → Outcome F W A → Type 0
Holds P Q t (ret a s) = Extends P t s.trace × Q a
Holds P Q t (panic s) = Extends P t s.trace

pub record Keeps {F W A : Type 0} (P : Event F → Type 0) (Q : A → Type 0) (m : M F W A)
    : Type 0 where
  pub at : (s : State F W) → Holds P Q s.trace (m s)

abbrev pub Anything : {A : Type 0} → A → Type 0
Anything a = Unit

module _ {F W : Type 0} {P : Event F → Type 0} where
  pub Keeps-emit : (e : Event F) → P e → Keeps {W = W} P Anything (emit e)
  unfolding emit
  Keeps-emit e h = record { at = λ s. ((e ∷ [], refl, (h, tt)), tt) }

module _ {F W A : Type 0} {P : Event F → Type 0} where
  pub Keeps-ask : (f : W → A × W) → Keeps P Anything (ask f)
  unfolding ask
  Keeps-ask f = record { at = λ s. (Extends-refl P s.trace, tt) }

  pub Keeps-pure : {Q : A → Type 0} (a : A) → Q a → Keeps {W = W} P Q (pure a)
  unfolding pure
  Keeps-pure a h = record { at = λ s. (Extends-refl P s.trace, h) }

  pub Keeps-crash : {Q : A → Type 0} → Keeps {W = W} P Q crash
  unfolding crash
  Keeps-crash = record { at = λ s. Extends-refl P s.trace }

  pub Keeps-if :
      {Q : A → Type 0} (b : Bool) {m n : M F W A}
      → Keeps P Q m
      → Keeps P Q n
      → Keeps P Q (if b then m else n)
  Keeps-if true km kn = km
  Keeps-if false km kn = kn

module _ {F W B : Type 0} (P : Event F → Type 0) (Q : B → Type 0) where
  Holds-trans :
      (t u : List (Event F)) (o : Outcome F W B) → Extends P t u → Holds P Q u o → Holds P Q t o
  Holds-trans t u (ret b s) h (k, hb) = (Extends-trans P t u s.trace h k, hb)
  Holds-trans t u (panic s) h k = Extends-trans P t u s.trace h k

module _ {F W A B : Type 0} {P : Event F → Type 0} {I : A → Type 0} {Q : B → Type 0} where
  Keeps-continue :
      (t : List (Event F)) (o : Outcome F W A) (f : A → M F W B)
      → Holds P I t o
      → ((a : A) → I a → Keeps P Q (f a))
      → Holds P Q t (continue o f)
  Keeps-continue t (ret a s) f (h, ha) kf = Holds-trans P Q t s.trace (f a s) h ((kf a ha).at s)
  Keeps-continue t (panic s) f h kf = h

  -- What the first action returns is known to the second.
  pub Keeps-bind_post :
      (m : M F W A) (f : A → M F W B)
      → Keeps P I m
      → ((a : A) → I a → Keeps P Q (f a))
      → Keeps P Q (m >>= f)
  unfolding ◌>>=◌
  Keeps-bind_post m f km kf = record { at = λ s. Keeps-continue s.trace (m s) f (km.at s) kf }

module _ {F W A B : Type 0} {P : Event F → Type 0} {Q : B → Type 0} where
  pub Keeps-bind :
      (m : M F W A) (f : A → M F W B)
      → Keeps P Anything m
      → ((a : A) → Keeps P Q (f a))
      → Keeps P Q (m >>= f)
  Keeps-bind m f km kf = Keeps-bind_post m f km (λ a _. kf a)

module _ {F W A R : Type 0} {P : Event F → Type 0} where
  -- The invariant `I` of what a loop carries along.
  pub Keeps-foreach_post :
      {I : R → Type 0} (xs : List A) (body : A → R → M F W R) (r : R)
      → ((x : A) (r : R) → I r → Keeps P I (body x r))
      → I r
      → Keeps P I (foreach xs body r)
  unfolding foreach
  Keeps-foreach_post [] body r kb h = Keeps-pure r h
  Keeps-foreach_post (x ∷ xs) body r kb h =
      Keeps-bind_post (body x r) (foreach xs body) (kb x r h)
        λ r' h'. Keeps-foreach_post xs body r' kb h'

  pub Keeps-foreach :
      (xs : List A) (body : A → R → M F W R) (r : R)
      → ((x : A) (r : R) → Keeps P Anything (body x r))
      → Keeps P Anything (foreach xs body r)
  Keeps-foreach xs body r kb = Keeps-foreach_post xs body r (λ x r _. kb x r) tt

module _ {F W A B : Type 0} {P : Event F → Type 0} {Q : B → Type 0} where
  -- A case split on the result of a call.
  pub Keeps-reply :
      (r : Reply A) {f : A → M F W B} {g : Str → M F W B}
      → ((a : A) → Keeps P Q (f a))
      → ((e : Str) → Keeps P Q (g e))
      → Keeps P Q (on_reply r f g)
  Keeps-reply (ok a) kf kg = kf a
  Keeps-reply (err e) kf kg = kg e

pub ruleset keeps_rules = (
  Keeps-emit, Keeps-ask, Keeps-pure, Keeps-crash, Keeps-if, Keeps-bind, Keeps-foreach, Keeps-reply,
)
