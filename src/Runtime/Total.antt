-- ===== src/Runtime/Total.antt =====
-- Actions that return in every state: none of the answers of the outside world makes them panic.
use hertz_reconciler.Prelude.{
  ℕ, ◌+◌, ◌≡◌, ◌↔◌, refl, sym, ap, ◌∙◌, Bool, true, false, List, [], ◌∷◌, ◌++◌, append-nil,
  append_assoc, Str, All, gather, arith, if◌then◌else◌,
}
use hertz_reconciler.Prelude.Counts.{sum_of}
use hertz_reconciler.Metrics.{Event}
use hertz_reconciler.Chain.Reply.{Reply, ok, err}
use hertz_reconciler.Runtime.{
  State, Outcome, ret, M, emit, ask, pure, continue, ◌>>=◌, foreach, on_reply,
}

-- `m` returns, and what it returns meets `Q`.
abbrev pub ReturnsWith : {F W A : Type 0} → (A → Type 0) → Outcome F W A → Type 0
ReturnsWith {F} {W} {A} Q o = (a : A) × (s : State F W) × (o ≡ ret a s) × Q a

pub record Total {F W A : Type 0} (Q : A → Type 0) (m : M F W A) : Type 0 where
  pub at : (s : State F W) → ReturnsWith Q (m s)

abbrev pub Anything : {A : Type 0} → A → Type 0
Anything a = Unit

module _ {F W : Type 0} where
  pub Total-emit : (e : Event F) → Total {W = W} Anything (emit e)
  unfolding emit
  Total-emit e = record { at = λ s. (tt, record s { trace = s.trace ++ e ∷ [] }, refl, tt) }

module _ {F W A : Type 0} where
  pub Total-ask : (f : W → A × W) → Total {F = F} Anything (ask f)
  unfolding ask
  Total-ask f = record { at = λ s. ((f s.world).0, record s { world = (f s.world).1 }, refl, tt) }

  pub Total-pure : {Q : A → Type 0} (a : A) → Q a → Total {F = F} {W = W} Q (pure a)
  unfolding pure
  Total-pure a h = record { at = λ s. (a, s, refl, h) }

  pub Total-if :
      {Q : A → Type 0} (b : Bool) {m n : M F W A}
      → Total Q m
      → Total Q n
      → Total Q (if b then m else n)
  Total-if true km kn = km
  Total-if false km kn = kn

  -- Each branch knows what the test returned.
  pub Total-if_post :
      {Q : A → Type 0} (b : Bool) {m n : M F W A}
      → (b ≡ true → Total Q m)
      → (b ≡ false → Total Q n)
      → Total Q (if b then m else n)
  Total-if_post true km kn = km refl
  Total-if_post false km kn = kn refl

module _ {F W A B : Type 0} {I : A → Type 0} {Q : B → Type 0} where
  Total-continue :
      (o : Outcome F W A) (f : A → M F W B)
      → ReturnsWith I o
      → ((a : A) → I a → Total Q (f a))
      → ReturnsWith Q (continue o f)
  Total-continue o f (a, s, e, h) kf = rw e ((kf a h).at s)

  pub Total-bind_post :
      (m : M F W A) (f : A → M F W B)
      → Total I m
      → ((a : A) → I a → Total Q (f a))
      → Total Q (m >>= f)
  unfolding ◌>>=◌
  Total-bind_post m f km kf = record { at = λ s. Total-continue (m s) f (km.at s) kf }

module _ {F W A B : Type 0} {Q : B → Type 0} where
  pub Total-bind :
      (m : M F W A) (f : A → M F W B)
      → Total Anything m
      → ((a : A) → Total Q (f a))
      → Total Q (m >>= f)
  Total-bind m f km kf = Total-bind_post m f km (λ a _. kf a)

  pub Total-reply :
      (r : Reply A) {f : A → M F W B} {g : Str → M F W B}
      → ((a : A) → Total Q (f a))
      → ((e : Str) → Total Q (g e))
      → Total Q (on_reply r f g)
  Total-reply (ok a) kf kg = kf a
  Total-reply (err e) kf kg = kg e

module _ {F W A B : Type 0} {Q : B → Type 0} where
  -- Each case knows what the call returned.
  pub Total-reply_post :
      (r : Reply A) {f : A → M F W B} {g : Str → M F W B}
      → ((a : A) → r ≡ ok a → Total Q (f a))
      → ((e : Str) → r ≡ err e → Total Q (g e))
      → Total Q (on_reply r f g)
  Total-reply_post (ok a) kf kg = kf a refl
  Total-reply_post (err e) kf kg = kg e refl

-- In every state, `m` returns `r`.
abbrev pub Always : {F W A : Type 0} → M F W A → A → Type 0
Always m r = Total (λ a. a ≡ r) m

module _ {F W A R : Type 0} where
  pub Total-foreach :
      (xs : List A) (body : A → R → M F W R) (r : R)
      → ((x : A) (r : R) → Total Anything (body x r))
      → Total Anything (foreach xs body r)
  unfolding foreach
  Total-foreach [] body r kb = Total-pure r tt
  Total-foreach (x ∷ xs) body r kb =
      Total-bind (body x r) (foreach xs body) (kb x r) (λ r'. Total-foreach xs body r' kb)

module _ {F W A : Type 0} where
  pub Total-weaken :
      {P Q : A → Type 0} {m : M F W A} → ((a : A) → P a → Q a) → Total P m → Total Q m
  Total-weaken f h = record { at = λ s. let (a, s', e, p) = h.at s in (a, s', e, f a p) }

pub ret-injective : {F W A : Type 0} {a b : A} {s t : State F W} → ret a s ≡ ret b t → a ≡ b
ret-injective e = cc

module _ {F W A : Type 0} {P Q : A → Type 0} where
  pub Total-both : {m : M F W A} → Total P m → Total Q m → Total (λ a. P a × Q a) m
  Total-both h k = record {
    at = λ s.
        let (a, s', e, p) = h.at s in
        let (b, t, f, q) = k.at s in
        let same : b ≡ a = ret-injective (sym f ∙ e) in (a, s', e, (p, (rw same at q)));
  }

module _ {F W A B : Type 0} where
  -- The outcome of a run that starts with a question to the outside world.
  pub ReturnsWith-ask :
      {Q : B → Type 0} (f : W → A × W) (k : A → M F W B) (s : State F W)
      → ((a : A) → a ≡ (f s.world).0 → Total Q (k a))
      → ReturnsWith Q ((ask f >>= k) s)
  unfolding ◌>>=◌ ask
  ReturnsWith-ask f k s h = (h (f s.world).0 refl).at (record s { world = (f s.world).1 })

-- Loops whose rounds add to a list, or to a number, that the loop carries along.
module _ {F W A R : Type 0} (body : A → R → M F W R) where
  pub Total-foreach-gather :
      {B : Type 0} (view : R → List B) (f : A → List B) (xs : List A)
      → All (λ x. (r : R) → Total (λ r'. view r' ≡ view r ++ f x) (body x r)) xs
      → (r : R) → Total (λ r'. view r' ≡ view r ++ gather f xs) (foreach xs body r)
  unfolding foreach
  Total-foreach-gather view f [] h r = Total-pure r (sym (append-nil (view r)))
  Total-foreach-gather view f (x ∷ xs) (hx, h) r =
      Total-bind_post (body x r) (foreach xs body) (hx r) λ r' e.
        Total-weaken
          (λ r'' e'. e' ∙ ap (λ l. l ++ gather f xs) e ∙ append_assoc (view r) (f x) (gather f xs))
          (Total-foreach-gather view f xs h r')

  pub Total-foreach_sum :
      (view : R → ℕ) (f : A → ℕ) (xs : List A)
      → All (λ x. (r : R) → Total (λ r'. view r' ≡ view r + f x) (body x r)) xs
      → (r : R) → Total (λ r'. view r' ≡ view r + sum_of f xs) (foreach xs body r)
  unfolding foreach
  Total-foreach_sum view f [] h r = Total-pure r (omega arith)
  Total-foreach_sum view f (x ∷ xs) (hx, h) r =
      Total-bind_post (body x r) (foreach xs body) (hx r)
        λ r' e. Total-weaken (λ r'' e'. omega (arith, e, e')) (Total-foreach_sum view f xs h r')

  -- A property `Clean` that holds behind a round exactly when it held before and the round was clean.
  pub Total-foreach_iff :
      (Clean : R → Type 0) (C : A → Type 0) (xs : List A)
      → ((x : A) (r : R) → Total (λ r'. Clean r' ↔ (Clean r × C x)) (body x r))
      → (r : R) → Total (λ r'. Clean r' ↔ (Clean r × All C xs)) (foreach xs body r)
  unfolding foreach
  Total-foreach_iff Clean C [] h r = Total-pure r ((λ c. (c, tt)), (λ c. c.0))
  Total-foreach_iff Clean C (x ∷ xs) h r =
      Total-bind_post (body x r) (foreach xs body) (h x r) λ r' e.
        Total-weaken
          (λ r'' e'. (
            (λ c. let (c', cs) = e'.0 c in let (c'', cx) = e.0 c' in (c'', (cx, cs))),
            (λ (c, (cx, cs)). e'.1 (e.1 (c, cx), cs)),
          ))
          (Total-foreach_iff Clean C xs h r')

pub ruleset total_rules =
    (Total-emit, Total-ask, Total-pure, Total-if, Total-bind, Total-reply, Total-foreach)
