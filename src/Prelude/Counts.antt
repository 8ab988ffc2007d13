-- ===== src/Prelude/Counts.antt =====
-- Sums and conditions over a list that do not depend on its order.
use Prim.Native.Nat.{ℕ, ◌+◌}
use mathlib.Core.Path.{◌≡◌, refl, ap, ◌∙◌}
use mathlib.Core.Logic.{◌↔◌}
use mathlib.Core.List.{List, [], ◌∷◌, ◌++◌, Permᴰ}
use native.Mathlib.Omega.{arith}
use hertz_reconciler.Prelude.Lists.{All, gather}

pub append-eq-nil : {B : Type 0} (us vs : List B) → us ++ vs ≡ [] → (us ≡ []) × (vs ≡ [])
append-eq-nil [] vs e = (refl, e)
append-eq-nil (u ∷ us) vs e = cc

module _ {A : Type 0} where
  pub All-perm : (P : A → Type 0) {xs ys : List A} → Permᴰ xs ys → All P xs → All P ys
  All-perm P Permᴰ.nil h = tt
  All-perm P (Permᴰ.cons e p) (hx, h) = (rw e at hx, All-perm P p h)
  All-perm P (Permᴰ.swap e f) (ha, (hb, h)) = (rw f at hb, (rw e at ha, h))
  All-perm P (Permᴰ.trans p q) h = All-perm P q (All-perm P p h)

  abbrev pub sum_of : (A → ℕ) → List A → ℕ
  sum_of f [] = 0
  sum_of f (x ∷ xs) = f x + sum_of f xs

  pub sum_of-perm : (f : A → ℕ) {xs ys : List A} → Permᴰ xs ys → sum_of f xs ≡ sum_of f ys
  sum_of-perm f Permᴰ.nil = refl
  sum_of-perm f (Permᴰ.cons e p) = omega (arith, ap f e, sum_of-perm f p)
  sum_of-perm f (Permᴰ.swap e g) = omega (arith, ap f e, ap f g)
  sum_of-perm f (Permᴰ.trans p q) = sum_of-perm f p ∙ sum_of-perm f q

  -- Nothing is gathered exactly when each element gives nothing.
  pub gather-eq-nil :
      {B : Type 0} (f : A → List B) (xs : List A) → (gather f xs ≡ []) ↔ All (λ x. f x ≡ []) xs
  gather-eq-nil f [] = (λ h. tt, λ h. refl)
  gather-eq-nil f (x ∷ xs) = (
    λ e. let (p, q) = append-eq-nil (f x) (gather f xs) e in (p, (gather-eq-nil f xs).0 q),
    λ (p, q). rw p ((gather-eq-nil f xs).1 q),
  )

  pub All-iff : {P Q : A → Type 0} → ((x : A) → P x ↔ Q x) → (xs : List A) → All P xs ↔ All Q xs
  All-iff h [] = (λ u. tt, λ u. tt)
  All-iff h (x ∷ xs) =
      (λ (p, ps). ((h x).0 p, (All-iff h xs).0 ps), λ (q, qs). ((h x).1 q, (All-iff h xs).1 qs))

  pub All-weaken : {P Q : A → Type 0} → ((x : A) → P x → Q x) → (xs : List A) → All P xs → All Q xs
  All-weaken f [] h = tt
  All-weaken f (x ∷ xs) (hx, h) = (f x hx, All-weaken f xs h)

  pub All-rounds : {P : A → Type 0} → ((x : A) → P x) → (xs : List A) → All P xs
  All-rounds h [] = tt
  All-rounds h (x ∷ xs) = (h x, All-rounds h xs)
