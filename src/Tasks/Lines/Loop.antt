-- ===== src/Tasks/Lines/Loop.antt =====
-- Loops that carry a report along with a number: the report gets no line, and the number is a sum.
use mathlib.Core.List.{Permᴰ}
use hertz_reconciler.Prelude.{
  ℕ, Bool, true, false, if◌then◌else◌, ◌+◌, ◌≡◌, refl, sym, ap, ◌∙◌, List, [], ◌∷◌, arith,
}
use hertz_reconciler.Prelude.Counts.{sum_of, sum_of-perm}
use hertz_reconciler.Chain.Reply.{Reply, ok, err}
use hertz_reconciler.Runtime.{M, foreach}
use hertz_reconciler.Runtime.Total.{Total, Total-bind_post, Total-pure, Total-weaken}
use hertz_reconciler.Reconciler.{Report}

-- The lines are kept, and the number grows by `n`.
abbrev pub Adds : ℕ → Report × ℕ → Report × ℕ → Type 0
Adds n (rep, total) acc = (acc.0.lines ≡ rep.lines) × (acc.1 ≡ total + n)

-- What a reply counts for: nothing if it is an error.
abbrev pub counted : {A : Type 0} → (A → ℕ) → Reply A → ℕ
counted f (ok a) = f a
counted f (err e) = 0

module _ {F W A : Type 0} (body : A → Report × ℕ → M F W (Report × ℕ)) (f : A → ℕ) where
  Adds-foreach :
      (xs : List A)
      → ((x : A) (acc : Report × ℕ) → Total (Adds (f x) acc) (body x acc))
      → (acc : Report × ℕ) → Total (Adds (sum_of f xs) acc) (foreach xs body acc)
  unfolding foreach
  Adds-foreach [] h acc = Total-pure acc (refl, omega arith)
  Adds-foreach (x ∷ xs) h acc =
      Total-bind_post (body x acc) (foreach xs body) (h x acc) λ acc' (l, n).
        Total-weaken (λ acc'' (l', n'). (l' ∙ l, omega (arith, n, n'))) (Adds-foreach xs h acc')

  -- The same in any order.
  pub Adds-range :
      {order xs : List A}
      → Permᴰ order xs
      → ((x : A) (acc : Report × ℕ) → Total (Adds (f x) acc) (body x acc))
      → (acc : Report × ℕ) → Total (Adds (sum_of f xs) acc) (foreach order body acc)
  Adds-range {order} p h acc =
      Total-weaken (λ acc' (l, n). (l, omega (arith, n, sum_of-perm f p)))
        (Adds-foreach order h acc)

-- A counter that goes up by one if `b` holds.
pub bump : (b : Bool) (n : ℕ) → (if b then n + 1 else n) ≡ n + (if b then 1 else 0)
bump true n = refl
bump false n = omega arith

-- What is counted of a reply that is known.
pub counted_of :
    {A : Type 0} (f : A → ℕ) {x reply r : Reply A} (n : ℕ)
    → x ≡ reply
    → x ≡ r
    → n + counted f r ≡ n + counted f reply
counted_of f n e p = ap (λ z. n + counted f z) (sym p ∙ e)

pub none_counted : (n : ℕ) → n ≡ n + 0
none_counted n = omega arith
