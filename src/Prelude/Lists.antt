-- ===== src/Prelude/Lists.antt =====
-- Lists measured and cut by native numbers, under the library's names, and Go's slice operations.
use Prim.Native.Nat.{ℕ, zero, suc, ◌+◌, ◌-◌, ◌≤◌}
use mathlib.Core.Path.{◌≡◌, refl, ap, sym, ◌∙◌}
use mathlib.Core.List.{List, [], ◌∷◌, ◌++◌}
use native.Mathlib.Omega.{arith}

module _ {ℓ} {A : Type ℓ} where
  abbrev pub length : List A → ℕ
  length [] = 0
  length (x ∷ xs) = suc (length xs)

  abbrev pub take : ℕ → List A → List A
  take zero xs = []
  take (suc n) [] = []
  take (suc n) (x ∷ xs) = x ∷ take n xs

  abbrev pub drop : ℕ → List A → List A
  drop zero xs = xs
  drop (suc n) [] = []
  drop (suc n) (x ∷ xs) = drop n xs

  abbrev pub replicate : ℕ → A → List A
  replicate zero a = []
  replicate (suc n) a = a ∷ replicate n a

  -- An assignment `xs[i] = v` in bounds.
  abbrev pub set : List A → ℕ → A → List A
  set [] i v = []
  set (x ∷ xs) zero v = v ∷ xs
  set (x ∷ xs) (suc i) v = x ∷ set xs i v

  pub length-append : (xs ys : List A) → length (xs ++ ys) ≡ length xs + length ys
  length-append [] ys = omega arith
  length-append (x ∷ xs) ys = omega (arith, length-append xs ys)

module _ {ℓ} {A : Type ℓ} where
  -- `xs[lo:hi]` in bounds
  abbrev pub slice : ℕ → ℕ → List A → List A
  slice lo hi xs = take (hi - lo) (drop lo xs)

  -- `copy(out[off:], src)`, which stops at the shorter of the two
  abbrev pub copy_at : List A → ℕ → List A → List A
  copy_at (o ∷ out) (suc off) src = o ∷ copy_at out off src
  copy_at (o ∷ out) zero (b ∷ src) = b ∷ copy_at out zero src
  copy_at out off src = out

  pub length-take : (n : ℕ) (xs : List A) → n ≤ length xs → length (take n xs) ≡ n
  length-take zero xs h = refl
  length-take (suc n) [] h = absurd (omega arith)
  length-take (suc n) (x ∷ xs) h = ap suc (length-take n xs (omega arith))

  pub length-drop : (n : ℕ) (xs : List A) → length (drop n xs) ≡ length xs - n
  length-drop zero xs = omega arith
  length-drop (suc n) [] = omega arith
  length-drop (suc n) (x ∷ xs) = omega (arith, length-drop n xs)

  pub length-replicate : (n : ℕ) (a : A) → length (replicate n a) ≡ n
  length-replicate zero a = refl
  length-replicate (suc n) a = ap suc (length-replicate n a)

  pub take-append : (xs ys : List A) → take (length xs) (xs ++ ys) ≡ xs
  take-append [] ys = refl
  take-append (x ∷ xs) ys = ap (λ l. x ∷ l) (take-append xs ys)

  pub drop-append : (xs ys : List A) → drop (length xs) (xs ++ ys) ≡ ys
  drop-append [] ys = refl
  drop-append (x ∷ xs) ys = drop-append xs ys

  pub copy_at_full :
      (pre out src : List A)
      → length out ≡ length src
      → copy_at (pre ++ out) (length pre) src ≡ pre ++ src
  copy_at_full [] [] [] h = refl
  copy_at_full [] [] (b ∷ src) h = absurd (omega arith)
  copy_at_full [] (o ∷ out) [] h = absurd (omega arith)
  copy_at_full [] (o ∷ out) (b ∷ src) h = ap (λ l. b ∷ l) (copy_at_full [] out src (omega arith))
  copy_at_full (p ∷ pre) out src h = ap (λ l. p ∷ l) (copy_at_full pre out src h)

  pub replicate-snoc : (n : ℕ) (a : A) → replicate n a ++ a ∷ [] ≡ replicate (suc n) a
  replicate-snoc zero a = refl
  replicate-snoc (suc n) a = ap (λ l. a ∷ l) (replicate-snoc n a)

module _ {ℓ} {A : Type ℓ} where
  -- Two texts with equal beginnings and equal length of the first part split alike.
  pub append-injective :
      (xs ys : List A) {us vs : List A}
      → length xs ≡ length ys
      → xs ++ us ≡ ys ++ vs
      → (xs ≡ ys) × (us ≡ vs)
  append-injective [] [] h e = (refl, e)
  append-injective [] (y ∷ ys) h e = absurd (omega arith)
  append-injective (x ∷ xs) [] h e = absurd (omega arith)
  append-injective (x ∷ xs) (y ∷ ys) {us} {vs} h e =
      let tails : xs ++ us ≡ ys ++ vs = cc in
      let heads : x ≡ y = cc in
      let (p, q) = append-injective xs ys {us = us} {vs = vs} (omega arith) tails in (cc, q)

  -- What stands between `lo` and `hi`.
  pub slice_middle :
      (pre w rest : List A) (lo hi : ℕ)
      → lo ≡ length pre
      → hi ≡ lo + length w
      → slice lo hi (pre ++ (w ++ rest)) ≡ w
  slice_middle pre w rest lo hi e f =
      let width : hi - lo ≡ length w = omega arith in
      rw (width, e, drop-append pre (w ++ rest)) (take-append w rest)

  -- A run of one value, cut in two.
  pub replicate-split :
      (a : A) (n m k : ℕ) → n ≡ m + k → replicate n a ≡ replicate m a ++ replicate k a
  replicate-split a n zero k e = ap (λ j. replicate j a) {x = n} {y = k} (omega arith)
  replicate-split a zero (suc m) k e = absurd (omega arith)
  replicate-split a (suc n) (suc m) k e = ap (λ l. a ∷ l) (replicate-split a n m k (omega arith))

  -- A copy up to the right end.
  pub copy_at_end :
      (a : A) (b : List A) (n m : ℕ)
      → n ≡ m + length b
      → copy_at (replicate n a) m b ≡ replicate m a ++ b
  copy_at_end a b n m e =
      ap (λ l. copy_at l m b) (replicate-split a n m (length b) e)
      ∙ ap (λ k. copy_at (replicate m a ++ replicate (length b) a) k b) (sym (length-replicate m a))
      ∙ copy_at_full (replicate m a) (replicate (length b) a) b (length-replicate (length b) a)

  pub drop-drop : (m n k : ℕ) (xs : List A) → k ≡ m + n → drop n (drop m xs) ≡ drop k xs
  drop-drop zero n k xs e = ap (λ j. drop j xs) (omega arith)
  drop-drop (suc m) n zero xs e = absurd (omega arith)
  drop-drop (suc m) zero (suc k) [] e = refl
  drop-drop (suc m) (suc n) (suc k) [] e = refl
  drop-drop (suc m) n (suc k) (x ∷ xs) e = drop-drop m n k xs (omega arith)

module _ {ℓ κ} {A : Type ℓ} where
  -- Every element meets `P`.
  abbrev pub All : (A → Type κ) → List A → Type κ
  All P [] = Unit
  All P (x ∷ xs) = P x × All P xs

module _ {ℓ κ} {A : Type ℓ} {B : Type κ} where
  -- What `f` makes of each element, one after the other.
  abbrev pub gather : (A → List B) → List A → List B
  gather f [] = []
  gather f (x ∷ xs) = f x ++ gather f xs
