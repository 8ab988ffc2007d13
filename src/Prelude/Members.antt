-- ===== src/Prelude/Members.antt =====
-- Membership in a list.
use mathlib.Core.Path.{◌≡◌, sym, ◌∙◌, subst}
use mathlib.Core.Logic.{◌⊎◌, inl, inr}
use mathlib.Core.List.{List, [], ◌∷◌, ◌++◌, Permᴰ}
use hertz_reconciler.Prelude.Lists.{All, gather}

-- The list has the element.
abbrev pub Member : {A : Type 0} → A → List A → Type 0
Member a [] = ⊥
Member a (x ∷ xs) = (x ≡ a) ⊎ Member a xs

module _ {A : Type 0} (a : A) where
  pub All-Member : (P : A → Type 0) (xs : List A) → Member a xs → All P xs → P a
  All-Member P [] h ps = absurd h
  All-Member P (x ∷ xs) (inl e) (p, ps) = subst P e p
  All-Member P (x ∷ xs) (inr h) (p, ps) = All-Member P xs h ps

  pub Member-perm : {xs ys : List A} → Permᴰ xs ys → Member a xs → Member a ys
  Member-perm Permᴰ.nil h = h
  Member-perm (Permᴰ.cons e p) (inl h) = inl (sym e ∙ h)
  Member-perm (Permᴰ.cons e p) (inr h) = inr (Member-perm p h)
  Member-perm (Permᴰ.swap e f) (inl h) = inr (inl (sym e ∙ h))
  Member-perm (Permᴰ.swap e f) (inr (inl h)) = inl (sym f ∙ h)
  Member-perm (Permᴰ.swap e f) (inr (inr h)) = inr (inr h)
  Member-perm (Permᴰ.trans p q) h = Member-perm q (Member-perm p h)

  pub Member-left : (xs ys : List A) → Member a xs → Member a (xs ++ ys)
  Member-left [] ys h = absurd h
  Member-left (x ∷ xs) ys (inl e) = inl e
  Member-left (x ∷ xs) ys (inr h) = inr (Member-left xs ys h)

  pub Member-right : (xs ys : List A) → Member a ys → Member a (xs ++ ys)
  Member-right [] ys h = h
  Member-right (x ∷ xs) ys h = inr (Member-right xs ys h)

  -- Another element in the middle.
  pub Member-insert :
      (b : A) (xs ys : List A) → Member a (xs ++ ys) → Member a ((xs ++ b ∷ []) ++ ys)
  Member-insert b [] ys h = inr h
  Member-insert b (x ∷ xs) ys (inl e) = inl e
  Member-insert b (x ∷ xs) ys (inr h) = inr (Member-insert b xs ys h)

  Member-split : (xs ys : List A) → Member a (xs ++ ys) → Member a xs ⊎ Member a ys
  Member-split [] ys h = inr h
  Member-split (x ∷ xs) ys (inl e) = inl (inl e)
  Member-split (x ∷ xs) ys (inr h) = elim (Member-split xs ys h) [
    | inl k ↦ inl (inr k)
    | inr k ↦ inr k
  ]

  pub Member-gather :
      {B : Type 0} (f g : B → List A)
      → ((b : B) → Member a (f b) → Member a (g b))
      → (bs : List B) → Member a (gather f bs)
      → Member a (gather g bs)
  Member-gather f g h [] k = k
  Member-gather f g h (b ∷ bs) k = elim (Member-split (f b) (gather f bs) k) [
    | inl here ↦ Member-left (g b) (gather g bs) (h b here)
    | inr there ↦ Member-right (g b) (gather g bs) (Member-gather f g h bs there)
  ]
