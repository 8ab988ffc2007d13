-- ===== src/Prelude/Perms.antt =====
-- Lists up to their order.
use mathlib.Core.Path.{refl}
use mathlib.Core.List.{List, [], ◌∷◌, ◌++◌, Permᴰ}
use mathlib.Core.List.Permᴰ
use hertz_reconciler.Prelude.Lists.{gather}

module _ {A : Type 0} where
  pub append-perm :
      {us us' vs vs' : List A} → Permᴰ us us' → Permᴰ vs vs' → Permᴰ (us ++ vs) (us' ++ vs')
  append-perm {us'} {vs} p q = Permᴰ.trans (Permᴰ.append_right vs p) (Permᴰ.append_left us' q)

  -- The first two of three lists change places.
  append_swap : (us vs ws : List A) → Permᴰ (us ++ (vs ++ ws)) (vs ++ (us ++ ws))
  append_swap [] vs ws = Permᴰ.refl (vs ++ ws)
  append_swap (u ∷ us) vs ws =
      Permᴰ.trans (Permᴰ.cons refl (append_swap us vs ws))
        (Permᴰ.symm (Permᴰ.middle u vs (us ++ ws)))

module _ {A B : Type 0} where
  pub gather-perm :
      (f : A → List B) {xs ys : List A} → Permᴰ xs ys → Permᴰ (gather f xs) (gather f ys)
  gather-perm f Permᴰ.nil = Permᴰ.nil
  gather-perm f (Permᴰ.cons {a = a} {b = b} e p) = rw e (Permᴰ.append_left (f b) (gather-perm f p))
  gather-perm f (Permᴰ.swap {a = a} {b = b} {a' = a'} {b' = b'} {l = l} e g) =
      rw (e, g) (append_swap (f b') (f a') (gather f l))
  gather-perm f (Permᴰ.trans p q) = Permᴰ.trans (gather-perm f p) (gather-perm f q)
