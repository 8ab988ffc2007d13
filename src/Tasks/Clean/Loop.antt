-- ===== src/Tasks/Clean/Loop.antt =====
-- The findings of a loop over a map, whatever the order in which Go visits it.
use mathlib.Core.List.{Permᴰ}
use mathlib.Core.List.Permᴰ
use hertz_reconciler.Prelude.{
  ◌≡◌, ◌↔◌, refl, true, List, [], ◌∷◌, Str, All, gather, length, arith, ◌==◌, ==_iff,
}
use hertz_reconciler.Prelude.Counts.{All-perm, All-iff, gather-eq-nil}
pub use hertz_reconciler.Prelude.Counts.{All-rounds}
use hertz_reconciler.Config.{StrMap}
use hertz_reconciler.Runtime.{Env, ask}
use hertz_reconciler.Runtime.Total.{Total}

-- A range visits every entry of the map once, in some order.
abbrev pub VisitsAll : {F W : Type 0} → Env F W → Type 0
VisitsAll {F} {W} env = (m : StrMap) (w : W) → Permᴰ (env.range_order m w).0 m

module _ {F W : Type 0} (env : Env F W) where
  pub Total-range :
      VisitsAll env
      → (m : StrMap) → Total {F = F} (λ order. Permᴰ order m) (ask (env.range_order m))
  unfolding ask
  Total-range h m = record {
    at = λ s. (
      (env.range_order m s.world).0,
      record s { world = (env.range_order m s.world).1 },
      refl,
      h m s.world,
    );
  }

-- No entry gives a finding exactly when every entry of the map is clean.
pub none_found_iff :
    {A : Type 0} (found : A → List Str) (Clean : A → Type 0)
    → ((x : A) → (found x ≡ []) ↔ Clean x)
    → (order m : List A) → Permᴰ order m
    → (gather found order ≡ []) ↔ All Clean m
none_found_iff found Clean h order m p =
    let nothing = gather-eq-nil found order in
    let clean = All-iff {P = λ x. found x ≡ []} {Q = Clean} h order in
    (
      (λ e. All-perm Clean p (clean.0 (nothing.0 e))),
      (λ c. nothing.1 (clean.1 (All-perm Clean (Permᴰ.symm p) c))),
    )

-- Every entry of a map without entries is clean.
pub All-empty : {A : Type 0} (P : A → Type 0) (xs : List A) → (length xs == 0) ≡ true → All P xs
All-empty P [] h = tt
All-empty P (x ∷ xs) h = absurd (omega (arith, (==_iff (length (x ∷ xs)) 0).0 h))
