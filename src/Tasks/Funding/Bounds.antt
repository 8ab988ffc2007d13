-- ===== src/Tasks/Funding/Bounds.antt =====
-- The numbers that `funding` compares: `absSub` and `absMax` of the two sides.
use hertz_reconciler.Prelude.{ℕ, suc, ◌+◌, ◌-◌, ◌*◌, ◌≤◌, ◌<◌, ◌≡◌, ◌↔◌, ltb, arith, if◌then◌else◌}
use hertz_reconciler.Prelude.Int.{ℤ, pos, negsuc, ◌-ℤ◌}
use hertz_reconciler.Tasks.Funding.{abs_sub, abs_max}

-- A number without its sign.
abbrev pub magnitude : ℤ → ℕ
magnitude (pos n) = n
magnitude (negsuc n) = suc n

-- How far two numbers lie apart.
abbrev pub distance : ℤ → ℤ → ℕ
distance (pos m) (pos n) = (m - n) + (n - m)
distance (pos m) (negsuc n) = m + suc n
distance (negsuc m) (pos n) = suc m + n
distance (negsuc m) (negsuc n) = (m - n) + (n - m)

-- The larger of two numbers without their signs.
abbrev pub larger : ℤ → ℤ → ℕ
larger a b = if ltb (magnitude a) (magnitude b) then magnitude b else magnitude a

pub abs_sub-distance : (a b : ℤ) → abs_sub a b ≡ distance a b
unfolding abs_sub ◌-ℤ◌
abs_sub-distance (pos m) (pos n) = ground arith
abs_sub-distance (pos m) (negsuc n) = ground arith
abs_sub-distance (negsuc m) (pos n) = ground arith
abs_sub-distance (negsuc m) (negsuc n) = ground arith

pub abs_max-larger : (a b : ℤ) → abs_max a b ≡ larger a b
unfolding abs_max
abs_max-larger (pos m) (pos n) = ground arith
abs_max-larger (pos m) (negsuc n) = ground arith
abs_max-larger (negsuc m) (pos n) = ground arith
abs_max-larger (negsuc m) (negsuc n) = ground arith

-- One side is negative and the other positive.
abbrev pub AreOpposed : ℤ → ℤ → Type 0
AreOpposed (pos m) (pos n) = ⊥
AreOpposed (pos m) (negsuc n) = 0 < m
AreOpposed (negsuc m) (pos n) = 0 < n
AreOpposed (negsuc m) (negsuc n) = ⊥

-- The imbalance is at most twice the larger side, and it exceeds the larger side, so that the ratio
-- is above 1, exactly when one side is negative and the other positive.
pub abs_sub_bounds :
    (long short : ℤ)
    → (abs_sub long short ≤ 2 * abs_max long short)
      × ((abs_max long short < abs_sub long short) ↔ AreOpposed long short)
unfolding abs_sub abs_max ◌-ℤ◌
abs_sub_bounds (pos m) (pos n) = ground arith
abs_sub_bounds (pos m) (negsuc n) = ground arith
abs_sub_bounds (negsuc m) (pos n) = ground arith
abs_sub_bounds (negsuc m) (negsuc n) = ground arith
