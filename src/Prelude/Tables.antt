-- ===== src/Prelude/Tables.antt =====
-- Facts about bytes, checked at every value.
use Prim.Native.Nat.{ℕ, zero, suc, ◌<◌}
use mathlib.Core.Path.{◌≡◌}
use mathlib.Core.Bool.{Bool, true, ◌&&◌}
use native.Mathlib.Omega.{arith}

-- The test passes at every number under the bound.
unfoldable pub passes : (ℕ → Bool) → ℕ → Bool
passes test zero = true
passes test (suc bound) = passes test bound && test bound

pub passes_at :
    (test : ℕ → Bool) (bound c : ℕ) → c < bound → passes test bound ≡ true → test c ≡ true
unfolding passes
passes_at test zero c small checked = absurd (omega arith)
passes_at test (suc bound) c small checked = ground (arith, passes_at test bound c)
