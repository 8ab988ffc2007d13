-- ===== src/Prelude/Words.antt =====
-- Byte strings as big-endian numbers: `big.Int.SetBytes`, `big.Int.Bytes` and fixed-width words.
use Prim.Native.Nat.{ℕ, zero, suc, ◌+◌, ◌-◌, ◌*◌, ◌/◌, ◌%◌, ◌<◌, ◌≤◌}
use mathlib.Core.Path.{◌≡◌, refl, ap, sym, ◌∙◌}
use mathlib.Core.Logic.{inl, inr}
use mathlib.Core.List.{List, [], ◌∷◌, ◌++◌, append_assoc, append-nil}
use native.Mathlib.Omega.{arith}
use hertz_reconciler.Prelude.Lists.{length, replicate, length-append, replicate-snoc}
use hertz_reconciler.Prelude.Tests.{◌==◌, ==_iff, if◌then◌else◌, Bool-cases}

abbrev pub Bytes : Type 0
Bytes = List ℕ

from_bytes : ℕ → Bytes → ℕ
from_bytes acc [] = acc
from_bytes acc (b ∷ bs) = from_bytes (acc * 256 + b) bs

-- `new(big.Int).SetBytes(b)`
unfoldable pub set_bytes : Bytes → ℕ
unfolding from_bytes
set_bytes b = from_bytes 0 b

-- The low `k` bytes of a number, the most significant first.
unfoldable pub be_bytes : ℕ → ℕ → Bytes
be_bytes zero v = []
be_bytes (suc k) v = be_bytes k (v / 256) ++ (v % 256) ∷ []

-- `big.Int.Bytes()` of a number of at most `k` bytes: no leading zero.
unfoldable pub min_bytes : ℕ → ℕ → Bytes
min_bytes zero v = []
min_bytes (suc k) v =
    let rest = min_bytes k (v / 256) in if v == 0 then [] else rest ++ (v % 256) ∷ []

-- 256 to the power of `k`
abbrev pub pow256 : ℕ → ℕ
pow256 zero = 1
pow256 (suc k) = pow256 k * 256

pub length-be_bytes : (k v : ℕ) → length (be_bytes k v) ≡ k
unfolding be_bytes
length-be_bytes zero v = refl
length-be_bytes (suc k) v =
    omega
      (arith, length-append (be_bytes k (v / 256)) ((v % 256) ∷ []), length-be_bytes k (v / 256))

from_bytes-append :
    (acc : ℕ) (xs ys : Bytes) → from_bytes acc (xs ++ ys) ≡ from_bytes (from_bytes acc xs) ys
unfolding from_bytes
from_bytes-append acc [] ys = refl
from_bytes-append acc (x ∷ xs) ys = from_bytes-append (acc * 256 + x) xs ys

pub set_bytes-snoc : (xs : Bytes) (b : ℕ) → set_bytes (xs ++ b ∷ []) ≡ set_bytes xs * 256 + b
unfolding set_bytes
set_bytes-snoc xs b = from_bytes-append 0 xs (b ∷ [])

-- A number of at most `k` bytes is read back from its `k` bytes.
pub set_bytes-be_bytes : (k v : ℕ) → v < pow256 k → set_bytes (be_bytes k v) ≡ v
unfolding be_bytes
set_bytes-be_bytes zero v h = unfold set_bytes in omega arith
set_bytes-be_bytes (suc k) v h = omega (
  arith,
  set_bytes-snoc (be_bytes k (v / 256)) (v % 256),
  set_bytes-be_bytes k (v / 256) (omega arith),
)

be_bytes-zero : (k : ℕ) → be_bytes k 0 ≡ replicate k 0
unfolding be_bytes
be_bytes-zero zero = refl
be_bytes-zero (suc k) = ap (λ l. l ++ 0 ∷ []) (be_bytes-zero k) ∙ replicate-snoc k 0

-- High bytes that are not needed are zero.
pub be_bytes_small :
    (m k n v : ℕ) → n ≡ m + k → v < pow256 k → be_bytes n v ≡ replicate m 0 ++ be_bytes k v
unfolding be_bytes
be_bytes_small m zero n v e h =
    let none_left : v ≡ 0 = omega arith in
    let same : n ≡ m = omega arith in
    rw (none_left, same, be_bytes-zero m) (sym (append-nil (replicate m 0)))
be_bytes_small m (suc k) zero v e h = absurd (omega arith)
be_bytes_small m (suc k) (suc n) v e h =
    rw (be_bytes_small m k n (v / 256) (omega arith) (omega arith))
      (append_assoc (replicate m 0) (be_bytes k (v / 256)) ((v % 256) ∷ []))

pub min_bytes-le : (k v : ℕ) → length (min_bytes k v) ≤ k
unfolding min_bytes
min_bytes-le zero v = omega arith
min_bytes-le (suc k) v =
    ground (arith, min_bytes-le k (v / 256), length-append (min_bytes k (v / 256)) ((v % 256) ∷ []))

-- The minimal bytes, padded on the left, are the fixed-width word.
pub min_bytes_padded :
    (k v : ℕ) → replicate (k - length (min_bytes k v)) 0 ++ min_bytes k v ≡ be_bytes k v
min_bytes_padded zero v = unfold min_bytes be_bytes in refl
min_bytes_padded (suc k) v = elim (Bool-cases (v == 0)) [
  | inl none_left ↦
      let zeroes : min_bytes (suc k) v ≡ [] = unfold min_bytes in rw none_left in
      let nothing : v ≡ 0 = (==_iff v 0).0 none_left in
      let whole : suc k - 0 ≡ suc k = omega arith in
      rw (zeroes, whole, nothing, be_bytes-zero (suc k)) (append-nil (replicate (suc k) 0))
  | inr more ↦
      let rest = min_bytes k (v / 256) in
      let last = (v % 256) ∷ [] in
      let step : min_bytes (suc k) v ≡ rest ++ last = unfold min_bytes in rw more in
      let pad : suc k - length (rest ++ last) ≡ k - length rest =
        omega (arith, length-append rest last) in
      rw
        (
          step,
          pad,
          ← append_assoc (replicate (k - length rest) 0) rest last,
          min_bytes_padded k (v / 256),
        )
        (unfold be_bytes in refl)
]
