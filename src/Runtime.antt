-- ===== src/Runtime.antt =====
-- The effects of a run: the answers of the node, the clock, the order in which Go ranges over a
-- map, and the events that the program emits. A task is a function of the state of the world
-- outside (`W`) and of the events so far, which returns or panics.
pub mod Keeps
pub mod Exports
pub mod Total
use hertz_reconciler.Prelude.{ℕ, Bool, ◌≡◌, refl, List, [], ◌∷◌, ◌++◌, Str}
use hertz_reconciler.Prelude.Int.{ℤ}
use hertz_reconciler.Chain.Geth.{Geth, Address}
use hertz_reconciler.Chain.Reply.{Reply, ok, err}
use hertz_reconciler.Metrics.{Event}

-- The float64 operations that the tasks use; their rounding is not modelled.
pub record Floats (F : Type 0) : Type 0 where
  -- `new(big.Float).SetInt(v).Quo(f, big.NewFloat(d)).Float64()`, for d = 1e18 and for d = 1e30
  pub over_1e18 : ℤ → F
  pub over_1e30 : ℤ → F
  -- the quotient of two integers through `big.Float`
  pub ratio : ℕ → ℕ → F
  -- `float64(x)`, and `x.Float64()` of a `big.Int`
  pub of_uint : ℕ → F
  -- the constants 0.9 and 1.0
  pub nine_tenths : F
  pub one : F
  -- `a > b`
  pub gt : F → F → Bool
  -- `%.Nf`
  pub fixed : ℕ → F → Str

-- What lies outside of the program.
pub record Env (F W : Type 0) : Type 0 where
  pub geth : Geth
  pub floats : Floats F
  -- `rpc.CallContext(ctx, &hex, "eth_call", {to, data}, "latest")`, a timeout being an error
  pub eth_call : Str → Str → W → Reply Str × W
  -- `eth.BalanceAt(ctx, addr, nil)`
  pub balance_at : Address → W → Reply ℕ × W
  -- `time.Now().Unix()`
  pub unix_now : W → ℕ × W
  -- the order in which a `range` visits the entries of a map
  pub range_order : List (Str × Str) → W → List (Str × Str) × W

pub record State (F W : Type 0) : Type 0 where
  pub world : W
  pub trace : List (Event F)

pub data Outcome (F W A : Type 0) : Type 0 where
  ret : A → State F W → Outcome F W A
  panic : State F W → Outcome F W A

abbrev pub M : Type 0 → Type 0 → Type 0 → Type 0
M F W A = State F W → Outcome F W A

module _ {F W : Type 0} where
  unfoldable pub emit : Event F → M F W (Unit {0})
  emit e s = ret tt (record s { trace = s.trace ++ e ∷ [] })

  -- An action of the outside world.
  unfoldable pub ask : {A : Type 0} → (W → A × W) → M F W A
  ask f s = let (a, w) = f s.world in ret a (record s { world = w })

module _ {F W A : Type 0} where
  unfoldable pub pure : A → M F W A
  pure a s = ret a s

  -- A run-time panic: nothing recovers from it.
  unfoldable pub crash : M F W A
  crash s = panic s

module _ {F W A B : Type 0} where
  abbrev pub continue : Outcome F W A → (A → M F W B) → Outcome F W B
  continue (ret a s) f = f a s
  continue (panic s) f = panic s

  infixl 10 ◌>>=◌
  unfoldable pub ◌>>=◌ : M F W A → (A → M F W B) → M F W B
  unfolding pure crash emit ask
  ◌>>=◌ m f s = continue (m s) f

  infixl 10 ◌>>◌
  abbrev pub ◌>>◌ : M F W A → M F W B → M F W B
  m >> n = m >>= λ _. n

-- `for _, x := range xs { r = body(x, r) }`
unfoldable pub foreach : {F W A R : Type 0} → List A → (A → R → M F W R) → R → M F W R
unfolding ◌>>=◌
foreach [] body r = pure r
foreach (x ∷ xs) body r = do r' ← body x r; foreach xs body r'

-- `if err == nil { f(a) } else { g(err) }` on the result of a call
abbrev pub on_reply : {F W A B : Type 0} → Reply A → (A → M F W B) → (Str → M F W B) → M F W B
on_reply (ok a) f g = f a
on_reply (err e) f g = g e

abbrev pub map_reply : {A B : Type 0} → (A → B) → Reply A → Reply B
map_reply f (ok a) = ok (f a)
map_reply f (err e) = err e
