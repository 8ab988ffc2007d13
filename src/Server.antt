-- ===== src/Server.antt =====
-- main.go, `startMetricsServer`: the two patterns that it registers and the address it listens on.
-- The multiplexer of net/http is a parameter.
use hertz_reconciler.Prelude.{suc, ◌≡◌, Option, none, some, Str, str, ◌++◌, decimal}
use hertz_reconciler.Prelude.Int.{ℤ, pos, negsuc}

-- `promhttp.Handler()`, and the function that answers 200 and `OK`
pub data Handler : Type 0 where
  prometheus health : Handler

-- `http.NewServeMux()`, and `mux.Handle`, where `none` is a panic
pub record Mux (X : Type 0) : Type 0 where
  pub empty : X
  pub handle : X → Str → Handler → Option X

-- net/http documents that `Handle` panics on a pattern that is registered.
pub record IsMux {X : Type 0} (mux : Mux X) : Type 0 where
  pub again :
      (x x' : X) (pattern : Str) (h h' : Handler)
      → mux.handle x pattern h ≡ some x'
      → mux.handle x' pattern h' ≡ none

-- `%d`
unfoldable pub show_int : ℤ → Str
show_int (pos n) = decimal n
show_int (negsuc n) = str "-" ++ decimal (suc n)

-- `fmt.Sprintf(":%d", port)`
unfoldable pub listen_address : ℤ → Str
unfolding show_int
listen_address port = str ":" ++ show_int port

abbrev pub then_health : {X : Type 0} → Mux X → Option X → Option X
then_health mux none = none
then_health mux (some x) = mux.handle x (str "/health") health

-- The registrations; `none` is a panic of the goroutine, which ends the process.
unfoldable pub register : {X : Type 0} → Mux X → Str → Option X
register mux path = then_health mux (mux.handle mux.empty path prometheus)
