-- ===== src/Chain/Reply.antt =====
-- A Go result `(value, error)`. An error is its text; the value beside an error is not read.
use hertz_reconciler.Prelude.{Str}

pub data Reply {ℓ} (A : Type ℓ) : Type ℓ where
  ok : A → Reply A
  err : Str → Reply A
