-- ===== src/Tasks/Gauges/Rules.antt =====
-- The shapes of the tasks: a loop over a map, a read whose result is exported, the end of a run.
use hertz_reconciler.Prelude.{
  ◌≡◌, Bool, true, false, Option, List, [], ◌∷◌, ◌++◌, Str, gather, if◌then◌else◌,
}
use hertz_reconciler.Chain.Reply.{Reply, ok, err}
use hertz_reconciler.Config.{StrMap}
use hertz_reconciler.Metrics.{Event}
use hertz_reconciler.Runtime.{Env, M, emit, ask, pure, foreach, on_reply, ◌>>=◌, ◌>>◌}
use hertz_reconciler.Runtime.Keeps.{Keeps-ask}
use hertz_reconciler.Runtime.Total.{Anything}
use hertz_reconciler.Runtime.Exports.{
  Exports, Exports-silent, Exports-pure, Exports-bind, Exports-read, Exports-emit_then,
  Exports-range, Exports-reply, on_ok,
}
use hertz_reconciler.Reconciler.{Report, NoError}
use hertz_reconciler.Tasks.Clean.Loop.{VisitsAll, Total-range}

module _ {F W B : Type 0} {ys : List (Event F)} {Q : B → Type 0} where
  -- A test, or the result of a call, on which no event depends.
  pub Exports-if :
      (b : Bool) {m n : M F W B}
      → Exports ys Q m
      → Exports ys Q n
      → Exports ys Q (if b then m else n)
  Exports-if true h k = h
  Exports-if false h k = k

  pub Exports-ignore :
      {A : Type 0} (x : Reply A) {f : A → M F W B} {g : Str → M F W B}
      → ((a : A) → Exports ys Q (f a))
      → ((e : Str) → Exports ys Q (g e))
      → Exports ys Q (on_reply x f g)
  Exports-ignore (ok a) h k = h a
  Exports-ignore (err e) h k = k e

module _ {F W A R : Type 0} where
  -- What was read is exported, and the round goes on with a result.
  pub Exports-shown :
      (x : Reply A) {reply : Reply A} (event : A → Event F) (r : A → R) (r' : Str → R)
      → x ≡ reply
      → Exports {W = W}
          (on_ok (λ a. event a ∷ []) reply)
          Anything
          (on_reply x (λ a. emit (event a) >> pure (r a)) (λ e. pure (r' e)))
  Exports-shown x event r r' same =
      Exports-reply (λ a. event a ∷ []) x same
        (λ a. Exports-emit_then (event a) (pure (r a)) (Exports-pure (r a) tt))
        (λ e. Exports-pure (r' e) tt)

module _ {F W R : Type 0} where
  -- A loop over a map whose rounds export `f` of their entry.
  pub Exports-map :
      (env : Env F W)
      → VisitsAll env
      → (m : StrMap) (body : Str × Str → R → M F W R) (f : Str × Str → List (Event F)) (r : R)
      → ((x : Str × Str) (r : R) → Exports (f x) Anything (body x r))
      → Exports (gather f m) Anything (ask (env.range_order m) >>= λ order. foreach order body r)
  Exports-map env visits m body f r h =
      Exports-read (ask (env.range_order m)) (λ order. foreach order body r)
        (Exports-silent _ (Total-range env visits m) (Keeps-ask _))
        λ order p. Exports-range body f p h r

  -- The end of a run.
  pub Exports-end :
      {xs : List (Event F)} (m : M F W R) (event : Event F) (result : R → Report × Option Str)
      → ((r : R) → NoError (result r))
      → Exports xs Anything m
      → Exports (xs ++ event ∷ []) NoError (m >>= λ r. emit event >> pure (result r))
  Exports-end m event result fine h =
      Exports-bind m _ h
        λ r _. Exports-emit_then event (pure (result r)) (Exports-pure (result r) (fine r))

  -- A run over a map.
  pub Exports-run :
      (env : Env F W)
      → VisitsAll env
      → (m : StrMap) (body : Str × Str → R → M F W R) (f : Str × Str → List (Event F)) (r : R)
        (event : Event F) (result : R → Report × Option Str)
      → ((r : R) → NoError (result r))
      → ((x : Str × Str) (r : R) → Exports (f x) Anything (body x r))
      → Exports (gather f m ++ event ∷ []) NoError (
          ask (env.range_order m) >>= λ order.
          foreach order body r >>= λ r'. emit event >> pure (result r'))
  Exports-run env visits m body f r event result fine h =
      Exports-read (ask (env.range_order m)) _
        (Exports-silent _ (Total-range env visits m) (Keeps-ask _))
        λ order p. Exports-end (foreach order body r) event result fine (Exports-range body f p h r)
