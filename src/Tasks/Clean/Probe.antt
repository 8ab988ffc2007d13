-- ===== src/Tasks/Clean/Probe.antt =====
-- Rounds that add a finding only when a read fails, and their composition.
use mathlib.Core.List.{Permᴰ}
use mathlib.Core.List.Permᴰ
use hertz_reconciler.Prelude.{◌≡◌, ◌↔◌, sym, ◌∙◌, Option, List, [], Str, All}
use hertz_reconciler.Prelude.Counts.{append-eq-nil, All-perm}
use hertz_reconciler.Chain.Reply.{Reply, ok}
use hertz_reconciler.Metrics.{Event}
use hertz_reconciler.Runtime.{M, emit, pure, foreach, on_reply, ◌>>=◌, ◌>>◌}
use hertz_reconciler.Runtime.Total.{
  Total, Always, Total-bind, Total-bind_post, Total-emit, Total-pure, Total-weaken,
  Total-reply_post, Total-foreach_iff,
}
use hertz_reconciler.Reconciler.{Report, add_finding}

-- The value was read.
abbrev pub IsRead : {A : Type 0} → Reply A → Type 0
IsRead {A} reply = (a : A) × (reply ≡ ok a)

abbrev pub IsClean : Report → Type 0
IsClean rep = rep.findings ≡ []

pub IsClean-add_finding : (finding : Str) (rep : Report) → ¬ IsClean (add_finding finding rep)
IsClean-add_finding finding rep z = cc ((append-eq-nil rep.findings _ z).1)

-- What `m` returns is clean exactly when `Before` held and `C` holds.
pub record Checks {F W R : Type 0} (Clean : R → Type 0) (Before C : Type 0) (m : M F W R)
    : Type 0 where
  pub total : Total (λ r. Clean r ↔ (Before × C)) m

module _ {F W R : Type 0} {Clean : R → Type 0} where
  -- A read whose answer is known.
  pub Checks-read :
      {A Before C : Type 0} {reply : Reply A} (m : M F W (Reply A)) (f : Reply A → M F W R)
      → Always m reply
      → ((x : Reply A) → x ≡ reply → Checks Clean Before C (f x))
      → Checks Clean Before C (m >>= f)
  Checks-read m f h k = record { total = Total-bind_post m f h (λ x e. (k x e).total) }

  -- One check, and then another on what the first one returned.
  pub Checks-then :
      {Before C D : Type 0} (m : M F W R) (f : R → M F W R)
      → Checks Clean Before C m
      → ((r : R) → Checks Clean (Clean r) D (f r))
      → Checks Clean Before (C × D) (m >>= f)
  Checks-then m f h k = record {
    total = Total-bind_post m f h.total λ r e.
        Total-weaken
          (λ r' e'. (
            (λ z. let (c, d) = e'.0 z in let (b, c') = e.0 c in (b, (c', d))),
            (λ (b, (c, d)). e'.1 (e.1 (b, c), d)),
          ))
          ((k r).total);
  }

  -- The round goes on if the read succeeded and complains if it failed.
  pub Checks-reply :
      {A Before D : Type 0} (x : Reply A) {reply : Reply A} {f : A → M F W R} {g : Str → M F W R}
      → x ≡ reply
      → ((a : A) → Checks Clean Before D (f a))
      → ((e : Str) → Total (λ r. ¬ Clean r) (g e))
      → Checks Clean Before (IsRead reply × D) (on_reply x f g)
  Checks-reply x same kf kg = record {
    total =
        Total-reply_post x
          (λ a p.
            Total-weaken
              (λ r e. (
                (λ z. let (b, d) = e.0 z in (b, ((a, sym same ∙ p), d))),
                (λ (b, (c, d)). e.1 (b, d)),
              ))
              ((kf a).total))
          (λ t p. Total-weaken (λ r no. ((λ z. absurd (no z)), (λ (b, ((a, q), d)). cc))) (kg t));
  }

  -- The round makes no other check behind the read.
  pub Checks-last :
      {A Before : Type 0} (x : Reply A) {reply : Reply A} {f : A → M F W R} {g : Str → M F W R}
      → x ≡ reply
      → ((a : A) → Total (λ r. Clean r ↔ Before) (f a))
      → ((e : Str) → Total (λ r. ¬ Clean r) (g e))
      → Checks Clean Before (IsRead reply) (on_reply x f g)
  Checks-last x same kf kg = record {
    total =
        Total-reply_post x
          (λ a p.
            Total-weaken (λ r e. ((λ z. (e.0 z, (a, sym same ∙ p))), (λ (b, c). e.1 b))) (kf a))
          (λ t p. Total-weaken (λ r no. ((λ z. absurd (no z)), (λ (b, (a, q)). cc))) (kg t));
  }

  -- The round only exports what it read.
  pub Checks-export :
      {A Before : Type 0} (x : Reply A) {reply : Reply A} (event : A → Event F) (r : A → R)
      (g : Str → M F W R)
      → x ≡ reply
      → ((a : A) → Clean (r a) ↔ Before)
      → ((e : Str) → Total (λ r. ¬ Clean r) (g e))
      → Checks Clean Before (IsRead reply) (on_reply x (λ a. emit (event a) >> pure (r a)) g)
  Checks-export x event r g same kr kg =
      Checks-last x same
        (λ a. Total-bind (emit (event a)) _ (Total-emit _) λ _. Total-pure (r a) (kr a)) kg

  pub Checks-foreach :
      {A : Type 0} (body : A → R → M F W R) (C : A → Type 0) (xs : List A)
      → ((x : A) (r : R) → Checks Clean (Clean r) (C x) (body x r))
      → (r : R) → Checks Clean (Clean r) (All C xs) (foreach xs body r)
  Checks-foreach body C xs k r = record {
    total = Total-foreach_iff body Clean C xs (λ x r'. (k x r').total) r;
  }

  -- The same over the entries of a map, in the order in which Go visits them.
  pub Checks-range :
      {A : Type 0} (body : A → R → M F W R) (C : A → Type 0) {order xs : List A}
      → Permᴰ order xs
      → ((x : A) (r : R) → Checks Clean (Clean r) (C x) (body x r))
      → (r : R) → Checks Clean (Clean r) (All C xs) (foreach order body r)
  Checks-range body C {order} p k r = record {
    total =
        Total-weaken
          (λ r' e. (
            (λ z. let (b, c) = e.0 z in (b, All-perm C p c)),
            (λ (b, c). e.1 (b, All-perm C (Permᴰ.symm p) c)),
          ))
          ((Checks-foreach body C order k r).total);
  }

  -- The end of `Run`: the time is exported, and lines may be added to the report.
  pub Checks-end :
      {Before C : Type 0} (m : M F W R) (event : R → Event F) (result : R → Report × Option Str)
      → ((r : R) → IsClean ((result r).0) ≡ Clean r)
      → Checks Clean Before C m
      → Total
          (λ answer. IsClean (answer.0) ↔ (Before × C))
          (m >>= λ r. emit (event r) >> pure (result r))
  Checks-end m event result same h =
      Total-bind_post m _ h.total
        λ r e. Total-bind (emit _) _ (Total-emit _) λ _. Total-pure _ (rw (same r) e)

  -- The same, for checks from a report without findings.
  pub Checks-run :
      {Before C : Type 0} (m : M F W R) (event : R → Event F) (result : R → Report × Option Str)
      → Before
      → ((r : R) → IsClean ((result r).0) ≡ Clean r)
      → Checks Clean Before C m
      → Total (λ answer. IsClean (answer.0) ↔ C) (m >>= λ r. emit (event r) >> pure (result r))
  Checks-run m event result begun same h =
      Total-weaken (λ answer e. ((λ z. (e.0 z).1), (λ c. e.1 (begun, c))))
        (Checks-end m event result same h)

pub unchanged : {P : Type 0} → P ↔ P
unchanged = ((λ z. z), (λ z. z))
