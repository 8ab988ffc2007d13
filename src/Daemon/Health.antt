-- ===== src/Daemon/Health.antt =====
-- A metrics path that collides with `/health` crashes the daemon.
use hertz_reconciler.Prelude.{ℕ, ◌≡◌, refl, ap, ◌∙◌, Option, none, some, List, Str, str}
use hertz_reconciler.Metrics.{Event}
use hertz_reconciler.Reconciler.{Report}
use hertz_reconciler.Runtime.{Env}
use hertz_reconciler.Server.{Mux, IsMux, register, prometheus, health, then_health}
use hertz_reconciler.Daemon.{
  Setup, RunsTo, ServerPc, registering, crashed, Process, Output, silent, crashes, exits, emits,
  sends, apply, ServerMove, Step, Reach, initial, listen, register_panic, listen_error, time_passes,
  main_step, quick_step, daily_step, server_step, start, later,
}

then_health_panics :
    {X : Type 0} (mux : Mux X) (o : Option X)
    → IsMux mux
    → mux.handle mux.empty (str "/health") prometheus ≡ o
    → then_health mux o ≡ none
then_health_panics mux none ok e = refl
then_health_panics mux (some x) ok e = ok.again mux.empty x (str "/health") prometheus health e

register_health :
    {X : Type 0} (mux : Mux X) (path : Str)
    → IsMux mux
    → path ≡ str "/health"
    → register mux path ≡ none
unfolding register
register_health mux path ok e =
    ap (λ t. then_health mux (mux.handle mux.empty t prometheus)) e
    ∙ then_health_panics mux _ ok refl

server-apply : {F : Type 0} (o : Output F) (p : Process F) → (apply o p).server ≡ p.server
server-apply silent p = refl
server-apply crashes p = refl
server-apply exits p = refl
server-apply (emits e) p = refl
server-apply (sends t text) p = refl

module _ {F W X : Type 0} (Node : Env F W → Type 0) (u : Setup F X)
    (broken : register u.mux u.cfg.metrics.path ≡ none) where
  ServerMove-registering :
      {v v' : ServerPc} {o : Output F}
      → ServerMove Node u v o v'
      → v ≡ registering
      → v' ≡ registering
  ServerMove-registering (listen k) h = cc
  ServerMove-registering (register_panic k) h = h
  ServerMove-registering listen_error h = cc

  Step-registering :
      {p q : Process F} → Step Node u p q → p.server ≡ registering → q.server ≡ registering
  Step-registering (time_passes k a) h = h
  Step-registering {p} (main_step {o} {m} a mv) h = server-apply o (record p { main = m }) ∙ h
  Step-registering {p} (quick_step {o} {q} a mv) h = server-apply o (record p { quick = q }) ∙ h
  Step-registering {p} (daily_step {o} {d} a mv) h = server-apply o (record p { daily = d }) ∙ h
  Step-registering {p} (server_step {o} {v} a mv) h =
      server-apply o (record p { server = v }) ∙ ServerMove-registering mv h

  Reach-registering : {p : Process F} → Reach Node u p → p.server ≡ registering
  Reach-registering (start now run) = refl
  Reach-registering (later r st) = Step-registering st (Reach-registering r)

-- With `/health` as the path of the metrics the server never listens, and the daemon can crash from
-- the start, since `Handle` panics on a pattern that is registered.
pub health_path_crashes :
    {F W X : Type 0} (Node : Env F W → Type 0) (u : Setup F X) (now : ℕ) (es : List (Event F))
    (r : Option (List Report))
    → IsMux u.mux
    → u.cfg.metrics.path ≡ str "/health"
    → RunsTo Node u.cfg es r
    → ((p : Process F) → Reach Node u p → p.server ≡ registering)
      × ((p : Process F) × Reach Node u p × (p.status ≡ crashed))
health_path_crashes Node u now es r ok path run =
    let broken = register_health u.mux u.cfg.metrics.path ok path in
    let begun = initial Node u now es r in
    (
      (λ p reach. Reach-registering Node u broken reach),
      (
        record begun { status = crashed },
        later (start now run) (server_step refl (register_panic broken)),
        refl,
      ),
    )
