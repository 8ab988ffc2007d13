-- ===== src/Daemon/Progress.antt =====
-- The daemon is never stuck: while it waits for a signal, it can post another digest.
use mathlib.Core.Path.{subst}
use hertz_reconciler.Prelude.{
  ℕ, ◌+◌, ◌≡◌, refl, ap, ◌∙◌, true, none, some, List, [], ◌∷◌, Str, arith,
}
use hertz_reconciler.Metrics.{Event}
use hertz_reconciler.Runtime.{Env}
use hertz_reconciler.Reconciler.{Report}
use hertz_reconciler.Notify.{enabled}
use hertz_reconciler.Schedule.{next_daily_at}
use hertz_reconciler.Reconciler.{run_all}
use hertz_reconciler.Tasks.{tasks}
use hertz_reconciler.Reconciler.Render.{render}
use hertz_reconciler.Tasks.Whole.{IsDecodable}
use hertz_reconciler.Daemon.{
  Setup, RunsTo, result_of, MainPc, awaiting_signal, cancelled, DailyPc, daily_unborn, scheduling,
  sleeping, daily_run, sending, daily_returned, alive, Post, Process, Output, silent, crashes,
  exits, emits, sends, apply, MainMove, DailyMove, Step, Reach, first_emit, first_panic, first_done,
  notify, killed_running, killed_starting, signal, cancel, exit, daily_start, schedule, fire,
  daily_emit, daily_panic, digest, no_webhook, post, daily_stop, time_passes, main_step, quick_step,
  daily_step, server_step, start, later,
}
use hertz_reconciler.Daemon.Exports.{main-apply}
use hertz_reconciler.Daemon.Alive.{DailyReturns}
use hertz_reconciler.Daemon.Runs.{RunsTo-IsComplete}

daily-apply : {F : Type 0} (o : Output F) (p : Process F) → (apply o p).daily ≡ p.daily
daily-apply silent p = refl
daily-apply crashes p = refl
daily-apply exits p = refl
daily-apply (emits e) p = refl
daily-apply (sends t text) p = refl

module _ {F W X : Type 0} (Node : Env F W → Type 0) (u : Setup F X) where
  -- The steps from one process to another.
  pub data Leads : Process F → Process F → Type 0 where
    here : {p : Process F} → Leads p p
    next : {p q r : Process F} → Step Node u p q → Leads q r → Leads p r

  -- Some steps lead to a process with one more post.
  abbrev pub CanPost : Process F → Type 0
  CanPost p = (q : Process F) × (x : Post) × Leads p q × (q.posts ≡ x ∷ p.posts)

  CanPost-Step : {p q : Process F} → Step Node u p q → q.posts ≡ p.posts → CanPost q → CanPost p
  CanPost-Step s same (r, x, steps, e) = (r, x, next s steps, e ∙ ap (λ xs. x ∷ xs) same)

  -- The goroutine of the digests has not returned, unless `main` has, and its run returns.
  record Steady (m : MainPc F) (d : DailyPc F) : Type 0 where
    running : d ≡ daily_returned → m ≡ cancelled
    returns : DailyReturns d

  MainMove-cancelled :
      {m m' : MainPc F} {o : Output F} → MainMove Node u m o m' → m ≡ cancelled → m' ≡ cancelled
  MainMove-cancelled first_emit h = cc
  MainMove-cancelled first_panic h = h
  MainMove-cancelled first_done h = cc
  MainMove-cancelled notify h = cc
  MainMove-cancelled killed_running h = h
  MainMove-cancelled killed_starting h = h
  MainMove-cancelled signal h = cc
  MainMove-cancelled cancel h = refl
  MainMove-cancelled exit h = h

  DailyMove-Steady :
      ((env : Env F W) → Node env → IsDecodable env)
      → {m : MainPc F} {now : ℕ} {d d' : DailyPc F} {o : Output F} → DailyMove Node u m now d o d'
      → Steady m d
      → Steady m d'
  DailyMove-Steady ok (daily_start h) s = record { running = λ e. cc; returns = tt }
  DailyMove-Steady ok (schedule h) s = record { running = λ e. cc; returns = tt }
  DailyMove-Steady ok (fire h run) s =
      let (rs, e, _) = RunsTo-IsComplete Node u.cfg ok run in
      record { running = λ e'. cc; returns = λ z. cc }
  DailyMove-Steady ok daily_emit s = record { running = λ e. cc; returns = s.returns }
  DailyMove-Steady ok daily_panic s = s
  DailyMove-Steady ok (digest h e) s = record { running = λ e'. cc; returns = tt }
  DailyMove-Steady ok (no_webhook h) s = record { running = λ e. cc; returns = tt }
  DailyMove-Steady ok post s = record { running = λ e. cc; returns = tt }
  DailyMove-Steady ok (daily_stop h) s = record { running = λ e. h; returns = tt }

  Step-Steady :
      ((env : Env F W) → Node env → IsDecodable env)
      → {p q : Process F} → Step Node u p q
      → Steady p.main p.daily
      → Steady q.main q.daily
  Step-Steady ok (time_passes h a) s = s
  Step-Steady ok {p} (main_step {o} {m} a mv) s =
      rw (main-apply o (record p { main = m }), daily-apply o (record p { main = m }))
        (record { running = λ e. MainMove-cancelled mv (s.running e); returns = s.returns })
  Step-Steady ok {p} (quick_step {o} {q} a mv) s =
      rw (main-apply o (record p { quick = q }), daily-apply o (record p { quick = q })) s
  Step-Steady ok {p} (daily_step {o} {d} a mv) s =
      rw (main-apply o (record p { daily = d }), daily-apply o (record p { daily = d }))
        (DailyMove-Steady ok mv s)
  Step-Steady ok {p} (server_step {o} {v} a mv) s =
      rw (main-apply o (record p { server = v }), daily-apply o (record p { server = v })) s

  Reach-Steady :
      ((env : Env F W) → Node env → IsDecodable env)
      → {p : Process F} → Reach Node u p
      → Steady p.main p.daily
  Reach-Steady ok (start now run) = record { running = λ e. cc; returns = tt }
  Reach-Steady ok (later r st) = Step-Steady ok st (Reach-Steady ok r)

  module _ (on : enabled u.slack ≡ true) (es : List (Event F)) (rs : List Report)
      (run : RunsTo Node u.cfg es (some rs)) where
    sending-CanPost :
        (p : Process F) (t : ℕ) (text : Str)
        → p.status ≡ alive
        → p.daily ≡ sending t text
        → CanPost p
    sending-CanPost p t text a k =
        let x : Post = record { target = t; sent_at = p.now; text = text } in
        (
          record p { daily = scheduling; posts = x ∷ p.posts },
          x,
          next (daily_step {o = sends t text} {d = scheduling} a (rw k post)) here,
          refl,
        )

    daily_run-CanPost :
        (p : Process F) (t : ℕ) (es' : List (Event F)) (rs' : List Report)
        → p.status ≡ alive
        → p.daily ≡ daily_run t es' (some rs')
        → CanPost p
    daily_run-CanPost p t [] rs' a k =
        CanPost-Step
          (daily_step {o = silent} {d = sending t (render rs')} a (rw k (digest on refl))) refl
          (sending-CanPost (record p { daily = sending t (render rs') }) t (render rs') a refl)
    daily_run-CanPost p t (e ∷ es') rs' a k =
        let d = daily_run t es' (some rs') in
        CanPost-Step (daily_step {o = emits e} {d = d} a (rw k daily_emit)) refl
          (daily_run-CanPost (apply (emits e) (record p { daily = d })) t es' rs' a refl)

    sleeping-CanPost : (p : Process F) (t : ℕ) → p.status ≡ alive → p.daily ≡ sleeping t → CanPost p
    sleeping-CanPost p t a k =
        let p' = record p { now = p.now + t } in
        let d = daily_run t es (some rs) in
        CanPost-Step (time_passes {t = p.now + t} (omega arith) a) refl (
          CanPost-Step (daily_step {o = silent} {d = d} a (rw k (fire (omega arith) run))) refl
            (daily_run-CanPost (record p' { daily = d }) t es rs a refl))

    scheduling-CanPost : (p : Process F) → p.status ≡ alive → p.daily ≡ scheduling → CanPost p
    scheduling-CanPost p a k =
        let t = next_daily_at u.parse u.cfg.scheduler.daily_at_utc p.now in
        CanPost-Step (daily_step {o = silent} {d = sleeping t} a (rw k (schedule refl))) refl
          (sleeping-CanPost (record p { daily = sleeping t }) t a refl)

    from-CanPost :
        (p : Process F) (d : DailyPc F)
        → p.status ≡ alive
        → p.main ≡ awaiting_signal
        → Steady p.main p.daily
        → p.daily ≡ d
        → CanPost p
    from-CanPost p daily_unborn a m s k =
        CanPost-Step (daily_step {o = silent} {d = scheduling} a (rw (k, m) (daily_start tt))) refl
          (scheduling-CanPost (record p { daily = scheduling }) a refl)
    from-CanPost p scheduling a m s k = scheduling-CanPost p a k
    from-CanPost p (sleeping t) a m s k = sleeping-CanPost p t a k
    from-CanPost p (daily_run t es' (some rs')) a m s k = daily_run-CanPost p t es' rs' a k
    from-CanPost p (daily_run t es' none) a m s k =
        let no_panic : DailyReturns (daily_run t es' none) = rw k at s.returns in
        absurd (no_panic refl)
    from-CanPost p (sending t text) a m s k = sending-CanPost p t text a k
    from-CanPost p daily_returned a m s k = let stop = s.running k in cc

-- With a webhook, and against nodes that send no payload on which `decodeAddressArray` panics, of
-- which there is one: from every reachable state of the daemon in which it has not crashed and
-- `main` waits for a signal, some steps lead to a further post. So no interleaving blocks the
-- digests for good.
pub can_post_lem :
    {F W X : Type 0} (Node : Env F W → Type 0) (u : Setup F X) (env : Env F W) (w : W)
    (p : Process F)
    → Node env
    → ((e : Env F W) → Node e → IsDecodable e)
    → enabled u.slack ≡ true
    → Reach Node u p
    → p.status ≡ alive
    → p.main ≡ awaiting_signal
    → CanPost Node u p
can_post_lem Node u env w p here_is decodable on r a m =
    let o = result_of (run_all u.cfg (tasks env u.cfg) (record { world = w; trace = [] })) in
    let run : RunsTo Node u.cfg o.0 o.1 = record {
      env = env;
      node = here_is;
      world = w;
      result = refl;
    } in
    let (rs, e, _) = RunsTo-IsComplete Node u.cfg decodable run in
    from-CanPost Node u on o.0 rs (subst (RunsTo Node u.cfg o.0) e run) p p.daily a m
      (Reach-Steady Node u decodable r) refl
