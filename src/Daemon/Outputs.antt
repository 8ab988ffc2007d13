-- ===== src/Daemon/Outputs.antt =====
-- No goroutine but `dailyLoop` posts, and it posts only if there is a webhook.
use hertz_reconciler.Prelude.{ℕ, ◌≡◌, refl, false, []}
use hertz_reconciler.Notify.{enabled}
use hertz_reconciler.Runtime.{Env}
use hertz_reconciler.Daemon.{
  Setup, MainPc, DailyPc, daily_unborn, scheduling, sleeping, daily_run, sending, daily_returned,
  Process, Output, silent, crashes, exits, emits, sends, apply, MainMove, QuickMove, DailyMove,
  ServerMove, ServerPc, QuickPc, Step, Reach, first_emit, first_panic, first_done, notify,
  killed_running, killed_starting, signal, cancel, exit, quick_start, ticker, ticker_panic, tick,
  quick_emit, quick_panic, quick_done, quick_stop, daily_start, schedule, fire, daily_emit,
  daily_panic, digest, no_webhook, post, daily_stop, listen, register_panic, listen_error,
  time_passes, main_step, quick_step, daily_step, server_step, start, later,
}

abbrev pub IsQuietOutput : {F : Type 0} → Output F → Type 0
IsQuietOutput silent = Unit
IsQuietOutput crashes = Unit
IsQuietOutput exits = Unit
IsQuietOutput (emits e) = Unit
IsQuietOutput (sends t text) = ⊥

module _ {F W X : Type 0} (Node : Env F W → Type 0) (u : Setup F X) where
  pub MainMove-IsQuietOutput :
      {a b : MainPc F} {o : Output F} → MainMove Node u a o b → IsQuietOutput o
  MainMove-IsQuietOutput first_emit = tt
  MainMove-IsQuietOutput first_panic = tt
  MainMove-IsQuietOutput first_done = tt
  MainMove-IsQuietOutput notify = tt
  MainMove-IsQuietOutput killed_running = tt
  MainMove-IsQuietOutput killed_starting = tt
  MainMove-IsQuietOutput signal = tt
  MainMove-IsQuietOutput cancel = tt
  MainMove-IsQuietOutput exit = tt

  pub QuickMove-IsQuietOutput :
      {a : MainPc F} {q q' : QuickPc F} {o : Output F} → QuickMove Node u a q o q' → IsQuietOutput o
  QuickMove-IsQuietOutput (quick_start k) = tt
  QuickMove-IsQuietOutput (ticker k) = tt
  QuickMove-IsQuietOutput (ticker_panic k) = tt
  QuickMove-IsQuietOutput (tick run) = tt
  QuickMove-IsQuietOutput quick_emit = tt
  QuickMove-IsQuietOutput quick_panic = tt
  QuickMove-IsQuietOutput quick_done = tt
  QuickMove-IsQuietOutput (quick_stop k) = tt

  pub ServerMove-IsQuietOutput :
      {v v' : ServerPc} {o : Output F} → ServerMove Node u v o v' → IsQuietOutput o
  ServerMove-IsQuietOutput (listen k) = tt
  ServerMove-IsQuietOutput (register_panic k) = tt
  ServerMove-IsQuietOutput listen_error = tt

-- `dailyLoop` is not about to post.
abbrev NotSending : {F : Type 0} → DailyPc F → Type 0
NotSending (sending t text) = ⊥
NotSending daily_unborn = Unit
NotSending scheduling = Unit
NotSending (sleeping t) = Unit
NotSending (daily_run t es r) = Unit
NotSending daily_returned = Unit

abbrev Unposted : {F : Type 0} → Process F → Type 0
Unposted p = (p.posts ≡ []) × NotSending p.daily

Unposted-apply :
    {F : Type 0} (o : Output F) (p : Process F)
    → IsQuietOutput o
    → Unposted p
    → Unposted (apply o p)
Unposted-apply silent p k h = h
Unposted-apply crashes p k h = h
Unposted-apply exits p k h = h
Unposted-apply (emits e) p k h = h
Unposted-apply (sends t text) p k h = absurd k

module _ {F W X : Type 0} (Node : Env F W → Type 0) (u : Setup F X)
    (off : enabled u.slack ≡ false) where
  DailyMove-NotSending :
      {a : MainPc F} {now : ℕ} {d d' : DailyPc F} {o : Output F}
      → DailyMove Node u a now d o d'
      → NotSending d
      → IsQuietOutput o × NotSending d'
  DailyMove-NotSending (daily_start k) h = (tt, tt)
  DailyMove-NotSending (schedule e) h = (tt, tt)
  DailyMove-NotSending (fire k run) h = (tt, tt)
  DailyMove-NotSending daily_emit h = (tt, tt)
  DailyMove-NotSending daily_panic h = (tt, tt)
  DailyMove-NotSending (digest on e) h = cc
  DailyMove-NotSending (no_webhook k) h = (tt, tt)
  DailyMove-NotSending post h = absurd h
  DailyMove-NotSending (daily_stop k) h = (tt, tt)

  Step-Unposted : {p q : Process F} → Step Node u p q → Unposted p → Unposted q
  Step-Unposted (time_passes k a) h = h
  Step-Unposted {p} (main_step {o} {m} a mv) h =
      Unposted-apply o (record p { main = m }) (MainMove-IsQuietOutput Node u mv) h
  Step-Unposted {p} (quick_step {o} {q} a mv) h =
      Unposted-apply o (record p { quick = q }) (QuickMove-IsQuietOutput Node u mv) h
  Step-Unposted {p} (daily_step {o} {d} a mv) (none_yet, h) =
      let (k, h') = DailyMove-NotSending mv h in
      Unposted-apply o (record p { daily = d }) k (none_yet, h')
  Step-Unposted {p} (server_step {o} {v} a mv) h =
      Unposted-apply o (record p { server = v }) (ServerMove-IsQuietOutput Node u mv) h

  Reach-Unposted : {p : Process F} → Reach Node u p → Unposted p
  Reach-Unposted (start now run) = (refl, tt)
  Reach-Unposted (later r st) = Step-Unposted st (Reach-Unposted r)

-- Without a webhook URL the daemon never posts.
pub no_webhook-posts :
    {F W X : Type 0} (Node : Env F W → Type 0) (u : Setup F X) (p : Process F)
    → enabled u.slack ≡ false
    → Reach Node u p
    → p.posts ≡ []
no_webhook-posts Node u p off r = (Reach-Unposted Node u off r).0
