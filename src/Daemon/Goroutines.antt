-- ===== src/Daemon/Goroutines.antt =====
-- main.go: where the goroutines of the daemon stand, and what a move of one of them does outside of it.
use hertz_reconciler.Prelude.{ℕ, ◌≡◌, Option, none, some, List, [], ◌∷◌, ◌++◌, Str}
use hertz_reconciler.Config.{Config}
use hertz_reconciler.Metrics.{Event}
use hertz_reconciler.Runtime.{Env, Floats, Outcome, ret, panic}
use hertz_reconciler.Reconciler.{Report, run_all}
use hertz_reconciler.Notify.{Slack}
use hertz_reconciler.Server.{Mux}
use hertz_reconciler.Tasks.{tasks}

-- What does not change while the daemon runs.
pub record Setup (F X : Type 0) : Type 0 where
  pub cfg : Config
  pub slack : Slack
  -- `time.Parse("15:04", hhmm)`
  pub parse : Str → Option (ℕ × ℕ)
  pub floats : Floats F
  pub mux : Mux X

abbrev pub result_of :
    {F W : Type 0} → Outcome F W (List Report) → List (Event F) × Option (List Report)
result_of (ret rs s) = (s.trace, some rs)
result_of (panic s) = (s.trace, none)

-- The events `es` and the reports `r` are those of a run against one of the nodes.
pub record RunsTo {F W : Type 0} (Node : Env F W → Type 0) (cfg : Config) (es : List (Event F))
    (r : Option (List Report)) : Type 0 where
  pub env : Env F W
  pub node : Node env
  pub world : W
  pub result :
      result_of (run_all cfg (tasks env cfg) (record { world = world; trace = [] })) ≡ (es, r)

-- Where each goroutine stands. A run in progress holds the events that it has yet to emit.
pub data MainPc (F : Type 0) : Type 0 where
  -- `runOnce` before the loops are started
  first_run : List (Event F) → Option (List Report) → MainPc F
  -- the start of the loops, up to `signal.Notify`
  starting : MainPc F
  -- `<-sig`
  awaiting_signal : MainPc F
  -- behind `metrics.ReconcilerUp.Set(0)`
  shutting_down : MainPc F
  -- behind the deferred `cancel()`
  cancelled : MainPc F

pub data QuickPc (F : Type 0) : Type 0 where
  quick_unborn making_ticker awaiting_tick : QuickPc F
  quick_run : List (Event F) → Option (List Report) → QuickPc F
  quick_returned : QuickPc F

pub data DailyPc (F : Type 0) : Type 0 where
  daily_unborn scheduling : DailyPc F
  -- waiting for the timer of the given time
  sleeping : ℕ → DailyPc F
  -- the run for the given time
  daily_run : ℕ → List (Event F) → Option (List Report) → DailyPc F
  -- about to call `slack.Send` with the digest
  sending : ℕ → Str → DailyPc F
  daily_returned : DailyPc F

pub data ServerPc : Type 0 where
  registering stopped : ServerPc
  -- `http.ListenAndServe` on the address
  listening : Str → ServerPc

-- `main` ends the process when it returns, and so does a signal that is not caught; a panic of any
-- goroutine ends it at once.
pub data Status : Type 0 where
  alive crashed exited : Status

-- A call of `slack.Send`: the time it was scheduled for, the time of the call, and the digest.
pub record Post : Type 0 where
  pub target : ℕ
  pub sent_at : ℕ
  pub text : Str

-- `posts` has the latest call first.
pub record Process (F : Type 0) : Type 0 where
  pub now : ℕ
  pub main : MainPc F
  pub quick : QuickPc F
  pub daily : DailyPc F
  pub server : ServerPc
  pub trace : List (Event F)
  pub posts : List Post
  pub status : Status

-- What a move of a goroutine does outside of it.
pub data Output (F : Type 0) : Type 0 where
  silent crashes exits : Output F
  emits : Event F → Output F
  sends : ℕ → Str → Output F

abbrev pub apply : {F : Type 0} → Output F → Process F → Process F
apply silent p = p
apply crashes p = record p { status = crashed }
apply exits p = record p { status = exited }
apply (emits e) p = record p { trace = p.trace ++ e ∷ [] }
apply (sends t text) p = record p {
  posts = record { target = t; sent_at = p.now; text = text } ∷ p.posts;
}

-- The loops have been started.
abbrev pub IsServing : {F : Type 0} → MainPc F → Type 0
IsServing (first_run es r) = ⊥
IsServing _ = Unit
