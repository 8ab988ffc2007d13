-- ===== src/Daemon/Digests.antt =====
-- Which digests the daemon posts, and when.
use hertz_reconciler.Prelude.Counts.{All-weaken}
use hertz_reconciler.Prelude.{
  ℕ, ◌+◌, ◌*◌, ◌%◌, ◌≤◌, ◌<◌, ◌≡◌, ap, ◌∙◌, some, List, [], ◌∷◌, Str, All, arith,
}
use hertz_reconciler.Runtime.{Env}
use hertz_reconciler.Reconciler.{Report}
use hertz_reconciler.Reconciler.Render.{render}
use hertz_reconciler.Schedule.{day, hour, minute, next_daily_at}
use hertz_reconciler.Schedule.Daily.{next_daily_at_lem}
use hertz_reconciler.Tasks.Whole.{IsDecodable}
use hertz_reconciler.Daemon.{
  Setup, MainPc, DailyPc, daily_unborn, scheduling, sleeping, daily_run, sending, daily_returned,
  Post, Process, Output, silent, crashes, exits, emits, sends, apply, DailyMove, Step, Reach,
  daily_start, schedule, fire, daily_emit, daily_panic, digest, no_webhook, post, daily_stop,
  time_passes, main_step, quick_step, daily_step, server_step, start, later,
}
use hertz_reconciler.Daemon.Outputs.{
  IsQuietOutput, MainMove-IsQuietOutput, QuickMove-IsQuietOutput, ServerMove-IsQuietOutput,
}
use hertz_reconciler.Daemon.Runs.{IsComplete, RunsTo-IsComplete}

-- The posts of the list, the latest first, are scheduled at least a day apart.
abbrev pub Spaced : List Post → Type 0
Spaced [] = Unit
Spaced (x ∷ xs) = All (λ y. y.target + day ≤ x.target) xs × Spaced xs

module _ {F W X : Type 0} (Node : Env F W → Type 0) (u : Setup F X)
    (decodable : (env : Env F W) → Node env → IsDecodable env) (h m : ℕ)
    (parsed : u.parse u.cfg.scheduler.daily_at_utc ≡ some (h, m)) (hour_ok : h < 24)
    (minute_ok : m < 60) where
  -- The time of the day is the configured one.
  abbrev OnTime : ℕ → Type 0
  OnTime t = t % day ≡ h * hour + m * minute

  abbrev IsDigest : Str → Type 0
  IsDigest text = (rs : List Report) × (text ≡ render rs) × IsComplete Node u.cfg rs

  -- Each post so far.
  abbrev PostOk : ℕ → Post → Type 0
  PostOk now x = (x.target ≤ x.sent_at) × (x.sent_at ≤ now) × OnTime x.target × IsDigest x.text

  -- What `dailyLoop` is at, against the posts so far.
  abbrev DueAt : ℕ → List Post → Type 0
  DueAt t posts = OnTime t × All (λ y. y.target < t) posts

  abbrev Due : ℕ → DailyPc F → List Post → Type 0
  Due now daily_unborn posts = Unit
  Due now scheduling posts = Unit
  Due now (sleeping t) posts = DueAt t posts
  Due now (daily_run t es r) posts =
      (t ≤ now) × DueAt t posts × ((rs : List Report) × (r ≡ some rs) × IsComplete Node u.cfg rs)
  Due now (sending t text) posts = (t ≤ now) × DueAt t posts × IsDigest text
  Due now daily_returned posts = Unit

  record Digests (now : ℕ) (d : DailyPc F) (posts : List Post) : Type 0 where
    posts_ok : All (PostOk now) posts
    spaced : Spaced posts
    due : Due now d posts

  abbrev DigestsOf : Process F → Type 0
  DigestsOf p = Digests p.now p.daily p.posts

  Digests-apply :
      (o : Output F) (p : Process F) → IsQuietOutput o → DigestsOf p → DigestsOf (apply o p)
  Digests-apply silent p k s = s
  Digests-apply crashes p k s = s
  Digests-apply exits p k s = s
  Digests-apply (emits e) p k s = s
  Digests-apply (sends t text) p k s = absurd k

  -- Two times of the same time of day are a day apart.
  day_apart : (s t : ℕ) → OnTime s → OnTime t → s < t → s + day ≤ t
  day_apart s t p q k = omega arith

  targets_apart :
      (now t : ℕ) (posts : List Post)
      → OnTime t
      → All (PostOk now) posts
      → All (λ y. y.target < t) posts
      → All (λ y. y.target + day ≤ t) posts
  targets_apart now t [] p ok k = tt
  targets_apart now t (y ∷ ys) p (oky, ok) (ky, k) =
      (day_apart y.target t oky.2 p ky, targets_apart now t ys p ok k)

  targets_past :
      (now : ℕ) (posts : List Post) (t : ℕ)
      → now < t
      → All (PostOk now) posts
      → All (λ y. y.target < t) posts
  targets_past now posts t k ok = All-weaken (λ y (a, b, c, d). omega arith) posts ok

  scheduled :
      (now t : ℕ) (posts : List Post)
      → t ≡ next_daily_at u.parse u.cfg.scheduler.daily_at_utc now
      → All (PostOk now) posts
      → DueAt t posts
  scheduled now t posts e ok =
      let (after, within, on_time) =
        next_daily_at_lem u.parse u.cfg.scheduler.daily_at_utc now h m parsed hour_ok minute_ok in
      (ap (λ (k : ℕ). k % day) e ∙ on_time, targets_past now posts t (omega (arith, e)) ok)

  -- The clock goes on.
  later_posts :
      (now now' : ℕ) (posts : List Post)
      → now ≤ now'
      → All (PostOk now) posts
      → All (PostOk now') posts
  later_posts now now' posts k ok = All-weaken (λ y (a, b, c, d). (a, omega arith, c, d)) posts ok

  later-Due :
      (now now' : ℕ) (d : DailyPc F) (posts : List Post)
      → now ≤ now'
      → Due now d posts
      → Due now' d posts
  later-Due now now' daily_unborn posts k e = tt
  later-Due now now' scheduling posts k e = tt
  later-Due now now' (sleeping t) posts k e = e
  later-Due now now' (daily_run t es r) posts k (a, b, c) = (omega arith, b, c)
  later-Due now now' (sending t text) posts k (a, b, c) = (omega arith, b, c)
  later-Due now now' daily_returned posts k e = tt

  -- A move of `dailyLoop`, with what it posts.
  DailyMove-Digests :
      {a : MainPc F} {d d' : DailyPc F} {o : Output F} (p : Process F)
      → DailyMove Node u a p.now d o d'
      → Digests p.now d p.posts
      → DigestsOf (apply o (record p { daily = d' }))
  DailyMove-Digests p (daily_start k) s = record {
    posts_ok = s.posts_ok;
    spaced = s.spaced;
    due = tt;
  }
  DailyMove-Digests p (schedule {t} e) s = record {
    posts_ok = s.posts_ok;
    spaced = s.spaced;
    due = scheduled p.now t p.posts e s.posts_ok;
  }
  DailyMove-Digests p (fire k run) s = record {
    posts_ok = s.posts_ok;
    spaced = s.spaced;
    due = (k, s.due, RunsTo-IsComplete Node u.cfg decodable run);
  }
  DailyMove-Digests p daily_emit s = record {
    posts_ok = s.posts_ok;
    spaced = s.spaced;
    due = s.due;
  }
  DailyMove-Digests p daily_panic s = s
  DailyMove-Digests p (digest {t} {rs} k e) s =
      let (past, due, (rs', same, complete)) = s.due in
      let eq : rs ≡ rs' = cc in
      record {
        posts_ok = s.posts_ok;
        spaced = s.spaced;
        due = (past, due, (rs', e ∙ ap render eq, complete));
      }
  DailyMove-Digests p (no_webhook k) s = record {
    posts_ok = s.posts_ok;
    spaced = s.spaced;
    due = tt;
  }
  DailyMove-Digests p (post {t} {text}) s =
      let (past, (on_time, before), full) = s.due in
      record {
        posts_ok = ((past, omega arith, on_time, full), s.posts_ok);
        spaced = (targets_apart p.now t p.posts on_time s.posts_ok before, s.spaced);
        due = tt;
      }
  DailyMove-Digests p (daily_stop k) s = record {
    posts_ok = s.posts_ok;
    spaced = s.spaced;
    due = tt;
  }

  Step-Digests : {p q : Process F} → Step Node u p q → DigestsOf p → DigestsOf q
  Step-Digests {p} (time_passes {t} k a) s = record {
    posts_ok = later_posts p.now t p.posts k s.posts_ok;
    spaced = s.spaced;
    due = later-Due p.now t p.daily p.posts k s.due;
  }
  Step-Digests {p} (main_step {o} {m} a mv) s =
      Digests-apply o (record p { main = m }) (MainMove-IsQuietOutput Node u mv) s
  Step-Digests {p} (quick_step {o} {q} a mv) s =
      Digests-apply o (record p { quick = q }) (QuickMove-IsQuietOutput Node u mv) s
  Step-Digests {p} (daily_step {o} {d} a mv) s = DailyMove-Digests p mv s
  Step-Digests {p} (server_step {o} {v} a mv) s =
      Digests-apply o (record p { server = v }) (ServerMove-IsQuietOutput Node u mv) s

  Reach-Digests : {p : Process F} → Reach Node u p → DigestsOf p
  Reach-Digests (start now run) = record { posts_ok = tt; spaced = tt; due = tt }
  Reach-Digests (later r st) = Step-Digests st (Reach-Digests r)

-- Every post of the daemon was scheduled for the configured time of the day and made no earlier,
-- and its text is the digest of one report for every version and every task; no two posts are
-- scheduled less than 24 hours apart. The configured hour is under 24 and the minute under 60, and
-- the node sends no payload on which `decodeAddressArray` panics.
pub posts_lem :
    {F W X : Type 0} (Node : Env F W → Type 0) (u : Setup F X) (h m : ℕ) (p : Process F)
    → ((env : Env F W) → Node env → IsDecodable env)
    → u.parse u.cfg.scheduler.daily_at_utc ≡ some (h, m)
    → h < 24
    → m < 60
    → Reach Node u p
    → All
        (λ x.
          (x.target ≤ x.sent_at)
          × (x.sent_at ≤ p.now)
          × (x.target % day ≡ h * hour + m * minute)
          × ((rs : List Report) × (x.text ≡ render rs) × IsComplete Node u.cfg rs))
        p.posts
      × Spaced p.posts
posts_lem Node u h m p decodable parsed hour_ok minute_ok r =
    let s = Reach-Digests Node u decodable h m parsed hour_ok minute_ok r in (s.posts_ok, s.spaced)
