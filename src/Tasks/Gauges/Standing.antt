-- ===== src/Tasks/Gauges/Standing.antt =====
-- The gauges that do not depend on the time, over several runs against a chain that does not change.
use mathlib.Core.List.Permᴰ
use hertz_reconciler.Prelude.{
  ℕ, ◌≡◌, refl, sym, ap, ◌∙◌, List, [], ◌∷◌, ◌++◌, append_assoc, gather, All,
}
use hertz_reconciler.Prelude.Members.{Member, Member-perm, Member-left, Member-gather}
use hertz_reconciler.Chain.Client.Snapshot.{Snapshot, IsStable, HasArrays}
use hertz_reconciler.Config.{VersionConfig, Config}
use hertz_reconciler.Metrics.{Event, set_to}
use hertz_reconciler.Metrics.Values.{Gauge}
use hertz_reconciler.Metrics.Reorder.{Distinct-perm}
use hertz_reconciler.Metrics.Steady.{Agrees, Distinct-Agrees}
use hertz_reconciler.Runtime.{Env, State, ret}
use hertz_reconciler.Reconciler.{Report, run_all}
use hertz_reconciler.Tasks.{tasks}
use hertz_reconciler.Tasks.Clean.Loop.{VisitsAll}
use hertz_reconciler.Tasks.Clean.Order.{
  TaskName, vaults_task, roles_task, timelock_task, params_task, fees_task, funding_task, gas_task,
  features_task, queue_task, oi_task, oracle_task, feeds_task, every_task,
}
use hertz_reconciler.Tasks.Gauges.Expected.{gauges_of, gauges_of_run}
use hertz_reconciler.Tasks.Gauges.Feeds.{ReadsClock}
use hertz_reconciler.Tasks.Gauges.Places.{IsNamed}
use hertz_reconciler.Tasks.Gauges.Shown.{gauges_of_run-Distinct, run_all-exports}

-- The tasks that do not read the clock.
abbrev pub standing_tasks : List TaskName
standing_tasks =
    vaults_task ∷ roles_task ∷ timelock_task ∷ params_task ∷ fees_task ∷ funding_task ∷ gas_task
    ∷ features_task ∷ queue_task ∷ oi_task ∷ oracle_task ∷ []

-- What they export, whatever the time is.
abbrev pub standing_gauges : {F W : Type 0} → Env F W → Snapshot → Config → List (Event F)
standing_gauges env snap cfg =
    gather (λ vc. gather (gauges_of env snap vc cfg 0) standing_tasks) cfg.versions

-- A node of the chain: it gives the answers of the snapshot, and the clock stands still during a
-- run. Go-ethereum and the floats are those of `env₀`.
pub record Serves {F W : Type 0} (env₀ : Env F W) (snap : Snapshot) (env : Env F W) : Type 0 where
  pub geth : env.geth ≡ env₀.geth
  pub floats : env.floats ≡ env₀.floats
  pub stable : IsStable env snap
  pub visits : VisitsAll env
  pub arrays : HasArrays env snap
  pub time : ℕ
  pub clock : ReadsClock env time

gather-append :
    {A B : Type 0} (f : A → List B) (xs ys : List A)
    → gather f (xs ++ ys) ≡ gather f xs ++ gather f ys
gather-append f [] ys = refl
gather-append f (x ∷ xs) ys =
    ap (λ l. f x ++ l) (gather-append f xs ys)
    ∙ sym (append_assoc (f x) (gather f xs) (gather f ys))

module _ {F W : Type 0} (env : Env F W) (snap : Snapshot) (cfg : Config) where
  version-Member :
      (now : ℕ) (e : Event F) (vc : VersionConfig)
      → Member e (gather (gauges_of env snap vc cfg 0) standing_tasks)
      → Member e (gather (gauges_of env snap vc cfg now) every_task)
  version-Member now e vc h =
      rw (gather-append (gauges_of env snap vc cfg now) standing_tasks (feeds_task ∷ []))
        (Member-left e (gather (gauges_of env snap vc cfg 0) standing_tasks) _ h)

  -- A run exports all of them.
  standing-Member :
      (now : ℕ) (e : Event F)
      → Member e (standing_gauges env snap cfg)
      → Member e (gauges_of_run env snap cfg now)
  standing-Member now e h = Member-gather e _ _ (version-Member now e) cfg.versions h

module _ {F W : Type 0} (env₀ : Env F W) (snap : Snapshot) (cfg : Config) where
  -- What is exported depends on the node only through the snapshot.
  same_standing :
      (env : Env F W)
      → env.geth ≡ env₀.geth
      → env.floats ≡ env₀.floats
      → standing_gauges env₀ snap cfg ≡ standing_gauges env snap cfg
  same_standing env g f i =
      standing_gauges (record env { geth = sym g i; floats = sym f i }) snap cfg

  -- A run against a node of the chain sets each gauge to its value, and to no other one.
  pub run_all-Agrees :
      (env : Env F W)
      → Serves env₀ snap env
      → IsNamed cfg
      → (g : Gauge) (x : F) → Member (set_to g.0 g.1 x) (standing_gauges env₀ snap cfg)
      → (s : State F W)
      → (rs : List Report) × (s' : State F W) × (es : List (Event F)) × (run_all cfg
            (tasks env cfg)
            s
          ≡ ret rs s')
        × (s'.trace ≡ s.trace ++ es)
        × All (Agrees g x) es
        × Member (set_to g.0 g.1 x) es
  run_all-Agrees env serves named g x h s =
      let (rs, s', es, e, f, p) =
        run_all-exports env snap cfg serves.time s serves.stable serves.visits serves.arrays
          serves.clock in
      let distinct =
        Distinct-perm (Permᴰ.symm p) (gauges_of_run-Distinct env snap cfg serves.time named) in
      let there : Member (set_to g.0 g.1 x) es = Member-perm (set_to g.0 g.1 x) (Permᴰ.symm p) (
        standing-Member env snap cfg serves.time (set_to g.0 g.1 x)
          (rw (← same_standing env serves.geth serves.floats) h)) in
      (rs, s', es, e, f, Distinct-Agrees g x es distinct there, there)
