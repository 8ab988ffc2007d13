-- ===== src/Program/Launches.antt =====
-- What `main` starts.
use hertz_reconciler.Prelude.{
  ◌≡◌, refl, ◌⊎◌, inl, inr, Bool, true, false, Bool-cases, List, map, Str,
}
use hertz_reconciler.Chain.Reply.{Reply, ok, err}
use hertz_reconciler.Config.{Config, load, slack_webhook_url}
use hertz_reconciler.Config.Validate.{IsValid, load-IsValid}
use hertz_reconciler.Runtime.{Env, State, ret}
use hertz_reconciler.Runtime.Total.{ReturnsWith}
use hertz_reconciler.Notify.{new_slack}
use hertz_reconciler.Reconciler.{Report, run_all}
use hertz_reconciler.Reconciler.RunAll.{origin, all_pairs}
use hertz_reconciler.Reconciler.Render.{render}
use hertz_reconciler.Schedule.{run_once}
use hertz_reconciler.Schedule.Once.{run_once-render}
use hertz_reconciler.Tasks.{tasks}
use hertz_reconciler.Tasks.Whole.{IsDecodable, run_all-tasks-origin}
use hertz_reconciler.Program.{
  Client, new_client, Host, Launch, exit_failure, ran_once, serves, with_client, with_config, main,
}

module _ {F W C X : Type 0} (host : Host F W C X) where
  -- The node behind a connection, with the timeout of a configuration.
  abbrev node_of : C → Config → Env F W
  node_of c cfg = host.node (record { connection = c; timeout = cfg.rpc.request_timeout })

  -- `cfg` is the configuration that the file and the environment give, and its RPC URL was dialled.
  pub record Connected (path : Str) (cfg : Config) (c : C) : Type 0 where
    pub loaded : load host.files host.atoi host.getenv path ≡ ok cfg
    pub valid : IsValid cfg
    pub dialled : host.dial cfg.rpc.url ≡ ok c

module _ {F W C X : Type 0} (host : Host F W C X) (once : Bool) (s : State F W) where
  -- A run over the tasks, with the whole of `cfg`, returns a report for every version and task.
  abbrev pub Reporting : Env F W → Config → Type 0
  Reporting env cfg =
      (rs : List Report) × (t : State F W) × (run_all cfg (tasks env cfg) s ≡ ret rs t)
      × (map origin rs ≡ all_pairs cfg.versions (tasks env cfg))

  abbrev pub Started : Str → Launch F W X → Type 0
  Started path (exit_failure msg) =
      ((e : Str) × (load host.files host.atoi host.getenv path ≡ err e))
      ⊎ ((cfg : Config) × (e : Str) × (load host.files host.atoi host.getenv path ≡ ok cfg)
          × (host.dial cfg.rpc.url ≡ err e))
  Started path (ran_once o) =
      (once ≡ true)
      × (cfg : Config) × (c : C) × Connected host path cfg c
      × (o
          ≡ run_once host.http cfg (tasks (node_of host c cfg) cfg)
              (new_slack (slack_webhook_url host.getenv cfg)) true s)
      × (rs : List Report) × (map origin rs
          ≡ all_pairs cfg.versions (tasks (node_of host c cfg) cfg))
      × ReturnsWith (λ result. result.0 ≡ render rs) o
  Started path (serves u env) =
      (once ≡ false)
      × (c : C) × Connected host path u.cfg c
      × (env ≡ node_of host c u.cfg)
      × (u.slack ≡ new_slack (slack_webhook_url host.getenv u.cfg))
      × (u.parse ≡ host.parse)
      × (u.floats ≡ host.floats)
      × (u.mux ≡ host.mux)
      × Reporting env u.cfg

module _ {F W C X : Type 0} (host : Host F W C X) (once : Bool) (s : State F W)
    (decodable : (client : Client C) → IsDecodable (host.node client)) where
  with_client-Started :
      (path : Str) (cfg : Config) (r : Reply C)
      → load host.files host.atoi host.getenv path ≡ ok cfg
      → host.dial cfg.rpc.url ≡ r
      → Started host once s path
          (with_client host once s cfg (new_client host.dial cfg.rpc.url cfg.rpc.request_timeout))
  unfolding with_client new_client
  with_client-Started path cfg (err e) l d = rw (d, new_client) (inr (cfg, e, l, d))
  with_client-Started path cfg (ok c) l d =
      let client : Client C = record { connection = c; timeout = cfg.rpc.request_timeout } in
      let env = host.node client in
      let slack = new_slack (slack_webhook_url host.getenv cfg) in
      let connected : Connected host path cfg c = record {
        loaded = l;
        valid = load-IsValid host.files host.atoi host.getenv path cfg l;
        dialled = d;
      } in
      let (rs, pairs, returns) =
        run_once-render host.http env cfg slack true s (decodable client) in
      elim (Bool-cases once) [
        | inl e ↦ rw (d, new_client, e) (refl, cfg, c, connected, refl, rs, pairs, returns)
        | inr e ↦
            rw (d, new_client, e)
              (
                refl,
                c,
                connected,
                refl,
                refl,
                refl,
                refl,
                refl,
                run_all-tasks-origin env cfg s (decodable client),
              )
      ]

  with_config-Started :
      (path : Str) (r : Reply Config)
      → load host.files host.atoi host.getenv path ≡ r
      → Started host once s path (with_config host once s r)
  unfolding with_config
  with_config-Started path (err e) l = inl (e, l)
  with_config-Started path (ok cfg) l = with_client-Started path cfg (host.dial cfg.rpc.url) l refl

-- Unless a node sends a payload on which `decodeAddressArray` panics: `main` fails only if the
-- configuration cannot be loaded or its RPC URL cannot be dialled. Else it goes on with the very
-- configuration that `Load` returns, which is valid, with the webhook that it names, and against the
-- node that was dialled. With `-once` it makes exactly one run, which returns the digest of one
-- report for every version and every task. Without it, it starts the daemon, for which a run returns
-- one report for every version and every task.
pub main-Started :
    {F W C X : Type 0} (host : Host F W C X) (once : Bool) (s : State F W) (path : Str)
    → ((client : Client C) → IsDecodable (host.node client))
    → Started host once s path (main host once s path)
unfolding main
main-Started host once s path decodable = with_config-Started host once s decodable path _ refl
