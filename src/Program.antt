-- ===== src/Program.antt =====
-- main.go, `main` up to the start of the daemon, and `NewClient` of internal/chain/client.go. Dialling
-- is a parameter; the flags are arguments. Logging and printing are left out.
pub mod Launches
use hertz_reconciler.Prelude.{ℕ, Bool, true, Option, none, some, Str, str, ◌++◌, if◌then◌else◌}
use hertz_reconciler.Prelude.Int.{ℤ}
use hertz_reconciler.Chain.Reply.{Reply, ok, err}
use hertz_reconciler.Config.{Config, Duration, Files, Getenv, load, slack_webhook_url}
use hertz_reconciler.Runtime.{Env, Floats, State, Outcome}
use hertz_reconciler.Notify.{Http, Slack, new_slack}
use hertz_reconciler.Schedule.{run_once}
use hertz_reconciler.Server.{Mux}
use hertz_reconciler.Tasks.{tasks}
use hertz_reconciler.Daemon.{Setup}

-- `Client`, over a connection of `rpc.Dial`; `ethclient` wraps the same connection.
pub record Client (C : Type 0) : Type 0 where
  pub connection : C
  pub timeout : Duration

unfoldable pub new_client : {C : Type 0} → (Str → Reply C) → Str → Duration → Reply (Client C)
new_client dial url timeout = elim (dial url) [
  | ok c ↦ ok (record { connection = c; timeout = timeout })
  | err e ↦ err (str "dial rpc: " ++ e)
]

-- What the process finds outside.
pub record Host (F W C X : Type 0) : Type 0 where
  pub files : Files
  pub atoi : Str → Option ℤ
  pub getenv : Getenv
  -- `rpc.Dial`
  pub dial : Str → Reply C
  -- what the client's methods meet through a connection
  pub node : Client C → Env F W
  pub http : Http W
  pub mux : Mux X
  pub parse : Str → Option (ℕ × ℕ)
  pub floats : Floats F

-- How `main` goes on.
pub data Launch (F W X : Type 0) : Type 0 where
  -- `os.Exit(1)` behind a message
  exit_failure : Str → Launch F W X
  -- the one run of `-once`, with the digest that is printed and what `Send` returned
  ran_once : Outcome F W (Str × Option Str) → Launch F W X
  -- the daemon, against a node
  serves : Setup F X → Env F W → Launch F W X

module _ {F W C X : Type 0} (host : Host F W C X) (once : Bool) (s : State F W) where
  unfoldable pub with_client : Config → Reply (Client C) → Launch F W X
  with_client cfg (err e) = exit_failure (str "rpc dial failed: " ++ e)
  with_client cfg (ok client) =
      let env = host.node client in
      let slack = new_slack (slack_webhook_url host.getenv cfg) in
      if once
      then ran_once (run_once host.http cfg (tasks env cfg) slack true s)
      else serves
          (record {
            cfg = cfg;
            slack = slack;
            parse = host.parse;
            floats = host.floats;
            mux = host.mux;
          })
          env

  unfoldable pub with_config : Reply Config → Launch F W X
  unfolding with_client new_client
  with_config (err e) = exit_failure (str "config: " ++ e)
  with_config (ok cfg) = with_client cfg (new_client host.dial cfg.rpc.url cfg.rpc.request_timeout)

  -- `main`, with the flags `-config` and `-once`
  unfoldable pub main : Str → Launch F W X
  unfolding with_config
  main config_path = with_config (load host.files host.atoi host.getenv config_path)
