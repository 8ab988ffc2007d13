-- ===== src/Tests/Program.antt =====
-- A host with a configuration file and a node that answers with one byte.
use hertz_reconciler.Prelude.{
  ℕ, ◌≡◌, refl, false, Option, none, some, List, [], Str, str, str_eq, if◌then◌else◌,
}
use hertz_reconciler.Prelude.Int.{ℤ, pos}
use hertz_reconciler.Chain.Reply.{ok}
use hertz_reconciler.Config.{
  Config, Files, Getenv, load, load_parsed, load_read, apply_env_overrides, validate, with_defaults,
  check_versions,
}
use hertz_reconciler.Config.Overrides.{Overridden, load-Overridden}
use hertz_reconciler.Program.{Host, main}
use hertz_reconciler.Program.Launches.{Started, main-Started}
use hertz_reconciler.Tests.Demo.{demo_floats, demo_state, demo_config}
use hertz_reconciler.Tests.Daemon.{demo_mux}
use hertz_reconciler.Tests.Runs.{short, short-IsDecodable}

abbrev demo_files : Files
demo_files = record { read_file = λ path. ok path; unmarshal = λ text. ok demo_config }

-- An environment that sets the port and the URL of the node.
abbrev demo_getenv : Getenv
demo_getenv key =
    if str_eq key (str "METRICS_PORT")
    then str "8081"
    else if str_eq key (str "RPC_URL")
    then str "http://other"
    else []

abbrev demo_atoi : Str → Option ℤ
demo_atoi s = some (pos 8081)

abbrev overridden_config : Config
overridden_config = record demo_config {
  rpc = record demo_config.rpc { url = str "http://other" };
  metrics = record demo_config.metrics { port = pos 8081 };
}

demo_load : load demo_files demo_atoi demo_getenv (str "config.yaml") ≡ ok overridden_config
unfolding load load_parsed load_read apply_env_overrides validate with_defaults check_versions str
    str_eq
demo_load = refl

load-Overridden_example :
    (text : Str) × (file : Config) × (demo_files.read_file (str "config.yaml") ≡ ok text)
    × (demo_files.unmarshal text ≡ ok file)
    × Overridden demo_atoi demo_getenv file overridden_config
load-Overridden_example =
    load-Overridden demo_files demo_atoi demo_getenv (str "config.yaml") overridden_config demo_load

abbrev demo_host : Host ℕ (Unit {0}) ℕ (List Str)
demo_host = record {
  files = demo_files;
  atoi = demo_atoi;
  getenv = demo_getenv;
  dial = λ url. ok 7;
  node = λ client. short;
  http = record {
    marshal = λ text. text;
    request_error = λ url. none;
    post = λ url body w. (ok 200, w);
  };
  mux = demo_mux;
  parse = λ s. some (9, 0);
  floats = demo_floats;
}

main-Started_example :
    Started demo_host false demo_state
      (str "config.yaml")
      (main demo_host false demo_state (str "config.yaml"))
main-Started_example =
    main-Started demo_host false demo_state (str "config.yaml") λ client. short-IsDecodable
