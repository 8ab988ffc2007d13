-- ===== src/Tests/Demo.antt =====
-- The data of the tests. The hash keeps the first 32 bytes and an address the first 20, which is
-- enough for their documented sizes.
use mathlib.Core.List.Permᴰ
use hertz_reconciler.Prelude.{
  ℕ, ◌≡◌, refl, true, false, [], ◌∷◌, ◌++◌, arith, Bytes, Str, str, length, take, replicate,
  length-append, length-replicate, length-take,
}
use hertz_reconciler.Prelude.Int.{pos}
use hertz_reconciler.Chain.Geth.{Geth, IsGeth}
use hertz_reconciler.Chain.Reply.{Reply, ok}
use hertz_reconciler.Config.{VersionConfig, Config}
use hertz_reconciler.Runtime.{Env, Floats, State}
use hertz_reconciler.Tasks.Clean.Loop.{VisitsAll}

abbrev pub sized : ℕ → Bytes → Bytes
sized n b = take n (b ++ replicate n 0)

abbrev pub demo_geth : Geth
demo_geth = record {
  keccak256 = sized 32;
  hex_to_address = sized 20;
  address_hex = λ a. a;
  bytes_to_address = λ b. b;
}

length-sized : (n : ℕ) (b : Bytes) → length (sized n b) ≡ n
length-sized n b =
    length-take n (b ++ replicate n 0)
      (omega (arith, length-append b (replicate n 0), length-replicate {A = ℕ} n 0))

pub demo_geth-IsGeth : IsGeth demo_geth
demo_geth-IsGeth = record {
  length-keccak256 = length-sized 32;
  length-hex_to_address = length-sized 20;
  bytes_to_address_self = λ a h. refl;
}

-- Floats that are never above a threshold and print as nothing.
abbrev pub demo_floats : Floats ℕ
demo_floats = record {
  over_1e18 = λ z. 0;
  over_1e30 = λ z. 0;
  ratio = λ a b. 0;
  of_uint = λ n. n;
  nine_tenths = 1;
  one = 1;
  gt = λ a b. false;
  fixed = λ n f. [];
}

-- A node that gives the same answer to every call.
abbrev pub constant_node : Reply Str → Env ℕ (Unit {0})
constant_node r = record {
  geth = demo_geth;
  floats = demo_floats;
  eth_call = λ to data_of w. (r, w);
  balance_at = λ a w. (ok 7, w);
  unix_now = λ w. (1700000000, w);
  range_order = λ m w. (m, w);
}

pub constant_node-VisitsAll : (r : Reply Str) → VisitsAll (constant_node r)
constant_node-VisitsAll r m w = Permᴰ.refl m

abbrev pub demo_state : State ℕ (Unit {0})
demo_state = record { world = tt; trace = [] }

abbrev pub demo_version : VersionConfig
demo_version = record {
  name = str "v1";
  data_store = str "store";
  role_store = str "roles";
  gov_timelock = str "gov";
  config_timelock = [];
  usdt_token = str "usdt";
  vaults = (str "OrderVault", str "o") ∷ (str "FeeDistributorVault", str "f") ∷ [];
  markets = (str "BTC", str "b") ∷ (str "ETH", str "e") ∷ [];
  handlers = (str "OrderHandler", str "h") ∷ [];
}

abbrev pub demo_config : Config
demo_config = record {
  rpc = record { url = str "http://node"; request_timeout = pos 1; call_concurrency = pos 1 };
  scheduler = record { quick_interval = pos 300; daily_at_utc = str "09:00" };
  notify = record { slack_webhook_env = []; enabled = true };
  metrics = record { port = pos 9090; path = str "/metrics" };
  log = record { level = str "info" };
  versions = demo_version ∷ [];
  role_names = str "CONTROLLER" ∷ [];
  keepers = [];
}
