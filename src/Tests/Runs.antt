-- ===== src/Tests/Runs.antt =====
-- Whole runs, calls and the run-time panic, against a node that always gives one answer.
use hertz_reconciler.Prelude.{
  ℕ, ◌≡◌, refl, some, List, map, [], ◌∷◌, ◌++◌, arith, Bytes, str, str_eq, replicate, be_bytes,
  set_bytes,
}
use hertz_reconciler.Prelude.Int.{negsuc}
use hertz_reconciler.Chain.Geth.{Address, Hash}
use hertz_reconciler.Chain.Reply.{ok, err}
use hertz_reconciler.Chain.Hex.{hex_to_bytes, hex_loop, hex_nibble}
use hertz_reconciler.Chain.Hex.RoundTrip.{IsBytes}
use hertz_reconciler.Chain.Abi.{decode_address_array, decode_uint64}
use hertz_reconciler.Chain.Abi.Words.{int_word}
use hertz_reconciler.Chain.Abi.Array.{address_array}
use hertz_reconciler.Chain.Client.{
  hex_data, get_int, get_uint, get_role_member_count, get_role_members,
}
use hertz_reconciler.Chain.Client.Reads.{
  be_bytes-IsBytes, get_uint_reads, get_int_reads, get_role_members_reads, call_answered,
}
use hertz_reconciler.Metrics.{SetsGauge}
use hertz_reconciler.Runtime.{Env, State, ret, panic, ◌>>=◌}
use hertz_reconciler.Runtime.Keeps
use hertz_reconciler.Runtime.Keeps.{Holds}
use hertz_reconciler.Reconciler.{run_all, empty_report, Report}
use hertz_reconciler.Reconciler.RunAll.{origin, all_pairs}
use hertz_reconciler.Tasks.{tasks}
use hertz_reconciler.Tasks.Role.{role_round}
use hertz_reconciler.Tasks.Whole.{IsDecodable, run_all-tasks-SetsGauge, run_all-tasks-origin}
use hertz_reconciler.Tasks.Clean.Role.{role_round_panics}
use hertz_reconciler.Tests.Demo.{
  demo_geth, demo_geth-IsGeth, constant_node, demo_state, demo_version, demo_config,
}

-- A node that is down.
abbrev down : Env ℕ (Unit {0})
down = constant_node (err (str "timeout"))

-- A node that answers with one byte, which is no array.
abbrev pub short : Env ℕ (Unit {0})
short = constant_node (ok (str "0x3c"))

run_all-tasks-SetsGauge_example :
    Holds SetsGauge Keeps.Anything [] (run_all demo_config (tasks down demo_config) demo_state)
run_all-tasks-SetsGauge_example = run_all-tasks-SetsGauge down demo_config demo_state

pub short_decodes : decode_address_array demo_geth (hex_to_bytes (str "0x3c")) ≡ some (ok [])
unfolding decode_address_array hex_to_bytes hex_loop hex_nibble str str_eq
short_decodes = refl

pub short-IsDecodable : IsDecodable short
short-IsDecodable to d w hex e p = cc (short_decodes)

run_all-tasks-origin_example :
    (rs : List Report) × (s' : State ℕ (Unit {0})) × (run_all demo_config
        (tasks short demo_config)
        demo_state
      ≡ ret rs s')
    × (map origin rs ≡ all_pairs demo_config.versions (tasks short demo_config))
run_all-tasks-origin_example = run_all-tasks-origin short demo_config demo_state short-IsDecodable

-- A node that answers with the word of 60.
abbrev word_node : ℕ → Env ℕ (Unit {0})
word_node v = constant_node (ok (hex_data (be_bytes 32 v)))

get_uint_reads_example : get_uint (word_node 60) [] [] demo_state ≡ ret (ok 60) demo_state
get_uint_reads_example =
    get_uint_reads (word_node 60) [] [] demo_state 60 tt (omega arith)
      (be_bytes-IsBytes 32 60, refl)

abbrev int_node : Env ℕ (Unit {0})
int_node = constant_node (ok (hex_data (int_word (negsuc 41))))

get_int_reads_example : get_int int_node [] [] demo_state ≡ ret (ok (negsuc 41)) demo_state
get_int_reads_example =
    get_int_reads int_node [] [] demo_state (negsuc 41) tt (omega arith)
      (be_bytes-IsBytes 32 _, refl)

-- A node with two members of every role.
abbrev members : List Address
members = replicate 20 3 ∷ replicate 20 4 ∷ []

abbrev members_node : Env ℕ (Unit {0})
members_node = constant_node (ok (hex_data (address_array members)))

members-IsBytes : IsBytes (address_array members)
unfolding be_bytes
members-IsBytes = ground arith

get_role_members_reads_example :
    get_role_members members_node [] [] 0 50 demo_state ≡ ret (ok members) demo_state
get_role_members_reads_example =
    get_role_members_reads members_node demo_geth-IsGeth [] [] 0 50 demo_state members tt
      (refl, (refl, tt)) (omega arith) (members-IsBytes, refl)

-- A node whose answer has the largest offset, and 1 as the last byte.
abbrev payload : Bytes
payload = replicate 32 255 ++ replicate 32 1

abbrev hostile : Env ℕ (Unit {0})
hostile = constant_node (ok (hex_data payload))

payload-IsBytes : IsBytes payload
payload-IsBytes = ground arith

hostile_count :
    (rs : Address) (role : Hash)
    → get_role_member_count hostile rs role demo_state ≡ ret (ok 72340172838076673) demo_state
unfolding get_role_member_count ◌>>=◌ decode_uint64 set_bytes
hostile_count rs role =
    rw (call_answered hostile rs _ payload demo_state tt (payload-IsBytes, refl)) (refl)

role_round_panics_example :
    (t : State ℕ (Unit {0})) × (role_round hostile demo_version []
        (str "CONTROLLER")
        empty_report
        demo_state
      ≡ panic t)
unfolding set_bytes
role_round_panics_example =
    role_round_panics hostile demo_version [] (str "CONTROLLER") empty_report demo_state demo_state
      72340172838076673 payload tt (hostile_count _ _) (omega arith) (payload-IsBytes, refl)
      (omega arith) (omega arith) (omega arith)
