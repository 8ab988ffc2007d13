-- ===== src/Chain/Client/Reads.antt =====
-- What the client's methods return when the node answers with the ABI encoding of a value, or with
-- an error; and that no method emits an event.
use hertz_reconciler.Prelude.{
  ℕ, zero, suc, ◌*◌, ◌/◌, ◌%◌, ◌^◌, ◌<◌, ◌≤◌, ◌≡◌, List, [], ◌∷◌, ◌++◌, arith, Bytes, Str, str,
  length, be_bytes, set_bytes-be_bytes,
}
use hertz_reconciler.Prelude.Int.{ℤ}
use hertz_reconciler.Chain.Geth.{IsGeth, Hash, Address}
use hertz_reconciler.Chain.Reply.{ok, err}
use hertz_reconciler.Chain.Hex.RoundTrip.{IsBytes, hex_to_bytes-bytes_to_hex}
use hertz_reconciler.Chain.Abi.{pad_uint, max_alloc}
use hertz_reconciler.Chain.Abi.Words.{InInt256, int_word, decode_int-int_word}
use hertz_reconciler.Chain.Abi.Array.{
  AreAddresses, address_array, decode_address_array-address_array,
}
use hertz_reconciler.Chain.Client.{
  hex_data, must_selector, call, get_uint, get_int, get_role_members, or_crash,
}
use hertz_reconciler.Runtime.{Env, State, ret, ◌>>=◌}

IsBytes-snoc : (bs : Bytes) (b : ℕ) → IsBytes bs → b < 256 → IsBytes (bs ++ b ∷ [])
IsBytes-snoc [] b h hb = (hb, tt)
IsBytes-snoc (c ∷ bs) b (hc, h) hb = (hc, IsBytes-snoc bs b h hb)

pub be_bytes-IsBytes : (k v : ℕ) → IsBytes (be_bytes k v)
unfolding be_bytes
be_bytes-IsBytes zero v = tt
be_bytes-IsBytes (suc k) v =
    IsBytes-snoc (be_bytes k (v / 256)) (v % 256) (be_bytes-IsBytes k (v / 256)) (omega arith)

module _ {F W : Type 0} (env : Env F W) where
  -- In the state `s` the node answers a call with the bytes `out`, and the world becomes `w`.
  abbrev pub Answers : Address → Bytes → State F W → Bytes → W → Type 0
  Answers to data_of s out w =
      IsBytes out
      × (env.eth_call (env.geth.address_hex to) (hex_data data_of) s.world ≡ (ok (hex_data out), w))

  -- In the state `s` the node answers a call with an error.
  abbrev pub Fails : Address → Bytes → State F W → Str → W → Type 0
  Fails to data_of s e w =
      env.eth_call (env.geth.address_hex to) (hex_data data_of) s.world ≡ (err e, w)

  pub call_answered :
      (to : Address) (data_of out : Bytes) (s : State F W) (w : W)
      → Answers to data_of s out w
      → call env to data_of s ≡ ret (ok out) (record s { world = w })
  unfolding call ◌>>=◌ str
  call_answered to data_of out s w (bytes, e) = rw (e, (hex_to_bytes-bytes_to_hex out bytes).0)

-- `GetUint` returns every uint256 that the DataStore holds under the key, if the node answers with
-- its word.
pub get_uint_reads :
    {F W : Type 0} (env : Env F W) (ds : Address) (key : Hash) (s : State F W) (v : ℕ) (w : W)
    → v < 2 ^ 256
    → Answers env ds (must_selector env.geth (str "getUint(bytes32)") ++ key) s (be_bytes 32 v) w
    → get_uint env ds key s ≡ ret (ok v) (record s { world = w })
unfolding get_uint ◌>>=◌
get_uint_reads env ds key s v w h a =
    rw (call_answered env ds _ (be_bytes 32 v) s w a, set_bytes-be_bytes 32 v h)

-- `GetInt` returns every int256 that the DataStore holds under the key, with its sign, if the node
-- answers with its word in two's complement.
pub get_int_reads :
    {F W : Type 0} (env : Env F W) (ds : Address) (key : Hash) (s : State F W) (z : ℤ) (w : W)
    → InInt256 z
    → Answers env ds (must_selector env.geth (str "getInt(bytes32)") ++ key) s (int_word z) w
    → get_int env ds key s ≡ ret (ok z) (record s { world = w })
unfolding get_int ◌>>=◌
get_int_reads env ds key s z w h a =
    rw (call_answered env ds _ (int_word z) s w a, decode_int-int_word z h)

-- `GetRoleMembers` returns the members that the RoleStore returns, in their order, and does not
-- panic, as long as the list fits the address space. The members have 20 bytes, the node answers
-- with their ABI encoding, and the hash and address functions have their documented sizes.
pub get_role_members_reads :
    {F W : Type 0} (env : Env F W)
    → IsGeth env.geth
    → (rs : Address) (role : Hash) (start end : ℕ) (s : State F W) (members : List Address) (w : W)
    → AreAddresses members
    → length members * 20 ≤ max_alloc
    → Answers env rs
        (must_selector env.geth (str "getRoleMembers(bytes32,uint256,uint256)")
          ++ (role ++ (pad_uint start ++ pad_uint end)))
        s
        (address_array members)
        w
    → get_role_members env rs role start end s ≡ ret (ok members) (record s { world = w })
unfolding get_role_members or_crash ◌>>=◌
get_role_members_reads env geth rs role start end s members w h fits a = rw (
  call_answered env rs _ (address_array members) s w a,
  decode_address_array-address_array env.geth geth members h fits,
)
