-- ===== src/Chain/Client.antt =====
-- internal/chain/client.go: the calls of the node. `call` is the one place that reaches it, but for
-- `BalanceOfNative`; the other methods build call data and decode what comes back.
pub mod Reads
pub mod Keeps
pub mod Returns
pub mod Snapshot
pub mod Silent
pub mod Garbled
use hertz_reconciler.Prelude.{
  ℕ, ◌+◌, ◌*◌, List, [], ◌∷◌, ◌++◌, Option, none, some, Bool, Bytes, Str, str, take, set_bytes,
}
use hertz_reconciler.Prelude.Int.{ℤ}
use hertz_reconciler.Chain.Geth.{Geth, Hash, Address}
use hertz_reconciler.Chain.Reply.{Reply, ok, err}
use hertz_reconciler.Chain.Keys.{address_padded}
use hertz_reconciler.Chain.Hex.{bytes_to_hex, hex_to_bytes}
use hertz_reconciler.Chain.Abi.{
  pad_uint, decode_int, decode_bool, decode_uint64, decode_updated_at, decode_address_array,
}
use hertz_reconciler.Runtime.{Env, M, ask, pure, crash, map_reply, on_reply, ◌>>=◌}

-- `"0x" + bytesToHex(data)`
abbrev pub hex_data : Bytes → Str
hex_data data_of = str "0x" ++ bytes_to_hex data_of

-- The selector of a function: the first four bytes of the hash of its signature.
unfoldable pub must_selector : Geth → Str → Bytes
must_selector g sig = take 4 (g.keccak256 sig)

-- What `call` makes of an answer: an error with the address, or the bytes of the text.
abbrev pub answer : Str → Reply Str → Reply Bytes
answer to (ok hex) = ok (hex_to_bytes hex)
answer to (err e) = err (str "eth_call " ++ (to ++ (str ": " ++ e)))

-- A panic of the decoder is one of the caller.
unfoldable pub or_crash : {F W A : Type 0} → Option A → M F W A
or_crash none = crash
or_crash (some a) = pure a

module _ {F W : Type 0} (env : Env F W) where
  unfoldable pub call : Address → Bytes → M F W (Reply Bytes)
  call to data_of = do
    let hex = env.geth.address_hex to
    r ← ask (env.eth_call hex (hex_data data_of))
    pure (answer hex r)

  unfoldable pub balance_of_native : Address → M F W (Reply ℕ)
  balance_of_native addr = ask (env.balance_at addr)

  unfoldable pub balance_of_erc20 : Address → Address → M F W (Reply ℕ)
  balance_of_erc20 token holder = do
    out ← call token (must_selector env.geth (str "balanceOf(address)") ++ address_padded holder)
    pure (map_reply set_bytes out)

  unfoldable pub get_uint : Address → Hash → M F W (Reply ℕ)
  get_uint data_store key = do
    out ← call data_store (must_selector env.geth (str "getUint(bytes32)") ++ key)
    pure (map_reply set_bytes out)

  unfoldable pub get_int : Address → Hash → M F W (Reply ℤ)
  get_int data_store key = do
    out ← call data_store (must_selector env.geth (str "getInt(bytes32)") ++ key)
    pure (map_reply decode_int out)

  unfoldable pub get_bool : Address → Hash → M F W (Reply Bool)
  get_bool data_store key = do
    out ← call data_store (must_selector env.geth (str "getBool(bytes32)") ++ key)
    pure (map_reply decode_bool out)

  unfoldable pub get_bytes32_count : Address → Hash → M F W (Reply ℕ)
  get_bytes32_count data_store key = do
    out ← call data_store (must_selector env.geth (str "getBytes32Count(bytes32)") ++ key)
    pure (map_reply decode_uint64 out)

  unfoldable pub get_address_count : Address → Hash → M F W (Reply ℕ)
  get_address_count data_store key = do
    out ← call data_store (must_selector env.geth (str "getAddressCount(bytes32)") ++ key)
    pure (map_reply decode_uint64 out)

  unfoldable pub get_role_member_count : Address → Hash → M F W (Reply ℕ)
  get_role_member_count role_store role = do
    out ← call role_store (must_selector env.geth (str "getRoleMemberCount(bytes32)") ++ role)
    pure (map_reply decode_uint64 out)

  unfoldable pub get_role_members : Address → Hash → ℕ → ℕ → M F W (Reply (List Address))
  get_role_members role_store role start end = do
    out ← call role_store (
        must_selector env.geth (str "getRoleMembers(bytes32,uint256,uint256)")
        ++ (role ++ (pad_uint start ++ pad_uint end)))
    on_reply out (λ bytes. or_crash (decode_address_array env.geth bytes)) (λ e. pure (err e))

  unfoldable pub get_min_delay : Address → M F W (Reply ℕ)
  get_min_delay timelock = do
    out ← call timelock (must_selector env.geth (str "getMinDelay()"))
    pure (map_reply decode_uint64 out)

  unfoldable pub chainlink_latest_updated_at : Address → M F W (Reply ℕ)
  chainlink_latest_updated_at feed = do
    out ← call feed (must_selector env.geth (str "latestRoundData()"))
    on_reply out (λ bytes. pure (decode_updated_at bytes)) (λ e. pure (err e))
