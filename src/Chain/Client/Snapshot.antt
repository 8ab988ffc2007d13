-- ===== src/Chain/Client/Snapshot.antt =====
-- Reads of a chain that does not change: what each method of `Client` returns, as a function of the
-- answers of the node.
use hertz_reconciler.Prelude.{
  ℕ, ◌≡◌, ◌≢◌, refl, sym, ap, ◌∙◌, Bool, List, [], ◌++◌, Option, none, some, Bytes, Str, str,
  set_bytes,
}
use hertz_reconciler.Prelude.Int.{ℤ}
use hertz_reconciler.Chain.Geth.{Hash, Address}
use hertz_reconciler.Chain.Reply.{Reply, ok, err}
use hertz_reconciler.Chain.Keys.{address_padded}
use hertz_reconciler.Chain.Hex.{hex_to_bytes}
use hertz_reconciler.Chain.Abi.{
  pad_uint, decode_int, decode_bool, decode_uint64, decode_updated_at, decode_address_array,
}
use hertz_reconciler.Chain.Client.{
  hex_data, must_selector, answer, or_crash, call, balance_of_native, balance_of_erc20, get_uint,
  get_int, get_bool, get_bytes32_count, get_address_count, get_role_member_count, get_role_members,
  get_min_delay, chainlink_latest_updated_at,
}
use hertz_reconciler.Runtime.{Env, pure, ask, map_reply, on_reply, ◌>>=◌}
use hertz_reconciler.Runtime.Total.{Always, Total-bind_post, Total-pure, Total-reply_post}

-- What the node answers to a call, and to a question for a balance.
pub record Snapshot : Type 0 where
  pub call_answer : Str → Str → Reply Str
  pub balance_answer : Address → Reply ℕ

module _ {F W : Type 0} (env : Env F W) (snap : Snapshot) where
  -- The node always gives the answers of the snapshot.
  pub record IsStable : Type 0 where
    pub calls :
        (to data_of : Str) (w : W) → (env.eth_call to data_of w).0 ≡ snap.call_answer to data_of
    pub balances : (a : Address) (w : W) → (env.balance_at a w).0 ≡ snap.balance_answer a

  abbrev pub call_at : Address → Bytes → Reply Bytes
  call_at to data_of =
      answer (env.geth.address_hex to)
        (snap.call_answer (env.geth.address_hex to) (hex_data data_of))

  abbrev pub erc20_at : Address → Address → Reply ℕ
  erc20_at token holder =
      map_reply set_bytes
        (call_at token (must_selector env.geth (str "balanceOf(address)") ++ address_padded holder))

  abbrev pub uint_at : Address → Hash → Reply ℕ
  uint_at ds key =
      map_reply set_bytes (call_at ds (must_selector env.geth (str "getUint(bytes32)") ++ key))

  abbrev pub int_at : Address → Hash → Reply ℤ
  int_at ds key =
      map_reply decode_int (call_at ds (must_selector env.geth (str "getInt(bytes32)") ++ key))

  abbrev pub bool_at : Address → Hash → Reply Bool
  bool_at ds key =
      map_reply decode_bool (call_at ds (must_selector env.geth (str "getBool(bytes32)") ++ key))

  -- The getters that return a number of entries or of seconds as a uint64.
  abbrev pub count_at : Str → Address → Hash → Reply ℕ
  count_at sig to key = map_reply decode_uint64 (call_at to (must_selector env.geth sig ++ key))

  -- Where the decoder panics there is no answer, which `IsDecodable` excludes.
  abbrev array_of : Option (Reply (List Address)) → Reply (List Address)
  array_of none = err []
  array_of (some r) = r

  abbrev members_of : Reply Bytes → Reply (List Address)
  members_of (ok bytes) = array_of (decode_address_array env.geth bytes)
  members_of (err e) = err e

  abbrev pub members_at : Address → Hash → ℕ → ℕ → Reply (List Address)
  members_at rs role start end = members_of (
      call_at rs (
        must_selector env.geth (str "getRoleMembers(bytes32,uint256,uint256)")
        ++ (role ++ (pad_uint start ++ pad_uint end))))

  abbrev pub delay_at : Address → Reply ℕ
  delay_at timelock =
      map_reply decode_uint64 (call_at timelock (must_selector env.geth (str "getMinDelay()")))

  abbrev updated_of : Reply Bytes → Reply ℕ
  updated_of (ok bytes) = decode_updated_at bytes
  updated_of (err e) = err e

  abbrev pub updated_at : Address → Reply ℕ
  updated_at feed = updated_of (call_at feed (must_selector env.geth (str "latestRoundData()")))

  -- No answer is one on which `decodeAddressArray` panics.
  abbrev pub HasArrays : Type 0
  HasArrays =
      (to data_of hex : Str)
      → snap.call_answer to data_of ≡ ok hex
      → decode_address_array env.geth (hex_to_bytes hex) ≢ none

module _ {F W : Type 0} (env : Env F W) (snap : Snapshot) (stable : IsStable env snap) where
  call-Always : (to : Address) (d : Bytes) → Always (call env to d) (call_at env snap to d)
  unfolding call ◌>>=◌
  call-Always to d = record {
    at = λ s.
        let hex = env.geth.address_hex to in
        let r = env.eth_call hex (hex_data d) s.world in
        (
          answer hex r.0,
          record s { world = r.1 },
          refl,
          ap (answer hex) (stable.calls hex (hex_data d) s.world),
        );
  }

  mapped :
      {A : Type 0} (f : Bytes → A) (to : Address) (d : Bytes)
      → Always
          (call env to d >>= λ out. pure (map_reply f out))
          (map_reply f (call_at env snap to d))
  mapped f to d = Total-bind_post _ _ (call-Always to d) λ out e. Total-pure _ (ap (map_reply f) e)

  pub native-Always : (a : Address) → Always (balance_of_native env a) (snap.balance_answer a)
  unfolding balance_of_native ask
  native-Always a = record {
    at = λ s. (
      (env.balance_at a s.world).0,
      record s { world = (env.balance_at a s.world).1 },
      refl,
      stable.balances a s.world,
    );
  }

  pub erc20-Always : (t h : Address) → Always (balance_of_erc20 env t h) (erc20_at env snap t h)
  unfolding balance_of_erc20
  erc20-Always t h = mapped set_bytes t _

  pub uint-Always :
      (ds : Address) (key : Hash) → Always (get_uint env ds key) (uint_at env snap ds key)
  unfolding get_uint
  uint-Always ds key = mapped set_bytes ds _

  pub int-Always :
      (ds : Address) (key : Hash) → Always (get_int env ds key) (int_at env snap ds key)
  unfolding get_int
  int-Always ds key = mapped decode_int ds _

  pub bool-Always :
      (ds : Address) (key : Hash) → Always (get_bool env ds key) (bool_at env snap ds key)
  unfolding get_bool
  bool-Always ds key = mapped decode_bool ds _

  pub bytes32_count-Always :
      (ds : Address) (key : Hash)
      → Always
          (get_bytes32_count env ds key)
          (count_at env snap (str "getBytes32Count(bytes32)") ds key)
  unfolding get_bytes32_count
  bytes32_count-Always ds key = mapped decode_uint64 ds _

  pub address_count-Always :
      (ds : Address) (key : Hash)
      → Always
          (get_address_count env ds key)
          (count_at env snap (str "getAddressCount(bytes32)") ds key)
  unfolding get_address_count
  address_count-Always ds key = mapped decode_uint64 ds _

  pub role_count-Always :
      (rs : Address) (role : Hash)
      → Always
          (get_role_member_count env rs role)
          (count_at env snap (str "getRoleMemberCount(bytes32)") rs role)
  unfolding get_role_member_count
  role_count-Always rs role = mapped decode_uint64 rs _

  pub delay-Always : (a : Address) → Always (get_min_delay env a) (delay_at env snap a)
  unfolding get_min_delay
  delay-Always a = mapped decode_uint64 a _

  pub updated-Always :
      (a : Address) → Always (chainlink_latest_updated_at env a) (updated_at env snap a)
  unfolding chainlink_latest_updated_at
  updated-Always a = Total-bind_post _ _ (call-Always a _) λ out e.
      Total-reply_post out (λ bytes p. Total-pure _ (ap (updated_of env snap) (sym p ∙ e)))
        (λ x p. Total-pure _ (ap (updated_of env snap) (sym p ∙ e)))

  array-Always :
      (o : Option (Reply (List Address)))
      → o ≢ none
      → Always (or_crash {F = F} {W = W} o) (array_of env snap o)
  unfolding or_crash
  array-Always none h = absurd (h refl)
  array-Always (some r) h = Total-pure r refl

  members_of-Always :
      (to : Str) (reply : Reply Str)
      → ((hex : Str) → reply ≡ ok hex → decode_address_array env.geth (hex_to_bytes hex) ≢ none)
      → Always
          (on_reply {F = F} {W = W}
            (answer to reply)
            (λ bytes. or_crash (decode_address_array env.geth bytes))
            (λ e. pure (err e)))
          (members_of env snap (answer to reply))
  members_of-Always to (ok hex) h = array-Always _ (h hex refl)
  members_of-Always to (err e) h = Total-pure _ refl

  pub members-Always :
      HasArrays env snap
      → (rs : Address) (role : Hash) (start end : ℕ)
      → Always (get_role_members env rs role start end) (members_at env snap rs role start end)
  unfolding get_role_members
  members-Always arrays rs role start end =
      Total-bind_post _ _ (call-Always rs _) λ out e. rw e (members_of-Always _ _ (arrays _ _))
