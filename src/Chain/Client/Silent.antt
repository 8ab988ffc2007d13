-- ===== src/Chain/Client/Silent.antt =====
-- Reads of a chain that does not change: each returns what the chain holds, and emits no event.
use hertz_reconciler.Prelude.{ℕ, ◌≡◌, [], str}
use hertz_reconciler.Chain.Geth.{Hash, Address}
use hertz_reconciler.Chain.Client.{
  balance_of_native, balance_of_erc20, get_uint, get_int, get_bool, get_bytes32_count,
  get_address_count, get_role_member_count, get_role_members, get_min_delay,
  chainlink_latest_updated_at,
}
use hertz_reconciler.Chain.Client.Snapshot.{
  Snapshot, IsStable, HasArrays, erc20_at, uint_at, int_at, bool_at, count_at, members_at, delay_at,
  updated_at, native-Always, erc20-Always, uint-Always, int-Always, bool-Always,
  bytes32_count-Always, address_count-Always, role_count-Always, members-Always, delay-Always,
  updated-Always,
}
use hertz_reconciler.Chain.Client.Keeps.{
  balance_of_native-Keeps, balance_of_erc20-Keeps, get_uint-Keeps, get_int-Keeps, get_bool-Keeps,
  get_bytes32_count-Keeps, get_address_count-Keeps, get_role_member_count-Keeps,
  get_role_members-Keeps, get_min_delay-Keeps, chainlink_latest_updated_at-Keeps,
}
use hertz_reconciler.Runtime.{Env, M}
use hertz_reconciler.Runtime.Exports.{Exports, Exports-silent}

-- In every state, `m` returns `r` and emits nothing.
abbrev pub Reads : {F W A : Type 0} → M F W A → A → Type 0
Reads m r = Exports [] (λ a. a ≡ r) m

module _ {F W : Type 0} (env : Env F W) (snap : Snapshot) (stable : IsStable env snap) where
  pub native-Reads : (a : Address) → Reads (balance_of_native env a) (snap.balance_answer a)
  native-Reads a =
      Exports-silent _ (native-Always env snap stable a) (balance_of_native-Keeps env a)

  pub erc20-Reads : (t h : Address) → Reads (balance_of_erc20 env t h) (erc20_at env snap t h)
  erc20-Reads t h =
      Exports-silent _ (erc20-Always env snap stable t h) (balance_of_erc20-Keeps env t h)

  pub uint-Reads :
      (ds : Address) (key : Hash) → Reads (get_uint env ds key) (uint_at env snap ds key)
  uint-Reads ds key =
      Exports-silent _ (uint-Always env snap stable ds key) (get_uint-Keeps env ds key)

  pub int-Reads : (ds : Address) (key : Hash) → Reads (get_int env ds key) (int_at env snap ds key)
  int-Reads ds key = Exports-silent _ (int-Always env snap stable ds key) (get_int-Keeps env ds key)

  pub bool-Reads :
      (ds : Address) (key : Hash) → Reads (get_bool env ds key) (bool_at env snap ds key)
  bool-Reads ds key =
      Exports-silent _ (bool-Always env snap stable ds key) (get_bool-Keeps env ds key)

  pub bytes32_count-Reads :
      (ds : Address) (key : Hash)
      → Reads
          (get_bytes32_count env ds key)
          (count_at env snap (str "getBytes32Count(bytes32)") ds key)
  bytes32_count-Reads ds key =
      Exports-silent _ (bytes32_count-Always env snap stable ds key)
        (get_bytes32_count-Keeps env ds key)

  pub address_count-Reads :
      (ds : Address) (key : Hash)
      → Reads
          (get_address_count env ds key)
          (count_at env snap (str "getAddressCount(bytes32)") ds key)
  address_count-Reads ds key =
      Exports-silent _ (address_count-Always env snap stable ds key)
        (get_address_count-Keeps env ds key)

  pub role_count-Reads :
      (rs : Address) (role : Hash)
      → Reads
          (get_role_member_count env rs role)
          (count_at env snap (str "getRoleMemberCount(bytes32)") rs role)
  role_count-Reads rs role =
      Exports-silent _ (role_count-Always env snap stable rs role)
        (get_role_member_count-Keeps env rs role)

  pub delay-Reads : (a : Address) → Reads (get_min_delay env a) (delay_at env snap a)
  delay-Reads a = Exports-silent _ (delay-Always env snap stable a) (get_min_delay-Keeps env a)

  pub updated-Reads :
      (a : Address) → Reads (chainlink_latest_updated_at env a) (updated_at env snap a)
  updated-Reads a =
      Exports-silent _ (updated-Always env snap stable a) (chainlink_latest_updated_at-Keeps env a)

  pub members-Reads :
      HasArrays env snap
      → (rs : Address) (role : Hash) (start end : ℕ)
      → Reads (get_role_members env rs role start end) (members_at env snap rs role start end)
  members-Reads arrays rs role start end =
      Exports-silent _ (members-Always env snap stable arrays rs role start end)
        (get_role_members-Keeps env rs role start end)
