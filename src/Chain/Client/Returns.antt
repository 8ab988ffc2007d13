-- ===== src/Chain/Client/Returns.antt =====
-- No method of the client but `GetRoleMembers` panics, whatever the node answers.
use hertz_reconciler.Prelude.{Bytes}
use hertz_reconciler.Chain.Geth.{Hash, Address}
use hertz_reconciler.Chain.Client.{
  call, get_uint, get_int, balance_of_native, balance_of_erc20, get_bool, get_bytes32_count,
  get_address_count, get_role_member_count, get_min_delay, chainlink_latest_updated_at,
}
use hertz_reconciler.Runtime.{Env}
use hertz_reconciler.Runtime.Total.{Total, Anything, total_rules}

module _ {F W : Type 0} (env : Env F W) where
  pub call-Total : (to : Address) (data_of : Bytes) → Total Anything (call env to data_of)
  unfolding call
  call-Total to data_of = search (total_rules, tt)

  pub balance_of_native-Total : (addr : Address) → Total Anything (balance_of_native env addr)
  unfolding balance_of_native
  balance_of_native-Total addr = search (total_rules, tt)

  pub balance_of_erc20-Total :
      (token holder : Address) → Total Anything (balance_of_erc20 env token holder)
  unfolding balance_of_erc20
  balance_of_erc20-Total token holder = search (total_rules, tt, call-Total)

  pub get_uint-Total : (ds : Address) (key : Hash) → Total Anything (get_uint env ds key)
  unfolding get_uint
  get_uint-Total ds key = search (total_rules, tt, call-Total)

  pub get_int-Total : (ds : Address) (key : Hash) → Total Anything (get_int env ds key)
  unfolding get_int
  get_int-Total ds key = search (total_rules, tt, call-Total)

  pub get_bool-Total : (ds : Address) (key : Hash) → Total Anything (get_bool env ds key)
  unfolding get_bool
  get_bool-Total ds key = search (total_rules, tt, call-Total)

  pub get_bytes32_count-Total :
      (ds : Address) (key : Hash) → Total Anything (get_bytes32_count env ds key)
  unfolding get_bytes32_count
  get_bytes32_count-Total ds key = search (total_rules, tt, call-Total)

  pub get_address_count-Total :
      (ds : Address) (key : Hash) → Total Anything (get_address_count env ds key)
  unfolding get_address_count
  get_address_count-Total ds key = search (total_rules, tt, call-Total)

  pub get_role_member_count-Total :
      (rs : Address) (role : Hash) → Total Anything (get_role_member_count env rs role)
  unfolding get_role_member_count
  get_role_member_count-Total rs role = search (total_rules, tt, call-Total)

  pub get_min_delay-Total : (timelock : Address) → Total Anything (get_min_delay env timelock)
  unfolding get_min_delay
  get_min_delay-Total timelock = search (total_rules, tt, call-Total)

  pub chainlink_latest_updated_at-Total :
      (feed : Address) → Total Anything (chainlink_latest_updated_at env feed)
  unfolding chainlink_latest_updated_at
  chainlink_latest_updated_at-Total feed = search (total_rules, tt, call-Total)

pub ruleset client_total_rules = (
  total_rules, balance_of_native-Total, balance_of_erc20-Total, get_uint-Total, get_int-Total,
  get_bool-Total, get_bytes32_count-Total, get_address_count-Total, get_role_member_count-Total,
  get_min_delay-Total, chainlink_latest_updated_at-Total,
)
