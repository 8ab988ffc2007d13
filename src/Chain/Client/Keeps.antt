-- ===== src/Chain/Client/Keeps.antt =====
-- No method of the client emits an event.
use hertz_reconciler.Prelude.{ℕ, Option, none, some, Bytes}
use hertz_reconciler.Chain.Geth.{Hash, Address}
use hertz_reconciler.Chain.Client.{
  call, get_uint, get_int, get_role_members, or_crash, balance_of_native, balance_of_erc20,
  get_bool, get_bytes32_count, get_address_count, get_role_member_count, get_min_delay,
  chainlink_latest_updated_at,
}
use hertz_reconciler.Metrics.{Event}
use hertz_reconciler.Runtime.{Env}
use hertz_reconciler.Runtime.Keeps.{Keeps, Anything, keeps_rules}

module _ {F W : Type 0} {P : Event F → Type 0} (env : Env F W) where
  pub call-Keeps : (to : Address) (data_of : Bytes) → Keeps P Anything (call env to data_of)
  unfolding call
  call-Keeps to data_of = search keeps_rules

  pub balance_of_native-Keeps : (addr : Address) → Keeps P Anything (balance_of_native env addr)
  unfolding balance_of_native
  balance_of_native-Keeps addr = search keeps_rules

  pub balance_of_erc20-Keeps :
      (token holder : Address) → Keeps P Anything (balance_of_erc20 env token holder)
  unfolding balance_of_erc20
  balance_of_erc20-Keeps token holder = search (keeps_rules, call-Keeps)

  pub get_uint-Keeps : (ds : Address) (key : Hash) → Keeps P Anything (get_uint env ds key)
  unfolding get_uint
  get_uint-Keeps ds key = search (keeps_rules, call-Keeps)

  pub get_int-Keeps : (ds : Address) (key : Hash) → Keeps P Anything (get_int env ds key)
  unfolding get_int
  get_int-Keeps ds key = search (keeps_rules, call-Keeps)

  pub get_bool-Keeps : (ds : Address) (key : Hash) → Keeps P Anything (get_bool env ds key)
  unfolding get_bool
  get_bool-Keeps ds key = search (keeps_rules, call-Keeps)

  pub get_bytes32_count-Keeps :
      (ds : Address) (key : Hash) → Keeps P Anything (get_bytes32_count env ds key)
  unfolding get_bytes32_count
  get_bytes32_count-Keeps ds key = search (keeps_rules, call-Keeps)

  pub get_address_count-Keeps :
      (ds : Address) (key : Hash) → Keeps P Anything (get_address_count env ds key)
  unfolding get_address_count
  get_address_count-Keeps ds key = search (keeps_rules, call-Keeps)

  pub get_role_member_count-Keeps :
      (rs : Address) (role : Hash) → Keeps P Anything (get_role_member_count env rs role)
  unfolding get_role_member_count
  get_role_member_count-Keeps rs role = search (keeps_rules, call-Keeps)

  or_crash-Keeps : {A : Type 0} (o : Option A) → Keeps P Anything (or_crash {F = F} {W = W} o)
  unfolding or_crash
  or_crash-Keeps none = search keeps_rules
  or_crash-Keeps (some a) = search keeps_rules

  pub get_role_members-Keeps :
      (rs : Address) (role : Hash) (start end : ℕ)
      → Keeps P Anything (get_role_members env rs role start end)
  unfolding get_role_members
  get_role_members-Keeps rs role start end = search (keeps_rules, call-Keeps, or_crash-Keeps)

  pub get_min_delay-Keeps : (timelock : Address) → Keeps P Anything (get_min_delay env timelock)
  unfolding get_min_delay
  get_min_delay-Keeps timelock = search (keeps_rules, call-Keeps)

  pub chainlink_latest_updated_at-Keeps :
      (feed : Address) → Keeps P Anything (chainlink_latest_updated_at env feed)
  unfolding chainlink_latest_updated_at
  chainlink_latest_updated_at-Keeps feed = search (keeps_rules, call-Keeps)

pub ruleset client_rules = (
  keeps_rules, balance_of_native-Keeps, balance_of_erc20-Keeps, get_uint-Keeps, get_int-Keeps,
  get_bool-Keeps, get_bytes32_count-Keeps, get_address_count-Keeps, get_role_member_count-Keeps,
  get_role_members-Keeps, get_min_delay-Keeps, chainlink_latest_updated_at-Keeps,
)
