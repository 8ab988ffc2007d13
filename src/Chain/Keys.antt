-- ===== src/Chain/Keys.antt =====
-- internal/chain/keys.go: the storage keys of the contracts' DataStore and RoleStore.
pub mod Layout
pub mod Distinct
use hertz_reconciler.Prelude.{
  ℕ, zero, suc, ◌+◌, ◌-◌, ◌*◌, ◌/◌, ◌%◌, ◌^◌, Bool, true, false, List, [], ◌∷◌, ◌++◌, Bytes, Str,
  str, length, replicate, set, copy_at, if◌then◌else◌,
}
use hertz_reconciler.Chain.Geth.{Geth, Hash, Address}

-- `for i := 0; i < 8; i++ { lenBuf[31-i] = byte(n >> (8 * i)) }`, by the rounds that are left
len_loop : ℕ → ℕ → ℕ → Bytes → Bytes
len_loop zero i n buf = buf
len_loop (suc left) i n buf = len_loop left (i + 1) n (set buf (31 - i) (n / 2 ^ (8 * i) % 256))

unfoldable pub abi_encode_string : Str → Bytes
unfolding len_loop
abi_encode_string s =
    let padded = (length s + 31) / 32 * 32 in
    let offset = set (replicate 32 0) 31 0x20 in
    let len_buf = len_loop 8 0 (length s) (replicate 32 0) in
    let body = copy_at (replicate padded 0) 0 s in offset ++ len_buf ++ body

-- `buf = append(buf, p...)` for each part
concat : Bytes → List Bytes → Bytes
concat buf [] = buf
concat buf (p ∷ parts) = concat (buf ++ p) parts

unfoldable pub address_padded : Address → Bytes
address_padded a = copy_at (replicate 32 0) 12 a

unfoldable pub bool_padded : Bool → Bytes
bool_padded b = if b then set (replicate 32 0) 31 1 else replicate 32 0

module _ (g : Geth) where
  unfoldable pub root_hash : Str → Hash
  root_hash name = g.keccak256 (abi_encode_string name)

  unfoldable pub keccak_of : List Bytes → Hash
  unfolding concat
  keccak_of parts = g.keccak256 (concat [] parts)

  unfoldable pub open_interest_root : Hash
  open_interest_root = root_hash (str "OPEN_INTEREST")

  unfoldable pub pool_amount_root : Hash
  pool_amount_root = root_hash (str "POOL_AMOUNT")

  unfoldable pub max_open_interest_root : Hash
  max_open_interest_root = root_hash (str "MAX_OPEN_INTEREST")

  unfoldable pub max_pool_amount_root : Hash
  max_pool_amount_root = root_hash (str "MAX_POOL_AMOUNT")

  unfoldable pub min_collateral_root : Hash
  min_collateral_root = root_hash (str "MIN_COLLATERAL_FACTOR")

  unfoldable pub borrowing_factor_root : Hash
  borrowing_factor_root = root_hash (str "BORROWING_FACTOR")

  unfoldable pub liquidation_fee_root : Hash
  liquidation_fee_root = root_hash (str "LIQUIDATION_FEE_FACTOR")

  unfoldable pub max_oracle_price_age_root : Hash
  max_oracle_price_age_root = root_hash (str "MAX_ORACLE_PRICE_AGE")

  unfoldable pub market_list_root : Hash
  market_list_root = root_hash (str "MARKET_LIST")

  unfoldable pub order_list_root : Hash
  order_list_root = root_hash (str "ORDER_LIST")

  unfoldable pub deposit_list_root : Hash
  deposit_list_root = root_hash (str "DEPOSIT_LIST")

  unfoldable pub withdrawal_list_root : Hash
  withdrawal_list_root = root_hash (str "WITHDRAWAL_LIST")

  unfoldable pub position_list_root : Hash
  position_list_root = root_hash (str "POSITION_LIST")

  unfoldable pub claimable_fee_amount_root : Hash
  claimable_fee_amount_root = root_hash (str "CLAIMABLE_FEE_AMOUNT")

  unfoldable pub funding_fee_amount_per_size_root : Hash
  funding_fee_amount_per_size_root = root_hash (str "FUNDING_FEE_AMOUNT_PER_SIZE")

  unfoldable pub min_collateral_factor_key : Address → Hash
  unfolding min_collateral_root
  min_collateral_factor_key market = keccak_of (min_collateral_root ∷ address_padded market ∷ [])

  unfoldable pub max_open_interest_key : Address → Bool → Hash
  unfolding max_open_interest_root
  max_open_interest_key market is_long =
      keccak_of (max_open_interest_root ∷ address_padded market ∷ bool_padded is_long ∷ [])

  unfoldable pub pool_amount_key : Address → Address → Hash
  unfolding pool_amount_root
  pool_amount_key market token =
      keccak_of (pool_amount_root ∷ address_padded market ∷ address_padded token ∷ [])

  unfoldable pub max_pool_amount_key : Address → Address → Hash
  unfolding max_pool_amount_root
  max_pool_amount_key market token =
      keccak_of (max_pool_amount_root ∷ address_padded market ∷ address_padded token ∷ [])

  unfoldable pub open_interest_key : Address → Address → Bool → Hash
  unfolding open_interest_root
  open_interest_key market collateral_token is_long = keccak_of (
      open_interest_root
      ∷ address_padded market
      ∷ address_padded collateral_token
      ∷ bool_padded is_long
      ∷ [])

  unfoldable pub borrowing_factor_key : Address → Bool → Hash
  unfolding borrowing_factor_root
  borrowing_factor_key market is_long =
      keccak_of (borrowing_factor_root ∷ address_padded market ∷ bool_padded is_long ∷ [])

  unfoldable pub liquidation_fee_factor_key : Address → Hash
  unfolding liquidation_fee_root
  liquidation_fee_factor_key market = keccak_of (liquidation_fee_root ∷ address_padded market ∷ [])

  unfoldable pub claimable_fee_amount_key : Address → Address → Hash
  unfolding claimable_fee_amount_root
  claimable_fee_amount_key market token =
      keccak_of (claimable_fee_amount_root ∷ address_padded market ∷ address_padded token ∷ [])

  unfoldable pub funding_fee_amount_per_size_key : Address → Address → Bool → Hash
  unfolding funding_fee_amount_per_size_root
  funding_fee_amount_per_size_key market collateral_token is_long = keccak_of (
      funding_fee_amount_per_size_root
      ∷ address_padded market
      ∷ address_padded collateral_token
      ∷ bool_padded is_long
      ∷ [])

  unfoldable pub role_hash : Str → Hash
  role_hash name = root_hash name

  unfoldable pub feature_key_root : Str → Hash
  feature_key_root name = root_hash name

  unfoldable pub feature_key_for_handler : Str → Address → Hash
  feature_key_for_handler name handler = keccak_of (root_hash name ∷ address_padded handler ∷ [])
