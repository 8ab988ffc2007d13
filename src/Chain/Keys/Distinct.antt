-- ===== src/Chain/Keys/Distinct.antt =====
-- No two market parameters are read from one storage key, unless Keccak-256 has a collision.
use hertz_reconciler.Prelude.{
  ◌≡◌, ◌^◌, ◌<◌, refl, sym, ap, ◌∙◌, Bool, true, false, Option, none, some, List, [], ◌∷◌, ◌⊎◌, inl,
  inr, arith, Bytes, Str, str, str_eq, str_eq_sound, str_eq_refl, Bool-cases, length, drop,
  if◌then◌else◌,
}
use hertz_reconciler.Chain.Geth.{Geth, IsGeth, Hash, Address, Collision}
use hertz_reconciler.Chain.Keys.{
  abi_encode_string, address_padded, bool_padded, root_hash, keccak_of, min_collateral_factor_key,
  max_open_interest_key, pool_amount_key, max_pool_amount_key, open_interest_key,
  borrowing_factor_key, liquidation_fee_factor_key, claimable_fee_amount_key,
  funding_fee_amount_per_size_key, feature_key_for_handler,
}
use hertz_reconciler.Chain.Keys.Layout.{
  abi_encode_string-injective, drop-address_padded, length-address_padded, length-bool_padded,
  IsWords, joined, keccak_of-joined, joined-injective,
}

-- The market parameters that the tasks read.
pub data MarketKey : Type 0 where
  min_collateral_factor : Address → MarketKey
  liquidation_fee_factor : Address → MarketKey
  max_open_interest : Address → Bool → MarketKey
  borrowing_factor : Address → Bool → MarketKey
  pool_amount : Address → Address → MarketKey
  max_pool_amount : Address → Address → MarketKey
  claimable_fee_amount : Address → Address → MarketKey
  open_interest : Address → Address → Bool → MarketKey
  funding_fee_amount_per_size : Address → Address → Bool → MarketKey

pub market_key : Geth → MarketKey → Hash
market_key g (min_collateral_factor m) = min_collateral_factor_key g m
market_key g (liquidation_fee_factor m) = liquidation_fee_factor_key g m
market_key g (max_open_interest m l) = max_open_interest_key g m l
market_key g (borrowing_factor m l) = borrowing_factor_key g m l
market_key g (pool_amount m t) = pool_amount_key g m t
market_key g (max_pool_amount m t) = max_pool_amount_key g m t
market_key g (claimable_fee_amount m t) = claimable_fee_amount_key g m t
market_key g (open_interest m t l) = open_interest_key g m t l
market_key g (funding_fee_amount_per_size m t l) = funding_fee_amount_per_size_key g m t l

abbrev pub IsAddress : Address → Type 0
IsAddress a = length a ≡ 20

-- The addresses in a key have 20 bytes.
abbrev pub IsMarketKey : MarketKey → Type 0
IsMarketKey (min_collateral_factor m) = IsAddress m
IsMarketKey (liquidation_fee_factor m) = IsAddress m
IsMarketKey (max_open_interest m _) = IsAddress m
IsMarketKey (borrowing_factor m _) = IsAddress m
IsMarketKey (pool_amount m t) = IsAddress m × IsAddress t
IsMarketKey (max_pool_amount m t) = IsAddress m × IsAddress t
IsMarketKey (claimable_fee_amount m t) = IsAddress m × IsAddress t
IsMarketKey (open_interest m t _) = IsAddress m × IsAddress t
IsMarketKey (funding_fee_amount_per_size m t _) = IsAddress m × IsAddress t

name : MarketKey → Str
name (min_collateral_factor _) = str "MIN_COLLATERAL_FACTOR"
name (liquidation_fee_factor _) = str "LIQUIDATION_FEE_FACTOR"
name (max_open_interest _ _) = str "MAX_OPEN_INTEREST"
name (borrowing_factor _ _) = str "BORROWING_FACTOR"
name (pool_amount _ _) = str "POOL_AMOUNT"
name (max_pool_amount _ _) = str "MAX_POOL_AMOUNT"
name (claimable_fee_amount _ _) = str "CLAIMABLE_FEE_AMOUNT"
name (open_interest _ _ _) = str "OPEN_INTEREST"
name (funding_fee_amount_per_size _ _ _) = str "FUNDING_FEE_AMOUNT_PER_SIZE"

args : MarketKey → List Bytes
args (min_collateral_factor m) = address_padded m ∷ []
args (liquidation_fee_factor m) = address_padded m ∷ []
args (max_open_interest m l) = address_padded m ∷ bool_padded l ∷ []
args (borrowing_factor m l) = address_padded m ∷ bool_padded l ∷ []
args (pool_amount m t) = address_padded m ∷ address_padded t ∷ []
args (max_pool_amount m t) = address_padded m ∷ address_padded t ∷ []
args (claimable_fee_amount m t) = address_padded m ∷ address_padded t ∷ []
args (open_interest m t l) = address_padded m ∷ address_padded t ∷ bool_padded l ∷ []
args (funding_fee_amount_per_size m t l) = address_padded m ∷ address_padded t ∷ bool_padded l ∷ []

market_key-preimage :
    (g : Geth) (k : MarketKey) → market_key g k ≡ keccak_of g (root_hash g (name k) ∷ args k)
unfolding market_key min_collateral_factor_key max_open_interest_key pool_amount_key
    max_pool_amount_key open_interest_key borrowing_factor_key liquidation_fee_factor_key
    claimable_fee_amount_key funding_fee_amount_per_size_key name args
market_key-preimage g (min_collateral_factor m) = refl
market_key-preimage g _ = refl

args-IsWords : (k : MarketKey) → IsMarketKey k → IsWords (args k)
unfolding args
args-IsWords (min_collateral_factor m) h = (length-address_padded m h, tt)
args-IsWords (liquidation_fee_factor m) h = (length-address_padded m h, tt)
args-IsWords (max_open_interest m l) h = (length-address_padded m h, (length-bool_padded l, tt))
args-IsWords (borrowing_factor m l) h = (length-address_padded m h, (length-bool_padded l, tt))
args-IsWords (pool_amount m t) (h, k) = (length-address_padded m h, (length-address_padded t k, tt))
args-IsWords (max_pool_amount m t) (h, k) =
    (length-address_padded m h, (length-address_padded t k, tt))
args-IsWords (claimable_fee_amount m t) (h, k) =
    (length-address_padded m h, (length-address_padded t k, tt))
args-IsWords (open_interest m t l) (h, k) =
    (length-address_padded m h, (length-address_padded t k, (length-bool_padded l, tt)))
args-IsWords (funding_fee_amount_per_size m t l) (h, k) =
    (length-address_padded m h, (length-address_padded t k, (length-bool_padded l, tt)))

name_short : (k : MarketKey) → length (name k) < 2 ^ 64
unfolding name str
name_short (min_collateral_factor m) = omega arith
name_short _ = omega arith

-- Equal hashes come from equal bytes, or from a collision.
keccak_cases : (g : Geth) (x y : Bytes) → g.keccak256 x ≡ g.keccak256 y → (x ≡ y) ⊎ Collision g
keccak_cases g x y e = elim (Bool-cases (str_eq x y)) [
  | inl same ↦ inl (str_eq_sound x y same)
  | inr other ↦ inr (x, y, (λ p. cc (other, str_eq_refl x, ap (λ z. str_eq x z) p)), e)
]

-- The name and the arguments of a key can be told from its hash, unless there is a collision.
hash_cases :
    (g : Geth)
    → IsGeth g
    → (n n' : Str) (ws ws' : List Bytes) → length n < 2 ^ 64
    → length n' < 2 ^ 64
    → IsWords ws
    → IsWords ws'
    → keccak_of g (root_hash g n ∷ ws) ≡ keccak_of g (root_hash g n' ∷ ws')
    → ((n ≡ n') × (ws ≡ ws')) ⊎ Collision g
unfolding root_hash
hash_cases g ok n n' ws ws' hn hn' hw hw' e =
    elim (keccak_cases g (joined (root_hash g n ∷ ws)) (joined (root_hash g n' ∷ ws'))
      (sym (keccak_of-joined g _) ∙ e ∙ keccak_of-joined g _)) [
        | inr c ↦ inr c
        | inl same ↦
            let words =
              joined-injective (root_hash g n ∷ ws) (root_hash g n' ∷ ws')
                (ok.length-keccak256 _, hw) (ok.length-keccak256 _, hw') same in
            elim (keccak_cases g (abi_encode_string n) (abi_encode_string n') (cc words)) [
              | inr c ↦ inr c
              | inl roots ↦ inl (abi_encode_string-injective n n' hn hn' roots, cc words)
            ]
      ]

bool_of : Bytes → Bool
unfolding str_eq
bool_of w = str_eq w (bool_padded true)

-- The key of a name and its arguments: a left inverse of `name` and `args`.
of_parts : Str → List Bytes → Option MarketKey
unfolding bool_of
of_parts n (m ∷ []) =
    if str_eq n (str "MIN_COLLATERAL_FACTOR")
    then some (min_collateral_factor (drop 12 m))
    else some (liquidation_fee_factor (drop 12 m))
of_parts n (m ∷ w ∷ []) =
    if str_eq n (str "MAX_OPEN_INTEREST")
    then some (max_open_interest (drop 12 m) (bool_of w))
    else if str_eq n (str "BORROWING_FACTOR")
    then some (borrowing_factor (drop 12 m) (bool_of w))
    else if str_eq n (str "POOL_AMOUNT")
    then some (pool_amount (drop 12 m) (drop 12 w))
    else if str_eq n (str "MAX_POOL_AMOUNT")
    then some (max_pool_amount (drop 12 m) (drop 12 w))
    else some (claimable_fee_amount (drop 12 m) (drop 12 w))
of_parts n (m ∷ t ∷ w ∷ []) =
    if str_eq n (str "OPEN_INTEREST")
    then some (open_interest (drop 12 m) (drop 12 t) (bool_of w))
    else some (funding_fee_amount_per_size (drop 12 m) (drop 12 t) (bool_of w))
of_parts n _ = none

bool_of-bool_padded : (b : Bool) → bool_of (bool_padded b) ≡ b
unfolding bool_of bool_padded
bool_of-bool_padded true = refl
bool_of-bool_padded false = refl

of_parts_self : (k : MarketKey) → IsMarketKey k → of_parts (name k) (args k) ≡ some k
unfolding of_parts name args str str_eq
of_parts_self (min_collateral_factor m) h = rw (drop-address_padded m h)
of_parts_self (liquidation_fee_factor m) h = rw (drop-address_padded m h)
of_parts_self (max_open_interest m l) h = rw (drop-address_padded m h, bool_of-bool_padded l)
of_parts_self (borrowing_factor m l) h = rw (drop-address_padded m h, bool_of-bool_padded l)
of_parts_self (pool_amount m t) (h, k) = cc (drop-address_padded m h, drop-address_padded t k)
of_parts_self (max_pool_amount m t) (h, k) = cc (drop-address_padded m h, drop-address_padded t k)
of_parts_self (claimable_fee_amount m t) (h, k) =
    cc (drop-address_padded m h, drop-address_padded t k)
of_parts_self (open_interest m t l) (h, k) =
    cc (drop-address_padded m h, drop-address_padded t k, bool_of-bool_padded l)
of_parts_self (funding_fee_amount_per_size m t l) (h, k) =
    cc (drop-address_padded m h, drop-address_padded t k, bool_of-bool_padded l)

-- Two market parameters with one storage key are the same parameter of the same market, token and
-- side, or Keccak-256 has a collision. The addresses have 20 bytes, and the hash has 32.
pub market_key-injective :
    (g : Geth)
    → IsGeth g
    → (k k' : MarketKey) → IsMarketKey k
    → IsMarketKey k'
    → market_key g k ≡ market_key g k'
    → (k ≡ k') ⊎ Collision g
market_key-injective g ok k k' hk hk' e =
    elim (hash_cases g ok (name k) (name k') (args k) (args k') (name_short k) (name_short k')
      (args-IsWords k hk) (args-IsWords k' hk')
      (sym (market_key-preimage g k) ∙ e ∙ market_key-preimage g k')) [
        | inr c ↦ inr c
        | inl (n, a) ↦ inl (cc (n, a, of_parts_self k hk, of_parts_self k' hk'))
      ]

-- Two per-handler feature flags with one storage key have the same feature name and the same
-- handler, or Keccak-256 has a collision. The names are shorter than
-- 2^64 bytes, the addresses have 20 and the hash 32.
pub feature_key_for_handler-injective :
    (g : Geth)
    → IsGeth g
    → (n n' : Str) (h h' : Address) → length n < 2 ^ 64
    → length n' < 2 ^ 64
    → IsAddress h
    → IsAddress h'
    → feature_key_for_handler g n h ≡ feature_key_for_handler g n' h'
    → ((n ≡ n') × (h ≡ h')) ⊎ Collision g
unfolding feature_key_for_handler
feature_key_for_handler-injective g ok n n' h h' hn hn' ha ha' e =
    elim (hash_cases g ok n n' (address_padded h ∷ []) (address_padded h' ∷ []) hn hn'
      (length-address_padded h ha, tt) (length-address_padded h' ha', tt) e) [
        | inr c ↦ inr c
        | inl (p, a) ↦
            let words : address_padded h ≡ address_padded h' = cc in
            inl
              (p, sym (drop-address_padded h ha) ∙ ap (drop 12) words ∙ drop-address_padded h' ha')
      ]
