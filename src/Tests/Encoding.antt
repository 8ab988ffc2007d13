-- ===== src/Tests/Encoding.antt =====
-- Inputs for the theorems on keys, on the ABI and on the configuration.
use hertz_reconciler.Prelude.{
  ◌+◌, ◌*◌, ◌^◌, ◌%◌, ◌≤◌, ◌≡◌, ◌↔◌, ◌⊎◌, refl, none, some, map, [], ◌∷◌, ◌++◌, arith, Bytes, str,
  str_eq, length, replicate,
}
use hertz_reconciler.Prelude.Int.{negsuc}
use hertz_reconciler.Chain.Geth.{Collision}
use hertz_reconciler.Chain.Reply.{ok}
use hertz_reconciler.Chain.Keys.{abi_encode_string}
use hertz_reconciler.Chain.Keys.Layout.{abi_string, abi_encode_string-layout}
use hertz_reconciler.Chain.Keys.Distinct.{
  MarketKey, pool_amount, market_key-injective, feature_key_for_handler-injective,
}
use hertz_reconciler.Chain.Hex.{bytes_to_hex, hex_to_bytes, strip_0x}
use hertz_reconciler.Chain.Hex.RoundTrip.{lower, hex_to_bytes-bytes_to_hex, hex_to_bytes_sound}
use hertz_reconciler.Chain.Abi.{decode_int, decode_address_array}
use hertz_reconciler.Chain.Abi.Words.{int_word, decode_int-int_word}
use hertz_reconciler.Chain.Abi.Array.{
  address_array, decode_address_array-address_array, offset_of, count_of,
  decode_address_array_panics,
}
use hertz_reconciler.Config.{
  Config, validate, with_defaults, Files, load, load_parsed, load_read, apply_env_overrides,
  check_versions,
}
use hertz_reconciler.Config.Validate.{IsValid, load-IsValid}
use hertz_reconciler.Tests.Demo.{demo_geth, demo_geth-IsGeth, demo_config}

abbrev market : Bytes
market = replicate 20 3

abbrev token : Bytes
token = replicate 20 4

abbrev pool : MarketKey
pool = pool_amount market token

market_key-injective_example : (pool ≡ pool) ⊎ Collision demo_geth
market_key-injective_example =
    market_key-injective demo_geth demo_geth-IsGeth pool pool (refl, refl) (refl, refl) refl

feature_key_for_handler-injective_example :
    ((str "ORDER" ≡ str "ORDER") × (market ≡ market)) ⊎ Collision demo_geth
unfolding str
feature_key_for_handler-injective_example =
    feature_key_for_handler-injective demo_geth demo_geth-IsGeth (str "ORDER") (str "ORDER") market
      market (omega arith) (omega arith) refl refl refl

abi_encode_string-layout_example :
    abi_encode_string (str "POOL_AMOUNT") ≡ abi_string (str "POOL_AMOUNT")
unfolding str
abi_encode_string-layout_example = abi_encode_string-layout (str "POOL_AMOUNT") (omega arith)

decode_int-int_word_example : decode_int (int_word (negsuc 41)) ≡ negsuc 41
decode_int-int_word_example = decode_int-int_word (negsuc 41) (omega arith)

decode_address_array-address_array_example :
    decode_address_array demo_geth (address_array (market ∷ token ∷ []))
    ≡ some (ok (market ∷ token ∷ []))
decode_address_array-address_array_example =
    decode_address_array-address_array demo_geth demo_geth-IsGeth (market ∷ token ∷ [])
      (refl, (refl, tt)) (omega arith)

-- Two words, the first one the largest offset.
abbrev payload : Bytes
payload = replicate 32 255 ++ replicate 32 1

decode_address_array_panics_example : (decode_address_array demo_geth payload ≡ none) ↔ (
    (2 ^ 64 ≤ offset_of payload + 32)
    ⊎ ((offset_of payload + 32 ≤ length payload)
        × (2 ^ 59 ≤ count_of payload)
        × (count_of payload * 32 % 2 ^ 64 + offset_of payload + 32 ≤ length payload)))
decode_address_array_panics_example =
    decode_address_array_panics demo_geth payload (omega arith) (omega arith)

hex_to_bytes-bytes_to_hex_example :
    (hex_to_bytes (b'0' ∷ b'x' ∷ bytes_to_hex (0 ∷ 175 ∷ [])) ≡ 0 ∷ 175 ∷ [])
    × (hex_to_bytes (bytes_to_hex (0 ∷ 175 ∷ [])) ≡ 0 ∷ 175 ∷ [])
hex_to_bytes-bytes_to_hex_example =
    hex_to_bytes-bytes_to_hex (0 ∷ 175 ∷ []) (omega arith, (omega arith, tt))

hex_to_bytes_sound_example :
    (hex_to_bytes (str "0x00AF") ≡ [])
    ⊎ (bytes_to_hex (hex_to_bytes (str "0x00AF")) ≡ map lower (strip_0x (str "0x00AF")))
hex_to_bytes_sound_example = hex_to_bytes_sound (str "0x00AF")

demo_config-IsValid : IsValid demo_config
unfolding str
demo_config-IsValid = record {
  has_url = refl;
  has_timeout = refl;
  has_concurrency = refl;
  has_port = refl;
  has_path = refl;
  has_interval = refl;
  has_time = refl;
  has_versions = refl;
  complete = (((λ p. cc), (λ p. cc), (λ p. cc)), tt);
}

abbrev demo_files : Files
demo_files = record { read_file = λ path. ok path; unmarshal = λ text. ok demo_config }

demo_load : load demo_files (λ s. none) (λ key. []) (str "config.yaml") ≡ ok demo_config
unfolding load load_parsed load_read apply_env_overrides validate with_defaults check_versions str
    str_eq
demo_load = refl

load-IsValid_example : IsValid demo_config
load-IsValid_example =
    load-IsValid demo_files (λ s. none) (λ key. []) (str "config.yaml") demo_config demo_load
