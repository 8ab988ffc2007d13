-- ===== src/Chain/Abi.antt =====
-- internal/chain/client.go: the words and arrays of call data and return values.
pub mod Words
pub mod Array
use hertz_reconciler.Prelude.{
  ℕ, zero, suc, ◌+◌, ◌-◌, ◌*◌, ◌/◌, ◌%◌, ◌^◌, Bool, true, false, Option, none, some, List, [], ◌∷◌,
  ◌++◌, Bytes, Str, str, decimal, length, drop, slice, replicate, copy_at, set_bytes, min_bytes,
  ltb, ◌==◌, if◌then◌else◌,
}
use hertz_reconciler.Prelude.Int.{ℤ, pos, ◌-ℤ◌}
use hertz_reconciler.Chain.Geth.{Geth, Address}
use hertz_reconciler.Chain.Reply.{Reply, ok, err}

-- `x.Uint64()` of a `big.Int`: its low 64 bits
abbrev pub uint64 : ℕ → ℕ
uint64 x = x % 2 ^ 64

unfoldable pub pad_uint : ℕ → Bytes
pad_uint v = let b = min_bytes 8 v in copy_at (replicate 32 0) (32 - length b) b

-- `GetInt`: a 256-bit word as a signed number. `v.Bit(255)` is the bit of weight 2^255.
unfoldable pub decode_int : Bytes → ℤ
decode_int out =
    let v = set_bytes out in if v / 2 ^ 255 % 2 == 1 then pos v -ℤ pos (2 ^ 256) else pos v

last : ℕ → Bytes → ℕ
last b [] = b
last _ (b ∷ bs) = last b bs

-- `GetBool`: no bytes are `false`, else the last byte decides.
unfoldable pub decode_bool : Bytes → Bool
unfolding last
decode_bool [] = false
decode_bool (b ∷ bs) = if last b bs == 0 then false else true

-- `new(big.Int).SetBytes(out).Uint64()`
unfoldable pub decode_uint64 : Bytes → ℕ
decode_uint64 out = uint64 (set_bytes out)

-- `ChainlinkLatestUpdatedAt`, behind the call
unfoldable pub decode_updated_at : Bytes → Reply ℕ
unfolding decode_uint64
decode_updated_at out =
    if ltb (length out) 128
    then err
        (str "chainlink latestRoundData short response: " ++ (decimal (length out) ++ str " bytes"))
    else ok (decode_uint64 (slice 96 128 out))

-- No slice is larger than the address space: `make([]common.Address, n)` with a larger one panics.
abbrev pub max_alloc : ℕ
max_alloc = 2 ^ 48

-- `for i := uint64(0); i < length; i++ { … }`, by the rounds that are left
entries : Geth → ℕ → ℕ → Bytes → List Address
entries g zero i body = []
entries g (suc left) i body =
    g.bytes_to_address (drop 12 (slice (i * 32) ((i + 1) * 32) body)) ∷ entries g left (i + 1) body

-- `decodeAddressArray`. The sums and products are those of uint64. `none` is a run-time panic: a
-- slice whose bounds are out of order, or a `make` of too many addresses.
unfoldable pub decode_address_array : Geth → Bytes → Option (Reply (List Address))
unfolding entries
decode_address_array g out =
    let offset = uint64 (set_bytes (slice 0 32 out)) in
    let start = uint64 (offset + 32) in
    let count = uint64 (set_bytes (slice offset start out)) in
    let body = drop start out in
    if ltb (length out) 64
    then some (ok [])
    else if ltb (length out) start
    then some (err (str "decodeAddressArray: short payload"))
    else if ltb start offset
    then none
    else if ltb (length body) (uint64 (count * 32))
    then some
        (err (str "decodeAddressArray: body too short for " ++ (decimal count ++ str " entries")))
    else if ltb max_alloc (count * 20)
    then none
    else some (ok (entries g count 0 body))
