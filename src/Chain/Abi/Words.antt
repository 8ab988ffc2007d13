-- ===== src/Chain/Abi/Words.antt =====
-- What the scalar decoders of client.go return on the words that the ABI prescribes.
use hertz_reconciler.Prelude.{
  ℕ, ◌-◌, ◌^◌, ◌<◌, ◌≡◌, refl, sym, ap, ◌∙◌, false, [], ◌∷◌, ◌++◌, ◌↔◌, arith, Bytes, length, slice,
  replicate, copy_at_end, replicate-split, slice_middle, be_bytes, min_bytes, length-be_bytes,
  set_bytes-be_bytes, be_bytes_small, min_bytes-le, min_bytes_padded, append_assoc, length-append,
  ltb, le→ltb,
}
use hertz_reconciler.Prelude.Int.{ℤ, pos, negsuc, ◌-ℤ◌}
use hertz_reconciler.Chain.Reply.{ok}
use hertz_reconciler.Chain.Abi.{
  pad_uint, decode_int, decode_bool, decode_uint64, decode_updated_at, last,
}

-- `padUint` writes a uint64 as one 32-byte word.
pub pad_uint-be_bytes : (v : ℕ) → v < 2 ^ 64 → pad_uint v ≡ be_bytes 32 v
unfolding pad_uint
pad_uint-be_bytes v h =
    let b = min_bytes 8 v in
    let short = min_bytes-le 8 v in
    copy_at_end 0 b 32 (32 - length b) (omega (arith, short))
    ∙ ap (λ l. l ++ b) (replicate-split 0 (32 - length b) 24 (8 - length b) (omega (arith, short)))
    ∙ append_assoc (replicate 24 0) (replicate (8 - length b) 0) b
    ∙ ap (λ l. replicate 24 0 ++ l) (min_bytes_padded 8 v)
    ∙ sym (be_bytes_small 24 8 32 v (omega arith) h)

-- The word of a signed number: two's complement of 256 bits.
abbrev pub int_word : ℤ → Bytes
int_word (pos n) = be_bytes 32 n
int_word (negsuc n) = be_bytes 32 (2 ^ 256 - 1 - n)

abbrev pub InInt256 : ℤ → Type 0
InInt256 (pos n) = n < 2 ^ 255
InInt256 (negsuc n) = n < 2 ^ 255

-- `GetInt` reads every int256 back from its two's complement word.
pub decode_int-int_word : (z : ℤ) → InInt256 z → decode_int (int_word z) ≡ z
unfolding decode_int ◌-ℤ◌
decode_int-int_word (pos n) h = rw (set_bytes-be_bytes 32 n (omega arith)) (ground arith)
decode_int-int_word (negsuc n) h =
    rw (set_bytes-be_bytes 32 (2 ^ 256 - 1 - n) (omega arith)) (ground arith)

last-snoc : (b c : ℕ) (bs : Bytes) → last b (bs ++ c ∷ []) ≡ c
unfolding last
last-snoc b c [] = refl
last-snoc b c (d ∷ bs) = last-snoc d c bs

-- `GetBool` is true exactly when the last byte of the return value is not zero.
pub decode_bool-snoc : (bs : Bytes) (b : ℕ) → (decode_bool (bs ++ b ∷ []) ≡ false) ↔ (b ≡ 0)
unfolding decode_bool
decode_bool-snoc [] b = ground arith
decode_bool-snoc (c ∷ bs) b = rw (last-snoc c b bs) (ground arith)

-- `getBytes32Count` and the like: every uint64 is read back from its word.
pub decode_uint64-be_bytes : (v : ℕ) → v < 2 ^ 64 → decode_uint64 (be_bytes 32 v) ≡ v
unfolding decode_uint64
decode_uint64-be_bytes v h = rw (set_bytes-be_bytes 32 v (omega arith)) (omega arith)

-- The return value of `latestRoundData()`: five words.
abbrev pub round_data : ℕ → ℕ → ℕ → ℕ → ℕ → Bytes
round_data round answer started updated answered =
    be_bytes 32 round
    ++ (be_bytes 32 answer
        ++ (be_bytes 32 started ++ (be_bytes 32 updated ++ be_bytes 32 answered)))

-- `ChainlinkLatestUpdatedAt` returns the fourth word of a complete answer, if it is a uint64,
-- whatever the other four words are.
decode_updated_at-round_data :
    (round answer started updated answered : ℕ)
    → updated < 2 ^ 64
    → decode_updated_at (round_data round answer started updated answered) ≡ ok updated
unfolding decode_updated_at
decode_updated_at-round_data round answer started updated answered h =
    let a = be_bytes 32 round in
    let b = be_bytes 32 answer in
    let c = be_bytes 32 started in
    let d = be_bytes 32 updated in
    let e = be_bytes 32 answered in
    let data_of = round_data round answer started updated answered in
    let regroup : data_of ≡ (a ++ (b ++ c)) ++ (d ++ e) =
      ap (λ l. a ++ l) (sym (append_assoc b c (d ++ e))) ∙ sym (append_assoc a (b ++ c) (d ++ e)) in
    let la = length-be_bytes 32 round in
    let lb = length-be_bytes 32 answer in
    let lc = length-be_bytes 32 started in
    let ld = length-be_bytes 32 updated in
    let lbc = length-append b c in
    let labc = length-append a (b ++ c) in
    let long : ltb (length data_of) 128 ≡ false = le→ltb _ _ (
      rw regroup (
        omega (
          arith,
          length-append (a ++ (b ++ c)) (d ++ e),
          length-append d e,
          la,
          lb,
          lc,
          ld,
          lbc,
          labc,
        ))) in
    let word : slice 96 128 data_of ≡ d = rw regroup (
      slice_middle (a ++ (b ++ c)) d e 96 128 (omega (arith, la, lb, lc, lbc, labc))
        (omega (arith, ld))) in
    rw (long, word) (ap ok (decode_uint64-be_bytes updated h))
