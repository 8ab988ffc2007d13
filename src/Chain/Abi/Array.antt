-- ===== src/Chain/Abi/Array.antt =====
-- `decodeAddressArray`: what it returns on the ABI's encoding, and which payloads make it panic.
use hertz_reconciler.Prelude.{
  ℕ, zero, suc, ◌+◌, ◌-◌, ◌*◌, ◌%◌, ◌^◌, ◌<◌, ◌≤◌, ◌≡◌, refl, sym, ap, ◌∙◌, false, Option, none,
  some, List, [], ◌∷◌, ◌++◌, ◌⊎◌, ◌↔◌, arith, Bytes, length, take, drop, slice, replicate,
  set_bytes, be_bytes, length-be_bytes, set_bytes-be_bytes, append_assoc, length-append,
  length-drop, take-append, drop-append, slice_middle, drop-drop, ltb, le→ltb, if◌then◌else◌,
}
use hertz_reconciler.Chain.Geth.{Geth, IsGeth, Address}
use hertz_reconciler.Chain.Reply.{ok, err}
use hertz_reconciler.Chain.Abi.{uint64, max_alloc, entries, decode_address_array}

abbrev pub AreAddresses : List Address → Type 0
AreAddresses [] = Unit
AreAddresses (a ∷ addrs) = (length a ≡ 20) × AreAddresses addrs

-- The slots of the array: each address, padded on the left to a word.
abbrev pub slots : List Address → Bytes
slots [] = []
slots (a ∷ addrs) = (replicate 12 0 ++ a) ++ slots addrs

-- The ABI's encoding of a returned `address[]`.
abbrev pub address_array : List Address → Bytes
address_array addrs = be_bytes 32 32 ++ (be_bytes 32 (length addrs) ++ slots addrs)

length-slots :
    (addrs : List Address) → AreAddresses addrs → length (slots addrs) ≡ 32 * length addrs
length-slots [] h = refl
length-slots (a ∷ addrs) (ha, h) =
    omega (arith, length-append (replicate 12 0 ++ a) (slots addrs), length-slots addrs h, ha)

-- Entry `i + 1` of a body is entry `i` behind its first word.
entries_shift :
    (g : Geth) (left i : ℕ) (body : Bytes)
    → entries g left (i + 1) body ≡ entries g left i (drop 32 body)
unfolding entries
entries_shift g zero i body = refl
entries_shift g (suc left) i body =
    let from : drop ((i + 1) * 32) body ≡ drop (i * 32) (drop 32 body) =
      sym (drop-drop 32 (i * 32) ((i + 1) * 32) body (omega arith)) in
    let width : (i + 1 + 1) * 32 - (i + 1) * 32 ≡ (i + 1) * 32 - i * 32 = omega arith in
    rw (from, width, entries_shift g left (i + 1) body)

entries-slots :
    (g : Geth)
    → IsGeth g
    → (addrs : List Address) → AreAddresses addrs
    → entries g (length addrs) 0 (slots addrs) ≡ addrs
unfolding entries
entries-slots g geth [] h = refl
entries-slots g geth (a ∷ addrs) (ha, h) =
    let word = replicate 12 0 ++ a in
    let len : 32 ≡ length word = omega (arith, ha) in
    let front : take 32 (word ++ slots addrs) ≡ word =
      ap (λ n. take n (word ++ slots addrs)) len ∙ take-append word (slots addrs) in
    let back : drop 32 (word ++ slots addrs) ≡ slots addrs =
      ap (λ n. drop n (word ++ slots addrs)) len ∙ drop-append word (slots addrs) in
    let rest : entries g (length addrs) 1 (word ++ slots addrs) ≡ addrs =
      entries_shift g (length addrs) 0 (word ++ slots addrs)
      ∙ ap (entries g (length addrs) 0) back
      ∙ entries-slots g geth addrs h in
    let first : g.bytes_to_address (drop 12 (take 32 (word ++ slots addrs))) ≡ a =
      ap (λ l. g.bytes_to_address (drop 12 l)) front ∙ geth.bytes_to_address_self a ha in
    cc (first, rest)

-- A list of addresses of 20 bytes that was encoded is decoded, as long as it fits the address space
-- and the address functions have their documented sizes.
pub decode_address_array-address_array :
    (g : Geth)
    → IsGeth g
    → (addrs : List Address) → AreAddresses addrs
    → length addrs * 20 ≤ max_alloc
    → decode_address_array g (address_array addrs) ≡ some (ok addrs)
unfolding decode_address_array
decode_address_array-address_array g geth addrs h fits =
    let n = length addrs in
    let out = address_array addrs in
    let head = be_bytes 32 32 in
    let count = be_bytes 32 n in
    let len_head = length-be_bytes 32 32 in
    let len_count = length-be_bytes 32 n in
    let len_out = length-append head (count ++ slots addrs) in
    let len_rest = length-append count (slots addrs) in
    let len_slots = length-slots addrs h in
    let offset_is : uint64 (set_bytes (slice 0 32 out)) ≡ 32 =
      ap (λ l. uint64 (set_bytes l))
        (slice_middle [] head (count ++ slots addrs) 0 32 refl (omega (arith, len_head)))
      ∙ ap uint64 (set_bytes-be_bytes 32 32 (omega arith)) in
    let count_is : uint64 (set_bytes (slice 32 64 out)) ≡ n =
      ap (λ l. uint64 (set_bytes l))
        (slice_middle head count (slots addrs) 32 64 (omega (arith, len_head))
          (omega (arith, len_count)))
      ∙ ap uint64 (set_bytes-be_bytes 32 n (omega arith))
      ∙ omega arith in
    let body_is : drop 64 out ≡ slots addrs =
      ap (λ l. drop 64 l) (sym (append_assoc head count (slots addrs)))
      ∙ ap (λ k. drop k ((head ++ count) ++ slots addrs)) {x = 64} {y = length (head ++ count)}
          (omega (arith, length-append head count, len_head, len_count))
      ∙ drop-append (head ++ count) (slots addrs) in
    let long : ltb (length out) 64 ≡ false =
      le→ltb _ _ (omega (arith, len_out, len_rest, len_head, len_count)) in
    let body_long : ltb (length (slots addrs)) (uint64 (n * 32)) ≡ false =
      le→ltb _ _ (omega (arith, len_slots)) in
    let alloc : ltb max_alloc (n * 20) ≡ false = le→ltb _ _ fits in
    rw (long, offset_is, long, count_is, body_is, body_long, alloc, entries-slots g geth addrs h)

-- The number that the payload gives as the offset of the array, as a uint64.
abbrev pub offset_of : Bytes → ℕ
offset_of out = uint64 (set_bytes (slice 0 32 out))

-- The number that the payload gives as the length of the array, as a uint64.
abbrev pub count_of : Bytes → ℕ
count_of out = uint64 (set_bytes (slice (offset_of out) (offset_of out + 32) out))

-- The ladder of tests, over the numbers that it compares.
ladder : {A : Type 0} → ℕ → ℕ → ℕ → ℕ → ℕ → A → A → A → A → Option A
ladder len offset start count body a b c d =
    if ltb len 64
    then some a
    else if ltb len start
    then some b
    else if ltb start offset
    then none
    else if ltb body (uint64 (count * 32))
    then some c
    else if ltb max_alloc (count * 20)
    then none
    else some d

ladder_panics :
    {A : Type 0} (len offset start count count' body : ℕ) (a b c d : A)
    → offset < 2 ^ 64
    → start ≡ uint64 (offset + 32)
    → (offset + 32 < 2 ^ 64 → count ≡ count')
    → body ≡ len - start
    → 64 ≤ len
    → len ≤ 2 ^ 48
    → (ladder len offset start count body a b c d ≡ none) ↔ (
        (2 ^ 64 ≤ offset + 32)
        ⊎ ((offset + 32 ≤ len) × (2 ^ 59 ≤ count') × (count' * 32 % 2 ^ 64 + offset + 32 ≤ len)))
unfolding ladder
ladder_panics len offset start count count' body a b c d h1 h2 h3 h4 h5 h6 = ground arith

-- `decodeAddressArray` panics on a payload exactly when the offset is within 32 of 2^64, so that
-- `offset+32` wraps around, or when the length is at least 2^59, so that `length*32` wraps around
-- to what the rest of the payload holds. The payload has at least 64 bytes and at
-- most 2^48.
pub decode_address_array_panics :
    (g : Geth) (out : Bytes)
    → 64 ≤ length out
    → length out ≤ 2 ^ 48
    → (decode_address_array g out ≡ none) ↔ (
        (2 ^ 64 ≤ offset_of out + 32)
        ⊎ ((offset_of out + 32 ≤ length out)
            × (2 ^ 59 ≤ count_of out)
            × (count_of out * 32 % 2 ^ 64 + offset_of out + 32 ≤ length out)))
unfolding decode_address_array ladder
decode_address_array_panics g out long fits =
    let offset = offset_of out in
    let start = uint64 (offset + 32) in
    let count_at = λ (j : ℕ). uint64 (set_bytes (slice offset j out)) in
    ladder_panics (length out) offset start (count_at start) (count_of out)
      (length (drop start out)) (ok []) (err _) (err _) (ok _) (omega arith) refl
      (λ h. ap count_at (omega arith)) (length-drop start out) long fits
