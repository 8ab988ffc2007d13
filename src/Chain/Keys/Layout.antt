-- ===== src/Chain/Keys/Layout.antt =====
-- What keys.go hashes, against the Solidity ABI written out independently: 32-byte words.
use hertz_reconciler.Prelude.{
  ℕ, zero, suc, ◌+◌, ◌-◌, ◌*◌, ◌/◌, ◌%◌, ◌^◌, ◌<◌, ◌≡◌, refl, sym, ap, ◌∙◌, Bool, true, false, List,
  [], ◌∷◌, ◌++◌, append-nil, append_assoc, arith, Bytes, Str, length, replicate, drop, copy_at,
  copy_at_full, append-injective, length-append, set_bytes, be_bytes, length-be_bytes,
  set_bytes-be_bytes, be_bytes_small,
}
use hertz_reconciler.Chain.Geth.{Geth, Address}
use hertz_reconciler.Chain.Keys.{
  len_loop, abi_encode_string, address_padded, bool_padded, concat, keccak_of,
}

-- The ABI's `abi.encode(string)`: the offset 32, the length, the bytes, and zeros up to a whole word.
abbrev pub abi_string : Str → Bytes
abi_string s =
    be_bytes 32 0x20
    ++ (be_bytes 32 (length s) ++ (s ++ replicate ((length s + 31) / 32 * 32 - length s) 0))

low_eight :
    (n : ℕ)
    → n < 2 ^ 64
    → be_bytes 8 n
      ≡ (n / 2 ^ 56 % 256)
        ∷ (n / 2 ^ 48 % 256)
        ∷ (n / 2 ^ 40 % 256)
        ∷ (n / 2 ^ 32 % 256)
        ∷ (n / 2 ^ 24 % 256)
        ∷ (n / 2 ^ 16 % 256)
        ∷ (n / 2 ^ 8 % 256)
        ∷ (n % 256)
        ∷ []
unfolding be_bytes
low_eight n h = ground arith

len_loop-be_bytes : (n : ℕ) → n < 2 ^ 64 → len_loop 8 0 n (replicate 32 0) ≡ be_bytes 32 n
unfolding len_loop
len_loop-be_bytes n h =
    rw (be_bytes_small 24 8 32 n (omega arith) h) (rw (low_eight n h) (ground arith))

copy_at_front :
    (s : Bytes) (n m : ℕ) → n ≡ length s + m → copy_at (replicate n 0) 0 s ≡ s ++ replicate m 0
copy_at_front [] zero m h = ap (λ k. replicate k 0) {x = zero} {y = m} (omega arith)
copy_at_front [] (suc n) m h = ap (λ k. replicate k 0) {x = suc n} {y = m} (omega arith)
copy_at_front (b ∷ s) zero m h = absurd (omega arith)
copy_at_front (b ∷ s) (suc n) m h = ap (λ l. b ∷ l) (copy_at_front s n m (omega arith))

-- `abiEncodeString` writes the ABI encoding of every string of less than 2^64 bytes.
pub abi_encode_string-layout : (s : Str) → length s < 2 ^ 64 → abi_encode_string s ≡ abi_string s
unfolding abi_encode_string be_bytes
abi_encode_string-layout s h =
    let pad = (length s + 31) / 32 * 32 - length s in
    ap (λ l. be_bytes 32 0x20 ++ l ++ copy_at (replicate ((length s + 31) / 32 * 32) 0) 0 s)
      (len_loop-be_bytes (length s) h)
    ∙ ap (λ l. be_bytes 32 0x20 ++ be_bytes 32 (length s) ++ l)
        (copy_at_front s ((length s + 31) / 32 * 32) pad (omega arith))
    ∙ append_assoc (be_bytes 32 0x20) (be_bytes 32 (length s)) (s ++ replicate pad 0)

abi_string-injective :
    (s t : Str) → length s < 2 ^ 64 → length t < 2 ^ 64 → abi_string s ≡ abi_string t → s ≡ t
abi_string-injective s t hs ht e =
    let (_, e') = append-injective (be_bytes 32 0x20) (be_bytes 32 0x20) refl e in
    let (len, e'') =
      append-injective (be_bytes 32 (length s)) (be_bytes 32 (length t))
        (omega (arith, length-be_bytes 32 (length s), length-be_bytes 32 (length t))) e' in
    let same : length s ≡ length t = omega (
      arith,
      ap set_bytes len,
      set_bytes-be_bytes 32 (length s),
      set_bytes-be_bytes 32 (length t),
    ) in
    (append-injective s t same e'').0

-- Two strings of less than 2^64 bytes are hashed from different bytes.
pub abi_encode_string-injective :
    (s t : Str)
    → length s < 2 ^ 64
    → length t < 2 ^ 64
    → abi_encode_string s ≡ abi_encode_string t
    → s ≡ t
abi_encode_string-injective s t hs ht e =
    abi_string-injective s t hs ht
      (sym (abi_encode_string-layout s hs) ∙ e ∙ abi_encode_string-layout t ht)

-- An address is padded on the left to one word.
pub address_padded-layout : (a : Address) → length a ≡ 20 → address_padded a ≡ replicate 12 0 ++ a
unfolding address_padded
address_padded-layout a h = copy_at_full (replicate 12 0) (replicate 20 0) a (sym h)

pub drop-address_padded : (a : Address) → length a ≡ 20 → drop 12 (address_padded a) ≡ a
drop-address_padded a h = rw (address_padded-layout a h)

pub length-address_padded : (a : Address) → length a ≡ 20 → length (address_padded a) ≡ 32
length-address_padded a h = rw (address_padded-layout a h) (omega arith)

pub length-bool_padded : (b : Bool) → length (bool_padded b) ≡ 32
unfolding bool_padded
length-bool_padded true = refl
length-bool_padded false = refl

-- A list of words, one after the other.
abbrev pub joined : List Bytes → Bytes
joined [] = []
joined (w ∷ ws) = w ++ joined ws

abbrev pub IsWords : List Bytes → Type 0
IsWords [] = Unit
IsWords (w ∷ ws) = (length w ≡ 32) × IsWords ws

concat-joined_from : (buf : Bytes) (ws : List Bytes) → concat buf ws ≡ buf ++ joined ws
unfolding concat
concat-joined_from buf [] = sym (append-nil buf)
concat-joined_from buf (w ∷ ws) = concat-joined_from (buf ++ w) ws ∙ append_assoc buf w (joined ws)

pub keccak_of-joined : (g : Geth) (ws : List Bytes) → keccak_of g ws ≡ g.keccak256 (joined ws)
unfolding keccak_of
keccak_of-joined g ws = ap g.keccak256 (concat-joined_from [] ws)

-- Lists of words with equal concatenations are equal.
pub joined-injective :
    (ws vs : List Bytes) → IsWords ws → IsWords vs → joined ws ≡ joined vs → ws ≡ vs
joined-injective [] [] hw hv e = refl
joined-injective [] (v ∷ vs) hw hv e =
    absurd (omega (arith, ap length e, length-append v (joined vs), hv.0))
joined-injective (w ∷ ws) [] hw hv e =
    absurd (omega (arith, ap length e, length-append w (joined ws), hw.0))
joined-injective (w ∷ ws) (v ∷ vs) hw hv e =
    let (p, q) = append-injective w v (omega (arith, hw.0, hv.0)) e in
    cc (p, joined-injective ws vs hw.1 hv.1 q)
