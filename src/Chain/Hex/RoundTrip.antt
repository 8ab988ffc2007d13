-- ===== src/Chain/Hex/RoundTrip.antt =====
-- Bytes survive the way through hexadecimal text, and text is never decoded to other bytes.
use Prim.Native.Nat.{bit_and, bit_or}
use hertz_reconciler.Prelude.{
  ℕ, ◌+◌, ◌*◌, ◌/◌, ◌%◌, ◌<◌, ◌≡◌, refl, Bool, true, false, not, ◌&&◌, ◌||◌, Option, none, some, [],
  ◌∷◌, map, ◌⊎◌, inl, inr, arith, Bytes, Str, str_eq, length, leb, ◌==◌, ==_iff, if◌then◌else◌,
  Bool-cases,
}
use hertz_reconciler.Prelude.Int.{pos, negsuc, pos_part}
use hertz_reconciler.Prelude.Tables.{passes, passes_at}
use hertz_reconciler.Chain.Hex.{
  hex_chars, char_at, bytes_to_hex, hex_nibble, is_negative, push_byte, or_nil, hex_loop, strip_0x,
  hex_to_bytes,
}

-- Every number of the list is a byte.
abbrev pub IsBytes : Bytes → Type 0
IsBytes [] = Unit
IsBytes (v ∷ b) = (v < 256) × IsBytes b

nibble_is : ℕ → ℕ → Bool
nibble_is c n = elim (hex_nibble c) [ pos m ↦ m == n | negsuc _ ↦ false ]

-- The two digits of a byte are read back as the byte, and none of them is an `x`.
byte_check : ℕ → Bool
byte_check v =
    let hi = char_at hex_chars (v / 16) in
    let lo = char_at hex_chars (bit_and v 0x0f) in
    nibble_is hi (v / 16)
    && nibble_is lo (v % 16)
    && (bit_or (v / 16 * 16) (v % 16) % 256 == v)
    && not (lo == b'x')

byte_table : passes byte_check 256 ≡ true
unfolding passes byte_check nibble_is hex_nibble
byte_table = refl

nibble_is_sound : (c n : ℕ) → nibble_is c n ≡ true → hex_nibble c ≡ pos n
unfolding nibble_is
nibble_is_sound c n h = ground arith

record ByteFacts (v : ℕ) : Type 0 where
  high : hex_nibble (char_at hex_chars (v / 16)) ≡ pos (v / 16)
  low : hex_nibble (char_at hex_chars (bit_and v 0x0f)) ≡ pos (v % 16)
  joined : bit_or (v / 16 * 16) (v % 16) % 256 ≡ v
  no_x : (char_at hex_chars (bit_and v 0x0f) == b'x') ≡ false

and_four :
    (a b c d : Bool) → (a && b && c && d) ≡ true → (a ≡ true) × (b ≡ true) × (c ≡ true) × (d ≡ true)
and_four a b c d h = ground arith

not-true : (b : Bool) → not b ≡ true → b ≡ false
not-true b h = ground arith

byte_facts : (v : ℕ) → v < 256 → ByteFacts v
unfolding byte_check
byte_facts v h =
    let checked : byte_check v ≡ true = passes_at byte_check 256 v h byte_table in
    let (hi, lo, both, no_x) = and_four _ _ _ _ checked in
    record {
      high = nibble_is_sound _ _ hi;
      low = nibble_is_sound _ _ lo;
      joined = (==_iff _ v).0 both;
      no_x = not-true _ no_x;
    }

hex_loop-bytes_to_hex : (b : Bytes) → IsBytes b → hex_loop (bytes_to_hex b) ≡ some b
unfolding hex_loop bytes_to_hex
hex_loop-bytes_to_hex [] h = refl
hex_loop-bytes_to_hex (v ∷ b) (hv, hb) =
    let f = byte_facts v hv in rw (f.high, f.low, f.joined, hex_loop-bytes_to_hex b hb)

length-bytes_to_hex : (b : Bytes) → length (bytes_to_hex b) ≡ 2 * length b
unfolding bytes_to_hex
length-bytes_to_hex [] = refl
length-bytes_to_hex (v ∷ b) = omega (arith, length-bytes_to_hex b)

strip_prefixed : (s : Str) → strip_0x (b'0' ∷ b'x' ∷ s) ≡ s
unfolding strip_0x str_eq
strip_prefixed s = ground arith

strip_plain : (b : Bytes) → IsBytes b → strip_0x (bytes_to_hex b) ≡ bytes_to_hex b
unfolding strip_0x str_eq bytes_to_hex
strip_plain [] h = refl
strip_plain (v ∷ b) (hv, hb) = let f = byte_facts v hv in ground (arith, f.no_x)

decode_digits : (s : Str) (b : Bytes) → IsBytes b → strip_0x s ≡ bytes_to_hex b → hex_to_bytes s ≡ b
unfolding hex_to_bytes
decode_digits s b h e =
    let even : (length (bytes_to_hex b) % 2 == 0) ≡ true =
      (==_iff _ 0).1 (omega (arith, length-bytes_to_hex b)) in
    rw (e, even, hex_loop-bytes_to_hex b h)

-- `hexToBytes` undoes `bytesToHex` on every list of bytes, with and without a leading `0x`.
pub hex_to_bytes-bytes_to_hex :
    (b : Bytes)
    → IsBytes b
    → (hex_to_bytes (b'0' ∷ b'x' ∷ bytes_to_hex b) ≡ b) × (hex_to_bytes (bytes_to_hex b) ≡ b)
hex_to_bytes-bytes_to_hex b h =
    (decode_digits _ b h (strip_prefixed (bytes_to_hex b)), decode_digits _ b h (strip_plain b h))

-- A to F in lower case
abbrev pub lower : ℕ → ℕ
lower c = if leb b'A' c && leb c b'F' then c + 32 else c

-- What one pair of accepted digits decodes to prints as the pair in lower case.
pair_check : ℕ → ℕ → Bool
pair_check c d =
    let hi = hex_nibble c in
    let lo = hex_nibble d in
    let v = bit_or (pos_part hi * 16) (pos_part lo) % 256 in
    is_negative hi
    || is_negative lo
    || ((char_at hex_chars (v / 16) == lower c) && (char_at hex_chars (bit_and v 0x0f) == lower d))

pair_table : passes (λ c. passes (pair_check c) 103) 103 ≡ true
unfolding passes pair_check hex_nibble
pair_table = refl

digit_below : (c : ℕ) → is_negative (hex_nibble c) ≡ false → c < 103
unfolding hex_nibble
digit_below c h = ground arith

record PairFacts (c d v : ℕ) : Type 0 where
  high : char_at hex_chars (v / 16) ≡ lower c
  low : char_at hex_chars (bit_and v 0x0f) ≡ lower d

pair_parts :
    (a b p q : Bool) → a ≡ false → b ≡ false → (a || b || (p && q)) ≡ true → (p ≡ true) × (q ≡ true)
pair_parts a b p q h k e = ground arith

pair_facts :
    (c d : ℕ)
    → is_negative (hex_nibble c) ≡ false
    → is_negative (hex_nibble d) ≡ false
    → PairFacts c d (bit_or (pos_part (hex_nibble c) * 16) (pos_part (hex_nibble d)) % 256)
unfolding pair_check
pair_facts c d hc hd =
    let row = passes_at (λ c. passes (pair_check c) 103) 103 c (digit_below c hc) pair_table in
    let checked : pair_check c d ≡ true = passes_at (pair_check c) 103 d (digit_below d hd) row in
    let (p, q) = pair_parts _ _ _ _ hc hd checked in
    record { high = (==_iff _ _).0 p; low = (==_iff _ _).0 q }

-- The digits that were decoded, printed again.
abbrev Reprints : Str → Option Bytes → Type 0
Reprints s none = Unit
Reprints s (some b) = bytes_to_hex b ≡ map lower s

Reprints-step :
    (c d : ℕ) (s : Str) (r : Option Bytes)
    → Reprints s r
    → is_negative (hex_nibble c) ≡ false
    → is_negative (hex_nibble d) ≡ false
    → Reprints
        (c ∷ d ∷ s)
        (push_byte (bit_or (pos_part (hex_nibble c) * 16) (pos_part (hex_nibble d)) % 256) r)
unfolding bytes_to_hex
Reprints-step c d s none h hc hd = tt
Reprints-step c d s (some out) h hc hd = let f = pair_facts c d hc hd in cc (f.high, f.low, h)

hex_loop-Reprints : (s : Str) → Reprints s (hex_loop s)
unfolding hex_loop bytes_to_hex
hex_loop-Reprints [] = refl
hex_loop-Reprints (c ∷ []) = tt
hex_loop-Reprints (c ∷ d ∷ s) = elim (Bool-cases (is_negative (hex_nibble c))) [
  | inl bad ↦ rw bad tt
  | inr hc ↦ elim (Bool-cases (is_negative (hex_nibble d))) [
    | inl bad ↦ rw (hc, bad) tt
    | inr hd ↦ rw (hc, hd) (Reprints-step c d s (hex_loop s) (hex_loop-Reprints s) hc hd)
  ]
]

sound_of :
    (s : Str) (r : Option Bytes)
    → Reprints s r
    → (or_nil r ≡ []) ⊎ (bytes_to_hex (or_nil r) ≡ map lower s)
sound_of s none h = inl refl
sound_of s (some b) h = inr h

-- Whatever text a node returns, `hexToBytes` gives no bytes at all or bytes that print as the text,
-- in lower case and without its leading `0x`.
pub hex_to_bytes_sound :
    (s : Str) → (hex_to_bytes s ≡ []) ⊎ (bytes_to_hex (hex_to_bytes s) ≡ map lower (strip_0x s))
unfolding hex_to_bytes
hex_to_bytes_sound s = elim (Bool-cases (length (strip_0x s) % 2 == 0)) [
  | inr odd ↦ rw odd (inl refl)
  | inl even ↦
      rw even (sound_of (strip_0x s) (hex_loop (strip_0x s)) (hex_loop-Reprints (strip_0x s)))
]
