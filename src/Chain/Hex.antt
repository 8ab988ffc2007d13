-- ===== src/Chain/Hex.antt =====
-- internal/chain/client.go: bytes as hexadecimal text and back (`bytesToHex`, `hexToBytes`).
pub mod RoundTrip
pub mod Malformed
use Prim.Native.Nat.{bit_and, bit_or}
use hertz_reconciler.Prelude.{
  ℕ, zero, suc, ◌+◌, ◌-◌, ◌*◌, ◌/◌, ◌%◌, ◌≡◌, refl, Bool, true, false, ◌&&◌, ◌||◌, Option, none,
  some, List, [], ◌∷◌, Bytes, Str, str, str_eq, length, take, drop, leb, ◌==◌, if◌then◌else◌,
}
use hertz_reconciler.Prelude.Int.{ℤ, pos, negsuc, pos_part}

abbrev pub hex_chars : Str
hex_chars =
    b'0' ∷ b'1' ∷ b'2' ∷ b'3' ∷ b'4' ∷ b'5' ∷ b'6' ∷ b'7' ∷ b'8' ∷ b'9' ∷ b'a' ∷ b'b' ∷ b'c' ∷ b'd'
    ∷ b'e' ∷ b'f' ∷ []

-- `hexChars[i]`, for an index in range
abbrev pub char_at : Str → ℕ → ℕ
char_at [] i = 0
char_at (c ∷ s) zero = c
char_at (c ∷ s) (suc i) = char_at s i

unfoldable pub bytes_to_hex : Bytes → Str
bytes_to_hex [] = []
bytes_to_hex (v ∷ b) =
    char_at hex_chars (v / 16) ∷ char_at hex_chars (bit_and v 0x0f) ∷ bytes_to_hex b

unfoldable pub hex_nibble : ℕ → ℤ
hex_nibble c =
    if leb b'0' c && leb c b'9'
    then pos (c - b'0')
    else if leb b'a' c && leb c b'f'
    then pos (c - b'a' + 10)
    else if leb b'A' c && leb c b'F'
    then pos (c - b'A' + 10)
    else negsuc 0

abbrev pub is_negative : ℤ → Bool
is_negative (pos n) = false
is_negative (negsuc n) = true

abbrev pub push_byte : ℕ → Option Bytes → Option Bytes
push_byte byte none = none
push_byte byte (some out) = some (byte ∷ out)

-- The loop over the pairs of digits; `none` is the `return nil` inside it.
unfoldable pub hex_loop : Str → Option Bytes
hex_loop [] = some []
hex_loop (c ∷ []) = none
hex_loop (c ∷ d ∷ s) =
    let hi = hex_nibble c in
    let lo = hex_nibble d in
    let byte = bit_or (pos_part hi * 16) (pos_part lo) % 256 in
    if is_negative hi || is_negative lo then none else push_byte byte (hex_loop s)

unfoldable pub strip_0x : Str → Str
strip_0x s = if leb 2 (length s) && str_eq (take 2 s) (b'0' ∷ b'x' ∷ []) then drop 2 s else s

abbrev pub or_nil : Option Bytes → Bytes
or_nil none = []
or_nil (some b) = b

-- The result `nil` has no bytes, as an empty slice has none; no caller tells them apart.
unfoldable pub hex_to_bytes : Str → Bytes
unfolding strip_0x
hex_to_bytes s =
    let digits = strip_0x s in if length digits % 2 == 0 then or_nil (hex_loop digits) else []

hex_chars_test : hex_chars ≡ str "0123456789abcdef"
unfolding str
hex_chars_test = refl

mixed_case : hex_to_bytes (str "0xAb01") ≡ 0xab ∷ 0x01 ∷ []
unfolding hex_to_bytes hex_loop hex_nibble str str_eq
mixed_case = refl
