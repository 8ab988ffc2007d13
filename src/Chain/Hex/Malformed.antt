-- ===== src/Chain/Hex/Malformed.antt =====
-- Texts that are not hexadecimal.
use hertz_reconciler.Prelude.{
  ℕ, ◌%◌, ◌≤◌, ◌≡◌, ◌⊎◌, refl, inl, inr, Bool, true, false, Option, none, List, [], ◌∷◌, ◌||◌, Str,
  length, arith, ◌==◌, Bool-cases, if◌then◌else◌,
}
use hertz_reconciler.Chain.Hex.{
  hex_nibble, is_negative, hex_loop, strip_0x, push_byte, hex_to_bytes,
}

-- 0 to 9, a to f, or A to F.
abbrev pub IsHexDigit : ℕ → Type 0
IsHexDigit c = ((b'0' ≤ c) × (c ≤ b'9')) ⊎ ((b'a' ≤ c) × (c ≤ b'f')) ⊎ ((b'A' ≤ c) × (c ≤ b'F'))

-- Some character is no digit.
abbrev HasOther : Str → Type 0
HasOther [] = ⊥
HasOther (c ∷ s) = (¬ IsHexDigit c) ⊎ HasOther s

-- Behind a leading `0x`, the number of characters is odd, or one of them is no digit.
abbrev pub IsMalformed : Str → Type 0
IsMalformed s = (length (strip_0x s) % 2 ≡ 1) ⊎ HasOther (strip_0x s)

digit_of : (c : ℕ) → is_negative (hex_nibble c) ≡ false → IsHexDigit c
unfolding hex_nibble
digit_of c h = ground arith

other_negative : (c : ℕ) → ¬ IsHexDigit c → is_negative (hex_nibble c) ≡ true
other_negative c h = elim (Bool-cases (is_negative (hex_nibble c))) [
  | inl e ↦ e
  | inr e ↦ absurd (h (digit_of c e))
]

or_true : (b : Bool) → (b || true) ≡ true
or_true true = refl
or_true false = refl

push_none :
    (byte : ℕ) (b : Bool) (r : Option (List ℕ))
    → r ≡ none
    → (if b then none else push_byte byte r) ≡ none
push_none byte true r h = refl
push_none byte false r h = rw h refl

hex_loop-HasOther : (s : Str) → HasOther s → hex_loop s ≡ none
unfolding hex_loop
hex_loop-HasOther [] h = absurd h
hex_loop-HasOther (c ∷ []) h = refl
hex_loop-HasOther (c ∷ d ∷ s) (inl h) = rw (other_negative c h) refl
hex_loop-HasOther (c ∷ d ∷ s) (inr (inl h)) =
    rw (other_negative d h, or_true (is_negative (hex_nibble c))) refl
hex_loop-HasOther (c ∷ d ∷ s) (inr (inr h)) = push_none _ _ (hex_loop s) (hex_loop-HasOther s h)

pub hex_to_bytes-IsMalformed : (s : Str) → IsMalformed s → hex_to_bytes s ≡ []
unfolding hex_to_bytes
hex_to_bytes-IsMalformed s (inl odd) = rw odd refl
hex_to_bytes-IsMalformed s (inr other) = elim (Bool-cases (length (strip_0x s) % 2 == 0)) [
  | inl even ↦ rw (even, hex_loop-HasOther (strip_0x s) other) refl
  | inr odd ↦ rw odd refl
]
