-- ===== src/Prelude/Text.antt =====
-- Go strings: lists of bytes. A literal of the source is the UTF-8 encoding of its characters.
use Prim.Native.Nat.{ℕ, zero, suc, ◌+◌, ◌/◌, ◌%◌}
use Prim.Native.Char.{code}
use Prim.Native.String.{String}
use mathlib.Core.Path.{◌≡◌, refl}
use mathlib.Core.Bool.{Bool, true, false, ◌&&◌}
use mathlib.Core.List.{List, [], ◌∷◌, ◌++◌}
use native.Mathlib.Omega.{arith}
use hertz_reconciler.Prelude.Tests.{ltb, ◌==◌, if◌then◌else◌}

abbrev pub Str : Type 0
Str = List ℕ

abbrev utf8 : ℕ → Str
utf8 c =
    if ltb c 0x80
    then c ∷ []
    else if ltb c 0x800
    then (0xc0 + c / 64) ∷ (0x80 + c % 64) ∷ []
    else if ltb c 0x10000
    then (0xe0 + c / 4096) ∷ (0x80 + c / 64 % 64) ∷ (0x80 + c % 64) ∷ []
    else (0xf0 + c / 262144) ∷ (0x80 + c / 4096 % 64) ∷ (0x80 + c / 64 % 64) ∷ (0x80 + c % 64) ∷ []

-- The bytes of a string literal.
unfoldable pub str : String → Str
str String.[] = []
str (String.◌∷◌ c s) = utf8 (code c) ++ str s

-- `a == b` on strings
unfoldable pub str_eq : Str → Str → Bool
str_eq [] [] = true
str_eq (a ∷ s) (b ∷ t) = (a == b) && str_eq s t
str_eq _ _ = false

pub str_eq_refl : (s : Str) → str_eq s s ≡ true
unfolding str_eq
str_eq_refl [] = refl
str_eq_refl (a ∷ s) = ground (arith, str_eq_refl s)

pub str_eq_sound : (s t : Str) → str_eq s t ≡ true → s ≡ t
unfolding str_eq
str_eq_sound [] [] h = refl
str_eq_sound [] (b ∷ t) h = ground arith
str_eq_sound (a ∷ s) [] h = ground arith
str_eq_sound (a ∷ s) (b ∷ t) h = ground (arith, str_eq_sound s t)

abbrev pub newline : Str
newline = 10 ∷ []

test_dash : str "a—⚠" ≡ 97 ∷ 226 ∷ 128 ∷ 148 ∷ 226 ∷ 154 ∷ 160 ∷ []
unfolding str
test_dash = refl

digits : ℕ → ℕ → Str → Str
digits zero n out = out
digits (suc fuel) n out =
    let rest = digits fuel (n / 10) ((b'0' + n % 10) ∷ out) in if n == 0 then out else rest

-- `%d` of a number. The number itself is fuel enough, since each round divides it by ten.
unfoldable pub decimal : ℕ → Str
unfolding digits
decimal n = if n == 0 then b'0' ∷ [] else digits n n []

decimal_test : decimal 1850 ≡ str "1850"
unfolding decimal str
decimal_test = refl

-- The arguments and the fixed parts of a `Sprintf`, one after the other.
abbrev pub cat : List Str → Str
cat [] = []
cat (s ∷ ss) = s ++ cat ss
