-- ===== src/Base/Text.antt =====
-- Texts: their equality, emptiness, and the bytes of their UTF-8 form.
use Prim.Native.Nat.{ℕ, zero, suc, ◌+◌, ◌/◌, ◌%◌}
use Prim.Native.Char.{code}
use Prim.Native.String.{String, ◌++◌ as text_append}
pub use text.Mathlib.Text.{◌==◌ as str_eq}
pub use text.Mathlib.TextEquality.{eq_iff}
use text.Mathlib.TextLemmas.{cons-append}
pub use text.Mathlib.TextPositions.{eq_refl}
use mathlib.Core.Bool.{Bool, true, false}
use mathlib.Core.Path.{◌≡◌}
use mathlib.Core.List.{List, [], ◌∷◌, ◌++◌}
use payment_infrastructure.Base.Int.{ℤ, pos, negsuc}
use payment_infrastructure.Base.Tests.{ltb, ◌==◌, if◌then◌else◌}

abbrev pub is_empty : String → Bool
is_empty String.[] = true
is_empty (String.◌∷◌ c s) = false

-- Go's `s + t`.
abbrev pub concat : String → String → String
concat s t = text_append s t

pub is_empty-concat : (s t : String) → is_empty s ≡ false → is_empty (concat s t) ≡ false
is_empty-concat String.[] t h = cc
is_empty-concat (String.◌∷◌ c s) t h = rw (cons-append c s t)

-- The UTF-8 bytes of one code point.
abbrev pub utf8_of : ℕ → List ℕ
utf8_of c =
    if ltb c 0x80
    then c ∷ []
    else if ltb c 0x800
    then (0xc0 + c / 0x40) ∷ (0x80 + c % 0x40) ∷ []
    else if ltb c 0x10000
    then (0xe0 + c / 0x1000) ∷ (0x80 + c / 0x40 % 0x40) ∷ (0x80 + c % 0x40) ∷ []
    else (0xf0 + c / 0x40000)
      ∷ (0x80 + c / 0x1000 % 0x40)
      ∷ (0x80 + c / 0x40 % 0x40)
      ∷ (0x80 + c % 0x40)
      ∷ []

-- What Go's `[]byte(s)` holds.
abbrev pub bytes : String → List ℕ
bytes String.[] = []
bytes (String.◌∷◌ c s) = utf8_of (code c) ++ bytes s

abbrev pub digit : ℕ → String
digit d =
    if d == 0
    then "0"
    else if d == 1
    then "1"
    else if d == 2
    then "2"
    else if d == 3
    then "3"
    else if d == 4
    then "4"
    else if d == 5
    then "5"
    else if d == 6
    then "6"
    else if d == 7
    then "7"
    else if d == 8
    then "8"
    else "9"

unfoldable pub digits_on : ℕ → ℕ → String
digits_on zero n = ""
digits_on (suc fuel) n =
    let front = digits_on fuel (n / 10) in
    if ltb n 10 then digit n else concat front (digit (n % 10))

-- The decimal text of a number, `%d`; a number has at most as many digits as its value and one.
unfoldable pub decimal : ℕ → String
unfolding digits_on
decimal n = digits_on (suc n) n

-- `%d` of an int64.
abbrev pub int_text : ℤ → String
int_text (pos n) = decimal n
int_text (negsuc n) = concat "-" (decimal (suc n))
