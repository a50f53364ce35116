-- ===== src/Base/Digits.antt =====
-- Decimal texts read back: two numbers with one text are equal.
use Prim.Native.Nat.{ℕ, zero, suc, ◌+◌, ◌-◌, ◌*◌, ◌/◌, ◌%◌, ◌<◌}
use Prim.Native.Char.{code}
use Prim.Native.String.{String}
use native.Mathlib.Omega.{arith}
use text.Mathlib.TextLemmas.{cons-append, nil-append}
use mathlib.Core.Path.{◌≡◌, refl, sym, ap, ◌∙◌}
use mathlib.Core.Bool.{Bool, true, false}
use payment_infrastructure.Base.Tests.{ltb, ltb→lt, if◌then◌else◌, Bool-cases}
use payment_infrastructure.Base.Text.{concat, digit, digits_on, decimal}
use mathlib.Core.Logic.{inl, inr}

to_number : String → ℕ → ℕ
to_number String.[] acc = acc
to_number (String.◌∷◌ c s) acc = to_number s (acc * 10 + (code c - 48))

to_number-concat :
    (s t : String) (acc : ℕ) → to_number (concat s t) acc ≡ to_number t (to_number s acc)
unfolding to_number
to_number-concat String.[] t acc = rw (nil-append t) refl
to_number-concat (String.◌∷◌ c s) t acc = rw (cons-append c s t) (to_number-concat s t _)

to_number-if :
    (b : Bool) (s t : String) (acc : ℕ)
    → to_number (if b then s else t) acc ≡ (if b then to_number s acc else to_number t acc)
to_number-if true s t acc = refl
to_number-if false s t acc = refl

to_number-digit : (d acc : ℕ) → d < 10 → to_number (digit d) acc ≡ acc * 10 + d
unfolding to_number
to_number-digit d acc h = simp to_number-if (ground arith)

to_number-digits_on : (fuel n : ℕ) → n < fuel → to_number (digits_on fuel n) 0 ≡ n
unfolding digits_on
to_number-digits_on zero n h = absurd (omega (arith, h))
to_number-digits_on (suc fuel) n h = elim (Bool-cases (ltb n 10)) [
  | inl few ↦ rw few (to_number-digit n 0 (ltb→lt n 10 few) ∙ omega arith)
  | inr more ↦
      let ih = to_number-digits_on fuel (n / 10) (ground arith) in
      rw (more, to_number-concat (digits_on fuel (n / 10)) (digit (n % 10)) 0, ih)
        (to_number-digit (n % 10) (n / 10) (omega arith) ∙ omega arith)
]

pub decimal_injective : (m n : ℕ) → decimal m ≡ decimal n → m ≡ n
unfolding decimal
decimal_injective m n h =
    sym (to_number-digits_on (suc m) m (omega arith))
    ∙ ap (λ s. to_number s 0) h
    ∙ to_number-digits_on (suc n) n (omega arith)
