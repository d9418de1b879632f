-- ===== src/Common/Decimal/Digits.antt =====
-- The digits that `format_nat` writes, and the value that is read back from them.
use Prim.Native.Nat.{ℕ, zero, suc, ◌+◌, ◌-◌, ◌*◌, ◌/◌, ◌%◌, ◌^◌, ◌≤◌, ◌<◌}
use mathlib.Core.Logic.{inl, inr}
use mathlib.Core.Path.{◌≡◌, ◌∙◌, sym, ap}
use mathlib.Core.List.{[], ◌∷◌}
use native.Mathlib.Omega.{arith}
use native.Mathlib.Numerals.{unary_clauses}
use cosmos_operator.Common.Tests.{ltb, ltb→lt, Bool-cases}
use cosmos_operator.Common.Lists.{length}
use cosmos_operator.Common.Texts.{Text}
use cosmos_operator.Common.Decimal.{digits, format_nat}

abbrev pub IsDigit : ℕ → Type 0
IsDigit c = (b'0' ≤ c) × (c ≤ b'9')

-- At least one byte, and each of them a digit.
abbrev pub AllDigits : Text → Type 0
AllDigits [] = Unit
AllDigits (c ∷ s) = IsDigit c × AllDigits s

abbrev pub IsNumeral : Text → Type 0
IsNumeral s = (1 ≤ length s) × AllDigits s

digits-AllDigits :
    (fuel n : ℕ) (out : Text)
    → AllDigits out
    → AllDigits (digits fuel n out) × (length out ≤ length (digits fuel n out))
unfolding digits
digits-AllDigits zero n out h = (h, omega arith)
digits-AllDigits (suc fuel) n out h =
    let more =
      digits-AllDigits fuel (n / 10) ((b'0' + n % 10) ∷ out) ((omega arith, omega arith), h) in
    ground (arith, more.0, more.1)

pub format_nat-IsNumeral : (n : ℕ) → IsNumeral (format_nat n)
unfolding format_nat digits
format_nat-IsNumeral n =
    let more =
      digits-AllDigits n (n / 10) ((b'0' + n % 10) ∷ []) ((omega arith, omega arith), tt) in
    ground (arith, more.0, more.1)

-- The value of a text of digits after the number so far.
abbrev value : ℕ → Text → ℕ
value n [] = n
value n (c ∷ s) = value (n * 10 + (c - b'0')) s

value-digits : (fuel n : ℕ) (out : Text) → n < fuel → value 0 (digits fuel n out) ≡ value n out
unfolding digits
value-digits zero n out l = omega (arith, l)
value-digits (suc fuel) n out l =
    let small : n < 10 → 0 * 10 + ((b'0' + n) - b'0') ≡ n = λ h. omega (arith, h) in
    let more = value-digits fuel (n / 10) ((b'0' + n % 10) ∷ out) in
    let whole : n / 10 * 10 + ((b'0' + n % 10) - b'0') ≡ n = omega arith in
    elim (Bool-cases (ltb n 10)) [
      | inl t ↦ rw (t) (ap (λ x. value x out) (small (ltb→lt n 10 t)))
      | inr f ↦ rw (f) (more (ground (arith, f, l)) ∙ ap (λ x. value x out) whole)
    ]

pub format_nat-injective : (m n : ℕ) → format_nat m ≡ format_nat n → m ≡ n
unfolding format_nat
format_nat-injective m n e =
    sym (value-digits (suc m) m [] (omega arith))
    ∙ ap (value 0) e
    ∙ value-digits (suc n) n [] (omega arith)

length-digits :
    (k fuel n : ℕ) (out : Text) → n < 10 ^ suc k → length (digits fuel n out) ≤ suc k + length out
unfolding digits
length-digits k zero n out l = omega arith
length-digits zero (suc fuel) n out l = ground (arith, l)
length-digits (suc k) (suc fuel) n out l =
    let p = 10 ^ k * 10 in
    let tenth : n < p * 10 → n / 10 < p = λ h. omega (arith, h) in
    ground (
      arith,
      length-digits k fuel (n / 10) ((b'0' + n % 10) ∷ out)
          (simp unary_clauses (tenth (simp unary_clauses at l))),
    )

-- An int32 has ten digits at most.
pub length-format_nat-le : (n : ℕ) → n < 2 ^ 31 → length (format_nat n) ≤ 10
unfolding format_nat
length-format_nat-le n l = length-digits 9 (suc n) n [] (omega (arith, l))
