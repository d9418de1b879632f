-- ===== src/Common/Decimal.antt =====
-- strconv's base 10: `FormatInt`, and `ParseInt` at 64 bits with its saturation.
pub mod Digits
use Prim.Native.Nat.{ℕ, zero, suc, ◌+◌, ◌-◌, ◌*◌, ◌/◌, ◌%◌, ◌^◌}
use mathlib.Core.Bool.{Bool, true, false, ◌||◌}
use mathlib.Core.Option.{Option, none, some}
use mathlib.Core.List.{[], ◌∷◌}
use cosmos_operator.Common.Tests.{ltb, leb, ◌==◌, if◌then◌else◌}
use cosmos_operator.Common.Texts.{Text}
use cosmos_operator.Common.Int.{ℤ, pos, negsuc}

-- The digits of a number in front of `out`, on fuel: a number has no more digits than itself
-- plus one.
digits : ℕ → ℕ → Text → Text
digits zero n out = out
digits (suc fuel) n out =
    let more = digits fuel (n / 10) ((b'0' + n % 10) ∷ out) in
    if ltb n 10 then (b'0' + n) ∷ out else more

unfoldable pub format_nat : ℕ → Text
unfolding digits
format_nat n = digits (suc n) n []

unfoldable pub format_int : ℤ → Text
format_int (pos n) = format_nat n
format_int (negsuc n) = b'-' ∷ format_nat (suc n)

abbrev max_uint64 : ℕ
max_uint64 = 2 ^ 64 - 1

-- The loop of `ParseUint`: `none` is a syntax error, and a value past 64 bits ends the loop at
-- once with the largest one.
scan : ℕ → Text → Option ℕ
scan n [] = some n
scan n (c ∷ s) =
    let d = c - b'0' in
    let rest = scan (n * 10 + d) s in
    if ltb c b'0' || ltb b'9' c
    then none
    else if ltb max_uint64 (n * 10 + d)
    then some max_uint64
    else rest

-- `ParseUint(s, 10, 64)`, its value past 64 bits being the largest one.
unfoldable pub parse_uint : Text → Option ℕ
unfolding scan
parse_uint [] = none
parse_uint (c ∷ s) = scan 0 (c ∷ s)

saturate : Bool → Option ℕ → ℤ
saturate negative none = pos 0
saturate false (some n) = if leb (2 ^ 63) n then pos (2 ^ 63 - 1) else pos n
saturate true (some zero) = pos 0
saturate true (some (suc n)) = if ltb (2 ^ 63) (suc n) then negsuc (2 ^ 63 - 1) else negsuc n

-- The value of `ParseInt(s, 10, 64)`, whose error the callers drop.
unfoldable pub parse_int : Text → ℤ
unfolding parse_uint saturate
parse_int [] = pos 0
parse_int (c ∷ s) =
    if c == b'-'
    then saturate true (parse_uint s)
    else if c == b'+'
    then saturate false (parse_uint s)
    else saturate false (parse_uint (c ∷ s))
