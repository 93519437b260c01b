-- ===== src/Base/Decimal.antt =====
-- Decimal numbers of the standard library: `strconv.Atoi`, and `%d` or `fmt.Sprint` of an integer.
use Prim.Native.Nat.{ℕ, zero, suc, ◌+◌, ◌-◌, ◌*◌, ◌/◌, ◌%◌, ◌^◌}
use mathlib.Core.Path.{◌≡◌, refl}
use mathlib.Core.Bool.{◌||◌}
use mathlib.Core.List.{[], ◌∷◌, ◌++◌}
use mathlib.Core.Option.{Option, none, some}
use sawtooth_sdk_go.Base.Tests.{ltb, leb, ◌==◌, if◌then◌else◌}
use sawtooth_sdk_go.Base.Text.{Bytes, text}
use sawtooth_sdk_go.Base.Int.{ℤ, pos, negsuc, neg_ℕ}

-- the number that the digits spell behind `n`; `none` at a byte that is no digit
digits_value : ℕ → Bytes → Option ℕ
digits_value n [] = some n
digits_value n (c ∷ s) =
    let rest = digits_value (n * 10 + (c - b'0')) s in
    if ltb c b'0' || ltb b'9' c then none else rest

-- the digits behind the sign, of which there is at least one
unsigned : Bytes → Option ℕ
unfolding digits_value
unsigned [] = none
unsigned (c ∷ s) = digits_value 0 (c ∷ s)

fits : Option ℕ → Option ℤ
fits none = none
fits (some n) = if ltb n (2 ^ 63) then some (pos n) else none

fits_negated : Option ℕ → Option ℤ
fits_negated none = none
fits_negated (some n) = if leb n (2 ^ 63) then some (neg_ℕ n) else none

-- `strconv.Atoi(s)`; `none` is its error
unfoldable pub atoi : Bytes → Option ℤ
unfolding unsigned fits fits_negated
atoi [] = none
atoi (c ∷ s) =
    if c == b'-'
    then fits_negated (unsigned s)
    else if c == b'+'
    then fits (unsigned s)
    else fits (unsigned (c ∷ s))

-- a number below 10 ^ fuel
print_digits : ℕ → ℕ → Bytes
print_digits zero n = []
print_digits (suc fuel) n =
    let front = print_digits fuel (n / 10) in
    let last : Bytes = (b'0' + n % 10) ∷ [] in if ltb n 10 then last else front ++ last

-- n < 10 ^ (n + 1), so the fuel is enough
unfoldable pub print_ℕ : ℕ → Bytes
unfolding print_digits
print_ℕ n = print_digits (suc n) n

unfoldable pub print_ℤ : ℤ → Bytes
unfolding print_ℕ
print_ℤ (pos n) = print_ℕ n
print_ℤ (negsuc n) = b'-' ∷ print_ℕ (suc n)

atoi_test : atoi (text "-42") ≡ some (negsuc 41)
unfolding atoi text
atoi_test = refl

atoi_overflow : atoi (text "9223372036854775808") ≡ none
unfolding atoi text
atoi_overflow = refl

print_test : print_ℤ (negsuc 1204) ≡ text "-1205"
unfolding print_ℤ text
print_test = refl
