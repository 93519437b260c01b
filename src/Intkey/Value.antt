-- ===== src/Intkey/Value.antt =====
-- handler/handler.go of intkey_go: the checks of a payload, and the value that is written. Values
-- are Go's `int`, with 64 bits.
pub mod Accepted
use sawtooth_sdk_go.Base.{
  ◌≡◌, refl, ◌∙◌, ℕ, ◌+◌, ◌-◌, ◌≤◌, Bytes, text, bytes_eq, length, ltb, leb, print_ℤ, Option, none,
  some, true, Bool-cases, inl, inr, not, ◌||◌, ◌++◌, ℤ, pos, negsuc, ltb_ℤ, add_int, sub_int, arith,
  if◌then◌else◌,
}
use sawtooth_sdk_go.Processor.Errors.{Outcome, ok, err, invalid}

pub record IntkeyPayload : Type 0 where
  pub verb : Bytes
  pub name : Bytes
  pub value : ℤ

abbrev pub min_value : ℤ
min_value = pos 0

abbrev pub max_value : ℤ
max_value = pos 4294967295

abbrev pub max_name_length : ℕ
max_name_length = 20

-- the checks of a payload, in their order
unfoldable pub check_payload : IntkeyPayload → Outcome (Unit {0})
check_payload p =
    if ltb max_name_length (length p.name)
    then err (invalid (text "Name must be a string of no more than 20 characters"))
    else if ltb_ℤ p.value min_value
    then err (invalid (text "Value must be >= 0, not: " ++ print_ℤ p.value))
    else if ltb_ℤ max_value p.value
    then err (invalid (text "Value must be <= 4294967295, not: " ++ print_ℤ p.value))
    else if not (
        bytes_eq p.verb (text "set")
        || (bytes_eq p.verb (text "inc") || bytes_eq p.verb (text "dec")))
    then err (invalid (text "Invalid verb: " ++ p.verb))
    else ok tt

-- the bounds of a new value; the format of each message has no place for the bound
unfoldable pub in_bounds : ℤ → Outcome ℤ
in_bounds v =
    if ltb_ℤ v min_value
    then err (invalid (text "New Value must be >= %!(EXTRA int=0)"))
    else if ltb_ℤ max_value v
    then err (invalid (text "New Value must be <= %!(EXTRA int=4294967295)"))
    else ok v

-- an existing value and the payload's verb and value
changed : Bytes → ℤ → Option ℤ → Outcome ℤ
changed verb value none = err (invalid (text "Need existing value for inc/dec"))
changed verb value (some stored) =
    in_bounds (if bytes_eq verb (text "inc") then add_int stored value else sub_int stored value)

first_value : ℤ → Option ℤ → Outcome ℤ
first_value value none = ok value
first_value value (some stored) = err (invalid (text "Cannot set existing value"))

unfoldable pub new_value : Bytes → ℤ → Option ℤ → Outcome ℤ
unfolding changed first_value
new_value verb value stored =
    if bytes_eq verb (text "inc") || bytes_eq verb (text "dec")
    then changed verb value stored
    else if bytes_eq verb (text "set")
    then first_value value stored
    else ok (pos 0)

add_int_small : (m n : ℕ) → m + n ≤ 8589934592 → add_int (pos m) (pos n) ≡ pos (m + n)
unfolding add_int
add_int_small m n h = ground arith

sub_int_small :
    (m n : ℕ)
    → m ≤ 4294967295
    → n ≤ 4294967295
    → sub_int (pos m) (pos n) ≡ (if leb n m then pos (m - n) else negsuc (n - m - 1))
unfolding sub_int
sub_int_small m n hm hn = ground arith

in_bounds_pos :
    (v : ℕ)
    → in_bounds (pos v) ≡ (
        if leb v 4294967295
        then ok (pos v)
        else err (invalid (text "New Value must be <= %!(EXTRA int=4294967295)")))
unfolding in_bounds
in_bounds_pos v = ground arith

in_bounds_neg :
    (k : ℕ) → in_bounds (negsuc k) ≡ err (invalid (text "New Value must be >= %!(EXTRA int=0)"))
unfolding in_bounds
in_bounds_neg k = ground arith

-- `inc` of a value within the bounds by a value within the bounds gives their sum, and refuses a
-- sum above the upper bound: the 64 bits of an `int` do not wrap.
new_value-inc :
    (n m : ℕ)
    → n ≤ 4294967295
    → m ≤ 4294967295
    → new_value (text "inc") (pos n) (some (pos m)) ≡ (
        if leb (m + n) 4294967295
        then ok (pos (m + n))
        else err (invalid (text "New Value must be <= %!(EXTRA int=4294967295)")))
unfolding new_value changed text bytes_eq
new_value-inc n m hn hm = rw (add_int_small m n (omega arith)) (in_bounds_pos (m + n))

-- `dec` of a value within the bounds by a value within the bounds gives their difference, and
-- refuses one below zero: the 64 bits of an `int` do not wrap.
new_value-dec :
    (n m : ℕ)
    → n ≤ 4294967295
    → m ≤ 4294967295
    → new_value (text "dec") (pos n) (some (pos m)) ≡ (
        if leb n m
        then ok (pos (m - n))
        else err (invalid (text "New Value must be >= %!(EXTRA int=0)")))
unfolding new_value changed text bytes_eq
new_value-dec n m hn hm = elim (Bool-cases (leb n m)) [
  | inl covered ↦
      rw (sub_int_small m n hm hn) (rw covered (in_bounds_pos (m - n) ∙ rw (within covered) refl))
  | inr short ↦ rw (sub_int_small m n hm hn) (rw short (in_bounds_neg (n - m - 1)))
]
  where
    within : leb n m ≡ true → leb (m - n) 4294967295 ≡ true
    within covered = ground arith

-- On a value and a change within the bounds, `inc` gives the sum and refuses one above the upper
-- bound, and `dec` gives the difference and refuses one below zero: the 64 bits of an `int` do not
-- wrap.
pub new_value_within_bounds :
    (n m : ℕ)
    → n ≤ 4294967295
    → m ≤ 4294967295
    → (new_value (text "inc") (pos n) (some (pos m)) ≡ (
        if leb (m + n) 4294967295
        then ok (pos (m + n))
        else err (invalid (text "New Value must be <= %!(EXTRA int=4294967295)"))))
      × (new_value (text "dec") (pos n) (some (pos m)) ≡ (
          if leb n m
          then ok (pos (m - n))
          else err (invalid (text "New Value must be >= %!(EXTRA int=0)"))))
new_value_within_bounds n m hn hm = (new_value-inc n m hn hm, new_value-dec n m hn hm)
