-- ===== src/Smallbank/Balance.antt =====
-- The arithmetic of handler/handler.go on balances: uint32 for balances and amounts, int32 for the
-- amount of a savings transaction.
use sawtooth_sdk_go.Base.{
  ℕ, suc, ◌+◌, ◌-◌, ◌%◌, ◌^◌, ◌<◌, ◌≡◌, ltb, text, ℤ, pos, negsuc, pos_part, neg_part, signed,
  residue, ltb_ℤ, arith, if◌then◌else◌,
}
use sawtooth_sdk_go.Processor.Errors.{Outcome, ok, err, invalid}

abbrev pub u32_mod : ℕ
u32_mod = 2 ^ 32

-- `a + b` and `a - b` on uint32
unfoldable pub add_u32 : ℕ → ℕ → ℕ
add_u32 a b = (a + b) % u32_mod

unfoldable pub sub_u32 : ℕ → ℕ → ℕ
sub_u32 a b = (a + u32_mod - b) % u32_mod

-- `-a` on int32, which maps the least value to itself
unfoldable pub neg_i32 : ℤ → ℤ
neg_i32 z = signed 32 (residue 32 (neg_part z) (pos_part z))

-- `uint32(a)`
unfoldable pub to_u32 : ℤ → ℕ
to_u32 z = residue 32 (pos_part z) (neg_part z)

-- the balance that `applyTransactSavings` computes
unfoldable pub new_savings : ℕ → ℤ → Outcome ℕ
new_savings balance amount =
    if ltb_ℤ amount (pos 0)
    then (if ltb balance (to_u32 (neg_i32 amount))
        then err (invalid (text "Insufficient funds in source savings account"))
        else ok (sub_u32 balance (to_u32 (neg_i32 amount))))
    else ok (add_u32 balance (to_u32 amount))

-- The magnitude of a negative int32, the least value included, is computed exactly.
pub to_u32-neg_i32 : (n : ℕ) → n < 2 ^ 31 → to_u32 (neg_i32 (negsuc n)) ≡ suc n
unfolding to_u32 neg_i32
to_u32-neg_i32 n h = ground arith

-- A withdrawal from savings of any int32 amount is refused exactly if it is not covered, and
-- otherwise lowers the balance by its magnitude.
pub new_savings_withdraw :
    (balance n : ℕ)
    → balance < u32_mod
    → n < 2 ^ 31
    → new_savings balance (negsuc n) ≡ (
        if ltb balance (suc n)
        then err (invalid (text "Insufficient funds in source savings account"))
        else ok (balance - suc n))
unfolding new_savings sub_u32
new_savings_withdraw balance n h k = ground (arith, to_u32-neg_i32 n k)

-- A deposit to savings wraps around at 2 ^ 32.
pub new_savings_deposit :
    (balance n : ℕ) → n < 2 ^ 31 → new_savings balance (pos n) ≡ ok ((balance + n) % u32_mod)
unfolding new_savings add_u32 to_u32
new_savings_deposit balance n h = ground arith
