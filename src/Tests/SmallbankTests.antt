-- ===== src/Tests/SmallbankTests.antt =====
-- The smallbank family on a state in memory, with a toy encoding of accounts.
use sawtooth_sdk_go.Base.{
  ◌≡◌, refl, ◌+◌, ◌-◌, ℕ, ltb, Bytes, bytes_eq, text, Dict, lookup, insert, hexdigest, keys,
  print_ℕ, [], ◌∷◌, Option, none, some, negsuc, arith, if◌then◌else◌,
}
use sawtooth_sdk_go.Processor.Errors.{ok, err, invalid}
use sawtooth_sdk_go.Processor.Store.{data_at}
use sawtooth_sdk_go.Smallbank.Balance.{add_u32, sub_u32, new_savings, new_savings_withdraw}
use sawtooth_sdk_go.Smallbank.Accounts.{
  Account, Codec, SendPaymentData, AmalgamateData, namespace, account_address, account_of,
  unpack_account, load_account, save_account, ignore_error,
}
use sawtooth_sdk_go.Smallbank.Accounts.Held.{ReadsBack}
use sawtooth_sdk_go.Smallbank.Handler.{both_exist, apply_send_payment, apply_amalgamate}
use sawtooth_sdk_go.Smallbank.Handler.Payments.{
  Holds, debited, credited, send_payment_to_self, send_payment_conserves,
}
use sawtooth_sdk_go.Tests.Memory.{
  toy_digest, memory, held_in, memory-IsStore, memory-Serves, read_all, write_all,
}

abbrev pub marshal : Account → Option Bytes
marshal a = some (1 ∷ a.customer_id ∷ a.savings_balance ∷ a.checking_balance ∷ a.customer_name)

abbrev pub unmarshal : Bytes → Option Account
unmarshal (v ∷ i ∷ s ∷ c ∷ name) =
    some
      (record { customer_id = i; customer_name = name; savings_balance = s; checking_balance = c })
unmarshal _ = none

abbrev pub toy_codec : Codec
toy_codec = record {
  marshal_account = marshal;
  unmarshal_account = unmarshal;
  unmarshal_payload = λ d. none;
  error = [];
}

abbrev account : ℕ → Account
account i = record {
  customer_id = i;
  customer_name = b'n' ∷ [];
  savings_balance = 5;
  checking_balance = 100;
}

abbrev pub world : Dict Bytes
world =
    (account_address toy_digest 1, 1 ∷ 1 ∷ 5 ∷ 100 ∷ b'n' ∷ [])
    ∷ (account_address toy_digest 2, 1 ∷ 2 ∷ 5 ∷ 100 ∷ b'n' ∷ [])
    ∷ []

-- all that a run of the family computes through
unfoldable pub smallbank_run : Unit {0}
unfolding apply_send_payment apply_amalgamate both_exist load_account save_account ignore_error
    account_of unpack_account namespace account_address hexdigest print_ℕ lookup insert bytes_eq
    text keys data_at read_all write_all add_u32 sub_u32
smallbank_run = tt

abbrev pay : ℕ → ℕ → SendPaymentData
pay i j = record { source_customer_id = i; dest_customer_id = j; amount = 30 }

abbrev merge : ℕ → ℕ → AmalgamateData
merge i j = record { source_customer_id = i; dest_customer_id = j }

abbrev paid : ℕ → ℕ → Dict Bytes
paid i j = (apply_send_payment toy_digest toy_codec memory (pay i j) world).1

abbrev merged : ℕ → ℕ → Dict Bytes
merged i j = (apply_amalgamate toy_digest toy_codec memory (merge i j) world).1

new_savings_withdraw_example : new_savings 7 (negsuc 8) ≡ (
    if ltb 7 9
    then err (invalid (text "Insufficient funds in source savings account"))
    else ok (7 - 9))
new_savings_withdraw_example = new_savings_withdraw 7 8 (omega arith) (omega arith)

-- the predicates of the payments' theorems at the world of this file
abbrev HoldsHere : Dict Bytes → ℕ → Account → Type 0
HoldsHere s i a = Holds toy_digest toy_codec memory held_in memory-IsStore s i a

abbrev bytes_of : Account → Bytes
bytes_of a = 1 ∷ a.customer_id ∷ a.savings_balance ∷ a.checking_balance ∷ a.customer_name

toy_codec-ReadsBack : (a : Account) → ReadsBack toy_codec a
unfolding smallbank_run
toy_codec-ReadsBack a = (bytes_of a, refl, refl)

send_payment_to_self_example : HoldsHere (paid 1 1) 1 (credited 30 (account 1))
unfolding smallbank_run
send_payment_to_self_example =
    send_payment_to_self toy_digest toy_codec memory held_in memory-IsStore memory-Serves (pay 1 1)
      (account 1) world (paid 1 1) refl refl refl (toy_codec-ReadsBack (debited 30 (account 1)))
      (toy_codec-ReadsBack (credited 30 (account 1))) refl

send_payment_conserves_example :
    HoldsHere (paid 1 2) 1 (debited 30 (account 1))
    × HoldsHere (paid 1 2) 2 (credited 30 (account 2))
    × ((debited 30 (account 1)).checking_balance + (credited 30 (account 2)).checking_balance
        ≡ (account 1).checking_balance + (account 2).checking_balance)
unfolding smallbank_run
send_payment_conserves_example =
    send_payment_conserves toy_digest toy_codec memory held_in memory-IsStore memory-Serves
      (pay 1 2) (account 1) (account 2) world (paid 1 2) refl refl refl refl refl (omega arith)
      (omega arith) (toy_codec-ReadsBack (debited 30 (account 1)))
      (toy_codec-ReadsBack (credited 30 (account 2))) refl
