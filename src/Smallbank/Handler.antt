-- ===== src/Smallbank/Handler.antt =====
-- `SmallbankHandler.Apply` of handler/handler.go and its six transactions. None of them looks at
-- the error of `saveAccount`.
pub mod Payments
pub mod Refused
use sawtooth_sdk_go.Base.{
  ℕ, Bytes, text, bytes_eq, ltb, print_ℤ, ℤ, pos, negsuc, zero, suc, Dict, List, [], ◌∷◌, ◌++◌,
  Option, none, some, Bool, if◌then◌else◌,
}
use sawtooth_sdk_go.Processor.Errors.{
  Outcome, ok, err, panic, invalid, internal, Call, pure, fail, lift, continue_with, ◌>>=◌, ◌>>◌,
  reject_if,
}
use sawtooth_sdk_go.Processor.Store.{Context, or_nil}
use sawtooth_sdk_go.Processor.Request.{TpProcessRequest}
use sawtooth_sdk_go.Smallbank.Balance.{add_u32, sub_u32, new_savings}
use sawtooth_sdk_go.Smallbank.Accounts.{
  Account, CreateAccountData, DepositCheckingData, WriteCheckData, TransactSavingsData,
  SendPaymentData, AmalgamateData, PayloadType, Payload, Codec, namespace, load_account,
  save_account, ignore_error,
}

unfoldable pub family_name : Bytes
family_name = text "smallbank"

unfoldable pub family_versions : List Bytes
family_versions = text "1.0" ∷ []

unfoldable pub namespaces : (Bytes → Bytes) → List Bytes
namespaces sha512 = namespace sha512 ∷ []

-- `if account == nil { return e }`
unfoldable pub existing : {A : Type 0} → Option A → Bytes → Outcome A
existing none message = err (invalid message)
existing (some a) message = ok a

-- a nil pointer is dereferenced
unfoldable pub deref : {A : Type 0} → Option A → Outcome A
deref none = panic
deref (some a) = ok a

-- `if account != nil { return e }`
unfoldable pub absent : {A : Type 0} → Option A → Outcome (Unit {0})
absent none = ok tt
absent (some a) = err (invalid (text "Account already exists"))

unfoldable pub both_exist : Option Account → Option Account → Outcome (Account × Account)
both_exist (some a) (some b) = ok (a, b)
both_exist _ _ = err (invalid (text "Both source and dest accounts must exist"))

-- `%v` of a payload type that has no case: the name of the unset one, or the number
unknown_name : ℤ → Bytes
unknown_name (pos zero) = text "PAYLOAD_TYPE_UNSET"
unknown_name (pos (suc n)) = print_ℤ (pos (suc n))
unknown_name (negsuc n) = print_ℤ (negsuc n)

module _ {S : Type 0} (sha512 : Bytes → Bytes) (codec : Codec) (ctx : Context S) where
  abbrev load : ℕ → Call S (Option Account)
  load = load_account sha512 codec ctx

  -- `saveAccount(account, context)` as a statement
  abbrev pub save : Account → Call S (Unit {0})
  save account s = ignore_error (save_account sha512 codec ctx account s)

  unfoldable pub apply_create_account : CreateAccountData → Call S (Unit {0})
  unfolding absent
  apply_create_account d = do
    account ← load d.customer_id
    lift (absent account)
    reject_if (bytes_eq d.customer_name []) (invalid (text "Customer Name must be set"))
    save (record {
      customer_id = d.customer_id;
      customer_name = d.customer_name;
      savings_balance = d.initial_savings_balance;
      checking_balance = d.initial_checking_balance;
    })

  unfoldable pub apply_deposit_checking : DepositCheckingData → Call S (Unit {0})
  unfolding existing
  apply_deposit_checking d = do
    found ← load d.customer_id
    account ← lift (existing found (text "Account must exist"))
    save (record account { checking_balance = add_u32 account.checking_balance d.amount })

  unfoldable pub apply_write_check : WriteCheckData → Call S (Unit {0})
  unfolding existing
  apply_write_check d = do
    found ← load d.customer_id
    account ← lift (existing found (text "Account must exist"))
    save (record account { checking_balance = sub_u32 account.checking_balance d.amount })

  unfoldable pub apply_transact_savings : TransactSavingsData → Call S (Unit {0})
  unfolding existing
  apply_transact_savings d = do
    found ← load d.customer_id
    account ← lift (existing found (text "Account must exist"))
    new_balance ← lift (new_savings account.savings_balance d.amount)
    save (record account { savings_balance = new_balance })

  unfoldable pub apply_send_payment : SendPaymentData → Call S (Unit {0})
  unfolding both_exist
  apply_send_payment d = do
    source ← load d.source_customer_id
    dest ← load d.dest_customer_id
    accounts ← lift (both_exist source dest)
    reject_if (ltb (accounts.0).checking_balance d.amount)
        (invalid (text "Insufficient funds in source checking account"))
    save (record (accounts.0) { checking_balance = sub_u32 (accounts.0).checking_balance d.amount })
    save (record (accounts.1) { checking_balance = add_u32 (accounts.1).checking_balance d.amount })

  unfoldable pub apply_amalgamate : AmalgamateData → Call S (Unit {0})
  unfolding both_exist
  apply_amalgamate d = do
    source ← load d.source_customer_id
    dest ← load d.dest_customer_id
    accounts ← lift (both_exist source dest)
    save (record (accounts.0) { savings_balance = 0 })
    save (record (accounts.1) {
      checking_balance = add_u32 (accounts.1).checking_balance (accounts.0).savings_balance;
    })

  -- the switch on the payload's type; the message of that type is dereferenced
  unfoldable pub dispatch : PayloadType → Payload → Call S (Unit {0})
  unfolding deref unknown_name
  dispatch PayloadType.create_account p =
      lift (deref p.create_account_data) >>= apply_create_account
  dispatch PayloadType.deposit_checking p =
      lift (deref p.deposit_checking_data) >>= apply_deposit_checking
  dispatch PayloadType.write_check p = lift (deref p.write_check_data) >>= apply_write_check
  dispatch PayloadType.transact_savings p =
      lift (deref p.transact_savings_data) >>= apply_transact_savings
  dispatch PayloadType.send_payment p = lift (deref p.send_payment_data) >>= apply_send_payment
  dispatch PayloadType.amalgamate p = lift (deref p.amalgamate_data) >>= apply_amalgamate
  dispatch (PayloadType.unknown n) p =
      fail (invalid (text "Invalid PayloadType: '" ++ (unknown_name n ++ text "'")))

  unpack_payload : Option Bytes → Outcome Payload
  unpack_payload d = elim (codec.unmarshal_payload (or_nil d)) [
    | none ↦ err (internal (text "Failed to unmarshal SmallbankTransaction: %v" ++ codec.error))
    | some p ↦ ok p
  ]

  unfoldable pub apply : TpProcessRequest → Call S (Unit {0})
  unfolding unpack_payload
  apply request =
      lift (unpack_payload request.payload) >>= λ payload. dispatch payload.payload_type payload
