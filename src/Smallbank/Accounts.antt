-- ===== src/Smallbank/Accounts.antt =====
-- handler/handler.go: accounts in state, `loadAccount` and `saveAccount`.
pub mod Held
use sawtooth_sdk_go.Base.{
  ℕ, Bytes, text, bytes_eq, Dict, take, hexdigest, print_ℕ, ℤ, List, [], ◌∷◌, ◌++◌, Option, none,
  some, ◌≡◌,
}
use sawtooth_sdk_go.Processor.Errors.{
  Outcome, ok, err, panic, internal, Call, pure, fail, lift, continue_with, ◌>>=◌, ◌>>◌,
}
use sawtooth_sdk_go.Processor.Store.{Context, data_at}

-- the message Account; its numbers are uint32
pub record Account : Type 0 where
  pub customer_id : ℕ
  pub customer_name : Bytes
  pub savings_balance : ℕ
  pub checking_balance : ℕ

pub record CreateAccountData : Type 0 where
  pub customer_id : ℕ
  pub customer_name : Bytes
  pub initial_savings_balance : ℕ
  pub initial_checking_balance : ℕ

pub record DepositCheckingData : Type 0 where
  pub customer_id : ℕ
  pub amount : ℕ

pub record WriteCheckData : Type 0 where
  pub customer_id : ℕ
  pub amount : ℕ

pub record TransactSavingsData : Type 0 where
  pub customer_id : ℕ
  pub amount : ℤ

pub record SendPaymentData : Type 0 where
  pub source_customer_id : ℕ
  pub dest_customer_id : ℕ
  pub amount : ℕ

pub record AmalgamateData : Type 0 where
  pub source_customer_id : ℕ
  pub dest_customer_id : ℕ

pub data PayloadType : Type 0 where
  create_account deposit_checking write_check transact_savings send_payment amalgamate : PayloadType
  unknown : ℤ → PayloadType

-- the message SmallbankTransactionPayload; a message that is not set is a nil pointer
pub record Payload : Type 0 where
  pub payload_type : PayloadType
  pub create_account_data : Option CreateAccountData
  pub deposit_checking_data : Option DepositCheckingData
  pub write_check_data : Option WriteCheckData
  pub transact_savings_data : Option TransactSavingsData
  pub send_payment_data : Option SendPaymentData
  pub amalgamate_data : Option AmalgamateData

-- The protobuf library at these messages: `none` is its error, of which `error` is the text.
pub record Codec : Type 0 where
  pub marshal_account : Account → Option Bytes
  pub unmarshal_account : Bytes → Option Account
  pub unmarshal_payload : Bytes → Option Payload
  pub error : Bytes

module _ (sha512 : Bytes → Bytes) where
  unfoldable pub namespace : Bytes
  namespace = take 6 (hexdigest sha512 (text "smallbank"))

  unfoldable pub account_address : ℕ → Bytes
  unfolding namespace
  account_address customer_id = namespace ++ take 64 (hexdigest sha512 (print_ℕ customer_id))

unfoldable pub unpack_account : Codec → Bytes → Outcome Account
unpack_account codec d = elim (codec.unmarshal_account d) [
  | none ↦ err (internal (text "Failed to unmarshal Account: %v" ++ codec.error))
  | some a ↦ ok a
]

-- what `loadAccount` does with the data at the address: none means no account
unfoldable pub account_of : Codec → Bytes → Outcome (Option Account)
account_of codec [] = ok none
account_of codec (c ∷ d) = elim (unpack_account codec (c ∷ d)) [
  | ok a ↦ ok (some a)
  | err e ↦ err e
  | panic ↦ panic
]

module _ {S : Type 0} (sha512 : Bytes → Bytes) (codec : Codec) (ctx : Context S) where
  unfoldable pub load_account : ℕ → Call S (Option Account)
  load_account customer_id =
      let address = account_address sha512 customer_id in
      ctx.get_state (address ∷ []) >>= λ results. lift (account_of codec (data_at address results))

  acknowledged : List Bytes → Outcome (Unit {0})
  acknowledged [] = err (internal (text "No addresses in set response"))
  acknowledged (a ∷ as') = ok tt

  store_data_of : Account → Option Bytes → Call S (Unit {0})
  unfolding acknowledged
  store_data_of account none = fail (internal (text "Failed to serialize Account:" ++ codec.error))
  store_data_of account (some d) =
      ctx.set_state ((account_address sha512 account.customer_id, d) ∷ []) >>= λ addresses.
      lift (acknowledged addresses)

  unfoldable pub save_account : Account → Call S (Unit {0})
  unfolding store_data_of
  save_account account = store_data_of account (codec.marshal_account account)

-- a call whose error is not looked at
unfoldable pub ignore_error : {S : Type 0} → Outcome (Unit {0}) × S → Outcome (Unit {0}) × S
ignore_error (ok a, s) = (ok tt, s)
ignore_error (err e, s) = (ok tt, s)
ignore_error (panic, s) = (panic, s)
