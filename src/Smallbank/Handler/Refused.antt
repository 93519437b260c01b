-- ===== src/Smallbank/Handler/Refused.antt =====
-- A smallbank transaction that ends with an error changes nothing: all its saves come last, and
-- none of their errors is returned.
use sawtooth_sdk_go.Base.{ℕ, ◌≡◌, ◌++◌, List, Bytes, bytes_eq, ltb, text, [], ◌∷◌, Option}
use sawtooth_sdk_go.Processor.Errors.{
  Error, Outcome, ok, err, panic, invalid, Call, lift, reject_if, ◌>>=◌, ◌>>◌,
}
use sawtooth_sdk_go.Processor.Request.{TpProcessRequest}
use sawtooth_sdk_go.Processor.Store.{Context, data_at}
use sawtooth_sdk_go.Processor.Store.Clean.{
  IsClean, Keeps, Keeps-IsClean, Succeeds, >>=-IsClean, >>=-Keeps, >>=-Succeeds, Succeeds-IsClean,
  then-IsClean, lift-Keeps, reject_if-Keeps,
}
use sawtooth_sdk_go.Smallbank.Balance.{new_savings}
use sawtooth_sdk_go.Smallbank.Accounts.{
  Account, CreateAccountData, DepositCheckingData, WriteCheckData, TransactSavingsData,
  SendPaymentData, AmalgamateData, PayloadType, Payload, Codec, load_account, account_of,
  account_address, save_account, ignore_error,
}
use sawtooth_sdk_go.Smallbank.Handler.{
  unknown_name, apply, dispatch, existing, absent, deref, both_exist, save, apply_create_account,
  apply_deposit_checking, apply_write_check, apply_transact_savings, apply_send_payment,
  apply_amalgamate, unpack_payload,
}

module _ {S : Type 0} (sha512 : Bytes → Bytes) (codec : Codec) (ctx : Context S)
    (held : S → Bytes → Bytes)
    (gets : (addresses : List Bytes) (s : S) (b : Bytes)
      → held (ctx.get_state addresses s).1 b ≡ held s b) where
  abbrev load : ℕ → Call S (Option Account)
  load = load_account sha512 codec ctx

  load-Keeps : (customer_id : ℕ) → Keeps held (load customer_id)
  unfolding load_account
  load-Keeps customer_id =
      let a = account_address sha512 customer_id in
      >>=-Keeps held (ctx.get_state (a ∷ [])) (λ r. lift (account_of codec (data_at a r)))
        (record { keeps = gets (a ∷ []) }) (λ r. lift-Keeps held _)

  save-Succeeds : (a : Account) → Succeeds held (save sha512 codec ctx a)
  unfolding ignore_error
  save-Succeeds a = record {
    no_error = λ s e t ends. go (save_account sha512 codec ctx a s) e t ends;
  }
    where
      go : (r : Outcome (Unit {0}) × S) (e : Error) (t : S) → ignore_error r ≡ (err e, t) → ⊥
      go (ok u, s) e t k = cc
      go (err x, s) e t k = cc
      go (panic, s) e t k = cc

  -- a load, and what goes behind it
  loading :
      {B : Type 0} (customer_id : ℕ) (f : Option Account → Call S B)
      → ((a : Option Account) → IsClean held (f a))
      → IsClean held (load customer_id >>= f)
  loading customer_id f next = >>=-IsClean held (load customer_id) f (load-Keeps customer_id) next

  saving : (a : Account) → IsClean held (save sha512 codec ctx a)
  saving a = Succeeds-IsClean held _ (save-Succeeds a)

  saving_both : (a b : Account) → IsClean held (save sha512 codec ctx a >> save sha512 codec ctx b)
  saving_both a b =
      Succeeds-IsClean held _
        (>>=-Succeeds held (save sha512 codec ctx a) _ (save-Succeeds a) (λ u. save-Succeeds b))

  deposit_checking-IsClean :
      (d : DepositCheckingData) → IsClean held (apply_deposit_checking sha512 codec ctx d)
  unfolding apply_deposit_checking
  deposit_checking-IsClean d =
      loading d.customer_id _ λ found.
        then-IsClean held (existing found (text "Account must exist")) _ λ account. saving _

  write_check-IsClean : (d : WriteCheckData) → IsClean held (apply_write_check sha512 codec ctx d)
  unfolding apply_write_check
  write_check-IsClean d =
      loading d.customer_id _ λ found.
        then-IsClean held (existing found (text "Account must exist")) _ λ account. saving _

  transact_savings-IsClean :
      (d : TransactSavingsData) → IsClean held (apply_transact_savings sha512 codec ctx d)
  unfolding apply_transact_savings
  transact_savings-IsClean d = loading d.customer_id _ λ found.
      then-IsClean held (existing found (text "Account must exist")) _
        λ account. then-IsClean held (new_savings account.savings_balance d.amount) _ λ b. saving _

  create_account-IsClean :
      (d : CreateAccountData) → IsClean held (apply_create_account sha512 codec ctx d)
  unfolding apply_create_account
  create_account-IsClean d = loading d.customer_id _ λ account.
      then-IsClean held (absent account) _ λ u.
        >>=-IsClean held
          (reject_if (bytes_eq d.customer_name []) (invalid (text "Customer Name must be set"))) _
          (reject_if-Keeps held _ _) λ u'. saving _

  send_payment-IsClean :
      (d : SendPaymentData) → IsClean held (apply_send_payment sha512 codec ctx d)
  unfolding apply_send_payment
  send_payment-IsClean d = loading d.source_customer_id _ λ source.
      loading d.dest_customer_id _ λ dest. then-IsClean held (both_exist source dest) _ λ accounts.
        >>=-IsClean held
          (reject_if (ltb (accounts.0).checking_balance d.amount)
            (invalid (text "Insufficient funds in source checking account")))
          _ (reject_if-Keeps held _ _) λ u. saving_both _ _

  amalgamate-IsClean : (d : AmalgamateData) → IsClean held (apply_amalgamate sha512 codec ctx d)
  unfolding apply_amalgamate
  amalgamate-IsClean d = loading d.source_customer_id _ λ source.
      loading d.dest_customer_id _
        λ dest. then-IsClean held (both_exist source dest) _ λ accounts. saving_both _ _

  dispatch-IsClean : (t : PayloadType) (p : Payload) → IsClean held (dispatch sha512 codec ctx t p)
  unfolding dispatch
  dispatch-IsClean PayloadType.create_account p =
      then-IsClean held (deref p.create_account_data) _ create_account-IsClean
  dispatch-IsClean PayloadType.deposit_checking p =
      then-IsClean held (deref p.deposit_checking_data) _ deposit_checking-IsClean
  dispatch-IsClean PayloadType.write_check p =
      then-IsClean held (deref p.write_check_data) _ write_check-IsClean
  dispatch-IsClean PayloadType.transact_savings p =
      then-IsClean held (deref p.transact_savings_data) _ transact_savings-IsClean
  dispatch-IsClean PayloadType.send_payment p =
      then-IsClean held (deref p.send_payment_data) _ send_payment-IsClean
  dispatch-IsClean PayloadType.amalgamate p =
      then-IsClean held (deref p.amalgamate_data) _ amalgamate-IsClean
  dispatch-IsClean (PayloadType.unknown n) p = Keeps-IsClean held _ (
      lift-Keeps held
        (err (invalid (text "Invalid PayloadType: '" ++ (unknown_name n ++ text "'")))))

  apply-IsClean : (request : TpProcessRequest) → IsClean held (apply sha512 codec ctx request)
  unfolding apply
  apply-IsClean request =
      then-IsClean held (unpack_payload sha512 codec ctx request.payload) _
        λ payload. dispatch-IsClean payload.payload_type payload

  -- A transaction of the smallbank family that ends with an error changes nothing of what is held,
  -- on a context on which no get changes what is held.
  pub smallbank_refused :
      (request : TpProcessRequest) (s t : S) (e : Error) (address : Bytes)
      → apply sha512 codec ctx request s ≡ (err e, t)
      → held t address ≡ held s address
  smallbank_refused request s t e address refused =
      (apply-IsClean request).refused_keeps s address e t refused
