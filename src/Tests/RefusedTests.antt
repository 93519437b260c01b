-- ===== src/Tests/RefusedTests.antt =====
-- Transactions that end with an error, on a state that also counts the calls of the context.
use sawtooth_sdk_go.Base.{
  ◌≡◌, lookup, insert, bytes_eq, hexdigest, refl, text, none, some, [], ◌∷◌, pos,
}
use sawtooth_sdk_go.Processor.Errors.{ok, err, invalid}
use sawtooth_sdk_go.Xo.State.{make_address}
use sawtooth_sdk_go.Xo.Handler as XoHandler
use sawtooth_sdk_go.Xo.Handler.Refused.{xo_refused}
use sawtooth_sdk_go.Smallbank.Accounts.{Codec, Payload, PayloadType, account_address}
use sawtooth_sdk_go.Smallbank.Handler as SmallbankHandler
use sawtooth_sdk_go.Smallbank.Handler.Refused.{smallbank_refused}
use sawtooth_sdk_go.Intkey.Handler as IntkeyHandler
use sawtooth_sdk_go.Intkey.Handler.Refused.{intkey_refused}
use sawtooth_sdk_go.Tests.XoTests.{xo_run, g1, request_create, created}
use sawtooth_sdk_go.Tests.SmallbankTests.{smallbank_run, toy_codec, world}
use sawtooth_sdk_go.Intkey.Handler.{Cbor}
use sawtooth_sdk_go.Intkey.Value.{check_payload, new_value}
use sawtooth_sdk_go.Intkey.Client.{get_prefix}
use sawtooth_sdk_go.Intkey.Handler.Updates.{address_of}
use sawtooth_sdk_go.Tests.IntkeyCodec.{toy_cbor, encode_map, decode_map}
use sawtooth_sdk_go.Tests.IntkeyTests.{prefix, seven, carrying}
use sawtooth_sdk_go.Processor.Store.{data_at}
use sawtooth_sdk_go.Tests.Memory.{
  read_all, toy_digest, counting, counted_held, counting-FailsCleanly,
}

-- A game of the name is there already.
create_again :
    XoHandler.apply toy_digest counting request_create (created, 0)
    ≡ (err (invalid (text "Game already exists")), (created, 1))
unfolding xo_run
create_again = refl

xo_refused_example :
    counted_held (created, 1) (make_address toy_digest g1)
    ≡ counted_held (created, 0) (make_address toy_digest g1)
xo_refused_example =
    xo_refused toy_digest counting counted_held counting-FailsCleanly request_create (created, 0)
      (created, 1) (invalid (text "Game already exists")) (make_address toy_digest g1) create_again

abbrev overdraft : Payload
overdraft = record {
  payload_type = PayloadType.send_payment;
  create_account_data = none;
  deposit_checking_data = none;
  write_check_data = none;
  transact_savings_data = none;
  send_payment_data = some (record { source_customer_id = 1; dest_customer_id = 2; amount = 300 });
  amalgamate_data = none;
}

abbrev overdraft_codec : Codec
overdraft_codec = record toy_codec { unmarshal_payload = λ d. some overdraft }

-- The source has 100.
pay_too_much :
    SmallbankHandler.apply toy_digest overdraft_codec counting request_create (world, 0)
    ≡ (err (invalid (text "Insufficient funds in source checking account")), (world, 2))
unfolding smallbank_run SmallbankHandler.apply SmallbankHandler.dispatch SmallbankHandler.deref
pay_too_much = refl

smallbank_refused_example :
    counted_held (world, 2) (account_address toy_digest 1)
    ≡ counted_held (world, 0) (account_address toy_digest 1)
smallbank_refused_example =
    smallbank_refused toy_digest overdraft_codec counting counted_held (λ addresses s b. refl)
      request_create (world, 0) (world, 2)
      (invalid (text "Insufficient funds in source checking account"))
      (account_address toy_digest 1) pay_too_much

abbrev set_again : Cbor
set_again = record toy_cbor {
  load_payload = λ bytes. (record { verb = text "set"; name = 1 ∷ []; value = pos 5 }, ok tt);
}

-- The name has the value 7.
refused_set :
    IntkeyHandler.apply toy_digest set_again counting prefix carrying (seven, 0)
    ≡ (err (invalid (text "Cannot set existing value")), (seven, 1))
unfolding IntkeyHandler.apply IntkeyHandler.decode_payload IntkeyHandler.collision_map lookup
    data_at bytes_eq IntkeyHandler.stored_in encode_map decode_map hexdigest get_prefix
    IntkeyHandler.decode_cbor check_payload IntkeyHandler.update IntkeyHandler.last_64 new_value
    read_all text insert
refused_set = refl

intkey_refused_example :
    counted_held (seven, 1) (address_of toy_digest set_again prefix (1 ∷ []))
    ≡ counted_held (seven, 0) (address_of toy_digest set_again prefix (1 ∷ []))
intkey_refused_example =
    intkey_refused toy_digest set_again prefix counting counted_held counting-FailsCleanly carrying
      (seven, 0) (seven, 1) (invalid (text "Cannot set existing value"))
      (address_of toy_digest set_again prefix (1 ∷ [])) refused_set
