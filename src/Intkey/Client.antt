-- ===== src/Intkey/Client.antt =====
-- sawtooth_intkey_client of intkey_go: how a transaction is built, signed, and put into a batch.
-- CBOR, protobuf and SHA-512 are parameters.
pub mod Addresses
pub mod Requests
pub mod Queries
pub mod Shown
pub mod Commands
use sawtooth_sdk_go.Base.{
  ℕ, zero, suc, ◌-◌, ◌%◌, ◌^◌, Bytes, text, bytes_eq, ltb, leb, take, drop, print_ℕ,
  encode_to_string, hexdigest, List, [], ◌∷◌, ◌++◌, map, ◌==◌, Option, none, some, Dict, ◌⊎◌, inl,
  inr, not, if◌then◌else◌,
}
use sawtooth_sdk_go.Processor.Errors.{
  Error, other, error_text, Outcome, ok, err, panic, Call, lift, ◌>>=◌,
}
use sawtooth_sdk_go.Intkey.Yaml.{Fields}
use sawtooth_sdk_go.Signing.{Signer, as_hex, signer_sign, signer_get_public_key}

abbrev pub family_name : Bytes
family_name = text "intkey"

abbrev pub family_version : Bytes
family_version = text "1.0"

abbrev pub verb_set : Bytes
verb_set = text "set"

abbrev pub verb_inc : Bytes
verb_inc = text "inc"

abbrev pub verb_dec : Bytes
verb_dec = text "dec"

-- the messages of transaction_pb2 and batch_pb2
pub record TransactionHeader : Type 0 where
  pub signer_public_key : Bytes
  pub family_name : Bytes
  pub family_version : Bytes
  pub dependencies : List Bytes
  pub nonce : Bytes
  pub batcher_public_key : Bytes
  pub inputs : List Bytes
  pub outputs : List Bytes
  pub payload_sha512 : Bytes

pub record Transaction : Type 0 where
  pub header : Bytes
  pub header_signature : Bytes
  pub payload : Bytes

pub record BatchHeader : Type 0 where
  pub signer_public_key : Bytes
  pub transaction_ids : List Bytes

pub record Batch : Type 0 where
  pub header : Bytes
  pub transactions : List Transaction
  pub header_signature : Bytes

-- The libraries for CBOR, protobuf and YAML. `load_entries` is `Loads` into a map of any values: its
-- entries under string keys, as `fmt.Sprint` prints them.
pub record ClientCodec : Type 0 where
  pub dump_payload : (verb name : Bytes) → ℕ → Error ⊎ Bytes
  pub marshal_header : TransactionHeader → Error ⊎ Bytes
  pub marshal_batch_header : BatchHeader → Error ⊎ Bytes
  pub marshal_batch_list : List Batch → Error ⊎ Bytes
  pub read_yaml : Bytes → Error ⊎ Fields
  pub load_entries : Bytes → Outcome (Dict Bytes)

pub record IntkeyClient : Type 0 where
  pub url : Bytes
  pub signer : Signer (Unit {0})

-- an error behind a text
abbrev pub labelled : {A : Type 0} → Bytes → Error ⊎ A → Outcome A
labelled t (inl e) = err (other (t ++ error_text e))
labelled t (inr a) = ok a

-- the hex digits of a signature
hex_of : Outcome Bytes → Outcome Bytes
hex_of (ok signature) = ok (encode_to_string signature)
hex_of (err e) = err e
hex_of panic = panic

-- the results of functions that may fail, one after another
and_then : {A B : Type 0} → Outcome A → (A → Outcome B) → Outcome B
and_then (ok a) f = f a
and_then (err e) f = err e
and_then panic f = panic

module _ (sha512 : Bytes → Bytes) where
  -- The digest is 128 digits long, so that the slices stay within it.
  unfoldable pub get_prefix : Bytes
  get_prefix = take 6 (hexdigest sha512 family_name)

  unfoldable pub get_address : Bytes → Bytes
  get_address name = get_prefix ++ drop 64 (hexdigest sha512 name)

  module _ (codec : ClientCodec) (client : IntkeyClient) where
    abbrev pub public_key : Bytes
    public_key = as_hex (signer_get_public_key client.signer)

    unfoldable pub transaction_header : Bytes → Bytes → ℕ → TransactionHeader
    transaction_header name payload nonce = record {
      signer_public_key = public_key;
      family_name = family_name;
      family_version = family_version;
      dependencies = [];
      nonce = print_ℕ nonce;
      batcher_public_key = public_key;
      inputs = get_address name ∷ [];
      outputs = get_address name ∷ [];
      payload_sha512 = hexdigest sha512 payload;
    }

    unfoldable pub signed_transaction : Bytes → Bytes → ℕ → Outcome Transaction
    unfolding hex_of and_then
    signed_transaction name payload nonce =
        and_then
          (labelled (text "Unable to serialize transaction header: ")
            (codec.marshal_header (transaction_header name payload nonce)))
          (λ header. and_then (hex_of (signer_sign client.signer header)) (λ signature.
            ok (record { header = header; header_signature = signature; payload = payload })))

    unfoldable pub create_batch_list : List Transaction → Outcome (List Batch)
    unfolding hex_of and_then
    create_batch_list transactions =
        and_then
          (labelled (text "Unable to serialize batch header: ") (
            codec.marshal_batch_header (record {
              signer_public_key = public_key;
              transaction_ids = map Transaction.header_signature transactions;
            })))
          (λ header. and_then (hex_of (signer_sign client.signer header)) (λ signature. ok (
            record { header = header; transactions = transactions; header_signature = signature }
            ∷ [])))
