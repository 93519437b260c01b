-- ===== src/Tests/ClientTests.antt =====
-- A transaction of the intkey client, and what the handler makes of it.
use sawtooth_sdk_go.Base.{
  ◌≡◌, refl, bytes_eq, inl, join, clean, split, text, [], ◌∷◌, some, inr, pos, encode_to_string,
  print_ℕ, true,
}
use sawtooth_sdk_go.Processor.Errors.{other, err, error_text, ok, lift, ◌>>◌}
use sawtooth_sdk_go.Processor.Request.{TpProcessRequest}
use sawtooth_sdk_go.Signing.{Key, signer_sign}
use sawtooth_sdk_go.Intkey.Value.{IntkeyPayload, check_payload}
use sawtooth_sdk_go.Intkey.Handler.{Cbor, update, apply}
use sawtooth_sdk_go.Intkey.Yaml.{end}
use sawtooth_sdk_go.Intkey.Client.{
  get_prefix, ClientCodec, IntkeyClient, Transaction, transaction_header, signed_transaction,
}
use sawtooth_sdk_go.Intkey.Client.Addresses.{restricted, apply-signed_transaction}
use sawtooth_sdk_go.Intkey.Client.Commands.{
  Machine, get_keyfile, get_client, new_intkey_client, private_key,
}
use sawtooth_sdk_go.Tests.Memory.{toy_digest, memory}

abbrev pub toy_key : Key
toy_key = record { algorithm_name = []; as_bytes = 3 ∷ [] }

abbrev pub toy_client : IntkeyClient
toy_client = record {
  url = text "localhost:8008";
  signer = record {
    context = record {
      algorithm_name = [];
      new_random_private_key = λ source. (ok toy_key, source);
      get_public_key = λ k. k;
      sign = λ message k. ok (0xab ∷ []);
      verify = λ signature message k. ok true;
    };
    private_key = toy_key;
  };
}

abbrev set_to_5 : IntkeyPayload
set_to_5 = record { verb = text "set"; name = 1 ∷ []; value = pos 5 }

abbrev pub one_payload : ClientCodec
one_payload = record {
  dump_payload = λ verb name value. inr (8 ∷ []);
  marshal_header = λ h. inr h.nonce;
  marshal_batch_header = λ h. inr [];
  marshal_batch_list = λ batches. inr [];
  read_yaml = λ response. inr end;
  load_entries = λ bytes. ok [];
}

abbrev one_map : Cbor
one_map = record {
  load_payload = λ bytes. (set_to_5, ok tt);
  load_map = λ bytes. (some [], ok tt);
  dump_map = λ m. inr (9 ∷ []);
}

abbrev sent : Transaction
sent = record {
  header = print_ℕ 4;
  header_signature = encode_to_string (0xab ∷ []);
  payload = 8 ∷ [];
}

abbrev carrying : TpProcessRequest
carrying = record {
  header = record { family_name = []; family_version = []; signer_public_key = [] };
  payload = some (8 ∷ []);
  signature = [];
  context_id = [];
}

apply-signed_transaction_example :
    (one_payload.marshal_header
        (transaction_header toy_digest one_payload toy_client (1 ∷ []) (8 ∷ []) 4)
      ≡ inr (print_ℕ 4))
    × (apply toy_digest one_map
          (restricted
            (transaction_header toy_digest one_payload toy_client (1 ∷ []) (8 ∷ []) 4)
            memory)
          (get_prefix toy_digest)
          carrying
        ≡ (lift (check_payload set_to_5)
            >> update toy_digest one_map memory (get_prefix toy_digest) set_to_5))
unfolding signed_transaction transaction_header signer_sign text
apply-signed_transaction_example =
    apply-signed_transaction toy_digest one_map memory one_payload toy_client (text "set") (1 ∷ [])
      (8 ∷ []) 5 4 sent carrying refl refl (λ bytes e. refl) refl refl

-- A file that cannot be read fails each command that signs.
abbrev no_files : Machine (Unit {0})
no_files = record {
  read_file = λ name w. (inl (other (text "no such file")), w);
  current_user = λ w. (inr (record { home_dir = text "/root"; username = text "me" }), w);
  num_error = λ s. other s;
}

keyfile_runs :
    get_keyfile toy_client.signer.context no_files [] tt
    ≡ (ok (text "/root/.sawtooth/keys/me.priv"), tt)
unfolding get_keyfile text bytes_eq join clean split
keyfile_runs = refl

client_fails :
    get_client toy_client.signer.context no_files [] (text "key") true tt
    ≡ (err (other (text "Failed to read private key: no such file")), tt)
unfolding get_client get_keyfile new_intkey_client private_key text bytes_eq error_text
client_fails = refl
