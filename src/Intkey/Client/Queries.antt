-- ===== src/Intkey/Client/Queries.antt =====
-- sawtooth_intkey_client of intkey_go: `Show` and `List`. HTTP, YAML and CBOR are parameters.
use sawtooth_sdk_go.Base.{
  ℕ, Bytes, text, base64_decode, print_ℕ, Dict, lookup, Option, none, some, List, [], ◌∷◌, ◌++◌,
  ◌⊎◌, inl, inr,
}
use sawtooth_sdk_go.Processor.Errors.{
  Error, other, error_text, Outcome, ok, err, panic, Call, lift, ◌>>=◌,
}
use sawtooth_sdk_go.Intkey.Yaml.{Yaml, Items, nil, cons, get_field, as_string, as_items, as_fields}
use sawtooth_sdk_go.Intkey.Client.{
  get_prefix, get_address, ClientCodec, IntkeyClient, labelled, and_then,
}
use sawtooth_sdk_go.Intkey.Client.Requests.{Http, send_request}

-- `CorruptInputError`
corrupt : ℕ → Error
corrupt offset = other (text "illegal base64 data at input byte " ++ print_ℕ offset)

-- an error behind a text
unfoldable pub reworded : {A : Type 0} → Bytes → Outcome A → Outcome A
reworded t (ok a) = ok a
reworded t (err e) = err (other (t ++ error_text e))
reworded t panic = panic

-- The text of an error of `fmt.Sprint("...%v", err)` keeps the verb.
unfoldable pub decoded : Bytes → ℕ ⊎ Bytes → Outcome Bytes
unfolding corrupt
decoded t (inl offset) = err (other (t ++ error_text (corrupt offset)))
decoded t (inr bytes) = ok bytes

unfoldable pub or_error : {A : Type 0} → Bytes → Option A → Outcome A
or_error t none = err (other t)
or_error t (some a) = ok a

unfoldable pub asserted : {A : Type 0} → Option A → Outcome A
asserted none = panic
asserted (some a) = ok a

-- `fmt.Sprintf("%v", responseFinal[name])`
unfoldable pub shown_value : Option Bytes → Bytes
shown_value none = text "<nil>"
shown_value (some v) = v

module _ (codec : ClientCodec) where
  -- the entries in the data of a response, whose errors have a text each
  entries_of : Bytes → Bytes → Bytes → Outcome (Dict Bytes)
  unfolding and_then decoded reworded
  entries_of decoding loading coded =
      and_then (decoded decoding (base64_decode coded))
        (λ bytes. reworded loading (codec.load_entries bytes))

  unfoldable pub shown : Bytes → Bytes → Outcome Bytes
  unfolding entries_of or_error shown_value and_then
  shown name response =
      and_then (labelled (text "Error reading response: %v") (codec.read_yaml response)) (λ fields.
        and_then
          (or_error (text "Error reading as string") (as_string (get_field (text "data") fields)))
          (λ coded.
            and_then
              (entries_of (text "Error decoding response: %v") (text "Error binary decoding: %v")
                coded)
              (λ entries. ok (shown_value (lookup name entries)))))

  -- one entry of the list
  unfoldable pub listed_entry : Yaml → Outcome (Dict Bytes)
  unfolding entries_of or_error and_then
  listed_entry entry =
      and_then (or_error (text "Error reading entry data") (as_fields (some entry))) (λ fields.
        and_then
          (or_error (text "Error reading string data") (as_string (get_field (text "data") fields)))
          (entries_of (text "Error decoding: %v") (text "Error binary decoding: %v")))

  unfoldable pub listed_entries : Items → Outcome (List (Dict Bytes))
  unfolding and_then
  listed_entries nil = ok []
  listed_entries (cons entry rest) =
      and_then (listed_entry entry) (λ m. and_then (listed_entries rest) (λ ms. ok (m ∷ ms)))

  unfoldable pub listed : Bytes → Outcome (List (Dict Bytes))
  unfolding asserted and_then
  listed response =
      and_then (labelled (text "Error reading response: ") (codec.read_yaml response))
        (λ fields. and_then (asserted (as_items (get_field (text "data") fields))) listed_entries)

module _ {W : Type 0} (sha512 : Bytes → Bytes) (http : Http W) (codec : ClientCodec)
    (client : IntkeyClient) where
  -- `Show`
  unfoldable pub show : Bytes → Call W Bytes
  show name =
      send_request sha512 http codec client (text "state" ++ (text "/" ++ get_address sha512 name))
        [] [] name
      >>= λ response. lift (shown codec name response)

  -- `List`
  unfoldable pub list : Call W (List (Dict Bytes))
  list =
      send_request sha512 http codec client
        (text "state" ++ (text "?address=" ++ get_prefix sha512)) [] [] []
      >>= λ response. lift (listed codec response)
