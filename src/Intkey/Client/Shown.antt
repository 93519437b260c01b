-- ===== src/Intkey/Client/Shown.antt =====
-- What `Show` prints of the values that the handler stores, through the REST API of a validator.
use mathlib.Core.Option
use sawtooth_sdk_go.Base.{
  ◌≡◌, refl, ap, ◌∙◌, ◌<◌, ℕ, Bytes, text, bytes_eq, All, length, base64_encode,
  base64_decode-base64_encode, print_ℤ, Dict, lookup, some, [], ◌++◌, inr, ℤ, pos, false,
}
use sawtooth_sdk_go.Processor.Errors.{ok}
use sawtooth_sdk_go.Processor.Request.{TpProcessRequest}
use sawtooth_sdk_go.Processor.Store.{Context, IsStore}
use sawtooth_sdk_go.Intkey.Yaml.{Fields, str, get_field, as_string}
use sawtooth_sdk_go.Intkey.Value.{IntkeyPayload}
use sawtooth_sdk_go.Intkey.Value.Accepted.{Accepts}
use sawtooth_sdk_go.Intkey.Handler.{Cbor, apply, decode_payload}
use sawtooth_sdk_go.Intkey.Handler.Updates.{IsCbor, value_at, Encoded}
use sawtooth_sdk_go.Intkey.Handler.Effects.{AllInBounds, apply-Puts}
use sawtooth_sdk_go.Intkey.Client.{get_prefix, get_address, ClientCodec, IntkeyClient}
use sawtooth_sdk_go.Intkey.Client.Requests.{Http, HttpResponse, send_request, url_of, response_text}
use sawtooth_sdk_go.Intkey.Client.Queries.{shown, show, decoded, reworded, or_error, shown_value}

-- The client's codec reads the maps that the handler's codec encodes, as texts.
pub record ReadsMaps (cbor : Cbor) (codec : ClientCodec) : Type 0 where
  pub load_dumped :
      (m : Dict ℤ) (d : Bytes)
      → cbor.dump_map m ≡ inr d
      → (entries : Dict Bytes) × (codec.load_entries d ≡ ok entries)
        × ((k : Bytes) → lookup k entries ≡ Option.map print_ℤ (lookup k m))

module _ {W : Type 0} (sha512 : Bytes → Bytes) (http : Http W) (codec : ClientCodec)
    (client : IntkeyClient) where
  -- A validator's REST API answers a request for the data at an address that is not empty with its
  -- base64 under the key `data`.
  pub record AnswersQueries (data_of : Bytes → Bytes) (w : W) : Type 0 where
    pub answers :
        (address : Bytes)
        → bytes_eq (data_of address) [] ≡ false
        → (r : HttpResponse) × (body : Bytes) × (fields : Fields) × (u : W) × (http.get
              (url_of sha512 http codec client (text "state" ++ (text "/" ++ address)))
              w
            ≡ (inr r, u))
          × (r.status_code ≡ 200)
          × (r.body ≡ inr body)
          × (codec.read_yaml body ≡ inr fields)
          × (get_field (text "data") fields ≡ some (str (base64_encode (data_of address))))

  shown-Encoded :
      (cbor : Cbor) (name d body : Bytes) (fields : Fields) (m : Dict ℤ) (v : ℤ)
      → ReadsMaps cbor codec
      → All (λ b. b < 256) d
      → codec.read_yaml body ≡ inr fields
      → get_field (text "data") fields ≡ some (str (base64_encode d))
      → cbor.dump_map m ≡ inr d
      → lookup name m ≡ some v
      → shown codec name body ≡ ok (print_ℤ v)
  unfolding shown as_string or_error decoded reworded shown_value
  shown-Encoded cbor name d body fields m v reads bytes parses under dumps found =
      let (entries, loads, same) = reads.load_dumped m d dumps in
      let value : lookup name entries ≡ some (print_ℤ v) = same name ∙ rw found refl in
      rw (parses, under, base64_decode-base64_encode d bytes, loads, value)

  show-Encoded :
      (cbor : Cbor) (name : Bytes) (v : ℤ) (data_of : Bytes → Bytes) (w : W)
      → IsCbor cbor
      → ReadsMaps cbor codec
      → ((address : Bytes) → All (λ b. b < 256) (data_of address))
      → AnswersQueries data_of w
      → Encoded sha512 cbor (get_prefix sha512) name v data_of
      → (u : W) × (show sha512 http codec client name w ≡ (ok (print_ℤ v), u))
  unfolding show send_request response_text get_address bytes_eq
  show-Encoded cbor name v data_of w codes reads bytes api (m, dumps, found) =
      let a = get_address sha512 name in
      let (r, body, fields, u, got, fine, has, parses, under) =
        api.answers a (codes.dump_some m (data_of a) dumps) in
      let prints =
        shown-Encoded cbor name (data_of a) body fields m v reads (bytes a) parses under dumps
          found in
      (u, rw (got, fine, has) (ap (λ o. (o, u)) prints))

  module _ {S : Type 0} (cbor : Cbor) (ctx : Context S) (held : S → Bytes → Bytes)
      (store : IsStore ctx held) (codes : IsCbor cbor) (reads : ReadsMaps cbor codec)
      (long : (name : Bytes) → length (sha512 name) ≡ 64) (request : TpProcessRequest) (s t : S)
      (before : AllInBounds sha512 cbor (get_prefix sha512) (held s))
      (done : apply sha512 cbor ctx (get_prefix sha512) request s ≡ (ok tt, t)) (w : W)
      (bytes : (address : Bytes) → All (λ b. b < 256) (held t address))
      (api : AnswersQueries (held t) w) where
    -- What a transaction of the intkey family puts is what the client shows. After a transaction
    -- that succeeds in a state whose values are all from 0 to 4294967295, in the client's
    -- namespace, `Show` of the payload's name returns the digits of the value that the payload's
    -- verb and number give on the value that was stored: on a context that implements the store, a
    -- REST API that answers with the base64 of what is held in the end, codecs of the handler and
    -- of the client that read back the maps that the handler encodes, data of bytes, and a digest
    -- of 64 bytes.
    pub show-apply :
        (p : IntkeyPayload) × (n : ℕ) × (v : ℕ) × (u : W) × (decode_payload cbor request.payload
          ≡ ok p)
        × (p.value ≡ pos n)
        × Accepts p.verb n (value_at sha512 cbor (get_prefix sha512) (held s) p.name) v
        × (show sha512 http codec client p.name w ≡ (ok (print_ℤ (pos v)), u))
    show-apply =
        let (p, n, v, decoded, number, bound, accepts, puts, encoded) =
          apply-Puts sha512 cbor (get_prefix sha512) ctx held store codes long request s t before
            done in
        let (u, shows) =
          show-Encoded cbor p.name (pos v) (held t) w codes reads bytes api encoded in
        (p, n, v, u, decoded, number, accepts, shows)
