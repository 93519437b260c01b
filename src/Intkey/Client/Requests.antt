-- ===== src/Intkey/Client/Requests.antt =====
-- sawtooth_intkey_client of intkey_go: the requests to the REST API, and how the status of a batch
-- is polled. HTTP is a parameter.
use sawtooth_sdk_go.Base.{
  ℕ, zero, suc, ◌-◌, Bytes, text, bytes_eq, ltb, leb, take, print_ℕ, List, [], ◌∷◌, ◌++◌, ◌==◌,
  Option, none, some, ◌⊎◌, inl, inr, not, if◌then◌else◌,
}
use sawtooth_sdk_go.Processor.Errors.{
  Error, other, error_text, Outcome, ok, err, panic, Call, lift, ◌>>=◌,
}
use sawtooth_sdk_go.Intkey.Yaml.{Fields, Items, nil, cons, get_field, sprint, as_items, as_fields}
use sawtooth_sdk_go.Intkey.Client.{
  verb_set, verb_inc, verb_dec, Batch, ClientCodec, IntkeyClient, labelled, signed_transaction,
  create_batch_list,
}

pub record HttpResponse : Type 0 where
  pub status_code : ℕ
  pub status : Bytes
  pub body : Error ⊎ Bytes

-- the network, random numbers, and the clock in nanoseconds
pub record Http (W : Type 0) : Type 0 where
  pub post : (url content_type bytes : Bytes) → W → (Error ⊎ HttpResponse) × W
  pub get : Bytes → W → (Error ⊎ HttpResponse) × W
  pub rand_int : W → ℕ × W
  pub now : W → ℕ × W

relabelled : {A : Type 0} → Bytes → Outcome A → Outcome A
relabelled t (ok a) = ok a
relabelled t (err e) = err (other (t ++ error_text e))
relabelled t panic = panic

-- `entry["status"]` of the first entry under `data`; each type assertion panics
entry_status : Option Fields → Outcome Bytes
entry_status none = panic
entry_status (some entry) = ok (sprint (get_field (text "status") entry))

first_status : Option Items → Outcome Bytes
unfolding entry_status
first_status none = panic
first_status (some nil) = panic
first_status (some (cons x xs)) = entry_status (as_fields (some x))

unfoldable pub status_in : Error ⊎ Fields → Outcome Bytes
unfolding first_status
status_in (inl e) = err (other (text "Error reading response: " ++ error_text e))
status_in (inr fields) = first_status (as_items (get_field (text "data") fields))

module _ {W : Type 0} (sha512 : Bytes → Bytes) (http : Http W) (codec : ClientCodec)
    (client : IntkeyClient) where
  unfoldable pub url_of : Bytes → Bytes
  url_of suffix =
      let url = client.url ++ (text "/" ++ suffix) in
      if bytes_eq (take 7 client.url) (text "http://") then url else text "http://" ++ url

  unfoldable pub response_text : Bytes → Error ⊎ HttpResponse → Outcome Bytes
  response_text name (inl e) = err (other (text "Failed to connect to REST API: " ++ error_text e))
  response_text name (inr r) =
      if r.status_code == 404
      then err (other (text "No such key: " ++ name))
      else if leb 400 r.status_code
      then err (other (text "Error " ++ (print_ℕ r.status_code ++ (text ": " ++ r.status))))
      else labelled (text "Error reading response: ") r.body

  -- a POST if there is data, and else a GET
  unfoldable pub send_request : Bytes → Bytes → Bytes → Bytes → Call W Bytes
  unfolding response_text url_of
  send_request suffix bytes content_type name w =
      let (response, t) =
        if bytes_eq bytes []
        then http.get (url_of suffix) w
        else http.post (url_of suffix) content_type bytes w in
      (response_text name response, t)

  unfoldable pub get_status : Bytes → ℕ → Call W Bytes
  get_status batch_id wait =
      send_request
        (text "batch_statuses" ++ (text "?id=" ++ (batch_id ++ (text "&wait=" ++ print_ℕ wait)))) []
        [] []
      >>= λ response. lift (status_in (codec.read_yaml response))

  clock : Call W ℕ
  clock w = let (t, u) = http.now w in (ok t, u)

  -- The loop while the batch is pending; `none` is out of fuel. The time waited is in nanoseconds.
  unfoldable pub until_settled : ℕ → Bytes → ℕ → ℕ → ℕ → Bytes → Call W (Option Bytes)
  unfolding clock
  until_settled zero batch_id wait start waited response w = (ok none, w)
  until_settled (suc fuel) batch_id wait start waited response w =
      if not (ltb waited wait)
      then (ok (some response), w)
      else (get_status batch_id (wait - waited) >>= λ status. clock >>= λ now. λ t.
            if bytes_eq status (text "PENDING")
            then until_settled fuel batch_id wait start (now - start) response t
            else (ok (some response), t))
          w

  unfoldable pub submit : ℕ → Bytes → Bytes → Bytes → ℕ → Call W (Option Bytes)
  unfolding clock
  submit fuel batch_id bytes name wait =
      if wait == 0
      then (send_request (text "batches") bytes (text "application/octet-stream") name
          >>= λ response. lift (ok (some response)))
      else clock >>= λ start.
          send_request (text "batches") bytes (text "application/octet-stream") name >>= λ response.
          until_settled fuel batch_id wait start 0 response

  next_nonce : Call W ℕ
  next_nonce w = let (n, t) = http.rand_int w in (ok n, t)

  -- `Batches[0].HeaderSignature`
  first_id : List Batch → Outcome Bytes
  first_id [] = panic
  first_id (b ∷ bs) = ok b.header_signature

  unfoldable pub send_transaction : ℕ → Bytes → Bytes → ℕ → ℕ → Call W (Option Bytes)
  unfolding next_nonce relabelled first_id
  send_transaction fuel verb name value wait =
      lift (labelled (text "Failed to construct CBOR: ") (codec.dump_payload verb name value))
      >>= λ payload. next_nonce >>= λ nonce.
          lift (signed_transaction sha512 codec client name payload nonce) >>= λ transaction.
          lift (
            relabelled (text "Unable to construct batch list: ")
              (create_batch_list sha512 codec client (transaction ∷ [])))
          >>= λ batches. lift (first_id batches) >>= λ batch_id.
              lift (
                labelled (text "Unable to serialize batch list: ")
                  (codec.marshal_batch_list batches))
              >>= λ bytes. submit fuel batch_id bytes name wait

  -- `Set`, `Inc` and `Dec`
  unfoldable pub set : ℕ → Bytes → ℕ → ℕ → Call W (Option Bytes)
  set fuel = send_transaction fuel verb_set

  unfoldable pub inc : ℕ → Bytes → ℕ → ℕ → Call W (Option Bytes)
  inc fuel = send_transaction fuel verb_inc

  unfoldable pub dec : ℕ → Bytes → ℕ → ℕ → Call W (Option Bytes)
  dec fuel = send_transaction fuel verb_dec
