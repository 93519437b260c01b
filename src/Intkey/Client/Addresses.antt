-- ===== src/Intkey/Client/Addresses.antt =====
-- The addresses in a client's transaction are the ones that the handler uses.
use mathlib.Core.Path.{fun_ext}
use sawtooth_sdk_go.Base.{
  ◌≡◌, refl, ap, sym, ◌∙◌, ℕ, Bytes, text, bytes_eq, bytes_eq_refl, length, Dict, keys, List, [],
  ◌∷◌, ◌⊎◌, inl, inr, some, pos, Bool, true, ◌&&◌, ◌||◌, if◌then◌else◌, false,
}
use sawtooth_sdk_go.Processor.Errors.{
  Error, authorization_exception, Outcome, ok, err, panic, ok-injective, Call, lift, ◌>>=◌, ◌>>◌,
}
use sawtooth_sdk_go.Processor.Request.{TpProcessRequest}
use sawtooth_sdk_go.Processor.Store.{Context, data_at}
use sawtooth_sdk_go.Intkey.Value.{IntkeyPayload, check_payload, new_value}
use sawtooth_sdk_go.Intkey.Handler.{
  Cbor, collision_map, stored_in, put_value, encoded, written, update, apply, decode_payload,
  decode_cbor,
}
use sawtooth_sdk_go.Intkey.Handler.Updates.{last_64-hexdigest}
use sawtooth_sdk_go.Signing.{signer_sign}
use sawtooth_sdk_go.Intkey.Client.{
  get_prefix, get_address, ClientCodec, IntkeyClient, TransactionHeader, Transaction,
  transaction_header, labelled, hex_of, and_then, signed_transaction,
}

abbrev pub listed : Bytes → List Bytes → Bool
listed a [] = false
listed a (x ∷ xs) = bytes_eq a x || listed a xs

abbrev pub all_listed : List Bytes → List Bytes → Bool
all_listed [] allowed = true
all_listed (a ∷ rest) allowed = listed a allowed && all_listed rest allowed

-- What a validator makes of a transaction's header: a read of an address that is not an input, and
-- a write of one that is not an output, is an authorization error.
abbrev pub restricted : {S : Type 0} → TransactionHeader → Context S → Context S
restricted h ctx = record {
  get_state = λ addresses s.
      if all_listed addresses h.inputs
      then ctx.get_state addresses s
      else (err (authorization_exception [] []), s);
  set_state = λ pairs s.
      if all_listed (keys pairs) h.outputs
      then ctx.set_state pairs s
      else (err (authorization_exception [] []), s);
  delete_state = λ addresses s.
      if all_listed addresses h.outputs
      then ctx.delete_state addresses s
      else (err (authorization_exception [] []), s);
}

module _ {S : Type 0} (cbor : Cbor) where
  -- `update` behind the address, on the read and the write of that address
  update_at :
      IntkeyPayload
      → Bytes
      → Call S (Dict Bytes)
      → (Bytes → Call S (List Bytes))
      → Call S (Unit {0})
  update_at p a get set = get >>= λ results. lift (collision_map cbor (data_at a results)) >>= λ m.
      lift (new_value p.verb p.value (stored_in p.name m)) >>= λ v.
      lift (put_value p.name v m) >>= λ m'. lift (encoded (cbor.dump_map m')) >>= λ bytes.
      set bytes >>= λ addresses. lift (written addresses)

module _ {S : Type 0} (sha512 : Bytes → Bytes) (cbor : Cbor) (ctx : Context S) where
  update-at :
      (p : IntkeyPayload)
      → length (sha512 p.name) ≡ 64
      → update sha512 cbor ctx (get_prefix sha512) p
        ≡ update_at cbor p
            (get_address sha512 p.name)
            (ctx.get_state (get_address sha512 p.name ∷ []))
            (λ bytes. ctx.set_state ((get_address sha512 p.name, bytes) ∷ []))
  unfolding update update_at get_address
  update-at p long = rw (last_64-hexdigest sha512 p.name long) refl

module _ {S : Type 0} (sha512 : Bytes → Bytes) (cbor : Cbor) (ctx : Context S) (codec : ClientCodec)
    (client : IntkeyClient) where
  update-restricted :
      (p : IntkeyPayload) (payload : Bytes) (nonce : ℕ)
      → length (sha512 p.name) ≡ 64
      → update sha512 cbor
          (restricted (transaction_header sha512 codec client p.name payload nonce) ctx)
          (get_prefix sha512)
          p
        ≡ update sha512 cbor ctx (get_prefix sha512) p
  unfolding transaction_header keys
  update-restricted p payload nonce long =
      let h = transaction_header sha512 codec client p.name payload nonce in
      let a = get_address sha512 p.name in
      let gets : (restricted h ctx).get_state (a ∷ []) ≡ ctx.get_state (a ∷ []) =
        fun_ext (λ s. rw bytes_eq_refl refl) in
      let sets : ◌≡◌ {A = Bytes → Call S (List Bytes)}
          (λ bytes. (restricted h ctx).set_state ((a, bytes) ∷ []))
          (λ bytes. ctx.set_state ((a, bytes) ∷ [])) =
        fun_ext (λ bytes. fun_ext (λ s. rw bytes_eq_refl refl)) in
      update-at sha512 cbor (restricted h ctx) p long
      ∙ (λ i. update_at cbor p a (gets i) (sets i))
      ∙ sym (update-at sha512 cbor ctx p long)

  and_then-ok :
      {A B : Type 0} (r : Outcome A) (f : A → Outcome B) {b : B}
      → and_then r f ≡ ok b
      → (a : A) × (r ≡ ok a) × (f a ≡ ok b)
  unfolding and_then
  and_then-ok (ok a) f h = (a, refl, h)
  and_then-ok (err e) f h = absurd (cc)
  and_then-ok panic f h = absurd (cc)

  signed_transaction-ok :
      (name payload : Bytes) (nonce : ℕ) (t : Transaction)
      → signed_transaction sha512 codec client name payload nonce ≡ ok t
      → (codec.marshal_header (transaction_header sha512 codec client name payload nonce)
          ≡ inr t.header)
        × (t.payload ≡ payload)
  unfolding signed_transaction and_then hex_of
  signed_transaction-ok name payload nonce t h =
      go (codec.marshal_header (transaction_header sha512 codec client name payload nonce)) refl h
    where
      go :
          (m : Error ⊎ Bytes)
          → codec.marshal_header (transaction_header sha512 codec client name payload nonce) ≡ m
          → and_then (labelled (text "Unable to serialize transaction header: ") m) (λ header.
            and_then (hex_of (signer_sign client.signer header)) (λ signature.
              ok (record { header = header; header_signature = signature; payload = payload })))
            ≡ ok t
          → (codec.marshal_header (transaction_header sha512 codec client name payload nonce)
              ≡ inr t.header)
            × (t.payload ≡ payload)
      go (inl e) is k = absurd (cc)
      go (inr header) is k =
          let (signature, signed, ends) =
            and_then-ok (hex_of (signer_sign client.signer header))
              (λ signature.
                ok (record { header = header; header_signature = signature; payload = payload }))
              k in
          let same = ok-injective ends in
          (is ∙ ap (λ x. inr (Transaction.header x)) same, ap Transaction.payload (sym same))

  -- A client's transaction does what it says, and lists every address that it needs: with a digest
  -- of 64 bytes and a codec that reads back the payload, on a validator that refuses the addresses
  -- that the transaction's header does not list, `Apply` of a handler of the client's namespace
  -- checks the payload that the client was given and updates the state as it does without such
  -- restrictions.
  pub apply-signed_transaction :
      (verb name payload : Bytes) (value nonce : ℕ) (t : Transaction) (request : TpProcessRequest)
      → length (sha512 name) ≡ 64
      → codec.dump_payload verb name value ≡ inr payload
      → ((bytes : Bytes)
          → codec.dump_payload verb name value ≡ inr bytes
          → cbor.load_payload bytes
            ≡ (record { verb = verb; name = name; value = pos value }, ok tt))
      → signed_transaction sha512 codec client name payload nonce ≡ ok t
      → request.payload ≡ some t.payload
      → (codec.marshal_header (transaction_header sha512 codec client name payload nonce)
          ≡ inr t.header)
        × (apply sha512 cbor
              (restricted (transaction_header sha512 codec client name payload nonce) ctx)
              (get_prefix sha512)
              request
            ≡ (lift (check_payload (record { verb = verb; name = name; value = pos value }))
                >> update sha512 cbor ctx
                    (get_prefix sha512)
                    (record { verb = verb; name = name; value = pos value })))
  unfolding apply decode_payload decode_cbor
  apply-signed_transaction verb name payload value nonce t request long dumps loads signs carries =
      let p : IntkeyPayload = record { verb = verb; name = name; value = pos value } in
      let (marshals, same) = signed_transaction-ok name payload nonce t signs in
      (
        marshals,
        rw (carries, same, loads payload dumps)
            (ap (λ u. lift (check_payload p) >> u) (update-restricted p payload nonce long)),
      )
