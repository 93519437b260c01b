-- ===== src/Intkey/Handler/Refused.antt =====
-- An intkey transaction that ends with an error changes nothing.
use sawtooth_sdk_go.Processor.Errors.{Error, err}
use sawtooth_sdk_go.Base.{◌≡◌, refl, Bytes, hexdigest, [], ◌∷◌, ◌++◌}
use sawtooth_sdk_go.Processor.Request.{TpProcessRequest}
use sawtooth_sdk_go.Processor.Store.{Context, data_at}
use sawtooth_sdk_go.Processor.Store.Clean.{
  FailsCleanly, IsClean, >>=-IsClean, then-IsClean, get_state-Keeps, set_one-IsClean,
}
use sawtooth_sdk_go.Intkey.Value.{IntkeyPayload, check_payload, new_value}
use sawtooth_sdk_go.Intkey.Handler.{
  Cbor, collision_map, stored_in, put_value, encoded, last_64, written, update, apply,
  decode_payload,
}

module _ {S : Type 0} (sha512 : Bytes → Bytes) (cbor : Cbor) (namespace : Bytes) (ctx : Context S)
    (held : S → Bytes → Bytes) (clean : FailsCleanly ctx held) where
  update-IsClean : (p : IntkeyPayload) → IsClean held (update sha512 cbor ctx namespace p)
  unfolding update
  update-IsClean p = then-IsClean held (last_64 (hexdigest sha512 p.name)) _ λ hashed.
      >>=-IsClean held (ctx.get_state ((namespace ++ hashed) ∷ [])) _
        (get_state-Keeps ctx held clean _)
        λ results.
          then-IsClean held (collision_map cbor (data_at (namespace ++ hashed) results)) _ λ m.
            then-IsClean held (new_value p.verb p.value (stored_in p.name m)) _ λ v.
              then-IsClean held (put_value p.name v m) _ λ m'.
                then-IsClean held (encoded (cbor.dump_map m')) _ λ bytes.
                  set_one-IsClean ctx held clean written (λ x xs. unfold written in refl)
                    (namespace ++ hashed) bytes

  apply-IsClean :
      (request : TpProcessRequest) → IsClean held (apply sha512 cbor ctx namespace request)
  unfolding apply
  apply-IsClean request =
      then-IsClean held (decode_payload cbor request.payload) _
        λ p. then-IsClean held (check_payload p) _ λ u. update-IsClean p

  -- A transaction of the intkey family that ends with an error changes nothing of what is held, on
  -- a context on which no get changes what is held, a set or a delete that fails changes nothing,
  -- and a set of one address that succeeds lists an address.
  pub intkey_refused :
      (request : TpProcessRequest) (s t : S) (e : Error) (address : Bytes)
      → apply sha512 cbor ctx namespace request s ≡ (err e, t)
      → held t address ≡ held s address
  intkey_refused request s t e address refused =
      (apply-IsClean request).refused_keeps s address e t refused
