-- ===== src/Intkey/Handler.antt =====
-- handler/handler.go of intkey_go: `Apply`. CBOR and SHA-512 are parameters.
pub mod Updates
pub mod Effects
pub mod Accepting
pub mod Refused
pub mod Served
use sawtooth_sdk_go.Base.{
  ◌-◌, Bytes, text, bytes_eq, length, ltb, drop, hexdigest, Dict, lookup, insert, Option, none,
  some, List, [], ◌∷◌, ◌++◌, ◌⊎◌, inl, inr, ℤ, if◌then◌else◌,
}
use sawtooth_sdk_go.Processor.Errors.{
  Error, error_text, Outcome, ok, err, panic, Call, invalid, internal, lift, ◌>>=◌, ◌>>◌,
}
use sawtooth_sdk_go.Processor.Request.{TpProcessRequest}
use sawtooth_sdk_go.Processor.Store.{Context, data_at}
use sawtooth_sdk_go.Processor.Worker.{TransactionHandler}
use sawtooth_sdk_go.Intkey.Value.{IntkeyPayload, check_payload, new_value}

-- The package cbor: `Loads` gives what it wrote to the pointer, and how it ended; a map may be nil.
pub record Cbor : Type 0 where
  pub load_payload : Bytes → IntkeyPayload × Outcome (Unit {0})
  pub load_map : Bytes → Option (Dict ℤ) × Outcome (Unit {0})
  pub dump_map : Dict ℤ → Error ⊎ Bytes

abbrev pub family_name : Bytes
family_name = text "intkey"

abbrev pub family_versions : List Bytes
family_versions = text "1.0" ∷ []

-- `DecodeCBOR`: what its deferred function returns is dropped, so a panic of `Loads` is no error.
unfoldable pub decode_cbor : {A : Type 0} → A × Outcome (Unit {0}) → Error ⊎ A
decode_cbor (a, ok u) = inr a
decode_cbor (a, err e) = inl e
decode_cbor (a, panic) = inr a

unfoldable pub encoded : Error ⊎ Bytes → Outcome Bytes
encoded (inl e) = err (internal (text "Failed to encode new map:" ++ error_text e))
encoded (inr bytes) = ok bytes

-- `s[len(s)-64:]`
unfoldable pub last_64 : Bytes → Outcome Bytes
last_64 s = if ltb (length s) 64 then panic else ok (drop (length s - 64) s)

-- `m[name]`, also of a nil map; and `m[name] = v`, which panics at a nil map
unfoldable pub stored_in : Bytes → Option (Dict ℤ) → Option ℤ
stored_in name none = none
stored_in name (some m) = lookup name m

unfoldable pub put_value : Bytes → ℤ → Option (Dict ℤ) → Outcome (Dict ℤ)
put_value name v none = panic
put_value name v (some m) = ok (insert name v m)

module _ (cbor : Cbor) where
  payload_result : Error ⊎ IntkeyPayload → Outcome IntkeyPayload
  payload_result (inl e) = err (invalid (text "Failed to decode payload: " ++ error_text e))
  payload_result (inr p) = ok p

  unfoldable pub decode_payload : Option Bytes → Outcome IntkeyPayload
  unfolding payload_result
  decode_payload none = err (invalid (text "Must contain payload"))
  decode_payload (some bytes) = payload_result (decode_cbor (cbor.load_payload bytes))

  map_result : Error ⊎ Option (Dict ℤ) → Outcome (Option (Dict ℤ))
  map_result (inl e) = err (internal (text "Failed to decode data: " ++ error_text e))
  map_result (inr m) = ok m

  -- the map at an address: a new one if there is no data
  unfoldable pub collision_map : Bytes → Outcome (Option (Dict ℤ))
  unfolding map_result
  collision_map bytes =
      if bytes_eq bytes [] then ok (some []) else map_result (decode_cbor (cbor.load_map bytes))

unfoldable pub written : List Bytes → Outcome (Unit {0})
written [] = err (internal (text "No addresses in set response"))
written (a ∷ rest) = ok tt

module _ {S : Type 0} (sha512 : Bytes → Bytes) (cbor : Cbor) (ctx : Context S)
    (namespace : Bytes) where
  -- the state that a verb reads, changes and writes
  unfoldable pub update : IntkeyPayload → Call S (Unit {0})
  update p = lift (last_64 (hexdigest sha512 p.name)) >>= λ hashed.
      ctx.get_state ((namespace ++ hashed) ∷ []) >>= λ results.
      lift (collision_map cbor (data_at (namespace ++ hashed) results)) >>= λ m.
      lift (new_value p.verb p.value (stored_in p.name m)) >>= λ v.
      lift (put_value p.name v m) >>= λ m'. lift (encoded (cbor.dump_map m')) >>= λ bytes.
      ctx.set_state ((namespace ++ hashed, bytes) ∷ []) >>= λ addresses. lift (written addresses)

  unfoldable pub apply : TpProcessRequest → Call S (Unit {0})
  apply request =
      lift (decode_payload cbor request.payload) >>= λ p. lift (check_payload p) >> update p

-- `NewIntkeyHandler`, and the methods of the handler that it makes
unfoldable pub new_intkey_handler :
    {W : Type 0} → (Bytes → Bytes) → Cbor → Bytes → TransactionHandler W
new_intkey_handler sha512 cbor namespace = record {
  family_name = family_name;
  family_versions = family_versions;
  namespaces = namespace ∷ [];
  apply = λ request ctx. apply sha512 cbor ctx namespace request;
}
