-- ===== src/Intkey/Handler/Effects.antt =====
-- What `Apply` of the intkey family does to the values that the validator holds.
use sawtooth_sdk_go.Base.{
  ◌≡◌, ◌≤◌, ℕ, Bytes, bytes_eq, length, Option, some, ℤ, pos, Bool, true, false, if◌then◌else◌,
}
use sawtooth_sdk_go.Processor.Errors.{ok, lift, lift-ok, ◌>>◌}
use sawtooth_sdk_go.Processor.Request.{TpProcessRequest}
use sawtooth_sdk_go.Processor.Store.{Context, IsStore}
use sawtooth_sdk_go.Intkey.Value.{IntkeyPayload, check_payload}
use sawtooth_sdk_go.Intkey.Value.Accepted.{Accepts, InBounds, check_payload-ok, new_value-Accepts}
use sawtooth_sdk_go.Intkey.Handler.{Cbor, update, apply, decode_payload}
use sawtooth_sdk_go.Intkey.Handler.Updates.{IsCbor, value_at, Puts, Encoded, update-Puts}

module _ (sha512 : Bytes → Bytes) (cbor : Cbor) (namespace : Bytes) where
  -- Every name that has a value has one from 0 to 4294967295.
  abbrev pub AllInBounds : (Bytes → Bytes) → Type 0
  AllInBounds data_of = (k : Bytes) → InBounds (value_at sha512 cbor namespace data_of k)

module _ {S : Type 0} (sha512 : Bytes → Bytes) (cbor : Cbor) (namespace : Bytes) (ctx : Context S)
    (held : S → Bytes → Bytes) (store : IsStore ctx held) where
  InBounds-if :
      (b : Bool) (v : ℕ) (old : Option ℤ)
      → v ≤ 4294967295
      → InBounds old
      → InBounds (if b then some (pos v) else old)
  InBounds-if true v old small was = small
  InBounds-if false v old small was = was

  module _ (codes : IsCbor cbor) (long : (name : Bytes) → length (sha512 name) ≡ 64)
      (request : TpProcessRequest) (s t : S) (before : AllInBounds sha512 cbor namespace (held s))
      (done : apply sha512 cbor ctx namespace request s ≡ (ok tt, t)) where
    -- A transaction of the intkey family that succeeds does what its payload says, in a state
    -- whose values are all from 0 to 4294967295, on a context that implements the store, with a
    -- codec that reads back the maps it encodes and a digest of 64 bytes: the payload's verb
    -- and number are accepted on the value at its name, that is, `set` where there is none, and
    -- `inc` and `dec` where there is one; the name gets the number, the sum or the exact
    -- difference, which is at most 4294967295, in a map that the data at its address encodes; and
    -- every other name keeps its value, also one that shares the address.
    pub apply-Puts :
        (p : IntkeyPayload) × (n : ℕ) × (v : ℕ) × (decode_payload cbor request.payload ≡ ok p)
        × (p.value ≡ pos n)
        × (v ≤ 4294967295)
        × Accepts p.verb n (value_at sha512 cbor namespace (held s) p.name) v
        × Puts sha512 cbor namespace p.name (pos v) (held s) (held t)
        × Encoded sha512 cbor namespace p.name (pos v) (held t)
    unfolding apply
    apply-Puts =
        let (p, decoded, rest) =
          lift-ok (decode_payload cbor request.payload)
            (λ p. lift (check_payload p) >> update sha512 cbor ctx namespace p) s done in
        let (u, checked, updates) =
          lift-ok (check_payload p) (λ _. update sha512 cbor ctx namespace p) s rest in
        let (verb, (n, number, small)) = check_payload-ok p.verb p.name p.value checked in
        let (w, new, puts, encoded) =
          update-Puts sha512 cbor namespace ctx held store codes p s t (long p.name) updates in
        let (v, is, bound, accepts) =
          new_value-Accepts p.verb n (value_at sha512 cbor namespace (held s) p.name) w verb small
            (before p.name) (rw number at new) in
        (p, n, v, decoded, number, bound, accepts, λ k. rw (← is) (puts k), rw (← is) encoded)

    -- A transaction of the intkey family that succeeds in a state whose values are all from 0 to
    -- 4294967295 leaves a state whose values are all from 0 to 4294967295, on a context that
    -- implements the store, with a codec that reads back the maps it encodes and a digest of 64
    -- bytes.
    pub apply-AllInBounds : AllInBounds sha512 cbor namespace (held t)
    apply-AllInBounds k =
        let (p, n, v, decoded, number, bound, accepts, puts, encoded) = apply-Puts in
        rw (puts k) (
          InBounds-if (bytes_eq p.name k) v (value_at sha512 cbor namespace (held s) k) bound
            (before k))
