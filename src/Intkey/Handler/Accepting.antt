-- ===== src/Intkey/Handler/Accepting.antt =====
-- When `Apply` of the intkey family succeeds.
use sawtooth_sdk_go.Base.{
  ◌≡◌, refl, ap, ◌∙◌, ℕ, ◌≤◌, Bytes, length, insert, Dict, some, inr, ℤ, pos,
}
use sawtooth_sdk_go.Processor.Errors.{ok}
use sawtooth_sdk_go.Processor.Request.{TpProcessRequest}
use sawtooth_sdk_go.Processor.Store.{Context, IsStore, Serves, data_at}
use sawtooth_sdk_go.Intkey.Value.{IntkeyPayload, new_value}
use sawtooth_sdk_go.Intkey.Value.Accepted.{
  Accepts, InBounds, Accepts-check_payload, Accepts-new_value,
}
use sawtooth_sdk_go.Intkey.Handler.{
  Cbor, collision_map, stored_in, put_value, encoded, written, update, apply, decode_payload,
}
use sawtooth_sdk_go.Intkey.Handler.Updates.{last_64-hexdigest, address_of, put_at, change_at}

module _ {S : Type 0} (sha512 : Bytes → Bytes) (cbor : Cbor) (namespace : Bytes) (ctx : Context S)
    (held : S → Bytes → Bytes) (store : IsStore ctx held) (serves : Serves ctx) where
  put_at-succeeds :
      (a d : Bytes) (s : S) → (t : S) × (put_at sha512 cbor namespace ctx a d s ≡ (ok tt, t))
  unfolding written
  put_at-succeeds a d s = let (x, xs, t, set) = serves.set_serves a d s in (t, rw set refl)

  change_at-succeeds :
      (a : Bytes) (p : IntkeyPayload) (m : Dict ℤ) (w : ℤ) (d : Bytes) (s : S)
      → new_value p.verb p.value (stored_in p.name (some m)) ≡ ok w
      → cbor.dump_map (insert p.name w m) ≡ inr d
      → (t : S) × (change_at sha512 cbor namespace ctx a p (some m) s ≡ (ok tt, t))
  unfolding put_value encoded
  change_at-succeeds a p m w d s new dumps =
      let (t, puts) = put_at-succeeds a d s in (t, rw (new, dumps) puts)

  update-succeeds :
      (p : IntkeyPayload) (m : Dict ℤ) (w : ℤ) (d : Bytes) (s : S)
      → length (sha512 p.name) ≡ 64
      → collision_map cbor (held s (address_of sha512 cbor namespace p.name)) ≡ ok (some m)
      → new_value p.verb p.value (stored_in p.name (some m)) ≡ ok w
      → cbor.dump_map (insert p.name w m) ≡ inr d
      → (t : S) × (update sha512 cbor ctx namespace p s ≡ (ok tt, t))
  unfolding update
  update-succeeds p m w d s long holds new dumps =
      let a = address_of sha512 cbor namespace p.name in
      let (results, u, got) = serves.get_serves a s in
      let (t, changes) = change_at-succeeds a p m w d u new dumps in
      let decodes : collision_map cbor (data_at a results) ≡ ok (some m) =
        ap (collision_map cbor) (store.get_reads a s got) ∙ holds in
      (t, rw (last_64-hexdigest sha512 p.name long, got, decodes) changes)

  -- A transaction of the intkey family whose verb and number are accepted succeeds, on a context
  -- that implements the store and whose calls do not fail, with a digest of 64 bytes: if the
  -- payload decodes, its name has at most 20 bytes, its number and the value that the verb gives
  -- are at most 4294967295, the map at the address decodes with a value at the name, if any, that
  -- lies within these bounds, and the new map encodes.
  pub apply_succeeds :
      (request : TpProcessRequest) (verb name : Bytes) (n v : ℕ) (m : Dict ℤ) (d : Bytes) (s : S)
      → length (sha512 name) ≡ 64
      → decode_payload cbor request.payload
        ≡ ok (record { verb = verb; name = name; value = pos n })
      → length name ≤ 20
      → n ≤ 4294967295
      → v ≤ 4294967295
      → collision_map cbor (held s (address_of sha512 cbor namespace name)) ≡ ok (some m)
      → InBounds (stored_in name (some m))
      → Accepts verb n (stored_in name (some m)) v
      → cbor.dump_map (insert name (pos v) m) ≡ inr d
      → (t : S) × (apply sha512 cbor ctx namespace request s ≡ (ok tt, t))
  unfolding apply
  apply_succeeds request verb name n v m d s long decodes short small bound holds b accepts dumps =
      let p : IntkeyPayload = record { verb = verb; name = name; value = pos n } in
      let stored = stored_in name (some m) in
      let passes = Accepts-check_payload verb name n stored v short small accepts in
      let new = Accepts-new_value verb n stored v small bound b accepts in
      let (t, updates) = update-succeeds p m (pos v) d s long holds new dumps in
      (t, rw (decodes, passes) updates)
