-- ===== src/Tests/IntkeyTests.antt =====
-- The intkey handler on a stored value: a transaction that adds 5 to 7.
use sawtooth_sdk_go.Base.{
  ◌≡◌, refl, ap, arith, false, hexdigest, keys, take, replicate, Bool, true, add_int, ◌≤◌, ◌++◌,
  if◌then◌else◌, length, ℕ, zero, suc, Bytes, text, bytes_eq, Dict, lookup, insert, some, none, [],
  ◌∷◌, pos,
}
use sawtooth_sdk_go.Processor.Errors.{ok}
use sawtooth_sdk_go.Processor.Request.{TpProcessRequest}
use sawtooth_sdk_go.Intkey.Value.{IntkeyPayload, in_bounds, check_payload, new_value}
use sawtooth_sdk_go.Intkey.Value.Accepted.{Accepts, InBounds, adds}
use sawtooth_sdk_go.Intkey.Handler.{
  update, last_64, put_value, encoded, written, apply, decode_cbor, decode_payload, collision_map,
  stored_in,
}
use sawtooth_sdk_go.Intkey.Handler.Updates.{address_of, value_at, Puts, Encoded}
use sawtooth_sdk_go.Intkey.Handler.Effects.{AllInBounds, apply-Puts, apply-AllInBounds}
use sawtooth_sdk_go.Intkey.Handler.Accepting.{apply_succeeds}
use sawtooth_sdk_go.Intkey.Client.{get_prefix}
use sawtooth_sdk_go.Tests.Memory.{
  toy_digest, memory, held_in, read_all, write_all, memory-IsStore, memory-Serves,
}
use sawtooth_sdk_go.Processor.Store.{data_at}
use sawtooth_sdk_go.Tests.IntkeyCodec.{encode_map, decode_map, toy_cbor, toy_cbor-IsCbor}

abbrev pub prefix : Bytes
prefix = get_prefix toy_digest

-- the name 1 has the value 7
abbrev pub seven : Dict Bytes
seven = (address_of toy_digest toy_cbor prefix (1 ∷ []), 9 ∷ encode_map ((1 ∷ [], pos 7) ∷ [])) ∷ []

abbrev pub carrying : TpProcessRequest
carrying = record {
  header = record { family_name = []; family_version = []; signer_public_key = [] };
  payload = some (8 ∷ []);
  signature = [];
  context_id = [];
}

adds_5 : Accepts (text "inc") 5 (some (pos 7)) 12
adds_5 = adds 7 refl refl refl

abbrev pub twelve : Bytes
twelve = 9 ∷ encode_map ((1 ∷ [], pos 12) ∷ [])

apply_succeeds_example :
    (t : Dict Bytes) × (apply toy_digest toy_cbor memory prefix carrying seven ≡ (ok tt, t))
unfolding decode_payload collision_map lookup data_at bytes_eq stored_in encode_map decode_map
    insert hexdigest get_prefix decode_cbor text
apply_succeeds_example =
    apply_succeeds toy_digest toy_cbor prefix memory held_in memory-IsStore memory-Serves carrying
      (text "inc") (1 ∷ []) 5 12 ((1 ∷ [], pos 7) ∷ []) twelve seven refl refl (omega arith)
      (omega arith) (omega arith) refl (omega arith) adds_5 refl

-- the name 1 has the value 12
abbrev pub after : Dict Bytes
after = (address_of toy_digest toy_cbor prefix (1 ∷ []), twelve) ∷ []

pub inc_runs : apply toy_digest toy_cbor memory prefix carrying seven ≡ (ok tt, after)
unfolding apply decode_payload collision_map lookup data_at bytes_eq stored_in encode_map decode_map
    insert hexdigest get_prefix decode_cbor check_payload update last_64 new_value put_value encoded
    written read_all write_all keys text in_bounds add_int
inc_runs = refl

length-take_padded : (n m : ℕ) (s : Bytes) → n ≤ m → length (take n (s ++ replicate m 0)) ≡ n
length-take_padded zero m s h = refl
length-take_padded (suc n) m (c ∷ s) h = ap suc (length-take_padded n m s (omega arith))
length-take_padded (suc n) (suc m) [] h = ap suc (length-take_padded n m [] (omega arith))
length-take_padded (suc n) zero [] h = absurd (omega arith)

pub toy_digest-length : (name : Bytes) → length (toy_digest name) ≡ 64
toy_digest-length name = length-take_padded 64 64 name (omega arith)

one_value : (k : Bytes) (b : Bool) → InBounds (if b then some (pos 7) else none)
one_value k true = omega arith
one_value k false = tt

pub seven_in_bounds : AllInBounds toy_digest toy_cbor prefix (held_in seven)
unfolding value_at data_at lookup
seven_in_bounds k =
    go
      (bytes_eq (address_of toy_digest toy_cbor prefix (1 ∷ []))
        (address_of toy_digest toy_cbor prefix k))
      refl
  where
    go :
        (b : Bool)
        → bytes_eq
            (address_of toy_digest toy_cbor prefix (1 ∷ []))
            (address_of toy_digest toy_cbor prefix k)
          ≡ b
        → InBounds (value_at toy_digest toy_cbor prefix (held_in seven) k)
    go true e = rw e (
        unfold collision_map bytes_eq encode_map decode_map decode_cbor stored_in lookup in
        one_value k _)
    go false e = rw e (unfold collision_map bytes_eq stored_in lookup in tt)

abbrev PlusFive : Dict Bytes → Dict Bytes → Type 0
PlusFive s t =
    (p : IntkeyPayload) × (n : ℕ) × (v : ℕ) × (decode_payload toy_cbor (some (8 ∷ [])) ≡ ok p)
    × (p.value ≡ pos n)
    × (v ≤ 4294967295)
    × Accepts p.verb n (value_at toy_digest toy_cbor prefix (held_in s) p.name) v
    × Puts toy_digest toy_cbor prefix p.name (pos v) (held_in s) (held_in t)
    × Encoded toy_digest toy_cbor prefix p.name (pos v) (held_in t)

apply-Puts_example : PlusFive seven after
apply-Puts_example =
    apply-Puts toy_digest toy_cbor prefix memory held_in memory-IsStore toy_cbor-IsCbor
      toy_digest-length carrying seven after seven_in_bounds inc_runs

apply-AllInBounds_test : AllInBounds toy_digest toy_cbor prefix (held_in after)
apply-AllInBounds_test =
    apply-AllInBounds toy_digest toy_cbor prefix memory held_in memory-IsStore toy_cbor-IsCbor
      toy_digest-length carrying seven after seven_in_bounds inc_runs
