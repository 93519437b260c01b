-- ===== src/Tests/IntkeyCodec.antt =====
-- A small codec of the intkey handler's maps, which reads back what it encodes.
use sawtooth_sdk_go.Base.{
  ◌≡◌, refl, ap, sym, false, ◌∙◌, ℕ, zero, suc, Bytes, text, bytes_eq, Dict, lookup, some, none, [],
  ◌∷◌, inr, ℤ, pos, negsuc,
}
use sawtooth_sdk_go.Processor.Errors.{ok}
use sawtooth_sdk_go.Intkey.Value.{IntkeyPayload}
use sawtooth_sdk_go.Intkey.Handler.{Cbor}
use sawtooth_sdk_go.Intkey.Handler.Updates.{IsCbor}

-- a name's bytes, each one up, up to a zero
encode_name : Bytes → Bytes → Bytes
encode_name [] rest = 0 ∷ rest
encode_name (c ∷ name) rest = suc c ∷ encode_name name rest

encode_value : ℤ → Bytes → Bytes
encode_value (pos n) rest = 0 ∷ n ∷ rest
encode_value (negsuc n) rest = 1 ∷ n ∷ rest

unfoldable pub encode_map : Dict ℤ → Bytes
unfolding encode_name encode_value
encode_map [] = []
encode_map ((name, v) ∷ m) = encode_name name (encode_value v (encode_map m))

value_from : ℕ → ℕ → ℤ
value_from zero n = pos n
value_from (suc k) n = negsuc n

push_name : ℕ → Dict ℤ → Dict ℤ
push_name c [] = []
push_name c ((name, v) ∷ m) = (c ∷ name, v) ∷ m

unfoldable pub decode_map : Bytes → Dict ℤ
unfolding value_from push_name
decode_map (suc c ∷ rest) = push_name c (decode_map rest)
decode_map (zero ∷ sign ∷ n ∷ rest) = ([], value_from sign n) ∷ decode_map rest
decode_map other = []

decode_map-encode_value :
    (v : ℤ) (m : Dict ℤ)
    → decode_map (encode_map m) ≡ m
    → decode_map (0 ∷ encode_value v (encode_map m)) ≡ ([], v) ∷ m
unfolding decode_map encode_value
decode_map-encode_value (pos n) m ih = ap (◌∷◌ ([], pos n)) ih
decode_map-encode_value (negsuc n) m ih = ap (◌∷◌ ([], negsuc n)) ih

decode_map-encode_name :
    (name : Bytes) (v : ℤ) (m : Dict ℤ)
    → decode_map (encode_map m) ≡ m
    → decode_map (encode_name name (encode_value v (encode_map m))) ≡ (name, v) ∷ m
unfolding decode_map encode_name
decode_map-encode_name [] v m ih = decode_map-encode_value v m ih
decode_map-encode_name (c ∷ name) v m ih = ap (push_name c) (decode_map-encode_name name v m ih)

pub decode_map-encode_map : (m : Dict ℤ) → decode_map (encode_map m) ≡ m
unfolding encode_map decode_map
decode_map-encode_map [] = refl
decode_map-encode_map ((name, v) ∷ m) = decode_map-encode_name name v m (decode_map-encode_map m)

abbrev pub inc_by_5 : IntkeyPayload
inc_by_5 = record { verb = text "inc"; name = 1 ∷ []; value = pos 5 }

abbrev pub toy_cbor : Cbor
toy_cbor = record {
  load_payload = λ bytes. (inc_by_5, ok tt);
  load_map =
      λ bytes. elim bytes [ [] ↦ (none, ok tt) | b ∷ rest ↦ (some (decode_map rest), ok tt) ];
  dump_map = λ m. inr (9 ∷ encode_map m);
}

pub toy_cbor-IsCbor : IsCbor toy_cbor
toy_cbor-IsCbor = record { dump_reads = reads; dump_some = filled }
  where
    reads :
        (m : Dict ℤ) (d : Bytes)
        → toy_cbor.dump_map m ≡ inr d
        → (r : Dict ℤ) × (toy_cbor.load_map d ≡ (some r, ok tt))
          × ((k : Bytes) → lookup k r ≡ lookup k m)
    reads m [] e = absurd (cc)
    reads m (b ∷ rest) e =
        let same : encode_map m ≡ rest = cc in
        (
          decode_map rest,
          refl,
          λ k. ap (lookup k) (ap decode_map (sym same) ∙ decode_map-encode_map m),
        )

    filled : (m : Dict ℤ) (d : Bytes) → toy_cbor.dump_map m ≡ inr d → bytes_eq d [] ≡ false
    filled m [] e = absurd (cc)
    filled m (b ∷ rest) e = unfold bytes_eq in refl
