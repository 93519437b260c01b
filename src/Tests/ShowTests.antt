-- ===== src/Tests/ShowTests.antt =====
-- The intkey client's `Show` after that transaction.
use mathlib.Core.Option
use sawtooth_sdk_go.Base.{
  All, print_ℤ, base64_encode, ◌<◌, ◌⊎◌, inl, Bool-cases, ◌≡◌, refl, ap, sym, arith, false, ◌∙◌,
  ◌++◌, ℕ, Bytes, text, bytes_eq, Dict, lookup, some, [], ◌∷◌, inr, ℤ, pos,
}
use sawtooth_sdk_go.Processor.Errors.{ok}
use sawtooth_sdk_go.Intkey.Value.{IntkeyPayload}
use sawtooth_sdk_go.Intkey.Value.Accepted.{Accepts}
use sawtooth_sdk_go.Intkey.Handler.{decode_payload}
use sawtooth_sdk_go.Intkey.Handler.Updates.{address_of, value_at}
use sawtooth_sdk_go.Tests.ClientTests.{toy_client, one_payload}
use sawtooth_sdk_go.Intkey.Client.{ClientCodec}
use sawtooth_sdk_go.Intkey.Client.Requests.{Http, HttpResponse, url_of}
use sawtooth_sdk_go.Intkey.Client.Queries.{show}
use sawtooth_sdk_go.Intkey.Client.Shown.{ReadsMaps, AnswersQueries, show-apply}
use sawtooth_sdk_go.Intkey.Yaml.{Fields, str, end, field, get_field}
use sawtooth_sdk_go.Tests.Memory.{toy_digest, memory, held_in, memory-IsStore}
use sawtooth_sdk_go.Processor.Store.{data_at}
use sawtooth_sdk_go.Tests.IntkeyCodec.{
  encode_map, decode_map, decode_map-encode_map, toy_cbor, toy_cbor-IsCbor,
}
use sawtooth_sdk_go.Tests.IntkeyTests.{
  prefix, seven, carrying, twelve, after, inc_runs, toy_digest-length, seven_in_bounds,
}

print_values : Dict ℤ → Dict Bytes
print_values [] = []
print_values ((name, v) ∷ m) = (name, print_ℤ v) ∷ print_values m

lookup-print_values :
    (k : Bytes) (m : Dict ℤ) → lookup k (print_values m) ≡ Option.map print_ℤ (lookup k m)
unfolding lookup print_values
lookup-print_values k [] = refl
lookup-print_values k ((name, v) ∷ m) = elim (Bool-cases (bytes_eq name k)) [
  | inl same ↦ rw same refl
  | inr differ ↦ rw differ (lookup-print_values k m)
]

-- a client's codec for such maps, and a REST API that answers every request with the data above
abbrev query_codec : ClientCodec
query_codec = record one_payload {
  read_yaml = λ body. inr (field (text "data") (str (base64_encode twelve)) end);
  load_entries =
      λ bytes. elim bytes [ [] ↦ ok [] | b ∷ rest ↦ ok (print_values (decode_map rest)) ];
}

abbrev answering : Http (Unit {0})
answering = record {
  post = λ url content_type bytes w.
      (inr (record { status_code = 200; status = []; body = inr [] }), w);
  get = λ url w. (inr (record { status_code = 200; status = []; body = inr [] }), w);
  rand_int = λ w. (0, w);
  now = λ w. (0, w);
}

query_codec-ReadsMaps : ReadsMaps toy_cbor query_codec
query_codec-ReadsMaps = record { load_dumped = reads }
  where
    reads :
        (m : Dict ℤ) (d : Bytes)
        → toy_cbor.dump_map m ≡ inr d
        → (entries : Dict Bytes) × (query_codec.load_entries d ≡ ok entries)
          × ((k : Bytes) → lookup k entries ≡ Option.map print_ℤ (lookup k m))
    reads m [] e = absurd (cc)
    reads m (b ∷ rest) e =
        let same : encode_map m ≡ rest = cc in
        let back : decode_map rest ≡ m = ap decode_map (sym same) ∙ decode_map-encode_map m in
        (print_values (decode_map rest), refl, λ k. rw back (lookup-print_values k m))

-- what is held is the data above or nothing
held_cases : (a : Bytes) → (held_in after a ≡ twelve) ⊎ (held_in after a ≡ [])
unfolding data_at lookup
held_cases a = elim (Bool-cases (bytes_eq (address_of toy_digest toy_cbor prefix (1 ∷ [])) a)) [
  | inl same ↦ inl (rw same refl)
  | inr differ ↦ inr (rw differ refl)
]

held_bytes : (a : Bytes) → All (λ b. b < 256) (held_in after a)
held_bytes a = elim (held_cases a) [
  | inl e ↦ rw e (unfold encode_map in omega arith)
  | inr e ↦ rw e tt
]

answering-AnswersQueries :
    AnswersQueries toy_digest answering query_codec toy_client (held_in after) tt
answering-AnswersQueries = record { answers = λ a filled. go a filled (held_cases a) }
  where
    go :
        (a : Bytes)
        → bytes_eq (held_in after a) [] ≡ false
        → (held_in after a ≡ twelve) ⊎ (held_in after a ≡ [])
        → (r : HttpResponse) × (body : Bytes) × (fields : Fields) × (u : Unit {0}) × (answering.get
              (url_of toy_digest answering query_codec toy_client (text "state" ++ (text "/" ++ a)))
              tt
            ≡ (inr r, u))
          × (r.status_code ≡ 200)
          × (r.body ≡ inr body)
          × (query_codec.read_yaml body ≡ inr fields)
          × (get_field (text "data") fields ≡ some (str (base64_encode (held_in after a))))
    go a filled (inl e) = (
      record { status_code = 200; status = []; body = inr [] },
      [],
      field (text "data") (str (base64_encode twelve)) end,
      tt,
      refl,
      refl,
      refl,
      refl,
      rw e (unfold get_field bytes_eq text in refl),
    )
    go a filled (inr e) =
        absurd (let h : bytes_eq [] [] ≡ false = rw e at filled in unfold bytes_eq in cc)

show-apply_example :
    (p : IntkeyPayload) × (n : ℕ) × (v : ℕ) × (u : Unit {0}) × (decode_payload toy_cbor
        (some (8 ∷ []))
      ≡ ok p)
    × (p.value ≡ pos n)
    × Accepts p.verb n (value_at toy_digest toy_cbor prefix (held_in seven) p.name) v
    × (show toy_digest answering query_codec toy_client p.name tt ≡ (ok (print_ℤ (pos v)), u))
show-apply_example =
    show-apply toy_digest answering query_codec toy_client toy_cbor memory held_in memory-IsStore
      toy_cbor-IsCbor query_codec-ReadsMaps toy_digest-length carrying seven after seven_in_bounds
      inc_runs tt held_bytes answering-AnswersQueries
