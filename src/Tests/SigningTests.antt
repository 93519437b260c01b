-- ===== src/Tests/SigningTests.antt =====
-- A signature on a toy curve.
use sawtooth_sdk_go.Base.{◌≡◌, refl, ◌%◌, ◌==◌, ==_iff, Bytes, true, [], ◌∷◌, inr, arith, length}
use sawtooth_sdk_go.Processor.Errors.{ok}
use sawtooth_sdk_go.Signing.{Context, signer_sign, signer_get_public_key}
use sawtooth_sdk_go.Signing.Compact.{Signature, set_bytes, serialize_compact, deserialize_compact}
use sawtooth_sdk_go.Signing.Compact.RoundTrip.{deserialize-serialize_compact}
use sawtooth_sdk_go.Signing.Secp256k1.{Curve, algorithm, create_context}
use sawtooth_sdk_go.Signing.Verified.{IsKeyOf, signer_of, signer_verifies}

abbrev short_signature : Bytes → Signature
short_signature hash = record { r = 258; s = set_bytes hash % 1000 }

abbrev toy_curve : Curve (Unit {0}) Bytes
toy_curve = record {
  new_private_key = λ source. (3 ∷ [], source);
  public_of = λ bytes. bytes;
  sign_hash = λ key hash. inr (short_signature hash);
  parse_pub_key = λ bytes. inr bytes;
  verify_hash = λ sig hash key. sig.s == set_bytes hash % 1000;
}

toy_curve-IsKeyOf : IsKeyOf toy_curve (λ b. b) (3 ∷ [])
toy_curve-IsKeyOf = record {
  point = 3 ∷ [];
  parses = refl;
  signature = short_signature;
  signs = λ hash. refl;
  below_r = λ hash. omega arith;
  below_s = λ hash. omega arith;
  verifies = λ hash. (==_iff (set_bytes hash % 1000) (set_bytes hash % 1000)).1 refl;
}

signer_verifies_example :
    (context : Context (Unit {0})) × (signature : Bytes) × (create_context toy_curve
        (λ b. b)
        algorithm
      ≡ ok context)
    × (signer_sign (signer_of toy_curve (λ b. b) context (3 ∷ [])) (1 ∷ 4 ∷ []) ≡ ok signature)
    × (context.verify signature
          (1 ∷ 4 ∷ [])
          (signer_get_public_key (signer_of toy_curve (λ b. b) context (3 ∷ [])))
        ≡ ok true)
signer_verifies_example = signer_verifies toy_curve (λ b. b) (3 ∷ []) (1 ∷ 4 ∷ []) toy_curve-IsKeyOf

deserialize-serialize_compact_example :
    (b : Bytes) × (serialize_compact (record { r = 258; s = 7 }) ≡ ok b)
    × (length b ≡ 64)
    × (deserialize_compact b ≡ ok (record { r = 258; s = 7 }))
deserialize-serialize_compact_example =
    deserialize-serialize_compact (record { r = 258; s = 7 }) (omega arith) (omega arith)
